-- ===== src/Conntrack/Flows.antt =====
-- The table of tracked flows, `insert_flow` and `remove_flow` of bandix-plus/src/conntrack.rs. The
-- two functions read only the id of a flow and compare keys, so flows and keys are any types.
pub mod Table
use bandix_plus_lite.Base.{
  ℕ, List, [], ◌∷◌, Option, some, none, Bool, true, false, not, ◌&&◌, leb, if◌then◌else◌, length,
}
use bandix_plus_lite.Base.Map.{Eq, nat_eq, get, insert, remove}

abbrev pub max_tracked_flows : ℕ
max_tracked_flows = 100000

-- The fields of `ConntrackState` that the two functions change.
pub record ConntrackState (K F : Type 0) : Type 0 where
  pub flows : List (K × F)
  pub flow_ids : List (ℕ × K)

pub record ParsedFlow (K F : Type 0) : Type 0 where
  pub key : K
  pub id : Option ℕ
  pub flow : F

abbrev pub contains : {F : Type 0} → Option F → Bool
contains none = false
contains (some f) = true

module _ {K F : Type 0} ⦃e : Eq K⦄ where
  -- `if let Some(old_key) = .. { state.flows.remove(&old_key); }`
  abbrev pub remove_old : Option K → List (K × F) → List (K × F)
  remove_old none flows = flows
  remove_old (some old_key) flows = remove old_key flows

  -- The first part of `insert_flow`: the id now names this key, and the flow that it named is gone.
  unfoldable pub claim_id : Option ℕ → K → ConntrackState K F → ConntrackState K F
  claim_id none key s = s
  claim_id (some id) key s = record {
    flows = remove_old (get id s.flow_ids) s.flows;
    flow_ids = insert id key s.flow_ids;
  }

  -- The second part: a table that is full takes no further key.
  unfoldable pub store_flow : K → F → ConntrackState K F → ConntrackState K F
  store_flow key flow s =
      if leb max_tracked_flows (length s.flows) && not (contains (get key s.flows))
      then s
      else record s { flows = insert key flow s.flows }

  unfoldable pub insert_flow : ConntrackState K F → ParsedFlow K F → ConntrackState K F
  unfolding claim_id store_flow
  insert_flow s parsed = store_flow parsed.key parsed.flow (claim_id parsed.id parsed.key s)

  -- What `state.flow_ids.remove(&id)` finds decides which flow is removed.
  unfoldable pub remove_found : ℕ → K → Option K → ConntrackState K F → ConntrackState K F
  remove_found id parsed_key none s = record s { flows = remove parsed_key s.flows }
  remove_found id parsed_key (some key) s = record {
    flows = remove key s.flows;
    flow_ids = remove id s.flow_ids;
  }

  unfoldable pub remove_by_id : Option ℕ → K → ConntrackState K F → ConntrackState K F
  unfolding remove_found
  remove_by_id none key s = record s { flows = remove key s.flows }
  remove_by_id (some id) key s = remove_found id key (get id s.flow_ids) s

  unfoldable pub remove_flow : ConntrackState K F → ParsedFlow K F → ConntrackState K F
  unfolding remove_by_id
  remove_flow s parsed = remove_by_id parsed.id parsed.key s
