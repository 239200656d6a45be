-- ===== src/Conntrack/Flows/Table.antt =====
-- The size of the flow table, and what a removal leaves (bandix-plus/src/conntrack.rs).
use bandix_plus_lite.Base.{
  ℕ, suc, ◌≤◌, ◌≡◌, inl, inr, sym, ap, ◌∙◌, List, [], ◌∷◌, Option, some, none, true, not, ◌&&◌, leb,
  if◌then◌else◌, length, Bool-cases, Option-cases, arith,
}
use bandix_plus_lite.Base.Map.{Eq, nat_eq, get, insert, remove, get-insert_self, get-remove_self}
use bandix_plus_lite.Conntrack.Flows.{
  max_tracked_flows, ConntrackState, ParsedFlow, contains, remove_old, claim_id, store_flow,
  insert_flow, remove_found, remove_by_id, remove_flow,
}

-- A NEW or a DESTROY event with its flow.
pub data FlowEvent (K F : Type 0) : Type 0 where
  added removed : ParsedFlow K F → FlowEvent K F

module _ {K F : Type 0} ⦃e : Eq K⦄ where
  length-remove : (k : K) (m : List (K × F)) → length (remove k m) ≤ length m
  unfolding remove
  length-remove k [] = omega arith
  length-remove k ((j, w) ∷ m) = elim (Bool-cases (e.beq j k)) [
    | inl same ↦ rw same (omega (arith, length-remove k m))
    | inr other ↦ rw other (omega (arith, length-remove k m))
  ]

  length-insert : (k : K) (f : F) (m : List (K × F)) → length (insert k f m) ≤ suc (length m)
  unfolding insert
  length-insert k f [] = omega arith
  length-insert k f ((j, w) ∷ m) = elim (Bool-cases (e.beq j k)) [
    | inl same ↦ rw same (omega arith)
    | inr other ↦ rw other (omega (arith, length-insert k f m))
  ]

  -- A key that is there keeps the table's size.
  length-insert_present :
      (k : K) (f : F) (m : List (K × F))
      → contains (get k m) ≡ true
      → length (insert k f m) ≡ length m
  unfolding insert get
  length-insert_present k f [] h = cc h
  length-insert_present k f ((j, w) ∷ m) h = elim (Bool-cases (e.beq j k)) [
    | inl same ↦ rw same
    | inr other ↦ rw other (
        ap suc (
          length-insert_present k f m
            (ap (λ t. contains (if t then some w else get k m)) (sym other) ∙ h)))
  ]

  abbrev pub FlowsAreBounded : ConntrackState K F → Type 0
  FlowsAreBounded s = length s.flows ≤ max_tracked_flows

  length-remove_old :
      (o : Option K) (flows : List (K × F)) → length (remove_old o flows) ≤ length flows
  length-remove_old none flows = omega arith
  length-remove_old (some k) flows = length-remove k flows

  claim_id-FlowsAreBounded :
      (o : Option ℕ) (key : K) (s : ConntrackState K F)
      → FlowsAreBounded s
      → FlowsAreBounded (claim_id o key s)
  unfolding claim_id
  claim_id-FlowsAreBounded none key s h = h
  claim_id-FlowsAreBounded (some id) key s h =
      omega (arith, h, length-remove_old (get id s.flow_ids) s.flows)

  store_flow-FlowsAreBounded :
      (key : K) (f : F) (s : ConntrackState K F)
      → FlowsAreBounded s
      → FlowsAreBounded (store_flow key f s)
  unfolding store_flow
  store_flow-FlowsAreBounded key f s h =
      elim (Bool-cases (leb max_tracked_flows (length s.flows))) [
        | inr room ↦ rw room (ground (arith, room, length-insert key f s.flows))
        | inl full ↦ elim (Bool-cases (contains (get key s.flows))) [
          | inl there ↦
              rw (full, there) (omega (arith, h, length-insert_present key f s.flows there))
          | inr absent ↦ rw (full, absent) h
        ]
      ]

  remove_by_id-FlowsAreBounded :
      (o : Option ℕ) (key : K) (s : ConntrackState K F)
      → FlowsAreBounded s
      → FlowsAreBounded (remove_by_id o key s)
  unfolding remove_by_id remove_found
  remove_by_id-FlowsAreBounded none key s h = omega (arith, h, length-remove key s.flows)
  remove_by_id-FlowsAreBounded (some id) key s h = elim (Option-cases (get id s.flow_ids)) [
    | inl unknown ↦ rw unknown (omega (arith, h, length-remove key s.flows))
    | inr (known, found) ↦ rw found (omega (arith, h, length-remove known s.flows))
  ]

  pub apply_flow_events : List (FlowEvent K F) → ConntrackState K F → ConntrackState K F
  apply_flow_events [] s = s
  apply_flow_events (added p ∷ es) s = apply_flow_events es (insert_flow s p)
  apply_flow_events (removed p ∷ es) s = apply_flow_events es (remove_flow s p)

  -- Over any sequence of insertions and removals, the table never holds more than MAX_TRACKED_FLOWS
  -- flows, if it held no more at first.
  pub apply_flow_events-FlowsAreBounded :
      (es : List (FlowEvent K F)) (s : ConntrackState K F)
      → FlowsAreBounded s
      → FlowsAreBounded (apply_flow_events es s)
  unfolding apply_flow_events insert_flow remove_flow
  apply_flow_events-FlowsAreBounded [] s h = h
  apply_flow_events-FlowsAreBounded (added p ∷ es) s h =
      apply_flow_events-FlowsAreBounded es (insert_flow s p) (
        store_flow-FlowsAreBounded p.key p.flow (claim_id p.id p.key s)
          (claim_id-FlowsAreBounded p.id p.key s h))
  apply_flow_events-FlowsAreBounded (removed p ∷ es) s h =
      apply_flow_events-FlowsAreBounded es (remove_flow s p)
        (remove_by_id-FlowsAreBounded p.id p.key s h)

  store_flow-ids :
      (key : K) (f : F) (s : ConntrackState K F) → (store_flow key f s).flow_ids ≡ s.flow_ids
  unfolding store_flow
  store_flow-ids key f s =
      elim (Bool-cases
        (leb max_tracked_flows (length s.flows) && not (contains (get key s.flows)))) [
          | inl full ↦
              ap (λ t. (if t then s else record s { flows = insert key f s.flows }).flow_ids) full
          | inr room ↦
              ap (λ t. (if t then s else record s { flows = insert key f s.flows }).flow_ids) room
        ]

  claimed :
      (id : ℕ) (key : K) (s : ConntrackState K F)
      → get id (claim_id (some id) key s).flow_ids ≡ some key
  unfolding claim_id
  claimed id key s = get-insert_self id key s.flow_ids

  remove_claimed :
      (o : Option ℕ) (key : K) (f : F) (s : ConntrackState K F)
      → get key (remove_by_id o key (store_flow key f (claim_id o key s))).flows ≡ none
  unfolding remove_by_id remove_found
  remove_claimed none key f s = get-remove_self key (store_flow key f (claim_id none key s)).flows
  remove_claimed (some id) key f s =
      let named : get id (store_flow key f (claim_id (some id) key s)).flow_ids ≡ some key =
        ap (get id) (store_flow-ids key f (claim_id (some id) key s)) ∙ claimed id key s in
      ap (λ o. get key (remove_found id key o (store_flow key f (claim_id (some id) key s))).flows)
        named
      ∙ get-remove_self key (store_flow key f (claim_id (some id) key s)).flows

  -- A flow that is inserted and then removed, by its id where it has one, is not in the table,
  -- whether it had been stored, had replaced another flow, or had found the table full.
  pub remove-insert_flow :
      (s : ConntrackState K F) (p : ParsedFlow K F)
      → get p.key (remove_flow (insert_flow s p) p).flows ≡ none
  unfolding remove_flow insert_flow
  remove-insert_flow s p = remove_claimed p.id p.key p.flow s

  pub insert_flow-FlowsAreBounded :
      (s : ConntrackState K F) (p : ParsedFlow K F)
      → FlowsAreBounded s
      → FlowsAreBounded (insert_flow s p)
  unfolding apply_flow_events
  insert_flow-FlowsAreBounded s p h = apply_flow_events-FlowsAreBounded (added p ∷ []) s h

  pub remove_flow-FlowsAreBounded :
      (s : ConntrackState K F) (p : ParsedFlow K F)
      → FlowsAreBounded s
      → FlowsAreBounded (remove_flow s p)
  unfolding apply_flow_events
  remove_flow-FlowsAreBounded s p h = apply_flow_events-FlowsAreBounded (removed p ∷ []) s h
