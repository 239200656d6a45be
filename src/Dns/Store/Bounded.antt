-- ===== src/Dns/Store/Bounded.antt =====
-- How `ingest` changes the table of queries, its order and its identifiers (bandix-plus/src/dns.rs).
use bandix_plus_lite.Base.{
  ℕ, suc, ◌+◌, ◌-◌, ◌^◌, ◌<◌, ◌≤◌, ◌≡◌, refl, sym, ap, subst₂, ◌∙◌, List, [], ◌∷◌, ◌++◌, Option,
  some, none, Bool, true, false, if◌then◌else◌, length, length-drop, last, arith,
}
use bandix_plus_lite.Base.Map.{nat_eq, get, insert}
use bandix_plus_lite.Dns.Key.{DnsMatchKey, key_eq, match_key}
use bandix_plus_lite.Dns.Name.{Text}
use bandix_plus_lite.Dns.Message.{ParsedDnsMessage}
use bandix_plus_lite.Dns.Store.{
  DnsQueryRecord, TrackedQuery, DeviceIdentity, DnsMonitor, Queries, Seen, new, following_id,
  evict_while, add_query, new_record, answered, take_pending, match_response, prune, ingest_query,
  ingest_response, ingest, is_recent, query_dedup_window_ns, response_dedup_window_ns, answer_query,
  answer_tracked,
}
use bandix_plus_lite.Dns.Store.Shape.{
  Ascends, keys, IsShaped, evict_while-Evicted, Ascends-append, insert-last, keys-insert,
  keys-append,
}

-- Identifiers ascend in the order of the queries, the order lists exactly the records held, and
-- there are no more than the limit.
pub record IsWellFormed (m : DnsMonitor) : Type 0 where
  pub shape : IsShaped m
  pub bounded : length m.records ≤ m.max_records

module _ (m : DnsMonitor) (v : IsShaped m) (room : m.next_id < 2 ^ 64 - 1) where
  pub add_query-records :
      (key : DnsMatchKey) (now : ℕ) (query : DnsQueryRecord)
      → (add_query key now query m).records
        ≡ m.records
          ++ ((m.next_id, record { observed_ns = now; query_key = key; tracked = query }) ∷ [])
  unfolding add_query
  add_query-records key now query = insert-last 0 m.records m.next_id _ v.ascending

  pub add_query-IsShaped :
      (key : DnsMatchKey) (now : ℕ) (query : DnsQueryRecord) → IsShaped (add_query key now query m)
  unfolding add_query
  add_query-IsShaped key now query =
      let q : TrackedQuery = record { observed_ns = now; query_key = key; tracked = query } in
      let grown : keys (insert m.next_id q m.records) ≡ keys m.records ++ (m.next_id ∷ []) =
        ap keys (add_query-records key now query) ∙ keys-append m.records m.next_id q in
      let next : m.next_id + 1 ≡ following_id m.next_id = omega arith in
      record {
        listed = ap (λ o. o ++ (m.next_id ∷ [])) v.listed ∙ sym grown;
        ascending =
            subst₂ (λ ids hi. Ascends 0 ids hi) (sym grown) next
              (Ascends-append 0 (keys m.records) m.next_id v.ascending);
      }

  add_query-next_id :
      (key : DnsMatchKey) (now : ℕ) (query : DnsQueryRecord)
      → (add_query key now query m).next_id ≡ m.next_id + 1
  unfolding add_query
  add_query-next_id key now query = omega arith

length-last : (n : ℕ) (records : Queries) → length (last n records) ≤ n
length-last n records = omega (arith, length-drop (length records - n) records)

-- What a step does not change, but the table.
record Same (m m' : DnsMonitor) : Type 0 where
  same_max : m'.max_records ≡ m.max_records
  same_id : m'.next_id ≡ m.next_id
  same_order : m'.order ≡ m.order
  same_keys : keys m'.records ≡ keys m.records
  same_length : length m'.records ≡ length m.records

length-keys : (records : Queries) → length records ≡ length (keys records)
length-keys [] = refl
length-keys (r ∷ records) = ap suc (length-keys records)

match_response-Same :
    (key : DnsMatchKey) (message : ParsedDnsMessage) (now : ℕ) (m : DnsMonitor)
    → Same m (match_response key message now m)
unfolding match_response
match_response-Same key message now m =
    let (id, pending) = take_pending key now m.records m.pending (get key m.pending) in
    let s = query id (record m { pending = pending }) in
    record {
      same_max = s.same_max;
      same_id = s.same_id;
      same_order = s.same_order;
      same_keys = s.same_keys;
      same_length = s.same_length;
    }
  where
    tracked :
        (id : ℕ) (m' : DnsMonitor) (o : Option TrackedQuery)
        → get id m'.records ≡ o
        → Same m' (answer_tracked id key message now o m')
    tracked id m' none e = record {
      same_max = refl;
      same_id = refl;
      same_order = refl;
      same_keys = refl;
      same_length = refl;
    }
    tracked id m' (some q) e =
        let same = keys-insert m'.records id (answered message now q) q e in
        record {
          same_max = refl;
          same_id = refl;
          same_order = refl;
          same_keys = same;
          same_length =
              length-keys (insert id (answered message now q) m'.records)
              ∙ ap length same
              ∙ sym (length-keys m'.records);
        }

    query : (o : Option ℕ) (m' : DnsMonitor) → Same m' (answer_query o key message now m')
    query none m' = record {
      same_max = refl;
      same_id = refl;
      same_order = refl;
      same_keys = refl;
      same_length = refl;
    }
    query (some id) m' = tracked id m' (get id m'.records) refl

-- A step that leaves a well-formed monitor well-formed and takes at most one identifier.
record Ingested (m m' : DnsMonitor) : Type 0 where
  well_formed : IsWellFormed m'
  next_id_le : m'.next_id ≤ m.next_id + 1
  next_id_ge : m.next_id ≤ m'.next_id

Same-Ingested : (m m' : DnsMonitor) → IsWellFormed m → Same m m' → Ingested m m'
Same-Ingested m m' v s = record {
  well_formed = record {
    shape = record {
      listed = s.same_order ∙ v.shape.listed ∙ sym s.same_keys;
      ascending =
          subst₂ (λ ids hi. Ascends 0 ids hi) (sym s.same_keys) (sym s.same_id) v.shape.ascending;
    };
    bounded = omega (arith, v.bounded, s.same_length, s.same_max);
  };
  next_id_le = omega (arith, s.same_id);
  next_id_ge = omega (arith, s.same_id);
}

module _ (iteration_order : Seen → Seen) where
  prune-Ingested :
      (now : ℕ) (m m' : DnsMonitor) → Ingested m m' → Ingested m (prune iteration_order now m')
  unfolding prune
  prune-Ingested now m m' v = record {
    well_formed = record {
      shape = record {
        listed = v.well_formed.shape.listed;
        ascending = v.well_formed.shape.ascending;
      };
      bounded = v.well_formed.bounded;
    };
    next_id_le = v.next_id_le;
    next_id_ge = v.next_id_ge;
  }

  ingest_query-Ingested :
      (key : DnsMatchKey) (now : ℕ) (query : DnsQueryRecord) (m : DnsMonitor)
      → IsWellFormed m
      → m.next_id < 2 ^ 64 - 1
      → Ingested m (ingest_query iteration_order key now query m)
  unfolding ingest_query
  ingest_query-Ingested key now query m v room =
      pick (is_recent now query_dedup_window_ns (get key m.recent_queries))
    where
      added : DnsMonitor
      added = add_query key now query m

      unchanged : Same m m
      unchanged = record {
        same_max = refl;
        same_id = refl;
        same_order = refl;
        same_keys = refl;
        same_length = refl;
      }

      kept : DnsMonitor
      kept = evict_while (length added.records) added

      pick : (t : Bool) → Ingested m (if t then m else prune iteration_order now kept)
      pick true = Same-Ingested m m v unchanged
      pick false =
          let e =
            evict_while-Evicted (length added.records) added
              (add_query-IsShaped m v.shape room key now query) (omega arith) in
          let next : kept.next_id ≡ m.next_id + 1 =
            e.same_id ∙ add_query-next_id m v.shape room key now query in
          prune-Ingested now m kept (record {
            well_formed = record {
              shape = e.shaped;
              bounded = omega (
                arith,
                ap length e.newest,
                length-last added.max_records added.records,
                e.same_max,
              );
            };
            next_id_le = omega (arith, next);
            next_id_ge = omega (arith, next);
          })

  ingest-Ingested :
      (message : ParsedDnsMessage) (now timestamp_ms : ℕ) (device : DeviceIdentity) (m : DnsMonitor)
      → IsWellFormed m
      → m.next_id < 2 ^ 64 - 1
      → Ingested m (ingest iteration_order message now timestamp_ms device m)
  unfolding ingest ingest_response
  ingest-Ingested message now timestamp_ms device m v room =
      pick message.is_query (is_recent now response_dedup_window_ns (get key m.recent_responses))
    where
      key : DnsMatchKey
      key = match_key message

      pick :
          (query seen : Bool)
          → Ingested m (
              if query
              then ingest_query iteration_order key now (new_record message timestamp_ms device) m
              else (if seen
                  then m
                  else prune iteration_order now (match_response key message now m)))
      pick true seen =
          ingest_query-Ingested key now (new_record message timestamp_ms device) m v room
      pick false true = Same-Ingested m m v (record {
        same_max = refl;
        same_id = refl;
        same_order = refl;
        same_keys = refl;
        same_length = refl;
      })
      pick false false =
          prune-Ingested now m (match_response key message now m)
            (Same-Ingested m _ v (match_response-Same key message now m))

-- A message that was captured, when, and the device that it belongs to.
pub record Captured : Type 0 where
  pub message : ParsedDnsMessage
  pub timestamp_ns : ℕ
  pub timestamp_ms : ℕ
  pub device : DeviceIdentity

pub ingest_all : (Seen → Seen) → List Captured → DnsMonitor → DnsMonitor
ingest_all iteration_order [] m = m
ingest_all iteration_order (p ∷ packets) m =
    ingest_all iteration_order packets
      (ingest iteration_order p.message p.timestamp_ns p.timestamp_ms p.device m)

ingest_all-keeps :
    (iteration_order : Seen → Seen) (packets : List Captured) (m : DnsMonitor)
    → IsWellFormed m
    → m.next_id + length packets < 2 ^ 64
    → IsWellFormed (ingest_all iteration_order packets m)
unfolding ingest_all
ingest_all-keeps iteration_order [] m v room = v
ingest_all-keeps iteration_order (p ∷ packets) m v room =
    let i =
      ingest-Ingested iteration_order p.message p.timestamp_ns p.timestamp_ms p.device m v
        (omega arith) in
    ingest_all-keeps iteration_order packets _ i.well_formed (omega (arith, i.next_id_le))

pub new-IsWellFormed :
    (enabled persistence_enabled : Bool) (max_records : ℕ) (interfaces : List Text)
    → IsWellFormed (new enabled persistence_enabled max_records interfaces)
unfolding new
new-IsWellFormed enabled persistence_enabled max_records interfaces = record {
  shape = record { listed = refl; ascending = omega arith };
  bounded = omega arith;
}

-- After any queries and responses a new monitor holds no more records than its limit, and its order
-- lists exactly the identifiers of the records held, which ascend and are below the next one, as
-- long as fewer than 2 ^ 64 - 1 messages came in.
pub ingest_all-IsWellFormed :
    (iteration_order : Seen → Seen) (enabled persistence_enabled : Bool) (max_records : ℕ)
    (interfaces : List Text) (packets : List Captured)
    → length packets < 2 ^ 64 - 1
    → IsWellFormed (
        ingest_all iteration_order packets (new enabled persistence_enabled max_records interfaces))
unfolding new
ingest_all-IsWellFormed iteration_order enabled persistence_enabled max_records interfaces packets
      few =
    ingest_all-keeps iteration_order packets
      (new enabled persistence_enabled max_records interfaces)
      (new-IsWellFormed enabled persistence_enabled max_records interfaces) (omega arith)
