-- ===== src/Dns/Store/Newest.antt =====
-- What `ingest` keeps of the queries (bandix-plus/src/dns.rs).
use bandix_plus_lite.Base.{
  ℕ, zero, suc, ◌-◌, ◌^◌, ◌<◌, ◌≡◌, refl, sym, ap, ◌∙◌, List, [], ◌∷◌, ◌++◌, true, false,
  if◌then◌else◌, length, drop, last, arith, ==_self, ne→==,
}
use bandix_plus_lite.Base.Map.{nat_eq, get}
use bandix_plus_lite.Dns.Key.{key_eq, match_key}
use bandix_plus_lite.Dns.Message.{ParsedDnsMessage}
use bandix_plus_lite.Dns.Store.{
  TrackedQuery, DeviceIdentity, DnsMonitor, Queries, Seen, evict_while, add_query, new_record,
  prune, ingest_query, ingest_response, ingest, tracked_list, records_of, records_for_persistence,
  is_recent, query_dedup_window_ns,
}
use bandix_plus_lite.Dns.Store.Shape.{
  Ascends, keys, IsShaped, all_records, evict_while-Evicted, Ascends-below,
}
use bandix_plus_lite.Dns.Store.Bounded.{IsWellFormed, add_query-records, add_query-IsShaped}

records_of-skip :
    (j : ℕ) (q : TrackedQuery) (ids : List ℕ) (hi : ℕ) (records : Queries)
    → Ascends j ids hi
    → records_of ids ((j, q) ∷ records) ≡ records_of ids records
unfolding get
records_of-skip j q [] hi records h = refl
records_of-skip j q (id ∷ ids) hi records h = rw (ne→== j id (λ e. omega (arith, e, h.0))) (
    ap (λ t. tracked_list (get id records) ++ t)
      (records_of-skip j q ids hi records (Ascends-below id j ids hi (omega (arith, h.0)) h.1)))

records_of-keys :
    (lo : ℕ) (records : Queries) (hi : ℕ)
    → Ascends lo (keys records) hi
    → records_of (keys records) records ≡ all_records records
unfolding get
records_of-keys lo [] hi h = refl
records_of-keys lo ((j, q) ∷ records) hi h = rw (==_self j) (
    ap (λ t. q.tracked ∷ t)
      (records_of-skip j q (keys records) hi records h.1 ∙ records_of-keys j records hi h.1))

pub records_for_persistence-IsShaped :
    (m : DnsMonitor) → IsShaped m → records_for_persistence m ≡ all_records m.records
unfolding records_for_persistence
records_for_persistence-IsShaped m v =
    ap (λ o. records_of o m.records) v.listed ∙ records_of-keys 0 m.records m.next_id v.ascending

all_records-drop :
    (n : ℕ) (records : Queries) → all_records (drop n records) ≡ drop n (all_records records)
all_records-drop zero records = refl
all_records-drop (suc n) [] = refl
all_records-drop (suc n) (r ∷ records) = all_records-drop n records

pub all_records-append :
    (records : Queries) (id : ℕ) (q : TrackedQuery)
    → all_records (records ++ ((id, q) ∷ [])) ≡ all_records records ++ (q.tracked ∷ [])
all_records-append [] id q = refl
all_records-append (r ∷ records) id q = ap (λ t. r.1.tracked ∷ t) (all_records-append records id q)

length-all_records : (records : Queries) → length records ≡ length (all_records records)
length-all_records [] = refl
length-all_records (r ∷ records) = ap suc (length-all_records records)

all_records-last :
    (n : ℕ) (records : Queries) → all_records (last n records) ≡ last n (all_records records)
all_records-last n records =
    all_records-drop (length records - n) records
    ∙ ap (λ k. drop (k - n) (all_records records)) (length-all_records records)

-- A query that was not just seen is recorded behind the queries held, and of all of them the newest
-- stay, as many as the limit allows, oldest first, if the monitor is well-formed and identifiers do
-- not run out.
pub ingest-newest :
    (iteration_order : Seen → Seen) (message : ParsedDnsMessage) (now timestamp_ms : ℕ)
    (device : DeviceIdentity) (m : DnsMonitor)
    → IsWellFormed m
    → m.next_id < 2 ^ 64 - 1
    → message.is_query ≡ true
    → is_recent now query_dedup_window_ns (get (match_key message) m.recent_queries) ≡ false
    → records_for_persistence (ingest iteration_order message now timestamp_ms device m)
      ≡ last m.max_records
          (records_for_persistence m ++ (new_record message timestamp_ms device ∷ []))
unfolding ingest ingest_query prune records_for_persistence add_query
ingest-newest iteration_order message now timestamp_ms device m v room is_query fresh =
    let key = match_key message in
    let query = new_record message timestamp_ms device in
    let q : TrackedQuery = record { observed_ns = now; query_key = key; tracked = query } in
    let added = add_query key now query m in
    let kept = evict_while (length added.records) added in
    let e =
      evict_while-Evicted (length added.records) added
        (add_query-IsShaped m v.shape room key now query) (omega arith) in
    ap
      (λ t. records_for_persistence (
        if t
        then ingest_query iteration_order key now query m
        else ingest_response iteration_order key message now m))
      is_query
    ∙ ap (λ t. records_for_persistence (if t then m else prune iteration_order now kept)) fresh
    ∙ records_for_persistence-IsShaped kept e.shaped
    ∙ ap all_records e.newest
    ∙ all_records-last m.max_records added.records
    ∙ ap (λ t. last m.max_records (all_records t)) (add_query-records m v.shape room key now query)
    ∙ ap (last m.max_records) (
        all_records-append m.records m.next_id q
        ∙ ap (λ t. t ++ (query ∷ [])) (sym (records_for_persistence-IsShaped m v.shape)))
