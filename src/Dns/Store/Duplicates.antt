-- ===== src/Dns/Store/Duplicates.antt =====
-- What `ingest` does with messages that it has just seen (bandix-plus/src/dns.rs).
use bandix_plus_lite.Base.{
  ℕ, zero, suc, ◌-◌, ◌*◌, ◌^◌, ◌<◌, ◌≤◌, ◌≡◌, min, max, refl, ap, ◌∙◌, [], ◌∷◌, some, Bool, true,
  false, ltb, leb, if◌then◌else◌, length, take, arith,
}
use bandix_plus_lite.Base.Map.{get, insert, get-insert_self}
use bandix_plus_lite.Dns.Key.{DnsMatchKey, key_eq, match_key}
use bandix_plus_lite.Dns.Message.{ParsedDnsMessage}
use bandix_plus_lite.Dns.Store.Shape.{Kept, evict_oldest-Kept}
use bandix_plus_lite.Dns.Store.{
  DeviceIdentity, DnsMonitor, Seen, evict_oldest, evict_while, add_query, new_record, retain_since,
  prune_dedupe_cache, prune, ingest_query, ingest_response, ingest, is_recent,
  query_dedup_window_ns,
}

length-take_le : (n : ℕ) (cache : Seen) → length (take n cache) ≤ n
length-take_le zero cache = omega arith
length-take_le (suc n) [] = omega arith
length-take_le (suc n) (p ∷ cache) = omega (arith, length-take_le n cache)

-- A cache is cut to the limit, whatever the order of its iteration, and within the limit it stays
-- as it is.
pub prune_dedupe_cache-bounded :
    (iteration_order : Seen → Seen) (cache : Seen) (now window max_entries : ℕ)
    → (length (prune_dedupe_cache iteration_order cache now window max_entries) ≤ max_entries)
      × (length cache ≤ max_entries
          → prune_dedupe_cache iteration_order cache now window max_entries ≡ cache)
unfolding prune_dedupe_cache
prune_dedupe_cache-bounded iteration_order cache now window max_entries =
    let retained = retain_since (now - window) cache in
    (
      ground (arith, length-take_le max_entries (iteration_order retained)),
      λ few. let within : leb (length cache) max_entries ≡ true = ground arith in rw within refl,
    )

evict_while-Kept : (rounds : ℕ) (m : DnsMonitor) → Kept m (evict_while rounds m)
unfolding evict_while
evict_while-Kept zero m = record { same_max = refl; same_id = refl; same_seen = refl }
evict_while-Kept (suc rounds) m =
    pick (evict_while-Kept rounds (evict_oldest m)) (ltb m.max_records (length m.records))
  where
    pick :
        Kept (evict_oldest m) (evict_while rounds (evict_oldest m))
        → (t : Bool) → Kept m (if t then evict_while rounds (evict_oldest m) else m)
    pick r true =
        let k = evict_oldest-Kept m in
        record {
          same_max = r.same_max ∙ k.same_max;
          same_id = r.same_id ∙ k.same_id;
          same_seen = r.same_seen ∙ k.same_seen;
        }
    pick r false = record { same_max = refl; same_id = refl; same_seen = refl }

-- A query that was just seen under the same key is ignored: it changes nothing. The first of the
-- two was not ignored, less than half a second lies between them, and the cache of what was seen is
-- within its limit, twice the limit on the records.
pub ingest-duplicate :
    (iteration_order : Seen → Seen) (message again : ParsedDnsMessage)
    (now later timestamp_ms later_ms : ℕ) (device other : DeviceIdentity) (m : DnsMonitor)
    → message.is_query ≡ true
    → again.is_query ≡ true
    → match_key again ≡ match_key message
    → is_recent now query_dedup_window_ns (get (match_key message) m.recent_queries) ≡ false
    → later - now < query_dedup_window_ns
    → length (insert (match_key message) now m.recent_queries)
      ≤ min (m.max_records * 2) (2 ^ 64 - 1)
    → ingest iteration_order again later later_ms other
        (ingest iteration_order message now timestamp_ms device m)
      ≡ ingest iteration_order message now timestamp_ms device m
unfolding ingest ingest_query prune add_query
ingest-duplicate iteration_order message again now later timestamp_ms later_ms device other m query
      query' same fresh soon within =
    ap
      (λ t.
        if t
        then ingest_query iteration_order (match_key again) later (new_record again later_ms other)
            after
        else ingest_response iteration_order (match_key again) again later after)
      query'
    ∙ ap
        (λ t.
          if t
          then after
          else prune iteration_order later (
              evict_while
                (length
                  (add_query (match_key again) later (new_record again later_ms other)
                    after).records)
                (add_query (match_key again) later (new_record again later_ms other) after)))
        (ap (λ o. is_recent later query_dedup_window_ns o) seen ∙ recent)
  where
    key : DnsMatchKey
    key = match_key message

    after : DnsMonitor
    after = ingest iteration_order message now timestamp_ms device m

    added : DnsMonitor
    added = add_query key now (new_record message timestamp_ms device) m

    recent : ltb (later - now) query_dedup_window_ns ≡ true
    recent = ground arith

    seen : get (match_key again) after.recent_queries ≡ some now
    seen =
        let kept = evict_while (length added.records) added in
        let k = evict_while-Kept (length added.records) added in
        let few : length kept.recent_queries ≤ max (min (kept.max_records * 2) (2 ^ 64 - 1)) 1 =
          omega (arith, ap length k.same_seen, k.same_max, within) in
        ap
          (λ t.
            get (match_key again)
              (if t
                then ingest_query iteration_order key now (new_record message timestamp_ms device) m
                else ingest_response iteration_order key message now m).recent_queries)
          query
        ∙ ap
            (λ t.
              get (match_key again)
                (if t then m else prune iteration_order now kept).recent_queries)
            fresh
        ∙ ap (get (match_key again)) (
            (prune_dedupe_cache-bounded iteration_order kept.recent_queries now
                query_dedup_window_ns _).1
              few
            ∙ k.same_seen)
        ∙ ap (λ x. get x (insert key now m.recent_queries)) same
        ∙ get-insert_self key now m.recent_queries
