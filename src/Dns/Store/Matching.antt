-- ===== src/Dns/Store/Matching.antt =====
-- Which query a response answers (bandix-plus/src/dns.rs).
use bandix_plus_lite.Base.{
  ℕ, ◌-◌, ◌/◌, ◌≤◌, ◌≡◌, ◌≢◌, refl, ap, ◌∙◌, List, [], ◌∷◌, ◌++◌, some, true, false, if◌then◌else◌,
  All, arith,
}
use bandix_plus_lite.Base.Map.{
  nat_eq, get, insert, get-insert_self, get-insert_ne, get-remove_self, get-remove_ne,
}
use bandix_plus_lite.Dns.Key.{DnsMatchKey, key_eq, match_key}
use bandix_plus_lite.Dns.Message.{ParsedDnsMessage}
use bandix_plus_lite.Dns.Store.{
  DeviceIdentity, DnsMonitor, TrackedQuery, Queries, Pending, Seen, new_record, is_expired,
  drop_expired, pop_front, take_pending, put_queue, waiting_queue, answered, answer_query,
  answer_tracked, match_response, prune, ingest_query, ingest_response, ingest, is_recent,
  response_dedup_window_ns, max_query_match_age_ns,
}

put_queue_self :
    (key : DnsMatchKey) (queue : List ℕ) (pending : Pending)
    → waiting_queue (get key (put_queue key queue pending)) ≡ queue
put_queue_self key [] pending = ap waiting_queue (get-remove_self key pending)
put_queue_self key (id ∷ queue) pending =
    ap waiting_queue (get-insert_self key (id ∷ queue) pending)

put_queue_ne :
    (key other : DnsMatchKey) (queue : List ℕ) (pending : Pending)
    → key ≢ other
    → get other (put_queue key queue pending) ≡ get other pending
put_queue_ne key other [] pending h = get-remove_ne key other pending h
put_queue_ne key other (id ∷ queue) pending h = get-insert_ne key other (id ∷ queue) pending h

drop_expired-first :
    (now : ℕ) (records : Queries) (gone : List ℕ) (id : ℕ) (rest : List ℕ)
    → All (λ j. is_expired now (get j records) ≡ true) gone
    → is_expired now (get id records) ≡ false
    → drop_expired now records (gone ++ (id ∷ rest)) ≡ id ∷ rest
unfolding drop_expired
drop_expired-first now records [] id rest h live = rw live refl
drop_expired-first now records (j ∷ gone) id rest h live =
    rw h.0 (drop_expired-first now records gone id rest h.1 live)

module _ (key : DnsMatchKey) (message : ParsedDnsMessage) (now : ℕ) (m : DnsMonitor) (gone : List ℕ)
    (id : ℕ) (rest : List ℕ) (q : TrackedQuery)
    (queued : get key m.pending ≡ some (gone ++ (id ∷ rest)))
    (old : All (λ j. is_expired now (get j m.records) ≡ true) gone)
    (found : get id m.records ≡ some q) (young : now - q.observed_ns ≤ max_query_match_age_ns) where
  match_response-state : match_response key message now m ≡ record m {
    pending = put_queue key rest m.pending;
    records = insert id (answered message now q) m.records;
    recent_responses = insert key now m.recent_responses;
  }
  unfolding match_response take_pending
  match_response-state =
      let live : is_expired now (get id m.records) ≡ false =
        ap (is_expired now) found ∙ ground arith in
      let taken : take_pending key now m.records m.pending (get key m.pending)
          ≡ (some id, put_queue key rest m.pending) =
        ap (take_pending key now m.records m.pending) queued
        ∙ ap (λ queue. ((pop_front queue).0, put_queue key (pop_front queue).1 m.pending))
            (drop_expired-first now m.records gone id rest old live) in
      ap (λ t. answer_query t.0 key message now (record m { pending = t.1 })) taken
      ∙ ap
          (λ o.
            answer_tracked id key message now o
              (record m { pending = put_queue key rest m.pending }))
          found

-- A response that was not just seen answers the oldest query that waits under its key and is at
-- most 30 seconds old: that query gets the response's code, answers and the milliseconds since it
-- was seen, and keeps all else. No other query changes, the queries behind it still wait, those too
-- old do not, and the queues of other keys stay.
pub ingest-answer :
    (iteration_order : Seen → Seen) (message : ParsedDnsMessage) (now timestamp_ms : ℕ)
    (device : DeviceIdentity) (m : DnsMonitor) (gone : List ℕ) (id : ℕ) (rest : List ℕ)
    (q : TrackedQuery)
    → message.is_query ≡ false
    → is_recent now response_dedup_window_ns (get (match_key message) m.recent_responses) ≡ false
    → get (match_key message) m.pending ≡ some (gone ++ (id ∷ rest))
    → All (λ j. is_expired now (get j m.records) ≡ true) gone
    → get id m.records ≡ some q
    → now - q.observed_ns ≤ max_query_match_age_ns
    → (after : DnsMonitor) × (ingest iteration_order message now timestamp_ms device m ≡ after)
      × (get id after.records
          ≡ some (record q {
            tracked = record q.tracked {
              response_code = message.response_code;
              response_time_ms = some ((now - q.observed_ns) / 1000000);
              response_ips = message.response_ips;
              response_records = message.response_records;
            };
          }))
      × ((j : ℕ) → id ≢ j → get j after.records ≡ get j m.records)
      × (waiting_queue (get (match_key message) after.pending) ≡ rest)
      × ((key : DnsMatchKey) → match_key message ≢ key → get key after.pending ≡ get key m.pending)
unfolding ingest ingest_response prune answered
ingest-answer iteration_order message now timestamp_ms device m gone id rest q response fresh queued
      old found young =
    let key = match_key message in
    let state = match_response-state key message now m gone id rest q queued old found young in
    let after = prune iteration_order now (record m {
      pending = put_queue key rest m.pending;
      records = insert id (answered message now q) m.records;
      recent_responses = insert key now m.recent_responses;
    }) in
    (
      after,
      ap
            (λ t.
              if t
              then ingest_query iteration_order key now (new_record message timestamp_ms device) m
              else ingest_response iteration_order key message now m)
            response
          ∙ ap (λ t. if t then m else prune iteration_order now (match_response key message now m))
              fresh
          ∙ ap (prune iteration_order now) state,
      get-insert_self id (answered message now q) m.records,
      λ j h. get-insert_ne id j (answered message now q) m.records h,
      put_queue_self key rest m.pending,
      λ other h. put_queue_ne key other rest m.pending h,
    )
