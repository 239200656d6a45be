-- ===== src/Dns/Store.antt =====
-- `DnsMonitor` of bandix-plus/src/dns.rs: construction, `ingest`, `evict_oldest`,
-- `prune_dedupe_cache`, persistence and restoring. Maps are association lists in the order of
-- insertion, which for `records`, keyed by ascending identifiers, is the order of a B-tree map. The
-- iteration order of a hash map, which decides what an overfull cache keeps, is a parameter.
-- Addresses are kept as values where the code formats them.
pub mod Shape
pub mod Bounded
pub mod Newest
pub mod Duplicates
pub mod Matching
pub mod Restored
use bandix_plus_lite.Base.{
  ℕ, zero, suc, ◌+◌, ◌-◌, ◌*◌, ◌/◌, ◌%◌, ◌^◌, min, max, List, [], ◌∷◌, ◌++◌, Option, some, none,
  Bool, true, false, not, ◌&&◌, ◌||◌, ◌==◌, ltb, leb, if◌then◌else◌, length, take, drop, map,
}
use bandix_plus_lite.Base.Bytes.{saturating_add, wrapping_add}
use bandix_plus_lite.Base.Map.{nat_eq, get, insert, remove}
use bandix_plus_lite.Base.Addresses.{IpAddr, v4}
use bandix_plus_lite.Dns.Name.{Text}
use bandix_plus_lite.Dns.Message.{
  QueryType, ResponseCode, no_response, AnswerLine, ProtocolName, ParsedDnsMessage,
  to_ascii_lowercase,
}
use bandix_plus_lite.Dns.Key.{DnsMatchKey, key_eq, match_key}

abbrev pub query_dedup_window_ns : ℕ
query_dedup_window_ns = 500000000

abbrev pub response_dedup_window_ns : ℕ
response_dedup_window_ns = 500000000

abbrev pub max_query_match_age_ns : ℕ
max_query_match_age_ns = 30000000000

pub record DnsQueryRecord : Type 0 where
  pub timestamp : ℕ
  pub domain : Text
  pub query_type : QueryType
  pub response_code : Option ResponseCode
  pub response_time_ms : Option ℕ
  pub source_ip : IpAddr
  pub destination_ip : IpAddr
  pub source_port : ℕ
  pub destination_port : ℕ
  pub transaction_id : ℕ
  pub is_query : Bool
  pub protocol : ProtocolName
  pub response_ips : List IpAddr
  pub response_records : List AnswerLine
  pub device_mac : Text
  pub device_name : Text
  pub iface : Text

pub record TrackedQuery : Type 0 where
  pub observed_ns : ℕ
  pub query_key : DnsMatchKey
  pub tracked : DnsQueryRecord

pub record DeviceIdentity : Type 0 where
  pub mac : Text
  pub name : Text
  pub iface : Text

abbrev pub Queries : Type 0
Queries = List (ℕ × TrackedQuery)

abbrev pub Pending : Type 0
Pending = List (DnsMatchKey × List ℕ)

abbrev pub Seen : Type 0
Seen = List (DnsMatchKey × ℕ)

pub record DnsMonitor : Type 0 where
  pub enabled : Bool
  pub persistence_enabled : Bool
  pub monitored_interfaces : List Text
  pub max_records : ℕ
  pub records : Queries
  pub order : List ℕ
  pub pending : Pending
  pub recent_queries : Seen
  pub recent_responses : Seen
  pub next_id : ℕ
  pub capture_parse_errors : ℕ

unfoldable pub new : Bool → Bool → ℕ → List Text → DnsMonitor
new enabled persistence_enabled max_records monitored_interfaces = record {
  enabled = enabled;
  persistence_enabled = persistence_enabled;
  monitored_interfaces = monitored_interfaces;
  max_records = max max_records 1;
  records = [];
  order = [];
  pending = [];
  recent_queries = [];
  recent_responses = [];
  next_id = 1;
  capture_parse_errors = 0;
}

unfoldable pub note_parse_errors : ℕ → DnsMonitor → DnsMonitor
note_parse_errors count m = record m {
  capture_parse_errors = saturating_add m.capture_parse_errors count;
}

-- Seen less than a window ago.
abbrev pub is_recent : ℕ → ℕ → Option ℕ → Bool
is_recent now window none = false
is_recent now window (some last) = ltb (now - last) window

-- `self.next_id.wrapping_add(1).max(1)`
abbrev pub following_id : ℕ → ℕ
following_id id = max (wrapping_add id 1) 1

abbrev pub waiting_queue : Option (List ℕ) → List ℕ
waiting_queue none = []
waiting_queue (some queue) = queue

abbrev pub is_nil : List ℕ → Bool
is_nil [] = true
is_nil (x ∷ xs) = false

-- A queue put back, or its key removed once it is empty.
abbrev pub put_queue : DnsMatchKey → List ℕ → Pending → Pending
put_queue key queue pending = if is_nil queue then remove key pending else insert key queue pending

abbrev pub without : ℕ → List ℕ → List ℕ
without id [] = []
without id (x ∷ queue) = if x == id then without id queue else (x ∷ without id queue)

-- The queue of an evicted query, without it.
abbrev pub drop_queued : ℕ → List ℕ → List ℕ
drop_queued id [] = []
drop_queued id (x ∷ queue) = if x == id then queue else without id (x ∷ queue)

abbrev pub unqueue : ℕ → DnsMatchKey → Option (List ℕ) → Pending → Pending
unqueue id key none pending = pending
unqueue id key (some queue) pending = put_queue key (drop_queued id queue) pending

abbrev pub is_none : Option ℕ → Bool
is_none none = true
is_none (some n) = false

-- `evict_oldest` once the front of the order is taken.
unfoldable pub evict : ℕ → Option TrackedQuery → DnsMonitor → DnsMonitor
evict id none m = m
evict id (some query) m = record m {
  records = remove id m.records;
  pending =
      if is_none query.tracked.response_time_ms
      then unqueue id query.query_key (get query.query_key m.pending) m.pending
      else m.pending;
}

unfoldable pub evict_front : List ℕ → DnsMonitor → DnsMonitor
evict_front [] m = m
evict_front (id ∷ rest) m = evict id (get id m.records) (record m { order = rest })

unfoldable pub evict_oldest : DnsMonitor → DnsMonitor
evict_oldest m = evict_front m.order m

-- `while self.records.len() > self.max_records`, by the rounds left.
unfoldable pub evict_while : ℕ → DnsMonitor → DnsMonitor
evict_while zero m = m
evict_while (suc rounds) m =
    let rest = evict_while rounds (evict_oldest m) in
    if ltb m.max_records (length m.records) then rest else m

unfoldable pub new_record : ParsedDnsMessage → ℕ → DeviceIdentity → DnsQueryRecord
new_record message timestamp_ms device = record {
  timestamp = timestamp_ms;
  domain = message.domain;
  query_type = message.query_type;
  response_code = none;
  response_time_ms = none;
  source_ip = message.source_ip;
  destination_ip = message.destination_ip;
  source_port = message.source_port;
  destination_port = message.destination_port;
  transaction_id = message.transaction_id;
  is_query = true;
  protocol = message.protocol;
  response_ips = [];
  response_records = [];
  device_mac = device.mac;
  device_name = device.name;
  iface = device.iface;
}

-- The query branch of `ingest`, before the eviction.
unfoldable pub add_query : DnsMatchKey → ℕ → DnsQueryRecord → DnsMonitor → DnsMonitor
add_query key now query m = record m {
  recent_queries = insert key now m.recent_queries;
  next_id = following_id m.next_id;
  records =
      insert m.next_id (record { observed_ns = now; query_key = key; tracked = query }) m.records;
  order = m.order ++ (m.next_id ∷ []);
  pending = insert key (waiting_queue (get key m.pending) ++ (m.next_id ∷ [])) m.pending;
}

-- `map_or(true, …)`: gone, or too old to be answered.
abbrev pub is_expired : ℕ → Option TrackedQuery → Bool
is_expired now none = true
is_expired now (some query) = ltb max_query_match_age_ns (now - query.observed_ns)

unfoldable pub drop_expired : ℕ → Queries → List ℕ → List ℕ
drop_expired now records [] = []
drop_expired now records (id ∷ queue) =
    if is_expired now (get id records) then drop_expired now records queue else (id ∷ queue)

-- The oldest query of a queue that can be answered, and what is left of the queue.
abbrev pub pop_front : List ℕ → Option ℕ × List ℕ
pop_front [] = (none, [])
pop_front (id ∷ queue) = (some id, queue)

unfoldable pub take_pending :
    DnsMatchKey → ℕ → Queries → Pending → Option (List ℕ) → Option ℕ × Pending
take_pending key now records pending none = (none, pending)
take_pending key now records pending (some queue) =
    let (id, rest) = pop_front (drop_expired now records queue) in (id, put_queue key rest pending)

unfoldable pub answered : ParsedDnsMessage → ℕ → TrackedQuery → TrackedQuery
answered message now query = record query {
  tracked = record query.tracked {
    response_code = message.response_code;
    response_time_ms = some ((now - query.observed_ns) / 1000000);
    response_ips = message.response_ips;
    response_records = message.response_records;
  };
}

abbrev pub answer_tracked :
    ℕ → DnsMatchKey → ParsedDnsMessage → ℕ → Option TrackedQuery → DnsMonitor → DnsMonitor
answer_tracked id key message now none m = m
answer_tracked id key message now (some query) m = record m {
  records = insert id (answered message now query) m.records;
  recent_responses = insert key now m.recent_responses;
}

abbrev pub answer_query : Option ℕ → DnsMatchKey → ParsedDnsMessage → ℕ → DnsMonitor → DnsMonitor
answer_query none key message now m = m
answer_query (some id) key message now m = answer_tracked id key message now (get id m.records) m

-- The response branch of `ingest`.
unfoldable pub match_response : DnsMatchKey → ParsedDnsMessage → ℕ → DnsMonitor → DnsMonitor
match_response key message now m =
    let (id, pending) = take_pending key now m.records m.pending (get key m.pending) in
    answer_query id key message now (record m { pending = pending })

abbrev pub retain_since : ℕ → Seen → Seen
retain_since cutoff [] = []
retain_since cutoff ((key, seen_ns) ∷ cache) =
    if leb cutoff seen_ns
    then ((key, seen_ns) ∷ retain_since cutoff cache)
    else retain_since cutoff cache

module _ (iteration_order : Seen → Seen) where
  unfoldable pub prune_dedupe_cache : Seen → ℕ → ℕ → ℕ → Seen
  prune_dedupe_cache cache now_ns window_ns max_entries =
      if leb (length cache) max_entries
      then cache
      else let retained = retain_since (now_ns - window_ns) cache in
        if ltb max_entries (length retained)
        then take max_entries (iteration_order retained)
        else retained

  -- The end of `ingest`; `saturating_mul(2).max(1)`.
  unfoldable pub prune : ℕ → DnsMonitor → DnsMonitor
  prune now m =
      let dedupe_limit = max (min (m.max_records * 2) (2 ^ 64 - 1)) 1 in
      record m {
        recent_queries = prune_dedupe_cache m.recent_queries now query_dedup_window_ns dedupe_limit;
        recent_responses =
            prune_dedupe_cache m.recent_responses now response_dedup_window_ns dedupe_limit;
      }

  unfoldable pub ingest_query : DnsMatchKey → ℕ → DnsQueryRecord → DnsMonitor → DnsMonitor
  ingest_query key now query m =
      if is_recent now query_dedup_window_ns (get key m.recent_queries)
      then m
      else let added = add_query key now query m in
        prune now (evict_while (length added.records) added)

  unfoldable pub ingest_response : DnsMatchKey → ParsedDnsMessage → ℕ → DnsMonitor → DnsMonitor
  ingest_response key message now m =
      if is_recent now response_dedup_window_ns (get key m.recent_responses)
      then m
      else prune now (match_response key message now m)

  -- `now` is the packet's `timestamp_ns`.
  unfoldable pub ingest : ParsedDnsMessage → ℕ → ℕ → DeviceIdentity → DnsMonitor → DnsMonitor
  ingest message now timestamp_ms device m =
      let key = match_key message in
      if message.is_query
      then ingest_query key now (new_record message timestamp_ms device) m
      else ingest_response key message now m

-- The records that the identifiers name (`filter_map`).
abbrev pub tracked_list : Option TrackedQuery → List DnsQueryRecord
tracked_list none = []
tracked_list (some query) = query.tracked ∷ []

abbrev pub records_of : List ℕ → Queries → List DnsQueryRecord
records_of [] records = []
records_of (id ∷ order) records = tracked_list (get id records) ++ records_of order records

unfoldable pub records_for_persistence : DnsMonitor → List DnsQueryRecord
records_for_persistence m = records_of m.order m.records

abbrev pub mark_unanswered : DnsQueryRecord → Option ℕ → Option ResponseCode → DnsQueryRecord
mark_unanswered r none none = record r { response_code = some no_response }
mark_unanswered r none (some code) = r
mark_unanswered r (some time) code = r

-- One record of the loop of `restore_records`. A record holds its addresses as values, those that
-- the code writes as texts: `source_ip.parse()` reads such a text back, so that the `unwrap_or` for a
-- text that is no address, as only a file from elsewhere could have, does not arise.
unfoldable pub restore_record : DnsQueryRecord → DnsMonitor → DnsMonitor
restore_record r m =
    let marked = mark_unanswered r r.response_time_ms r.response_code in
    record m {
      next_id = following_id m.next_id;
      records =
          insert m.next_id
            (record {
              observed_ns = 0;
              query_key = record {
                client_ip = r.source_ip;
                client_port = r.source_port;
                transaction_id = r.transaction_id;
                domain = to_ascii_lowercase r.domain;
                query_type = r.query_type;
                protocol = r.protocol;
              };
              tracked = marked;
            })
            m.records;
      order = m.order ++ (m.next_id ∷ []);
    }

unfoldable pub restore_all : List DnsQueryRecord → DnsMonitor → DnsMonitor
restore_all [] m = m
restore_all (r ∷ records) m = restore_all records (restore_record r m)

-- `records.rev().take(max_records).rev()` is the last `max_records` of them.
unfoldable pub restore_records : List DnsQueryRecord → DnsMonitor → DnsMonitor
restore_records records m = restore_all (drop (length records - m.max_records) records) m
