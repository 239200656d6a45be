-- ===== src/Dns/Tests.antt =====
-- The parser and the store of the DNS monitor on concrete packets (bandix-plus/src/dns.rs).
use bandix_plus_lite.Base.{
  ℕ, ◌+◌, ◌-◌, ◌*◌, ◌/◌, ◌%◌, ◌^◌, ◌<◌, ◌≤◌, ◌≡◌, ◌≢◌, refl, List, [], ◌∷◌, ◌++◌, some, none, true,
  false, length, map, last, arith, max, min, if◌then◌else◌, drop,
}
use bandix_plus_lite.Base.Map.{nat_eq, get, insert}
use bandix_plus_lite.Base.Addresses.{v4}
use native.Mathlib.Decide.{ℕ_discrete}
use bandix_plus_lite.Dns.Name.{
  Text, read_u16, join_labels, read_dns_name, name_loop, name_rounds, start_name, out_of_rounds,
  name_step, follow_pointer, read_label,
}
use bandix_plus_lite.Dns.Name.Rounds.{read_name-ends}
use bandix_plus_lite.Dns.Name.Reading.{encode_labels, encoded_len, read_dns_name-compressed}
use bandix_plus_lite.Dns.Packet.{IpPacket, DnsSpan, parse_ipv4, parse_ip, span_of, span_udp}
use bandix_plus_lite.Dns.Packet.Span.{span_of-inside}
use bandix_plus_lite.Dns.Message.{
  ParsedDnsMessage, Carrier, parse_dns_message, dns_type_name, dns_response_code, skip_questions,
  read_answers, is_query_of, to_ascii_lowercase, noerror, udp, type_a,
}
use bandix_plus_lite.Dns.Message.Limits.{parse_dns_message-limits}
use bandix_plus_lite.Dns.Message.Query.{encode_message, a_line, parse_dns_message-encode_message}
use bandix_plus_lite.Dns.Key.{DnsMatchKey, DnsMatchKey-discrete, key_eq, match_key}
use bandix_plus_lite.Dns.Store.{
  DnsQueryRecord, TrackedQuery, DeviceIdentity, DnsMonitor, Seen, new, ingest, new_record,
  records_for_persistence, restore_records, is_recent, query_dedup_window_ns, waiting_queue,
}
use bandix_plus_lite.Dns.Store.Bounded.{
  IsWellFormed, ingest_all, ingest_all-IsWellFormed, new-IsWellFormed,
}
use bandix_plus_lite.Dns.Store.Newest.{ingest-newest}
use bandix_plus_lite.Dns.Store.Duplicates.{ingest-duplicate}
use bandix_plus_lite.Dns.Store.Matching.{ingest-answer}
use bandix_plus_lite.Dns.Store.Restored.{marked, restore_records-newest}

-- Texts that are ASCII are kept as they are.
abbrev ascii : List ℕ → Text
ascii bytes = bytes

abbrev net : List (List ℕ)
net = (b'C' ∷ b'o' ∷ b'm' ∷ []) ∷ []

abbrev ab : List (List ℕ)
ab = (b'a' ∷ []) ∷ (b'b' ∷ []) ∷ []

-- "Com", then "a.b" and a pointer to it.
abbrev named : List ℕ
named = 3 ∷ b'C' ∷ b'o' ∷ b'm' ∷ 0 ∷ 1 ∷ b'a' ∷ 1 ∷ b'b' ∷ 192 ∷ 0 ∷ 7 ∷ []

read_name-ends_example : name_loop name_rounds named (start_name 5) ≢ out_of_rounds
read_name-ends_example = read_name-ends named 5

net-encoded : drop 0 named ≡ encode_labels net (0 ∷ drop 5 named)
unfolding encode_labels
net-encoded = refl

ab-encoded : drop 5 named ≡ encode_labels ab ((192 + 0 / 256) ∷ (0 % 256) ∷ 7 ∷ [])
unfolding encode_labels
ab-encoded = refl

net-short : encoded_len net ≤ 255
unfolding encoded_len
net-short = omega arith

ab-net-short : encoded_len ab + encoded_len net ≤ 255
unfolding encoded_len
ab-net-short = omega arith

read_dns_name-compressed_example :
    read_dns_name ascii named 5 ≡ some (join_labels (map ascii (ab ++ net)), 5 + encoded_len ab + 2)
read_dns_name-compressed_example =
    read_dns_name-compressed ascii ab net named (7 ∷ []) (drop 5 named) 5 0 ab-encoded net-encoded
      ((omega arith, omega arith), ((omega arith, omega arith), tt))
      ((omega arith, omega arith), tt) ab-net-short (omega arith)

-- A query for "a.b" in a message of its own.
abbrev query_bytes : List ℕ
query_bytes =
    0 ∷ 7 ∷ 1 ∷ 0 ∷ 0 ∷ 1 ∷ 0 ∷ 0 ∷ 0 ∷ 0 ∷ 0 ∷ 0 ∷ 1 ∷ b'a' ∷ 1 ∷ b'b' ∷ 0 ∷ 0 ∷ 1 ∷ 0 ∷ 1 ∷ []

abbrev ip_bytes : List ℕ
ip_bytes =
    69 ∷ 0 ∷ 0 ∷ 49 ∷ 0 ∷ 0 ∷ 0 ∷ 0 ∷ 64 ∷ 17 ∷ 0 ∷ 0 ∷ 10 ∷ 0 ∷ 0 ∷ 2 ∷ 8 ∷ 8 ∷ 8 ∷ 8 ∷ 0x9C ∷ 0x40
    ∷ 0 ∷ 53 ∷ 0 ∷ 29 ∷ 0 ∷ 0 ∷ query_bytes

abbrev ip_packet : IpPacket
ip_packet = record {
  source = v4 (10 ∷ 0 ∷ 0 ∷ 2 ∷ []);
  destination = v4 (8 ∷ 8 ∷ 8 ∷ 8 ∷ []);
  protocol = 17;
  transport_offset = 20;
  packet_end = 49;
}

abbrev sent_span : DnsSpan
sent_span = record { source_port = 40000; destination_port = 53; dns_offset = 28; dns_len = 21 }

ip_bytes-parsed : parse_ip ip_bytes 0 4 ≡ some ip_packet
unfolding parse_ip parse_ipv4 read_u16
ip_bytes-parsed = refl

ip_bytes-span : span_of ip_bytes ip_packet ≡ some sent_span
unfolding span_of span_udp read_u16
ip_bytes-span = refl

span_of-inside_example : (0 + 28 ≤ 28) × (12 ≤ 21) × (28 + 21 ≤ 49) × (49 ≤ length ip_bytes)
span_of-inside_example =
    span_of-inside ip_bytes 0 4 ip_packet sent_span ip_bytes-parsed ip_bytes-span

abbrev carrier : Carrier
carrier = record {
  source_ip = v4 (10 ∷ 0 ∷ 0 ∷ 2 ∷ []);
  destination_ip = v4 (8 ∷ 8 ∷ 8 ∷ 8 ∷ []);
  source_port = 40000;
  destination_port = 53;
  protocol = udp;
}

abbrev query : ParsedDnsMessage
query = record {
  is_query = true;
  source_ip = v4 (10 ∷ 0 ∷ 0 ∷ 2 ∷ []);
  destination_ip = v4 (8 ∷ 8 ∷ 8 ∷ 8 ∷ []);
  source_port = 40000;
  destination_port = 53;
  transaction_id = 7;
  domain = b'a' ∷ b'.' ∷ b'b' ∷ [];
  query_type = type_a;
  protocol = udp;
  response_code = none;
  response_ips = [];
  response_records = [];
}

query_bytes-parsed : parse_dns_message ascii query_bytes carrier ≡ some query
unfolding parse_dns_message read_u16 read_dns_name name_loop name_step follow_pointer read_label
    skip_questions read_answers dns_type_name
query_bytes-parsed = refl

parse_dns_message-limits_example :
    (length query.response_records ≤ 64)
    × (length query.response_ips ≤ length query.response_records)
    × (query.is_query ≡ true → (query.response_code ≡ none) × (query.response_records ≡ []))
parse_dns_message-limits_example =
    parse_dns_message-limits ascii query_bytes carrier query query_bytes-parsed

abbrev answer_ips : List (List ℕ)
answer_ips = (1 ∷ 2 ∷ 3 ∷ 4 ∷ []) ∷ []

parse_dns_message-encode_message_example :
    parse_dns_message ascii (encode_message 7 0x8180 net 1 1 answer_ips) carrier
    ≡ some (record {
      is_query = is_query_of 0x8180;
      source_ip = carrier.source_ip;
      destination_ip = carrier.destination_ip;
      source_port = 40000;
      destination_port = 53;
      transaction_id = 7;
      domain = to_ascii_lowercase (join_labels (map ascii net));
      query_type = dns_type_name 1;
      protocol = udp;
      response_code = if is_query_of 0x8180 then none else some (dns_response_code (0x8180 % 16));
      response_ips = if is_query_of 0x8180 then [] else map v4 answer_ips;
      response_records = if is_query_of 0x8180 then [] else map a_line answer_ips;
    })
parse_dns_message-encode_message_example =
    parse_dns_message-encode_message ascii 7 0x8180 net 1 1 answer_ips carrier
      ((omega arith, omega arith), tt) net-short (refl, tt) (omega arith)

abbrev response : ParsedDnsMessage
response = record query {
  is_query = false;
  source_ip = query.destination_ip;
  destination_ip = query.source_ip;
  source_port = 53;
  destination_port = 40000;
  response_code = some noerror;
  response_ips = v4 (1 ∷ 2 ∷ 3 ∷ 4 ∷ []) ∷ [];
}

abbrev phone : DeviceIdentity
phone = record { mac = 1 ∷ []; name = 2 ∷ []; iface = 3 ∷ [] }

-- A hash map that is iterated as it was filled.
abbrev as_filled : Seen → Seen
as_filled seen = seen

abbrev empty : DnsMonitor
empty = new true true 1 []

ingest_all-IsWellFormed_example : IsWellFormed (
    ingest_all as_filled
      (record { message = query; timestamp_ns = 5; timestamp_ms = 0; device = phone } ∷ [])
      (new true true 1 []))
ingest_all-IsWellFormed_example =
    ingest_all-IsWellFormed as_filled true true 1 []
      (record { message = query; timestamp_ns = 5; timestamp_ms = 0; device = phone } ∷ [])
      (omega arith)

few_ids : empty.next_id < 2 ^ 64 - 1
unfolding new
few_ids = omega arith

unseen : is_recent 5 query_dedup_window_ns (get (match_key query) empty.recent_queries) ≡ false
unfolding new get
unseen = refl

ingest-newest_example :
    records_for_persistence (ingest as_filled query 5 0 phone empty)
    ≡ last empty.max_records (records_for_persistence empty ++ (new_record query 0 phone ∷ []))
ingest-newest_example =
    ingest-newest as_filled query 5 0 phone empty (new-IsWellFormed true true 1 []) few_ids refl
      unseen

few_seen :
    length (insert (match_key query) 5 empty.recent_queries)
    ≤ min (empty.max_records * 2) (2 ^ 64 - 1)
unfolding new insert
few_seen = omega arith

ingest-duplicate_example :
    ingest as_filled query 9 1 phone (ingest as_filled query 5 0 phone empty)
    ≡ ingest as_filled query 5 0 phone empty
ingest-duplicate_example =
    ingest-duplicate as_filled query query 5 9 0 1 phone phone empty refl refl refl unseen
      (omega arith) few_seen

-- The query waits under its key.
abbrev tracked_query : TrackedQuery
tracked_query = record {
  observed_ns = 5;
  query_key = match_key query;
  tracked = new_record query 0 phone;
}

abbrev waiting : DnsMonitor
waiting = record empty {
  records = (1, tracked_query) ∷ [];
  order = 1 ∷ [];
  pending = (match_key query, 1 ∷ []) ∷ [];
  next_id = 2;
}

not_answered :
    is_recent 2000005 500000000 (get (match_key response) waiting.recent_responses) ≡ false
unfolding new get
not_answered = refl

is_waiting : get (match_key response) waiting.pending ≡ some ([] ++ (1 ∷ []))
unfolding get match_key DnsMatchKey-discrete ℕ_discrete
is_waiting = refl

is_held : get 1 waiting.records ≡ some tracked_query
unfolding get
is_held = refl

ingest-answer_example :
    (after : DnsMonitor) × (ingest as_filled response 2000005 3 phone waiting ≡ after)
    × (get 1 after.records
        ≡ some (record tracked_query {
          tracked = record tracked_query.tracked {
            response_code = some noerror;
            response_time_ms = some ((2000005 - 5) / 1000000);
            response_ips = v4 (1 ∷ 2 ∷ 3 ∷ 4 ∷ []) ∷ [];
            response_records = [];
          };
        }))
    × ((j : ℕ) → 1 ≢ j → get j after.records ≡ get j waiting.records)
    × (waiting_queue (get (match_key response) after.pending) ≡ [])
    × ((key : DnsMatchKey)
        → match_key response ≢ key
        → get key after.pending ≡ get key waiting.pending)
ingest-answer_example =
    ingest-answer as_filled response 2000005 3 phone waiting [] 1 [] tracked_query refl not_answered
      is_waiting tt is_held (omega arith)

abbrev saved : DnsQueryRecord
saved = new_record query 0 phone

restore_records-newest_example :
    (records_for_persistence (restore_records (saved ∷ saved ∷ []) (new true true 1 []))
      ≡ map marked (last (max 1 1) (saved ∷ saved ∷ [])))
    × IsWellFormed (restore_records (saved ∷ saved ∷ []) (new true true 1 []))
restore_records-newest_example =
    restore_records-newest true true 1 [] (saved ∷ saved ∷ []) (omega arith)
