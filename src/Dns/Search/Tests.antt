-- ===== src/Dns/Search/Tests.antt =====
-- A query without filters on a monitor with one record (bandix-plus/src/dns.rs).
use bandix_plus_lite.Base.{◌<◌, ◌^◌, ◌≡◌, ◌↔◌, [], ◌∷◌, some, none, true, length, arith}
use bandix_plus_lite.Base.Addresses.{v4}
use bandix_plus_lite.Base.Map.{get}
use bandix_plus_lite.Dns.Message.{type_a, udp}
use bandix_plus_lite.Dns.Key.{DnsMatchKey}
use bandix_plus_lite.Dns.Store.{DnsQueryRecord, DnsMonitor, records_for_persistence}
use bandix_plus_lite.Dns.Search.{Texts, DnsQueriesQuery, matches, queries}
use bandix_plus_lite.Dns.Search.Pages.{IsFound, newest_found, first_pages, queries-pages}

-- Every value is written as the empty text, which is in every text.
abbrev blank : Texts
blank = record {
  ip_text = λ ip. [];
  type_text = λ kind. [];
  code_text = λ code. [];
  answer_text = λ line. [];
  protocol_text = λ protocol. [];
  trim = λ t. t;
  contains_text = λ hay needle. true;
}

abbrev everything : DnsQueriesQuery
everything = record {
  domain = none;
  device = none;
  dns_server = none;
  query_type = none;
  result = none;
  iface = none;
  protocol = none;
  page = none;
  page_size = some 1;
}

abbrev asked : DnsQueryRecord
asked = record {
  timestamp = 5;
  domain = b'a' ∷ [];
  query_type = type_a;
  response_code = none;
  response_time_ms = none;
  source_ip = v4 (10 ∷ 0 ∷ 0 ∷ 2 ∷ []);
  destination_ip = v4 (8 ∷ 8 ∷ 8 ∷ 8 ∷ []);
  source_port = 40000;
  destination_port = 53;
  transaction_id = 7;
  is_query = true;
  protocol = udp;
  response_ips = [];
  response_records = [];
  device_mac = [];
  device_name = [];
  iface = [];
}

abbrev asked_key : DnsMatchKey
asked_key = record {
  client_ip = asked.source_ip;
  client_port = 40000;
  transaction_id = 7;
  domain = asked.domain;
  query_type = type_a;
  protocol = udp;
}

abbrev with_one : DnsMonitor
with_one = record {
  enabled = true;
  persistence_enabled = true;
  monitored_interfaces = [];
  max_records = 5;
  records = (1, record { observed_ns = 5; query_key = asked_key; tracked = asked }) ∷ [];
  order = 1 ∷ [];
  pending = [];
  recent_queries = [];
  recent_responses = [];
  next_id = 2;
  capture_parse_errors = 0;
}

one_match : length (newest_found blank everything (records_for_persistence with_one)) < 2 ^ 64
unfolding newest_found records_for_persistence matches get
one_match = omega arith

queries-pages_example :
    (first_pages blank everything with_one (queries blank everything with_one).total_pages
      ≡ newest_found blank everything (records_for_persistence with_one))
    × ((r : DnsQueryRecord) → (matches blank everything r ≡ true) ↔ IsFound blank everything r)
queries-pages_example = queries-pages blank everything with_one one_match
