-- ===== src/Dns/Key.antt =====
-- `DnsMatchKey` and `match_key` of bandix-plus/src/dns.rs.
use bandix_plus_lite.Base.{ℕ, if◌then◌else◌}
use bandix_plus_lite.Base.Map.{Eq}
use bandix_plus_lite.Base.Equality.{decided_eq}
use native.Mathlib.Decide.{ℕ_discrete}
use bandix_plus_lite.Base.Addresses.{IpAddr}
use bandix_plus_lite.Dns.Name.{Text}
use bandix_plus_lite.Dns.Message.{QueryType, ProtocolName, ParsedDnsMessage, to_ascii_lowercase}

-- `derive(Hash, PartialEq, Eq)`
pub record DnsMatchKey : Type 0 where
  pub client_ip : IpAddr
  pub client_port : ℕ
  pub transaction_id : ℕ
  pub domain : Text
  pub query_type : QueryType
  pub protocol : ProtocolName

unfoldable pub DnsMatchKey-discrete : Discrete DnsMatchKey
DnsMatchKey-discrete = hlevel ℕ_discrete

instance abbrev pub key_eq : Eq DnsMatchKey
key_eq = decided_eq DnsMatchKey-discrete

-- The names of the types are in upper case already.
unfoldable pub match_key : ParsedDnsMessage → DnsMatchKey
match_key m = record {
  client_ip = if m.is_query then m.source_ip else m.destination_ip;
  client_port = if m.is_query then m.source_port else m.destination_port;
  transaction_id = m.transaction_id;
  domain = to_ascii_lowercase m.domain;
  query_type = m.query_type;
  protocol = m.protocol;
}
