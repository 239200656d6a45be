-- ===== src/Ebpf/Tests.antt =====
-- Runs of the classifiers on concrete packets and maps (bandix-plus-ebpf/src/main.rs).
use bandix_plus_lite.Base.{
  ℕ, ◌+◌, ◌≡◌, ◌⊎◌, refl, sym, ap, ◌∙◌, List, [], ◌∷◌, ◌++◌, replicate, get_or, take, length,
  Option, some, none, true, ltb, ◌==◌, if◌then◌else◌, arith,
}
use bandix_plus_lite.Base.Bytes.{saturating_add}
use bandix_plus_lite.Base.Map.{Eq, nat_eq, get, insert, get-insert_self, get-insert_ne}
use bandix_plus_lite.Ebpf.Common.{InterfaceTrafficKey, TrafficValue}
use bandix_plus_lite.Ebpf.Context.{TcContext, ptr_at, packet_u16}
use bandix_plus_lite.Ebpf.Meta.{PacketMeta}
use bandix_plus_lite.Ebpf.Dns.{
  is_dns_packet, transport_of, transport_v4, dns_span, dns_span_udp, is_dns_header,
}
use bandix_plus_lite.Ebpf.Dns.Bounds.{MessageAt, is_dns_packet-MessageAt}
use bandix_plus_lite.Ebpf.Counters.{KernelMap}
use bandix_plus_lite.Ebpf.Program.{Config, State, capture_dns_packet, try_bandix_plus}
use bandix_plus_lite.Ebpf.Program.Accounting.{
  Packet, key_beq, key_beq_iff, run, packet_count, byte_count, run-counts,
}
use bandix_plus_lite.Ebpf.Program.Capture.{Submitted, Withheld, capture_cases}
use bandix_plus_lite.Ebpf.Program.Excluded.{IsManagementFrame, to_router, excluded-unchanged}

module _ {K V : Type 0} ⦃e : Eq K⦄ where
  -- A hash map with room for four entries.
  abbrev insert_bounded : K → V → List (K × V) → Option (List (K × V))
  insert_bounded k v m = if ltb (length m) 4 then some (insert k v m) else none

  insert_bounded-some :
      (k : K) (v : V) (m m' : List (K × V)) → insert_bounded k v m ≡ some m' → insert k v m ≡ m'
  insert_bounded-some k v m m' h = ground arith

  abbrev bounded_map : KernelMap (List (K × V)) K V
  bounded_map = record {
    get = get;
    write = insert;
    insert = insert_bounded;
    get-write_self = λ k v w m h. get-insert_self k v m;
    get-write_ne = λ k j v m h. get-insert_ne k j v m h;
    get-insert_self =
        λ k v m m' h. ap (get k) (sym (insert_bounded-some k v m m' h)) ∙ get-insert_self k v m;
    get-insert_ne = λ k j v m m' h ne.
        ap (get j) (sym (insert_bounded-some k v m m' h)) ∙ get-insert_ne k j v m ne;
  }

instance abbrev iface_key_eq : Eq InterfaceTrafficKey
iface_key_eq = record { beq = key_beq; beq_iff = key_beq_iff }

-- A hash map without room for any entry.
abbrev full_map : {K V : Type 0} → KernelMap (Unit {0}) K V
full_map = record {
  get = λ k m. none;
  write = λ k v m. m;
  insert = λ k v m. none;
  get-write_self = λ k v w m h. cc h;
  get-write_ne = λ k j v m h. refl;
  get-insert_self = λ k v m m' h. cc h;
  get-insert_ne = λ k j v m m' h ne. cc h;
}

-- A frame in linear memory from address 0.
abbrev context_of : List ℕ → TcContext
context_of bytes = record {
  start = 0;
  end = length bytes;
  memory = λ a. get_or bytes a 0;
  load = λ offset n.
      if ltb (length bytes) (offset + n) then none else some (λ i. get_or bytes (offset + i) 0);
  skb_load_bytes = λ n. some (take n bytes);
  len = length bytes;
  ifindex = 3;
  slot_free = true;
  ktime_ns = 77;
}

abbrev eth_header : List ℕ
eth_header = 2 ∷ 0 ∷ 0 ∷ 0 ∷ 0 ∷ 9 ∷ 2 ∷ 0 ∷ 0 ∷ 0 ∷ 0 ∷ 1 ∷ 8 ∷ 0 ∷ []

abbrev ipv4_header : ℕ → ℕ → List ℕ
ipv4_header total_len protocol =
    0x45 ∷ 0 ∷ 0 ∷ total_len ∷ 0 ∷ 0 ∷ 0 ∷ 0 ∷ 64 ∷ protocol ∷ 0 ∷ 0 ∷ 192 ∷ 168 ∷ 1 ∷ 5 ∷ 192 ∷ 168
    ∷ 1 ∷ 1 ∷ []

-- A DNS query from 192.168.1.5.
abbrev dns_query : TcContext
dns_query = context_of (
    eth_header
    ++ ipv4_header 40 17
    ++ (0x30 ∷ 0x39 ∷ 0 ∷ 53 ∷ 0 ∷ 20 ∷ 0 ∷ 0 ∷ [])
    ++ (0x12 ∷ 0x34 ∷ 1 ∷ 0 ∷ 0 ∷ 1 ∷ 0 ∷ 0 ∷ 0 ∷ 0 ∷ 0 ∷ 0 ∷ []))

-- A TCP segment to port 8686 of 192.168.1.1.
abbrev management_segment : TcContext
management_segment =
    context_of
      (eth_header ++ ipv4_header 40 6 ++ (0x30 ∷ 0x39 ∷ 0x21 ∷ 0xEE ∷ []) ++ replicate 16 0)

abbrev config : Config
config = record {
  filters = record {
    management_ports = λ p. p == 8686;
    router_local_ips = λ key. get_or key.ip 0 0 == 0xC0A80101;
  };
  dns_enabled = 1;
  track_devices = λ ifindex. some 1;
}

abbrev lan_ingress_v4 : InterfaceTrafficKey
lan_ingress_v4 = record { ifindex = 3; ip_version = 4; direction = 1 }

abbrev Start : Type 0
Start = State (List (InterfaceTrafficKey × TrafficValue)) (Unit {0}) (Unit {0})

-- One packet is counted already.
abbrev counted_one : Start
counted_one = record {
  iface = (lan_ingress_v4, record { packets = 1; bytes = 100 }) ∷ [];
  device = record { stats = tt; failures = tt };
  events = [];
}

dns_query-accepted : is_dns_packet dns_query 14 4 54 ≡ true
unfolding is_dns_packet transport_of transport_v4 ptr_at dns_span dns_span_udp is_dns_header
    packet_u16
dns_query-accepted = refl

is_dns_packet_example : MessageAt dns_query 14 4 54
is_dns_packet_example = is_dns_packet-MessageAt dns_query 14 4 54 dns_query-accepted

abbrev query_meta : PacketMeta
query_meta = record { ip_version = 4; mac = none; ip_offset = 14 }

capture_example :
    ((capture_dns_packet dns_query 1 query_meta [] ≡ []) × Withheld dns_query query_meta)
    ⊎ Submitted dns_query 1 query_meta [] (capture_dns_packet dns_query 1 query_meta [])
capture_example = capture_cases dns_query 1 query_meta []

abbrev two_packets : List Packet
two_packets = (dns_query, 1) ∷ (management_segment, 1) ∷ []

counted_present : get lan_ingress_v4 counted_one.iface ≡ some (record { packets = 1; bytes = 100 })
unfolding get
counted_present = refl

run_example :
    (w : TrafficValue) × (get lan_ingress_v4
        (run bounded_map full_map full_map config two_packets counted_one).iface
      ≡ some w)
    × (w.packets ≡ saturating_add 1 (packet_count config lan_ingress_v4 two_packets))
    × (w.bytes ≡ saturating_add 100 (byte_count config lan_ingress_v4 two_packets))
run_example =
    run-counts bounded_map full_map full_map config two_packets lan_ingress_v4 counted_one
      (record { packets = 1; bytes = 100 }) counted_present (omega arith) (omega arith)

management_segment-IsManagementFrame : IsManagementFrame config.filters management_segment 1
management_segment-IsManagementFrame = record {
  header_len = 20;
  port_at = 2;
  address_at = 16;
  side = to_router;
  whole = omega arith;
  is_ipv4 = refl;
  lengthened = refl;
  long_enough = omega arith;
  is_tcp = refl;
  unfragmented = refl;
  port = refl;
  address = refl;
}

excluded_example :
    try_bandix_plus bounded_map full_map full_map config management_segment 1 counted_one
    ≡ counted_one
excluded_example =
    excluded-unchanged bounded_map full_map full_map config management_segment 1 counted_one
      management_segment-IsManagementFrame
