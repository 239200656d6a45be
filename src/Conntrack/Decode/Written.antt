-- ===== src/Conntrack/Decode/Written.antt =====
-- The parts of a flow as ctnetlink writes them, and what the parsers make of them
-- (bandix-plus/src/conntrack.rs).
pub mod Flow
use bandix_plus_lite.Base.{
  ℕ, zero, suc, ◌+◌, ◌-◌, ◌*◌, ◌/◌, ◌%◌, ◌^◌, ◌<◌, ◌≤◌, ◌≡◌, refl, sym, ap, ap₂, ◌∙◌, List, [], ◌∷◌,
  ◌++◌, map, Option, some, none, Bool, true, false, ◌&&◌, ◌||◌, ◌==◌, ◌!=◌, ltb, leb, if◌then◌else◌,
  length, drop, take, take_all, replicate, length-append, length-replicate, All, Result, ok, err,
  ◌>>=◌, arith,
}
use bandix_plus_lite.Base.Bytes.{from_be_acc}
use bandix_plus_lite.Base.Addresses.{IpAddr, v4, v6}
use bandix_plus_lite.Conntrack.Netlink.{ByteOrder, align, Item, attributes}
use bandix_plus_lite.Conntrack.Netlink.Encoding.{
  Attribute, IsAttribute, encode_attributes, attributes-encoded,
}
use bandix_plus_lite.Conntrack.Flows.{ParsedFlow}
use bandix_plus_lite.Conntrack.Decode.{
  FlowError, EndpointKey, FlowKey, TcpState, tcp_state_name, status_flags, tcp_flow, udp_flow,
  ConnectionFlow, read_be, read_u32_be, first_byte, for_items, TupleFields, no_fields, tuple_ip,
  tuple_proto, tuple_of, flattened, search_tcp, search_result, FlowFields, no_flow_fields,
  counters_body, flags_of, Parsed, finish_flow, items_of, tuple_body, parse_tuple, search_protoinfo,
  parse_tcp_state, parse_counters, flow_body, parse_flow_message,
}

module _ (order : ByteOrder) where
  unfoldable pub attribute_sizes : List Attribute → ℕ
  unfolding align
  attribute_sizes [] = 0
  attribute_sizes ((kind, value) ∷ rest) = align (4 + length value) 4 + attribute_sizes rest

  pub length-encode_attributes :
      (attrs : List Attribute) (tail : List ℕ)
      → length (encode_attributes order attrs tail) ≡ attribute_sizes attrs + length tail
  unfolding encode_attributes attribute_sizes align
  length-encode_attributes [] tail = omega arith
  length-encode_attributes ((kind, value) ∷ rest) tail =
      let more = encode_attributes order rest tail in
      let pad : List ℕ = replicate ((4 + length value + 4 - 1) / 4 * 4 - (4 + length value)) 0 in
      omega (
        arith,
        length-append (order.to_ne_bytes 2 (4 + length value))
            (order.to_ne_bytes 2 kind ++ (value ++ (pad ++ more))),
        length-append (order.to_ne_bytes 2 kind) (value ++ (pad ++ more)),
        length-append value (pad ++ more),
        length-append pad more,
        order.length-to_ne_bytes 2 (4 + length value),
        order.length-to_ne_bytes 2 kind,
        length-replicate {A = ℕ} ((4 + length value + 4 - 1) / 4 * 4 - (4 + length value)) 0,
        length-encode_attributes rest tail,
      )

  sizes-ge : (attrs : List Attribute) → length attrs ≤ attribute_sizes attrs
  unfolding attribute_sizes align
  sizes-ge [] = omega arith
  sizes-ge ((kind, value) ∷ rest) = omega (arith, sizes-ge rest)

  -- Attributes that are written are seen by the loop, with nothing behind them.
  pub items_of-written :
      (attrs : List Attribute)
      → All IsAttribute attrs
      → items_of order (encode_attributes order attrs []) ≡ map ok attrs
  items_of-written attrs fits =
      let buffer = encode_attributes order attrs [] in
      attributes-encoded order attrs 0 (length buffer + 1) fits
        (omega (arith, length-encode_attributes attrs [], sizes-ge attrs))

  abbrev pub written : List Attribute → List ℕ
  written attrs = encode_attributes order attrs []

-- The addresses of a tuple, of one family.
pub data Addresses : Type 0 where
  four sixteen : List ℕ → List ℕ → Addresses

abbrev pub AddressesFit : Addresses → Type 0
AddressesFit (four src dst) = (length src ≡ 4) × (length dst ≡ 4)
AddressesFit (sixteen src dst) = (length src ≡ 16) × (length dst ≡ 16)

abbrev pub source_of : Addresses → IpAddr
source_of (four src dst) = v4 src
source_of (sixteen src dst) = v6 src

abbrev pub destination_of : Addresses → IpAddr
destination_of (four src dst) = v4 dst
destination_of (sixteen src dst) = v6 dst

abbrev pub address_attributes : Addresses → List Attribute
address_attributes (four src dst) = (1, src) ∷ (2, dst) ∷ []
address_attributes (sixteen src dst) = (3, src) ∷ (4, dst) ∷ []

abbrev pub proto_attributes : ℕ → ℕ → ℕ → List Attribute
proto_attributes protocol sport dport =
    (1, protocol ∷ [])
    ∷ (2, (sport / 256) ∷ (sport % 256) ∷ [])
    ∷ (3, (dport / 256) ∷ (dport % 256) ∷ [])
    ∷ []

abbrev pub endpoint : Addresses → ℕ → ℕ → EndpointKey
endpoint addresses sport dport = record {
  src = source_of addresses;
  dst = destination_of addresses;
  sport = sport;
  dport = dport;
}

module _ (order : ByteOrder) where
  abbrev pub tuple_attributes : Addresses → ℕ → ℕ → ℕ → List Attribute
  tuple_attributes addresses protocol sport dport =
      (1, written order (address_attributes addresses))
      ∷ (2, written order (proto_attributes protocol sport dport))
      ∷ []

  address_attributes-fit : (a : Addresses) → AddressesFit a → All IsAttribute (address_attributes a)
  address_attributes-fit (four src dst) h =
      ((omega arith, omega (arith, h.0)), ((omega arith, omega (arith, h.1)), tt))
  address_attributes-fit (sixteen src dst) h =
      ((omega arith, omega (arith, h.0)), ((omega arith, omega (arith, h.1)), tt))

  proto_attributes-fit :
      (protocol sport dport : ℕ) → All IsAttribute (proto_attributes protocol sport dport)
  proto_attributes-fit protocol sport dport =
      ((omega arith, omega arith), ((omega arith, omega arith), ((omega arith, omega arith), tt)))

  pub address_sizes :
      (a : Addresses) → AddressesFit a → attribute_sizes order (address_attributes a) ≤ 40
  unfolding attribute_sizes align
  address_sizes (four src dst) h = omega (arith, h.0, h.1)
  address_sizes (sixteen src dst) h = omega (arith, h.0, h.1)

  tuple_attributes-fit :
      (a : Addresses) (protocol sport dport : ℕ)
      → AddressesFit a
      → All IsAttribute (tuple_attributes a protocol sport dport)
  unfolding attribute_sizes align
  tuple_attributes-fit a protocol sport dport h = (
    (
      omega arith,
      omega (arith, length-encode_attributes order (address_attributes a) [], address_sizes a h),
    ),
    (
      (
        omega arith,
        omega (arith, length-encode_attributes order (proto_attributes protocol sport dport) []),
      ),
      tt,
    ),
  )

  for_items-address :
      (a : Addresses)
      → AddressesFit a
      → for_items (λ k b t. ok (tuple_ip k b t)) (map ok (address_attributes a)) no_fields
        ≡ ok (record no_fields { src = some (source_of a); dst = some (destination_of a) })
  unfolding for_items tuple_ip
  for_items-address (four src dst) h =
      let ls : leb 4 (length src) ≡ true = ground (arith, h.0) in
      let ld : leb 4 (length dst) ≡ true = ground (arith, h.1) in
      let ts = take_all src 4 (omega (arith, h.0)) in
      let td = take_all dst 4 (omega (arith, h.1)) in simp (ls, ld, ts, td)
  for_items-address (sixteen src dst) h =
      let ls : leb 16 (length src) ≡ true = ground (arith, h.0) in
      let ld : leb 16 (length dst) ≡ true = ground (arith, h.1) in
      let ts = take_all src 16 (omega (arith, h.0)) in
      let td = take_all dst 16 (omega (arith, h.1)) in simp (ls, ld, ts, td)

  for_items-proto :
      (protocol sport dport : ℕ) (t : TupleFields)
      → for_items
          (λ k b t. ok (tuple_proto k b t))
          (map ok (proto_attributes protocol sport dport))
          t
        ≡ ok (record t { protocol = some protocol; sport = some sport; dport = some dport })
  unfolding for_items tuple_proto
  for_items-proto protocol sport dport t =
      let whole : (n : ℕ) → (0 * 256 + n / 256) * 256 + n % 256 ≡ n = λ n. omega arith in
      λ j. ok (record t {
        protocol = some protocol;
        sport = some (whole sport j);
        dport = some (whole dport j);
      })

  pub parse_tuple-written :
      (a : Addresses) (protocol sport dport : ℕ)
      → AddressesFit a
      → parse_tuple order (written order (tuple_attributes a protocol sport dport))
        ≡ ok (some (protocol, endpoint a sport dport))
  unfolding parse_tuple for_items tuple_body
  parse_tuple-written a protocol sport dport h =
      let addressed : TupleFields = record no_fields {
        src = some (source_of a);
        dst = some (destination_of a);
      } in
      let ip : for_items (λ k b t. ok (tuple_ip k b t))
            (items_of order (written order (address_attributes a))) no_fields
          ≡ ok addressed =
        ap (λ its. for_items (λ k b t. ok (tuple_ip k b t)) its no_fields)
          (items_of-written order (address_attributes a) (address_attributes-fit a h))
        ∙ for_items-address a h in
      let proto : for_items (λ k b t. ok (tuple_proto k b t))
            (items_of order (written order (proto_attributes protocol sport dport))) addressed
          ≡ ok (record addressed {
            protocol = some protocol;
            sport = some sport;
            dport = some dport;
          }) =
        ap (λ its. for_items (λ k b t. ok (tuple_proto k b t)) its addressed)
          (items_of-written order (proto_attributes protocol sport dport)
            (proto_attributes-fit protocol sport dport))
        ∙ for_items-proto protocol sport dport addressed in
      rw
        (
          items_of-written order (tuple_attributes a protocol sport dport)
              (tuple_attributes-fit a protocol sport dport h),
          ip,
          proto,
        )
        refl

  -- Counters of eight bytes each, most significant first.
  abbrev pub counter_attributes : List ℕ → List ℕ → List Attribute
  counter_attributes packets bytes = (1, packets) ∷ (2, bytes) ∷ []

  pub parse_counters-written :
      (packets bytes : List ℕ)
      → length packets ≡ 8
      → length bytes ≡ 8
      → parse_counters order (written order (counter_attributes packets bytes))
        ≡ ok (from_be_acc 0 packets, from_be_acc 0 bytes)
  unfolding parse_counters for_items
  parse_counters-written packets bytes p b =
      let lp : leb 8 (length packets) ≡ true = ground (arith, p) in
      let lb : leb 8 (length bytes) ≡ true = ground (arith, b) in
      let tp = take_all packets 8 (omega (arith, p)) in
      let tb = take_all bytes 8 (omega (arith, b)) in
      rw
        (items_of-written order (counter_attributes packets bytes)
          ((omega arith, omega (arith, p)), ((omega arith, omega (arith, b)), tt)))
        (simp (lp, lb, tp, tb))

  -- The state of a TCP connection, inside the protocol information.
  abbrev pub state_attributes : ℕ → List Attribute
  state_attributes state = (1, written order ((1, state ∷ []) ∷ [])) ∷ []

  state_attributes-fit : (state : ℕ) → All IsAttribute (state_attributes state)
  unfolding attribute_sizes align
  state_attributes-fit state =
      ((omega arith, omega (arith, length-encode_attributes order ((1, state ∷ []) ∷ []) [])), tt)

  pub parse_tcp_state-written :
      (state : ℕ)
      → parse_tcp_state order (written order (state_attributes state)) ≡ some (tcp_state_name state)
  unfolding parse_tcp_state
  parse_tcp_state-written state =
      rw (items_of-written order (state_attributes state) (state_attributes-fit state))
        (rw (items_of-written order ((1, state ∷ []) ∷ []) ((omega arith, omega arith), tt)) refl)
