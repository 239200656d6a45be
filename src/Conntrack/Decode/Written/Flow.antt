-- ===== src/Conntrack/Decode/Written/Flow.antt =====
-- A flow as ctnetlink writes it, and what `parse_flow_message` makes of it
-- (bandix-plus/src/conntrack.rs).
use bandix_plus_lite.Base.{
  ℕ, ◌≤◌, ◌≡◌, ◌⊎◌, refl, List, [], ◌∷◌, map, some, none, true, false, ◌&&◌, ◌||◌, ◌==◌, ◌!=◌, ltb,
  leb, if◌then◌else◌, length, take_all, All, ok, arith,
}
use bandix_plus_lite.Base.Bytes.{from_be_acc}
use bandix_plus_lite.Conntrack.Netlink.{ByteOrder, align}
use bandix_plus_lite.Conntrack.Netlink.Encoding.{Attribute, IsAttribute}
use bandix_plus_lite.Conntrack.Decode.{
  tcp_state_name, status_flags, tcp_flow, udp_flow, read_u32_be, for_items, FlowFields,
  no_flow_fields, flow_body, parse_flow_message,
}
use bandix_plus_lite.Conntrack.Decode.Written.{
  attribute_sizes, length-encode_attributes, items_of-written, written, Addresses, AddressesFit,
  endpoint, tuple_attributes, parse_tuple-written, counter_attributes, parse_counters-written,
  state_attributes, parse_tcp_state-written, address_attributes, address_sizes, proto_attributes,
}

-- What a message tells of a flow; numbers of four and eight bytes are given by their bytes.
pub record FlowNotice : Type 0 where
  pub protocol : ℕ
  pub orig : Addresses
  pub orig_sport : ℕ
  pub orig_dport : ℕ
  pub reply : Addresses
  pub reply_sport : ℕ
  pub reply_dport : ℕ
  pub status : List ℕ
  pub state : ℕ
  pub orig_packets : List ℕ
  pub orig_bytes : List ℕ
  pub reply_packets : List ℕ
  pub reply_bytes : List ℕ
  pub id : List ℕ

pub record NoticeFits (n : FlowNotice) : Type 0 where
  pub known : (n.protocol ≡ 6) ⊎ (n.protocol ≡ 17)
  pub orig_fits : AddressesFit n.orig
  pub reply_fits : AddressesFit n.reply
  pub status_size : length n.status ≡ 4
  pub orig_sizes : (length n.orig_packets ≡ 8) × (length n.orig_bytes ≡ 8)
  pub reply_sizes : (length n.reply_packets ≡ 8) × (length n.reply_bytes ≡ 8)
  pub id_size : length n.id ≡ 4

module _ (order : ByteOrder) where
  abbrev pub flow_attributes : FlowNotice → List Attribute
  flow_attributes n =
      (1, written order (tuple_attributes order n.orig n.protocol n.orig_sport n.orig_dport))
      ∷ (2, written order (tuple_attributes order n.reply n.protocol n.reply_sport n.reply_dport))
      ∷ (3, n.status)
      ∷ (4, written order (state_attributes order n.state))
      ∷ (10, written order (counter_attributes order n.orig_packets n.orig_bytes))
      ∷ (11, written order (counter_attributes order n.reply_packets n.reply_bytes))
      ∷ (13, n.id)
      ∷ []

  tuple_size :
      (a : Addresses) (protocol sport dport : ℕ)
      → AddressesFit a
      → length (written order (tuple_attributes order a protocol sport dport)) ≤ 100
  unfolding attribute_sizes align
  tuple_size a protocol sport dport h = omega (
    arith,
    length-encode_attributes order (tuple_attributes order a protocol sport dport) [],
    length-encode_attributes order (address_attributes a) [],
    address_sizes order a h,
    length-encode_attributes order (proto_attributes protocol sport dport) [],
  )

  counter_size :
      (packets bytes : List ℕ)
      → length packets ≡ 8
      → length bytes ≡ 8
      → length (written order (counter_attributes order packets bytes)) ≤ 100
  unfolding attribute_sizes align
  counter_size packets bytes p b =
      omega
        (arith, p, b, length-encode_attributes order (counter_attributes order packets bytes) [])

  state_size : (state : ℕ) → length (written order (state_attributes order state)) ≤ 100
  unfolding attribute_sizes align
  state_size state = omega (
    arith,
    length-encode_attributes order (state_attributes order state) [],
    length-encode_attributes order ((1, state ∷ []) ∷ []) [],
  )

  flow_attributes-fit : (n : FlowNotice) → NoticeFits n → All IsAttribute (flow_attributes n)
  flow_attributes-fit n v =
      let t1 = tuple_size n.orig n.protocol n.orig_sport n.orig_dport v.orig_fits in
      let t2 = tuple_size n.reply n.protocol n.reply_sport n.reply_dport v.reply_fits in
      let c1 = counter_size n.orig_packets n.orig_bytes v.orig_sizes.0 v.orig_sizes.1 in
      let c2 = counter_size n.reply_packets n.reply_bytes v.reply_sizes.0 v.reply_sizes.1 in
      (
        (omega arith, omega (arith, t1)),
        (
          (omega arith, omega (arith, t2)),
          (
            (omega arith, omega (arith, v.status_size)),
            (
              (omega arith, omega (arith, state_size n.state)),
              (
                (omega arith, omega (arith, c1)),
                ((omega arith, omega (arith, c2)), ((omega arith, omega (arith, v.id_size)), tt)),
              ),
            ),
          ),
        ),
      )

  -- The fields once all attributes are seen.
  abbrev noticed : FlowNotice → FlowFields
  noticed n = record {
    orig = some (n.protocol, endpoint n.orig n.orig_sport n.orig_dport);
    reply = some (n.protocol, endpoint n.reply n.reply_sport n.reply_dport);
    status = some (from_be_acc 0 n.status);
    protoinfo = some (tcp_state_name n.state);
    orig_counters = (from_be_acc 0 n.orig_packets, from_be_acc 0 n.orig_bytes);
    reply_counters = (from_be_acc 0 n.reply_packets, from_be_acc 0 n.reply_bytes);
    id = some (from_be_acc 0 n.id);
  }

  read_u32_be-four :
      (value : List ℕ) → length value ≡ 4 → read_u32_be value ≡ some (from_be_acc 0 value)
  unfolding read_u32_be
  read_u32_be-four value h =
      let l : leb 4 (length value) ≡ true = ground (arith, h) in
      let t = take_all value 4 (omega (arith, h)) in simp (l, t)

  for_items-flow :
      (n : FlowNotice)
      → NoticeFits n
      → for_items (flow_body order) (map ok (flow_attributes n)) no_flow_fields ≡ ok (noticed n)
  unfolding for_items flow_body
  for_items-flow n v =
      rw
        (
          parse_tuple-written order n.orig n.protocol n.orig_sport n.orig_dport v.orig_fits,
          parse_tuple-written order n.reply n.protocol n.reply_sport n.reply_dport v.reply_fits,
          read_u32_be-four n.status v.status_size,
          parse_tcp_state-written order n.state,
          parse_counters-written order n.orig_packets n.orig_bytes v.orig_sizes.0 v.orig_sizes.1,
          parse_counters-written order n.reply_packets n.reply_bytes v.reply_sizes.0
              v.reply_sizes.1,
          read_u32_be-four n.id v.id_size,
        )
        refl

  -- A TCP or UDP flow that is written with both tuples, status, state, counters and identifier is
  -- parsed into what was written: the endpoints of both directions, the counters in the right
  -- fields, the flags of the status, and the state for TCP only. Each tuple has addresses of one
  -- family.
  pub parse_flow_message-written :
      (n : FlowNotice) (family version res_high res_low : ℕ)
      → NoticeFits n
      → parse_flow_message order
          (family ∷ version ∷ res_high ∷ res_low ∷ written order (flow_attributes n))
        ≡ ok (
            some (record {
              key = record {
                protocol = n.protocol;
                orig = endpoint n.orig n.orig_sport n.orig_dport;
                reply = endpoint n.reply n.reply_sport n.reply_dport;
              };
              id = some (from_be_acc 0 n.id);
              flow = record {
                id = some (from_be_acc 0 n.id);
                protocol = if n.protocol == 6 then tcp_flow else udp_flow;
                state = if n.protocol == 6 then some (tcp_state_name n.state) else none;
                orig = endpoint n.orig n.orig_sport n.orig_dport;
                reply = endpoint n.reply n.reply_sport n.reply_dport;
                orig_packets = from_be_acc 0 n.orig_packets;
                orig_bytes = from_be_acc 0 n.orig_bytes;
                reply_packets = from_be_acc 0 n.reply_packets;
                reply_bytes = from_be_acc 0 n.reply_bytes;
                flags = status_flags (from_be_acc 0 n.status);
              };
            }))
  unfolding parse_flow_message
  parse_flow_message-written n family version res_high res_low v =
      let long : ltb
            (length (family ∷ version ∷ res_high ∷ res_low ∷ written order (flow_attributes n))) 4
          ≡ false =
        ground arith in
      let known : (n.protocol != n.protocol || (n.protocol != 6 && n.protocol != 17)) ≡ false =
        ground (arith, v.known) in
      rw
        (
          long,
          items_of-written order (flow_attributes n) (flow_attributes-fit n v),
          for_items-flow n v,
          known,
        )
        refl
