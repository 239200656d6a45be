-- ===== src/Conntrack/Decode.antt =====
-- `parse_flow_message` and the functions it calls, and `apply_event_messages`, of
-- bandix-plus/src/conntrack.rs. Names of states, protocols and flags are values, and the addresses
-- of an endpoint are kept as they are, where the code formats them.
pub mod Written
pub mod Events
mod Tests
use bandix_plus_lite.Base.{
  ℕ, zero, suc, ◌+◌, ◌-◌, ◌*◌, ◌/◌, ◌%◌, ◌^◌, List, [], ◌∷◌, ◌++◌, Option, some, none, Bool, true,
  false, ◌&&◌, ◌||◌, ◌==◌, ◌!=◌, ltb, leb, if◌then◌else◌, length, get_or, drop, take, Result, ok,
  err, ◌>>=◌, ◌≡◌,
}
use bandix_plus_lite.Base.Bytes.{from_be_acc}
use bandix_plus_lite.Base.Map.{Eq}
use bandix_plus_lite.Base.Equality.{decided_eq}
use bandix_plus_lite.Base.Addresses.{IpAddr, v4, v6}
use native.Mathlib.Decide.{ℕ_discrete}
use bandix_plus_lite.Conntrack.Netlink.{
  ByteOrder, NetlinkError, Item, next_message, attributes, yielded,
}
use bandix_plus_lite.Conntrack.Flows.{ConntrackState, ParsedFlow, insert_flow, remove_flow}

-- What is reported: an error of an iterator, a message without its header, an overrun, a code.
pub data FlowError : Type 0 where
  malformed : NetlinkError → FlowError
  no_nfgenmsg overrun : FlowError
  event_error : ℕ → FlowError

pub record EndpointKey : Type 0 where
  pub src : IpAddr
  pub dst : IpAddr
  pub sport : ℕ
  pub dport : ℕ

pub record FlowKey : Type 0 where
  pub protocol : ℕ
  pub orig : EndpointKey
  pub reply : EndpointKey

unfoldable pub FlowKey-discrete : Discrete FlowKey
FlowKey-discrete = hlevel ℕ_discrete

instance abbrev pub flow_key_eq : Eq FlowKey
flow_key_eq = decided_eq FlowKey-discrete

pub data TcpState : Type 0 where
  syn_sent syn_recv established fin_wait close_wait last_ack closing time_wait closed listening
        syn_sent2 no_state :
      TcpState

unfoldable pub tcp_state_name : ℕ → TcpState
tcp_state_name state =
    if state == 1
    then syn_sent
    else if state == 2
    then syn_recv
    else if state == 3
    then established
    else if state == 4
    then fin_wait
    else if state == 5
    then close_wait
    else if state == 6
    then last_ack
    else if state == 7
    then closing
    else if state == 8
    then time_wait
    else if state == 9
    then closed
    else if state == 10
    then listening
    else if state == 11
    then syn_sent2
    else no_state

pub data StatusFlag : Type 0 where
  seen_reply assured confirmed src_nat dst_nat dying offload hw_offload : StatusFlag

-- `status & (1 << bit) != 0`
abbrev pub flag_if : ℕ → ℕ → StatusFlag → List StatusFlag
flag_if status bit flag = if status / 2 ^ bit % 2 == 1 then flag ∷ [] else []

unfoldable pub status_flags : ℕ → List StatusFlag
status_flags status =
    flag_if status 1 seen_reply
    ++ flag_if status 2 assured
    ++ flag_if status 3 confirmed
    ++ flag_if status 4 src_nat
    ++ flag_if status 5 dst_nat
    ++ flag_if status 9 dying
    ++ flag_if status 14 offload
    ++ flag_if status 15 hw_offload

pub data FlowProtocol : Type 0 where
  tcp_flow udp_flow : FlowProtocol

-- `endpoint_from_key` copies an endpoint, so the endpoints of a flow are those of its key.
pub record ConnectionFlow : Type 0 where
  pub id : Option ℕ
  pub protocol : FlowProtocol
  pub state : Option TcpState
  pub orig : EndpointKey
  pub reply : EndpointKey
  pub orig_packets : ℕ
  pub orig_bytes : ℕ
  pub reply_packets : ℕ
  pub reply_bytes : ℕ
  pub flags : List StatusFlag

abbrev pub read_be : ℕ → List ℕ → ℕ
read_be size value = from_be_acc 0 (take size value)

unfoldable pub read_u32_be : List ℕ → Option ℕ
read_u32_be value = if leb 4 (length value) then some (read_be 4 value) else none

abbrev pub first_byte : List ℕ → Option ℕ
first_byte [] = none
first_byte (b ∷ bs) = some b

-- A `for` loop over the items of an iterator, which stops at the first error.
unfoldable pub for_items :
    {S : Type 0} → (ℕ → List ℕ → S → Result FlowError S) → List Item → S → Result FlowError S
for_items body [] s = ok s
for_items body (err e ∷ items) s = err (malformed e)
for_items body (ok (kind, value) ∷ items) s = body kind value s >>= for_items body items

-- The variables of `parse_tuple`.
pub record TupleFields : Type 0 where
  pub src : Option IpAddr
  pub dst : Option IpAddr
  pub protocol : Option ℕ
  pub sport : Option ℕ
  pub dport : Option ℕ

abbrev pub no_fields : TupleFields
no_fields = record { src = none; dst = none; protocol = none; sport = none; dport = none }

unfoldable pub tuple_ip : ℕ → List ℕ → TupleFields → TupleFields
tuple_ip kind bytes s =
    if kind == 1 && leb 4 (length bytes)
    then record s { src = some (v4 (take 4 bytes)) }
    else if kind == 2 && leb 4 (length bytes)
    then record s { dst = some (v4 (take 4 bytes)) }
    else if kind == 3 && leb 16 (length bytes)
    then record s { src = some (v6 (take 16 bytes)) }
    else if kind == 4 && leb 16 (length bytes)
    then record s { dst = some (v6 (take 16 bytes)) }
    else s

unfoldable pub tuple_proto : ℕ → List ℕ → TupleFields → TupleFields
tuple_proto kind bytes s =
    if kind == 1
    then record s { protocol = first_byte bytes }
    else if kind == 2 && leb 2 (length bytes)
    then record s { sport = some (read_be 2 bytes) }
    else if kind == 3 && leb 2 (length bytes)
    then record s { dport = some (read_be 2 bytes) }
    else s

abbrev pub tuple_of :
    Option IpAddr → Option IpAddr → Option ℕ → Option ℕ → Option ℕ → Option (ℕ × EndpointKey)
tuple_of (some src) (some dst) (some protocol) (some sport) (some dport) =
    some (protocol, record { src = src; dst = dst; sport = sport; dport = dport })
tuple_of _ _ _ _ _ = none

-- `Iterator::flatten` on results drops the errors.
abbrev pub flattened : List Item → List (ℕ × List ℕ)
flattened [] = []
flattened (ok a ∷ items) = a ∷ flattened items
flattened (err e ∷ items) = flattened items

-- What `return` gives inside a loop, or that the loop goes on.
pub data Search : Type 0 where
  go_on : Search
  returned : Option TcpState → Search

abbrev pub state_of_byte : Option ℕ → Option TcpState
state_of_byte none = none
state_of_byte (some state) = some (tcp_state_name state)

abbrev pub or_search : Search → Search → Search
or_search go_on s = s
or_search (returned r) s = returned r

abbrev pub search_tcp : List (ℕ × List ℕ) → Search
search_tcp [] = go_on
search_tcp ((kind, value) ∷ items) =
    if kind == 1 then returned (state_of_byte (first_byte value)) else search_tcp items

abbrev pub search_result : Search → Option TcpState
search_result go_on = none
search_result (returned r) = r

-- The variables of `parse_flow_message`.
pub record FlowFields : Type 0 where
  pub orig : Option (ℕ × EndpointKey)
  pub reply : Option (ℕ × EndpointKey)
  pub status : Option ℕ
  pub protoinfo : Option TcpState
  pub orig_counters : ℕ × ℕ
  pub reply_counters : ℕ × ℕ
  pub id : Option ℕ

abbrev pub no_flow_fields : FlowFields
no_flow_fields = record {
  orig = none;
  reply = none;
  status = none;
  protoinfo = none;
  orig_counters = (0, 0);
  reply_counters = (0, 0);
  id = none;
}

abbrev pub counters_body : ℕ → List ℕ → ℕ × ℕ → Result FlowError (ℕ × ℕ)
counters_body kind bytes (packets, total) = ok (
    if kind == 1 && leb 8 (length bytes)
    then (read_be 8 bytes, total)
    else if kind == 2 && leb 8 (length bytes)
    then (packets, read_be 8 bytes)
    else (packets, total))

abbrev pub flags_of : Option ℕ → List StatusFlag
flags_of none = []
flags_of (some status) = status_flags status

abbrev pub Parsed : Type 0
Parsed = ParsedFlow FlowKey ConnectionFlow

abbrev pub parsed_flow : FlowFields → ℕ → EndpointKey → EndpointKey → Parsed
parsed_flow s protocol_number orig_key reply_key = record {
  key = record { protocol = protocol_number; orig = orig_key; reply = reply_key };
  id = s.id;
  flow = record {
    id = s.id;
    protocol = if protocol_number == 6 then tcp_flow else udp_flow;
    state = if protocol_number == 6 then s.protoinfo else none;
    orig = orig_key;
    reply = reply_key;
    orig_packets = s.orig_counters.0;
    orig_bytes = s.orig_counters.1;
    reply_packets = s.reply_counters.0;
    reply_bytes = s.reply_counters.1;
    flags = flags_of s.status;
  };
}

abbrev pub finish_flow :
    FlowFields → Option (ℕ × EndpointKey) → Option (ℕ × EndpointKey) → Option Parsed
finish_flow s none reply = none
finish_flow s (some orig) none = none
finish_flow s (some (protocol_number, orig_key)) (some (reply_protocol, reply_key)) =
    if protocol_number != reply_protocol || (protocol_number != 6 && protocol_number != 17)
    then none
    else some (parsed_flow s protocol_number orig_key reply_key)

module _ (order : ByteOrder) where
  -- `NetlinkAttributes::new(value)`, run to its end.
  abbrev pub items_of : List ℕ → List Item
  items_of value = attributes order (length value + 1) value 0

  unfoldable pub tuple_body : ℕ → List ℕ → TupleFields → Result FlowError TupleFields
  tuple_body kind nested s =
      if kind == 1
      then for_items (λ k b t. ok (tuple_ip k b t)) (items_of nested) s
      else if kind == 2
      then for_items (λ k b t. ok (tuple_proto k b t)) (items_of nested) s
      else ok s

  unfoldable pub parse_tuple : List ℕ → Result FlowError (Option (ℕ × EndpointKey))
  parse_tuple value = for_items tuple_body (items_of value) no_fields >>= λ s.
      ok (tuple_of s.src s.dst s.protocol s.sport s.dport)

  abbrev pub search_protoinfo : List (ℕ × List ℕ) → Search
  search_protoinfo [] = go_on
  search_protoinfo ((kind, value) ∷ items) =
      if kind != 1
      then search_protoinfo items
      else or_search (search_tcp (flattened (items_of value))) (search_protoinfo items)

  unfoldable pub parse_tcp_state : List ℕ → Option TcpState
  parse_tcp_state value = search_result (search_protoinfo (flattened (items_of value)))

  unfoldable pub parse_counters : List ℕ → Result FlowError (ℕ × ℕ)
  parse_counters value = for_items counters_body (items_of value) (0, 0)

  unfoldable pub flow_body : ℕ → List ℕ → FlowFields → Result FlowError FlowFields
  flow_body kind value s =
      if kind == 1
      then parse_tuple value >>= (λ t. ok (record s { orig = t }))
      else if kind == 2
      then parse_tuple value >>= (λ t. ok (record s { reply = t }))
      else if kind == 3
      then ok (record s { status = read_u32_be value })
      else if kind == 4
      then ok (record s { protoinfo = parse_tcp_state value })
      else if kind == 10
      then parse_counters value >>= (λ c. ok (record s { orig_counters = c }))
      else if kind == 11
      then parse_counters value >>= (λ c. ok (record s { reply_counters = c }))
      else if kind == 13
      then ok (record s { id = read_u32_be value })
      else ok s

  unfoldable pub parse_flow_message : List ℕ → Result FlowError (Option Parsed)
  parse_flow_message payload =
      if ltb (length payload) 4
      then err no_nfgenmsg
      else (for_items flow_body (items_of (drop 4 payload)) no_flow_fields >>= λ s.
          ok (finish_flow s s.orig s.reply))

  -- The items that a `for` loop over the messages sees, by the rounds left.
  unfoldable pub messages : ℕ → List ℕ → ℕ → List Item
  messages zero buffer offset = []
  messages (suc rounds) buffer offset =
      let step = next_message order buffer offset in yielded step.0 (messages rounds buffer step.1)

  abbrev pub FlowTable : Type 0
  FlowTable = ConntrackState FlowKey ConnectionFlow

  abbrev pub apply_event : ℕ → Option Parsed → FlowTable → FlowTable
  apply_event kind none s = s
  apply_event kind (some flow) s =
      if kind % 2 ^ 8 == 2
      then remove_flow s flow
      else if kind % 2 ^ 8 == 0
      then insert_flow s flow
      else s

  unfoldable pub event_body : ℕ → List ℕ → FlowTable → Result FlowError FlowTable
  event_body kind payload s =
      if kind == 1 || kind == 3
      then ok s
      else if kind == 4
      then err overrun
      else if kind == 2
      then if leb 4 (length payload) && order.from_ne_bytes (take 4 payload) != 0
        then err (event_error (order.from_ne_bytes (take 4 payload)))
        else ok s
      else parse_flow_message payload >>= (λ flow. ok (apply_event kind flow s))

  -- Messages that were applied before an error stay applied.
  abbrev pub after_event :
      FlowTable
      → Result FlowError FlowTable
      → (FlowTable → FlowTable × Option FlowError)
      → FlowTable × Option FlowError
  after_event s (err e) more = (s, some e)
  after_event s (ok s') more = more s'

  unfoldable pub apply_events : List Item → FlowTable → FlowTable × Option FlowError
  apply_events [] s = (s, none)
  apply_events (err e ∷ items) s = (s, some (malformed e))
  apply_events (ok (kind, payload) ∷ items) s =
      after_event s (event_body kind payload s) (apply_events items)

  -- The state that is left, and the error if there is one.
  unfoldable pub apply_event_messages : List ℕ → FlowTable → FlowTable × Option FlowError
  apply_event_messages buffer s = apply_events (messages (length buffer + 1) buffer 0) s
