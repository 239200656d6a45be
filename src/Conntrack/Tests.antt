-- ===== src/Conntrack/Tests.antt =====
-- Runs of the netlink iterators and of the flow table on concrete data
-- (bandix-plus/src/conntrack.rs).
use bandix_plus_lite.Base.{
  ℕ, ◌+◌, ◌<◌, ◌^◌, ◌≡◌, List, [], ◌∷◌, map, ok, some, none, replicate, zero, suc, true, arith, ◌%◌,
  ◌/◌,
}
use bandix_plus_lite.Base.Bytes.{to_le_bytes, from_le_bytes, length-to_le_bytes, from-to_le_bytes}
use bandix_plus_lite.Base.Map.{nat_eq, get}
use bandix_plus_lite.Conntrack.Flows.{ConntrackState, ParsedFlow, insert_flow, remove_flow}
use bandix_plus_lite.Conntrack.Flows.Table.{
  added, removed, FlowsAreBounded, apply_flow_events, apply_flow_events-FlowsAreBounded,
  remove-insert_flow,
}
use bandix_plus_lite.Conntrack.Netlink.{ByteOrder, all_zero, attributes}
use bandix_plus_lite.Conntrack.Netlink.Progress.{attributes-enough}
use bandix_plus_lite.Conntrack.Netlink.Encoding.{Attribute, encode_attributes, attributes-encoded}

pub zero-to_le_bytes : (n v : ℕ) → v < 256 ^ n → all_zero (to_le_bytes n v) ≡ true → v ≡ 0
zero-to_le_bytes zero v h z = omega arith
zero-to_le_bytes (suc n) v h z =
    let first : v % 256 ≡ 0 = ground (arith, z) in
    let rest : v / 256 ≡ 0 = zero-to_le_bytes n (v / 256) (omega arith) (ground (arith, z)) in
    omega (arith, first, rest)

abbrev pub little_endian : ByteOrder
little_endian = record {
  from_ne_bytes = from_le_bytes;
  to_ne_bytes = to_le_bytes;
  length-to_ne_bytes = length-to_le_bytes;
  from-to_ne_bytes = from-to_le_bytes;
  zero-to_ne_bytes = zero-to_le_bytes;
}

-- A protocol number of one byte and a port of two.
abbrev two_attributes : List Attribute
two_attributes = (1, 6 ∷ []) ∷ (2, 0x1F ∷ 0x90 ∷ []) ∷ []

attributes_example :
    attributes little_endian 3 (encode_attributes little_endian two_attributes (replicate 5 0)) 0
    ≡ map ok two_attributes
attributes_example = attributes-encoded little_endian two_attributes 5 3 (omega arith) (omega arith)

abbrev one_attribute : List ℕ
one_attribute = 5 ∷ 0 ∷ 1 ∷ 0 ∷ 6 ∷ 0 ∷ 0 ∷ 0 ∷ []

attributes-enough_example :
    attributes little_endian (9 + 7) one_attribute 0 ≡ attributes little_endian 9 one_attribute 0
attributes-enough_example = attributes-enough little_endian one_attribute 9 7 (omega arith)

abbrev one_message : List ℕ
one_message = 20 ∷ 0 ∷ 0 ∷ 0 ∷ 3 ∷ 0 ∷ replicate 14 0

-- Keys and flows are numbers here.
abbrev empty_table : ConntrackState ℕ ℕ
empty_table = record { flows = []; flow_ids = [] }

abbrev first_flow : ParsedFlow ℕ ℕ
first_flow = record { key = 11; id = some 5; flow = 100 }

-- The id 5 names another key later.
abbrev second_flow : ParsedFlow ℕ ℕ
second_flow = record { key = 12; id = some 5; flow = 200 }

flows_bounded_example :
    FlowsAreBounded (
      apply_flow_events
        (added first_flow ∷ added second_flow ∷ removed first_flow ∷ [])
        empty_table)
flows_bounded_example =
    apply_flow_events-FlowsAreBounded
      (added first_flow ∷ added second_flow ∷ removed first_flow ∷ []) empty_table (omega arith)

remove-insert_example :
    get 11 (remove_flow (insert_flow empty_table first_flow) first_flow).flows ≡ none
remove-insert_example = remove-insert_flow empty_table first_flow
