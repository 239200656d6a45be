-- ===== src/Conntrack/Netlink.antt =====
-- The two iterators over netlink data of bandix-plus/src/conntrack.rs: messages of a buffer, and
-- attributes of a payload. The byte order of the target is a parameter.
pub mod Progress
pub mod Encoding
use bandix_plus_lite.Base.{
  ℕ, zero, suc, ◌+◌, ◌-◌, ◌*◌, ◌/◌, ◌%◌, ◌^◌, ◌≡◌, ◌<◌, List, [], ◌∷◌, Option, some, none, Bool,
  true, false, ◌&&◌, ◌||◌, ◌==◌, ltb, leb, if◌then◌else◌, length, drop, take, Result, ok, err,
}

-- `buffer[offset..].iter().all(|byte| *byte == 0)`
abbrev pub all_zero : List ℕ → Bool
all_zero [] = true
all_zero (b ∷ bs) = b == 0 && all_zero bs

-- `from_ne_bytes` and `to_ne_bytes` of the target.
pub record ByteOrder : Type 0 where
  pub from_ne_bytes : List ℕ → ℕ
  pub to_ne_bytes : ℕ → ℕ → List ℕ
  pub length-to_ne_bytes : (n v : ℕ) → length (to_ne_bytes n v) ≡ n
  pub from-to_ne_bytes : (n v : ℕ) → v < 256 ^ n → from_ne_bytes (to_ne_bytes n v) ≡ v
  pub zero-to_ne_bytes : (n v : ℕ) → v < 256 ^ n → all_zero (to_ne_bytes n v) ≡ true → v ≡ 0

pub data NetlinkError : Type 0 where
  truncated_header invalid_message_length truncated_attribute invalid_attribute_length :
      NetlinkError
  -- The panic of a slice whose ends are out of order or behind the end.
  slice_out_of_range : NetlinkError

-- `(value + alignment - 1) & !(alignment - 1)`, for an alignment that is a power of two.
unfoldable pub align : ℕ → ℕ → ℕ
align value alignment = (value + alignment - 1) / alignment * alignment

abbrev pub nlmsg_hdr_len : ℕ
nlmsg_hdr_len = 16

-- An item that an iterator yields, or its error.
abbrev pub Item : Type 0
Item = Result NetlinkError (ℕ × List ℕ)

-- An item of this kind whose value is `rest[start..end]`.
abbrev pub item_of : ℕ → List ℕ → ℕ → ℕ → Item
item_of kind rest start end =
    if ltb end start || ltb (length rest) end
    then err slice_out_of_range
    else ok (kind, take (end - start) (drop start rest))

-- What an iterator yields, before what it yields after it.
abbrev pub yielded : Option Item → List Item → List Item
yielded none more = []
yielded (some item) more = item ∷ more

module _ (order : ByteOrder) where
  -- `NetlinkMessages::next` with the offset that it leaves; `rest` is the buffer from its offset.
  unfoldable pub next_message : List ℕ → ℕ → Option Item × ℕ
  unfolding align
  next_message buffer offset =
      let rest = drop offset buffer in
      if offset == length buffer
      then (none, offset)
      else if ltb (length buffer - offset) nlmsg_hdr_len
      then (some (err truncated_header), length buffer)
      else let message_length = order.from_ne_bytes (take 4 rest) in
        if ltb message_length nlmsg_hdr_len || ltb (length buffer - offset) message_length
        then (some (err invalid_message_length), length buffer)
        else (
          some (
              item_of (order.from_ne_bytes (take 2 (drop 4 rest))) rest nlmsg_hdr_len
                message_length),
          offset + align message_length 4,
        )

  -- `NetlinkAttributes::next`.
  unfoldable pub next_attribute : List ℕ → ℕ → Option Item × ℕ
  unfolding align
  next_attribute buffer offset =
      let rest = drop offset buffer in
      if leb (length buffer) offset
      then (none, length buffer)
      else if all_zero rest
      then (none, length buffer)
      else if ltb (length buffer - offset) 4
      then (some (err truncated_attribute), length buffer)
      else let attribute_length = order.from_ne_bytes (take 2 rest) in
        if attribute_length == 0
        then (none, length buffer)
        else if ltb attribute_length 4 || ltb (length buffer - offset) attribute_length
        then (some (err invalid_attribute_length), length buffer)
        else (
          some (
              item_of (order.from_ne_bytes (take 2 (drop 2 rest)) % 2 ^ 14) rest 4
                attribute_length),
          offset + align attribute_length 4,
        )

  -- The items that a `for` loop over the attributes sees, by the rounds left.
  unfoldable pub attributes : ℕ → List ℕ → ℕ → List Item
  attributes zero buffer offset = []
  attributes (suc rounds) buffer offset =
      let step = next_attribute buffer offset in yielded step.0 (attributes rounds buffer step.1)
