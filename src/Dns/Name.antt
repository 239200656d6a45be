-- ===== src/Dns/Name.antt =====
-- `read_u16` and `read_dns_name` of bandix-plus/src/dns.rs: names with compression pointers.
-- Offsets are far below 2 ^ 64, so the checked additions of the code do not fail.
pub mod Rounds
pub mod Reading
use bandix_plus_lite.Base.{
  ℕ, zero, suc, ◌+◌, ◌*◌, ◌/◌, ◌%◌, List, [], ◌∷◌, ◌++◌, Option, some, none, Bool, true, false,
  ◌&&◌, ◌||◌, ◌==◌, ◌!=◌, ltb, leb, if◌then◌else◌, length, get_or, map,
}
use bandix_plus_lite.Base.Bytes.{slice, from_be_acc}

-- A text is the list of its bytes.
abbrev pub Text : Type 0
Text = List ℕ

-- `u16::from_be_bytes(packet.get(offset..offset + 2)?)`
unfoldable pub read_u16 : List ℕ → ℕ → Option ℕ
read_u16 packet offset =
    if ltb (length packet) (offset + 2) then none else some (from_be_acc 0 (slice packet offset 2))

-- The variables of the loop. `labels` holds the bytes of the labels read so far.
pub record NameReader : Type 0 where
  pub position : ℕ
  pub consumed_position : Option ℕ
  pub labels : List (List ℕ)
  pub jumps : ℕ
  pub expanded_len : ℕ

-- What one round of the loop comes to.
pub data NameStep : Type 0 where
  refused : NameStep
  finished : List (List ℕ) → ℕ → NameStep
  going : NameReader → NameStep

abbrev pub unwrap_or : Option ℕ → ℕ → ℕ
unwrap_or none d = d
unwrap_or (some n) d = n

unfoldable pub follow_pointer : List ℕ → NameReader → ℕ → NameStep
follow_pointer packet r first =
    if leb (length packet) (r.position + 1)
    then refused
    else let pointer = first % 64 * 256 + get_or packet (r.position + 1) 0 in
      if leb (length packet) pointer
      then refused
      else going (record r {
        consumed_position = some (unwrap_or r.consumed_position (r.position + 2));
        position = pointer;
        jumps = r.jumps + 1;
      })

unfoldable pub read_label : List ℕ → NameReader → ℕ → NameStep
read_label packet r size =
    if size == 0
    then finished r.labels (unwrap_or r.consumed_position (r.position + 1))
    else if ltb (length packet) (r.position + 1 + size)
    then refused
    else if ltb 255 (r.expanded_len + (size + 1))
    then refused
    else going (record r {
      labels = r.labels ++ (slice packet (r.position + 1) size ∷ []);
      expanded_len = r.expanded_len + (size + 1);
      position = r.position + 1 + size;
    })

unfoldable pub name_step : List ℕ → NameReader → NameStep
unfolding follow_pointer read_label
name_step packet r =
    if leb (length packet) r.position || ltb 16 r.jumps || ltb 127 (length r.labels)
    then refused
    else let first = get_or packet r.position 0 in
      if first / 64 == 3
      then follow_pointer packet r first
      else if first / 64 != 0
      then refused
      else read_label packet r first

-- The loop, by the rounds left.
pub data NameResult : Type 0 where
  out_of_rounds no_name : NameResult
  name : List (List ℕ) → ℕ → NameResult

abbrev pub continue_name : NameStep → (NameReader → NameResult) → NameResult
continue_name refused loop = no_name
continue_name (finished labels next) loop = name labels next
continue_name (going r) loop = loop r

unfoldable pub name_loop : ℕ → List ℕ → NameReader → NameResult
name_loop zero packet r = out_of_rounds
name_loop (suc rounds) packet r =
    continue_name (name_step packet r) (λ r'. name_loop rounds packet r')

abbrev pub start_name : ℕ → NameReader
start_name offset = record {
  position = offset;
  consumed_position = none;
  labels = [];
  jumps = 0;
  expanded_len = 0;
}

-- Seventeen jumps and 128 labels are the most before the loop refuses.
abbrev pub name_rounds : ℕ
name_rounds = 146

-- `labels.join(".")`
abbrev pub join_rest : Text → List Text → Text
join_rest l [] = l
join_rest l (m ∷ ms) = l ++ (b'.' ∷ join_rest m ms)

abbrev pub join_labels : List Text → Text
join_labels [] = []
join_labels (l ∷ ls) = join_rest l ls

abbrev pub name_of : (List ℕ → Text) → NameResult → Option (Text × ℕ)
name_of from_utf8_lossy out_of_rounds = none
name_of from_utf8_lossy no_name = none
name_of from_utf8_lossy (name labels next) = some (join_labels (map from_utf8_lossy labels), next)

-- `String::from_utf8_lossy` is a parameter.
unfoldable pub read_dns_name : (List ℕ → Text) → List ℕ → ℕ → Option (Text × ℕ)
read_dns_name from_utf8_lossy packet offset =
    name_of from_utf8_lossy (name_loop name_rounds packet (start_name offset))
