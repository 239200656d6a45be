-- ===== src/Persistence/Header/RoundTrip.antt =====
-- The bytes of a header, read by `read_ring_header` (bandix-plus/src/persistence.rs).
use bandix_plus_lite.Base.{
  ℕ, ◌^◌, ◌<◌, ◌≤◌, ◌≡◌, ◌⊎◌, refl, sym, ◌∙◌, List, ◌++◌, length, take, ok, arith, length-append,
  take-append, true, ◌==◌, ◌!=◌, ◌||◌, not, leb, ltb, eq→==,
}
use bandix_plus_lite.Base.Bytes.{to_le_bytes, from_le_bytes, from-to_le_bytes, slice}
use bandix_plus_lite.Persistence.Codec.{checksum32, record_size_of_version}
use bandix_plus_lite.Persistence.Codec.RoundTrip.{checksum32-lt}
use bandix_plus_lite.Persistence.Header.{
  RingHeader, bytes_eq, ring_magic, header_body, header_bytes, u32_at, read_ring_header,
}

-- What `read_ring_header` demands of a header, and what a u32 can hold.
pub record IsValid (h : RingHeader) : Type 0 where
  pub known_version : (h.version ≡ 1) ⊎ (h.version ≡ 2)
  pub some_slot : 0 < h.slot_count
  pub slots_u32 : h.slot_count < 2 ^ 32
  pub write_in : h.write_pos < h.slot_count
  pub valid_in : h.valid_count ≤ h.slot_count
  pub sized : h.record_size ≡ record_size_of_version h.version

pub length-header_bytes : (h : RingHeader) → length (header_bytes h) ≡ 64
unfolding header_bytes header_body
length-header_bytes h = refl

u32_at_header :
    (h : RingHeader)
    → (u32_at (header_bytes h) 8 ≡ from_le_bytes (to_le_bytes 4 h.version))
      × (u32_at (header_bytes h) 12 ≡ from_le_bytes (to_le_bytes 4 h.slot_count))
      × (u32_at (header_bytes h) 16 ≡ from_le_bytes (to_le_bytes 4 h.write_pos))
      × (u32_at (header_bytes h) 20 ≡ from_le_bytes (to_le_bytes 4 h.valid_count))
      × (u32_at (header_bytes h) 24 ≡ from_le_bytes (to_le_bytes 4 h.record_size))
      × (u32_at (header_bytes h) 28 ≡ from_le_bytes (to_le_bytes 4 (checksum32 (header_body h))))
unfolding u32_at header_bytes header_body
u32_at_header h = (refl, refl, refl, refl, refl, refl)

-- The values that `read_ring_header` takes from a header that `write_ring_header` wrote.
record Reads (h : RingHeader) (buf : List ℕ) : Type 0 where
  magic : bytes_eq (slice buf 0 8) ring_magic ≡ true
  body : take 28 buf ≡ header_body h
  version_at : u32_at buf 8 ≡ h.version
  slots_at : u32_at buf 12 ≡ h.slot_count
  write_at_16 : u32_at buf 16 ≡ h.write_pos
  valid_at : u32_at buf 20 ≡ h.valid_count
  size_at : u32_at buf 24 ≡ h.record_size
  checksum_at : u32_at buf 28 ≡ checksum32 (header_body h)

header_bytes-Reads : (h : RingHeader) → IsValid h → Reads h (header_bytes h)
header_bytes-Reads h v =
    let (e8, e12, e16, e20, e24, e28) = u32_at_header h in
    record {
      magic = unfold header_bytes header_body in refl;
      body = unfold header_bytes header_body in refl;
      version_at = e8 ∙ from-to_le_bytes 4 h.version (ground arith);
      slots_at = e12 ∙ from-to_le_bytes 4 h.slot_count (omega arith);
      write_at_16 = e16 ∙ from-to_le_bytes 4 h.write_pos (omega arith);
      valid_at = e20 ∙ from-to_le_bytes 4 h.valid_count (omega arith);
      size_at = e24 ∙ from-to_le_bytes 4 h.record_size (ground arith);
      checksum_at =
          e28 ∙ from-to_le_bytes 4 (checksum32 (header_body h)) (checksum32-lt (header_body h));
    }

version_test : (h : RingHeader) → IsValid h → (h.version == 1 || h.version == 2) ≡ true
version_test h v = ground arith

values_test :
    (h : RingHeader)
    → IsValid h
    → not (h.slot_count == 0 || h.record_size != record_size_of_version h.version) ≡ true
values_test h v = ground arith

positions_test :
    (h : RingHeader)
    → IsValid h
    → not (leb h.slot_count h.write_pos || ltb h.slot_count h.valid_count) ≡ true
positions_test h v = ground arith

read_of_Reads :
    (h : RingHeader) (file buf : List ℕ)
    → IsValid h
    → take 64 file ≡ buf
    → 64 ≤ length file
    → Reads h buf
    → read_ring_header file ≡ ok h
unfolding read_ring_header
read_of_Reads h file buf v front long r = rw (
  ground_long,
  front,
  r.magic,
  r.body,
  r.version_at,
  version_test h v,
  r.checksum_at,
  eq→== (checksum32 (header_body h)) (checksum32 (header_body h)) refl,
  r.slots_at,
  r.write_at_16,
  r.valid_at,
  r.size_at,
  values_test h v,
  positions_test h v,
)
  where
    ground_long : leb 64 (length file) ≡ true
    ground_long = ground arith

-- Reading gives back the header that stands at the front of the file, if it is valid.
pub read-header_bytes :
    (h : RingHeader) (rest : List ℕ) → IsValid h → read_ring_header (header_bytes h ++ rest) ≡ ok h
read-header_bytes h rest v =
    read_of_Reads h (header_bytes h ++ rest) (header_bytes h) v
      (take-append (header_bytes h) rest 64 (sym (length-header_bytes h)))
      (omega (arith, length-append (header_bytes h) rest, length-header_bytes h))
      (header_bytes-Reads h v)
