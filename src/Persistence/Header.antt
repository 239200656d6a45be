-- ===== src/Persistence/Header.antt =====
-- The 64-byte header of a ring file (bandix-plus/src/persistence.rs), written at the front of the
-- file and read back with its checks. A file is the list of its bytes.
pub mod RoundTrip
use bandix_plus_lite.Base.{
  ℕ, ◌+◌, ◌-◌, ◌*◌, ◌%◌, ◌^◌, List, [], ◌∷◌, ◌++◌, Bool, true, false, ◌==◌, ◌!=◌, ltb, leb, ◌&&◌,
  ◌||◌, not, if◌then◌else◌, length, drop, take, replicate, Result, ok, err, ensure, ◌>>=◌, ◌>>◌,
}
use bandix_plus_lite.Base.Bytes.{to_le_bytes, from_le_bytes, slice}
use bandix_plus_lite.Persistence.Codec.{
  RingError, invalid_magic, unsupported_version, invalid_header_checksum, invalid_header_values,
  invalid_positions, invalid_write_pos, unexpected_eof, checksum32, ring_version, ring_record_size,
  record_size_of_version,
}

pub record RingHeader : Type 0 where
  pub version : ℕ
  pub slot_count : ℕ
  pub write_pos : ℕ
  pub valid_count : ℕ
  pub record_size : ℕ

abbrev pub ring_header_size : ℕ
ring_header_size = 64

-- b"BDXPRNG1"
abbrev pub ring_magic : List ℕ
ring_magic = b'B' ∷ b'D' ∷ b'X' ∷ b'P' ∷ b'R' ∷ b'N' ∷ b'G' ∷ b'1' ∷ []

abbrev pub bytes_eq : List ℕ → List ℕ → Bool
bytes_eq [] [] = true
bytes_eq [] (y ∷ ys) = false
bytes_eq (x ∷ xs) [] = false
bytes_eq (x ∷ xs) (y ∷ ys) = x == y && bytes_eq xs ys

unfoldable pub default_ring_header : ℕ → RingHeader
default_ring_header slots = record {
  version = ring_version;
  slot_count = slots;
  write_pos = 0;
  valid_count = 0;
  record_size = ring_record_size;
}

-- The values of a `usize` on the narrowest targets of the releases, which have 32 bits. On a target
-- of 64 bits no size of a ring wraps, and sizes below this bound are the same on both.
abbrev pub usize_range : ℕ
usize_range = 2 ^ 32

unfoldable pub ring_total_size : RingHeader → ℕ
ring_total_size h = (ring_header_size + h.slot_count * h.record_size) % usize_range

unfoldable pub ring_min_size : RingHeader → Result RingError ℕ
ring_min_size h =
    if h.valid_count == 0
    then ok ring_header_size
    else if ltb h.valid_count h.slot_count
    then if h.write_pos != h.valid_count
      then err invalid_write_pos
      else ok ((ring_header_size + h.valid_count * h.record_size) % usize_range)
    else ok ((ring_header_size + h.slot_count * h.record_size) % usize_range)

unfoldable pub ring_size_bounds : RingHeader → Result RingError (ℕ × ℕ)
ring_size_bounds h = do least ← ring_min_size h; ok (least, ring_total_size h)

unfoldable pub ring_data_offset : RingHeader → ℕ → ℕ
ring_data_offset h slot_idx = ring_header_size + slot_idx * h.record_size

-- `seek` and `write_all`: past the end of the file a gap is filled with zeros.
unfoldable pub write_at : List ℕ → ℕ → List ℕ → List ℕ
write_at file offset bytes =
    take offset (file ++ replicate (offset - length file) 0)
    ++ (bytes ++ drop (offset + length bytes) file)

-- `buf[0..28]`
unfoldable pub header_body : RingHeader → List ℕ
header_body h =
    ring_magic
    ++ (to_le_bytes 4 h.version
        ++ (to_le_bytes 4 h.slot_count
            ++ (to_le_bytes 4 h.write_pos
                ++ (to_le_bytes 4 h.valid_count ++ to_le_bytes 4 h.record_size))))

-- The whole of `buf`: 32 bytes behind the checksum stay zero.
unfoldable pub header_bytes : RingHeader → List ℕ
header_bytes h = header_body h ++ (to_le_bytes 4 (checksum32 (header_body h)) ++ replicate 32 0)

unfoldable pub write_ring_header : List ℕ → RingHeader → List ℕ
write_ring_header file h = write_at file 0 (header_bytes h)

unfoldable pub u32_at : List ℕ → ℕ → ℕ
u32_at buf offset = from_le_bytes (slice buf offset 4)

unfoldable pub read_ring_header : List ℕ → Result RingError RingHeader
read_ring_header file = do
  ensure (leb ring_header_size (length file)) unexpected_eof
  let buf = take ring_header_size file
  ensure (bytes_eq (slice buf 0 8) ring_magic) invalid_magic
  let version = u32_at buf 8
  ensure (version == 1 || version == ring_version) unsupported_version
  ensure (u32_at buf 28 == checksum32 (take 28 buf)) invalid_header_checksum
  let slot_count = u32_at buf 12
  let write_pos = u32_at buf 16
  let valid_count = u32_at buf 20
  let record_size = u32_at buf 24
  ensure (not (slot_count == 0 || record_size != record_size_of_version version))
      invalid_header_values
  ensure (not (leb slot_count write_pos || ltb slot_count valid_count)) invalid_positions
  ok (record {
    version = version;
    slot_count = slot_count;
    write_pos = write_pos;
    valid_count = valid_count;
    record_size = record_size;
  })
