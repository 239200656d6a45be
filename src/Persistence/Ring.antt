-- ===== src/Persistence/Ring.antt =====
-- One ring file on disk, and the operations of bandix-plus/src/persistence.rs on it: open or
-- create, migrate, append, read, quarantine. The operating system is taken to carry out what is
-- asked of it; what a file's content makes the code refuse is modelled.
pub mod Rotation
pub mod Layout
pub mod Append
pub mod Read
pub mod Conversion
pub mod Open
pub mod History
pub mod Safety
use bandix_plus_lite.Base.{
  ℕ, zero, suc, ◌+◌, ◌-◌, ◌*◌, ◌%◌, ◌^◌, min, List, [], ◌∷◌, ◌++◌, Bool, true, false, ◌==◌, ◌!=◌,
  ltb, leb, ◌&&◌, ◌||◌, if◌then◌else◌, length, Option, none, some, Result, ok, err, ensure, ◌>>=◌,
  ◌>>◌,
}
use bandix_plus_lite.Base.Bytes.{slice, saturating_add}
use bandix_plus_lite.Persistence.Codec.{
  RingError, no_such_file, zero_capacity, unexpected_eof, RingRecord, encode_ring_record,
  decode_ring_record,
}
use bandix_plus_lite.Persistence.Header.{
  RingHeader, ring_header_size, default_ring_header, ring_size_bounds, ring_data_offset, write_at,
  write_ring_header, read_ring_header,
}

-- The file at the ring's path, if there is one, and the files set aside as `*.bad.*`, newest first.
pub record Disk : Type 0 where
  pub ring : Option (List ℕ)
  pub bad : List (List ℕ)

abbrev pub Io : Type 0 → Type 0
Io A = Result RingError (A × Disk)

-- `quarantine_bad_file`: the file is renamed, if it exists.
unfoldable pub quarantine_bad_file : Disk → Disk
quarantine_bad_file d = elim (d.ring) [
  | none ↦ d
  | some file ↦ record d { ring = none; bad = file ∷ d.bad }
]

-- `read_exact` of `n` bytes at a position.
unfoldable pub read_exact : List ℕ → ℕ → ℕ → Result RingError (List ℕ)
read_exact file pos n =
    if leb (pos + n) (length file) then ok (slice file pos n) else err unexpected_eof

-- A record that does not decode stops the loop.
unfoldable pub keep_record :
    Result RingError RingRecord → ℕ → Result RingError (Option (RingRecord × ℕ))
keep_record (err e) after = ok none
keep_record (ok r) after = ok (some (r, after))

-- One round of the loop of `read_ring_records_limited`: the slot at `offset`, read at the reader's
-- position, and the position behind it. `ok none` is a record for which the file is quarantined.
unfoldable pub read_slot : List ℕ → RingHeader → ℕ → ℕ → Result RingError (Option (RingRecord × ℕ))
unfolding keep_record
read_slot file h offset pos =
    if ltb (length file) (saturating_add offset h.record_size)
    then ok none
    else read_exact file pos h.record_size >>= λ buf.
        keep_record (decode_ring_record buf h.version) (pos + h.record_size)

-- The reader seeks only where the ring goes round to slot 0.
unfoldable pub reader_pos : RingHeader → ℕ → ℕ → ℕ → ℕ
reader_pos h i idx pos = if ltb 0 i && idx == 0 then ring_data_offset h idx else pos

-- The rounds left, the round `i`, the reader's position and the records read so far.
unfoldable pub read_loop :
    List ℕ
    → RingHeader
    → ℕ
    → ℕ
    → ℕ
    → ℕ
    → List RingRecord
    → Result RingError (Option (List RingRecord))
read_loop file h start_idx zero i pos out = ok (some out)
read_loop file h start_idx (suc left) i pos out =
    let idx = (start_idx + i) % h.slot_count in
    read_slot file h (ring_data_offset h idx) (reader_pos h i idx pos) >>= λ o. elim o [
      | none ↦ ok none
      | some (r, after) ↦ read_loop file h start_idx left (i + 1) after (out ++ (r ∷ []))
    ]

unfoldable pub start_index : RingHeader → ℕ → ℕ
start_index h count = (h.write_pos + h.slot_count - count) % h.slot_count

-- `read_ring_records_limited` once the header and the size of the file are accepted.
unfoldable pub read_accepted : List ℕ → RingHeader → ℕ → Result RingError (Option (List RingRecord))
read_accepted file h limit =
    let count = min h.valid_count limit in
    let start_idx = start_index h count in
    read_loop file h start_idx count 0 (ring_data_offset h start_idx) []

-- Whether the file's length lies within the bounds that its header states.
unfoldable pub size_outside : List ℕ → ℕ × ℕ → Bool
size_outside file (least, most) = ltb (length file) least || ltb most (length file)

-- A file that the loop gives up is quarantined, and no record is returned.
unfoldable pub finish_read : Disk → Option (List RingRecord) → Io (List RingRecord)
finish_read d none = ok ([], quarantine_bad_file d)
finish_read d (some out) = ok (out, d)

unfoldable pub read_within :
    Disk → List ℕ → ℕ → RingHeader → Result RingError (ℕ × ℕ) → Io (List RingRecord)
unfolding finish_read
read_within d file limit h (err e) = ok ([], quarantine_bad_file d)
read_within d file limit h (ok bounds) =
    if size_outside file bounds
    then ok ([], quarantine_bad_file d)
    else read_accepted file h limit >>= finish_read d

unfoldable pub read_with_header :
    Disk → List ℕ → ℕ → Result RingError RingHeader → Io (List RingRecord)
unfolding read_within
read_with_header d file limit (err e) = ok ([], quarantine_bad_file d)
read_with_header d file limit (ok h) = read_within d file limit h (ring_size_bounds h)

unfoldable pub read_file : Disk → ℕ → Option (List ℕ) → Io (List RingRecord)
unfolding read_with_header
read_file d limit none = err no_such_file
read_file d limit (some file) = read_with_header d file limit (read_ring_header file)

unfoldable pub read_ring_records_limited : Disk → ℕ → Io (List RingRecord)
unfolding read_file
read_ring_records_limited d limit = read_file d limit d.ring

abbrev pub u32_max : ℕ
u32_max = 2 ^ 32 - 1

unfoldable pub read_ring_records : Disk → Io (List RingRecord)
read_ring_records d = read_ring_records_limited d u32_max

-- `for record in &records { converted.write_all(&encode_ring_record(record)?)? }`
unfoldable pub write_records : List ℕ → List RingRecord → Result RingError (List ℕ)
write_records file [] = ok file
write_records file (r ∷ rs) = do bytes ← encode_ring_record r; write_records (file ++ bytes) rs

unfoldable pub migrated_header : ℕ → ℕ → RingHeader
migrated_header slots kept = record (default_ring_header slots) {
  valid_count = kept;
  write_pos = kept % slots;
}

-- The converted file is complete before it takes the ring's place.
unfoldable pub migrate : Disk → ℕ → Io (List ℕ)
migrate d slots = do
  (records, d') ← read_ring_records_limited d slots
  file ← write_records (write_ring_header [] (migrated_header slots (length records))) records
  ok (file, record d' { ring = some file })

unfoldable pub create_ring : Disk → ℕ → Io (List ℕ)
create_ring d slots =
    let file = write_ring_header [] (default_ring_header slots) in
    ok (file, record d { ring = some file })

-- A file with a readable header: its size may still rule it out, or its shape call for migration.
unfoldable pub open_within : Disk → ℕ → List ℕ → RingHeader → ℕ × ℕ → Io (List ℕ)
open_within d slots file h bounds =
    if size_outside file bounds
    then create_ring (quarantine_bad_file d) slots
    else if h.version == 1 || h.slot_count != slots
    then migrate d slots
    else ok (file, d)

unfoldable pub open_with_header : Disk → ℕ → List ℕ → Result RingError RingHeader → Io (List ℕ)
unfolding open_within
open_with_header d slots file (err e) = create_ring (quarantine_bad_file d) slots
open_with_header d slots file (ok h) = ring_size_bounds h >>= open_within d slots file h

unfoldable pub open_file : Disk → ℕ → Option (List ℕ) → Io (List ℕ)
unfolding open_with_header
open_file d slots none = create_ring d slots
open_file d slots (some file) = open_with_header d slots file (read_ring_header file)

-- The second call that follows a quarantine finds no file, and creates one.
unfoldable pub open_or_create_ring : Disk → ℕ → Io (List ℕ)
unfolding open_file
open_or_create_ring d slots = if slots == 0 then err zero_capacity else open_file d slots d.ring

unfoldable pub append_to_file : List ℕ → RingRecord → Result RingError (List ℕ)
append_to_file file r = do
  h ← read_ring_header file
  let slot = h.write_pos % h.slot_count
  encoded ← encode_ring_record r
  let written = write_at file (ring_data_offset h slot) encoded
  ok (
      write_ring_header written (record h {
        write_pos = (slot + 1) % h.slot_count;
        valid_count = min (h.valid_count + 1) h.slot_count;
      }))

unfoldable pub append_ring_record_with_capacity : Disk → RingRecord → ℕ → Io (Unit {0})
append_ring_record_with_capacity d r slots = do
  (file, d') ← open_or_create_ring d slots
  file' ← append_to_file file r
  ok (tt, record d' { ring = some file' })
