-- ===== src/Persistence/Ring/Layout.antt =====
-- Where the records of a ring file stand, and what a write to one slot does to the file
-- (bandix-plus/src/persistence.rs).
use bandix_plus_lite.Base.{
  ℕ, zero, suc, ◌+◌, ◌-◌, ◌*◌, ◌^◌, ◌<◌, ◌≤◌, ◌≡◌, refl, sym, ap, ap₂, ◌∙◌, List, [], ◌∷◌, ◌++◌,
  length, take, drop, take_all, All, replicate, length-append, drop-append, take-append,
  take-append_add, drop-append_add, drop-nil, append-nil, append_assoc, false, ok, inr, arith,
}
use bandix_plus_lite.Base.Bytes.{slice}
use bandix_plus_lite.Persistence.Codec.{RingRecord}
use bandix_plus_lite.Persistence.Codec.RoundTrip.{Fits, record_bytes, length-record_bytes}
use bandix_plus_lite.Persistence.Header.{
  RingHeader, read_ring_header, header_bytes, ring_size_bounds, ring_min_size, ring_total_size,
  write_at, write_ring_header,
}
use bandix_plus_lite.Persistence.Header.RoundTrip.{IsValid, length-header_bytes, read-header_bytes}
use bandix_plus_lite.Persistence.Ring.{size_outside}
use bandix_plus_lite.Persistence.Ring.Rotation.{put, put_end}

abbrev pub flat : List RingRecord → List ℕ
flat [] = []
flat (r ∷ rs) = record_bytes r ++ flat rs

-- The header of a version 2 ring with `n` slots of which `count` are in use.
abbrev pub ring_header : ℕ → ℕ → ℕ → RingHeader
ring_header n wp count = record {
  version = 2;
  slot_count = n;
  write_pos = wp;
  valid_count = count;
  record_size = 220;
}

-- The file holds these slots: the write position lies behind the last one until all are in use.
pub record Stored (n : ℕ) (file : List ℕ) (slots : List RingRecord) (wp : ℕ) : Type 0 where
  pub bytes : file ≡ header_bytes (ring_header n wp (length slots)) ++ flat slots
  pub n_small : 64 + n * 220 < 2 ^ 32
  pub wp_in : wp < n
  pub slots_in : length slots ≤ n
  pub room : length slots < n → wp ≡ length slots
  pub fits : All Fits slots

pub length-flat : (rs : List RingRecord) → length (flat rs) ≡ 220 * length rs
length-flat [] = refl
length-flat (r ∷ rs) =
    omega (arith, length-append (record_bytes r) (flat rs), length-record_bytes r, length-flat rs)

pub ring_header-IsValid :
    (n wp count : ℕ) → n < 2 ^ 32 → wp < n → count ≤ n → IsValid (ring_header n wp count)
ring_header-IsValid n wp count hn hw hc = record {
  known_version = inr refl;
  some_slot = omega arith;
  slots_u32 = hn;
  write_in = hw;
  valid_in = hc;
  sized = refl;
}

pub length-stored :
    (n wp count : ℕ) (slots : List RingRecord)
    → length (header_bytes (ring_header n wp count) ++ flat slots) ≡ 64 + 220 * length slots
length-stored n wp count slots = omega (
  arith,
  length-append (header_bytes (ring_header n wp count)) (flat slots),
  length-header_bytes (ring_header n wp count),
  length-flat slots,
)

pub ring_size_bounds-stored :
    (n wp count : ℕ)
    → count ≤ n
    → (count < n → wp ≡ count)
    → 64 + n * 220 < 2 ^ 32
    → ring_size_bounds (ring_header n wp count) ≡ ok (64 + count * 220, 64 + n * 220)
unfolding ring_size_bounds ring_min_size ring_total_size
ring_size_bounds-stored n wp count h room small = ground arith

pub size_outside-stored :
    (file : List ℕ) (count n : ℕ)
    → length file ≡ 64 + 220 * count
    → count ≤ n
    → size_outside file (64 + count * 220, 64 + n * 220) ≡ false
unfolding size_outside
size_outside-stored file count n l h = ground arith

-- The bytes of one slot.
pub slice-flat :
    (front : List RingRecord) (r : RingRecord) (back : List RingRecord) (j : ℕ)
    → j ≡ length front
    → slice (flat (front ++ (r ∷ back))) (220 * j) 220 ≡ record_bytes r
slice-flat [] r back zero h =
    take-append (record_bytes r) (flat back) 220 (sym (length-record_bytes r))
slice-flat [] r back (suc j) h = absurd (omega arith)
slice-flat (x ∷ front) r back zero h = absurd (omega arith)
slice-flat (x ∷ front) r back (suc j) h =
    ap (take 220) (
      drop-append_add (record_bytes x) (flat (front ++ (r ∷ back))) (220 * suc j) (220 * j)
        (omega (arith, length-record_bytes x)))
    ∙ slice-flat front r back j (omega arith)

pub slice-stored :
    (h : RingHeader) (front : List RingRecord) (r : RingRecord) (back : List RingRecord) (j : ℕ)
    → j ≡ length front
    → slice (header_bytes h ++ flat (front ++ (r ∷ back))) (64 + 220 * j) 220 ≡ record_bytes r
slice-stored h front r back j e =
    ap (take 220) (
      drop-append_add (header_bytes h) (flat (front ++ (r ∷ back))) (64 + 220 * j) (220 * j)
        (omega (arith, length-header_bytes h)))
    ∙ slice-flat front r back j e

write-flat :
    (rs : List RingRecord) (r : RingRecord) (i a b : ℕ)
    → i ≤ length rs
    → a ≡ 220 * i
    → b ≡ a + 220
    → take a (flat rs) ++ (record_bytes r ++ drop b (flat rs)) ≡ flat (put i r rs)
write-flat [] r i a b h ea eb =
    ap₂ (λ s t. s ++ (record_bytes r ++ t)) (take_all [] a (omega arith)) (drop-nil b)
write-flat (x ∷ rs) r zero a b h ea eb =
    ap₂ (λ s t. take s (record_bytes x ++ flat rs) ++ (record_bytes r ++ t)) a-zero
      (drop-append (record_bytes x) (flat rs) b (omega (arith, length-record_bytes x)))
  where
    a-zero : a ≡ 0
    a-zero = omega arith
write-flat (x ∷ rs) r (suc i) a b h ea eb =
    ap₂ (λ s t. s ++ (record_bytes r ++ t))
      (take-append_add (record_bytes x) (flat rs) a (220 * i)
        (omega (arith, length-record_bytes x)))
      (drop-append_add (record_bytes x) (flat rs) b (220 * i + 220)
        (omega (arith, length-record_bytes x)))
    ∙ append_assoc (record_bytes x) (take (220 * i) (flat rs))
        (record_bytes r ++ drop (220 * i + 220) (flat rs))
    ∙ ap (λ t. record_bytes x ++ t)
        (write-flat rs r i (220 * i) (220 * i + 220) (omega arith) refl refl)

-- A write inside the file, or just behind it, leaves no gap.
write_at-inside :
    (file : List ℕ) (offset : ℕ) (bytes : List ℕ)
    → offset ≤ length file
    → write_at file offset bytes ≡ take offset file ++ (bytes ++ drop (offset + length bytes) file)
unfolding write_at
write_at-inside file offset bytes h =
    ap (λ t. take offset t ++ (bytes ++ drop (offset + length bytes) file))
      ((let e : offset - length file ≡ 0 = omega arith in ap (λ (k : ℕ). file ++ replicate k 0) e)
        ∙ append-nil file)

-- Writing a record to slot `i`.
pub write_at-slot :
    (h : RingHeader) (slots : List RingRecord) (r : RingRecord) (i : ℕ)
    → i ≤ length slots
    → write_at (header_bytes h ++ flat slots) (64 + i * 220) (record_bytes r)
      ≡ header_bytes h ++ flat (put i r slots)
write_at-slot h slots r i hi =
    write_at-inside (header_bytes h ++ flat slots) (64 + i * 220) (record_bytes r) (
      omega (
        arith,
        length-append (header_bytes h) (flat slots),
        length-header_bytes h,
        length-flat slots,
      ))
    ∙ ap₂ (λ s t. s ++ (record_bytes r ++ t))
        (take-append_add (header_bytes h) (flat slots) (64 + i * 220) (220 * i)
          (omega (arith, length-header_bytes h)))
        (drop-append_add (header_bytes h) (flat slots) (64 + i * 220 + length (record_bytes r))
          (220 * i + 220) (omega (arith, length-header_bytes h, length-record_bytes r)))
    ∙ append_assoc (header_bytes h) (take (220 * i) (flat slots))
        (record_bytes r ++ drop (220 * i + 220) (flat slots))
    ∙ ap (λ t. header_bytes h ++ t) (write-flat slots r i (220 * i) (220 * i + 220) hi refl refl)

-- Writing a header over another one.
pub write_ring_header-over :
    (h h' : RingHeader) (rest : List ℕ)
    → write_ring_header (header_bytes h ++ rest) h' ≡ header_bytes h' ++ rest
unfolding write_ring_header
write_ring_header-over h h' rest =
    write_at-inside (header_bytes h ++ rest) 0 (header_bytes h') (omega arith)
    ∙ ap (λ t. header_bytes h' ++ t)
        (drop-append (header_bytes h) rest (0 + length (header_bytes h'))
          (omega (arith, length-header_bytes h, length-header_bytes h')))

-- Writing a header to an empty file.
pub write_ring_header-new : (h : RingHeader) → write_ring_header [] h ≡ header_bytes h
unfolding write_ring_header
write_ring_header-new h =
    write_at-inside [] 0 (header_bytes h) (omega arith)
    ∙ ap (λ t. header_bytes h ++ t) (drop-nil (0 + length (header_bytes h)))
    ∙ append-nil (header_bytes h)

pub put-Fits :
    (slots : List RingRecord) (r : RingRecord) (i : ℕ)
    → All Fits slots
    → Fits r
    → All Fits (put i r slots)
put-Fits [] r i f g = (g, tt)
put-Fits (x ∷ slots) r zero f g = (g, f.1)
put-Fits (x ∷ slots) r (suc i) f g = (f.0, put-Fits slots r i f.1 g)

pub length-put_inside :
    (slots : List RingRecord) (r : RingRecord) (i : ℕ)
    → i < length slots
    → length (put i r slots) ≡ length slots
length-put_inside [] r i h = absurd (omega arith)
length-put_inside (x ∷ slots) r zero h = refl
length-put_inside (x ∷ slots) r (suc i) h = ap suc (length-put_inside slots r i (omega arith))

pub length-put_end :
    (slots : List RingRecord) (r : RingRecord) (i : ℕ)
    → i ≡ length slots
    → length (put i r slots) ≡ length slots + 1
length-put_end slots r i h = ap length (put_end slots r i h) ∙ length-append slots (r ∷ [])

-- A valid header that is written at the front of any file, which may be empty or shorter than a
-- header, is read back as it was written, with every check passed. Valid means a known version with
-- its record size, at least one and fewer than 2 ^ 32 slots, a write position below the slots, and
-- no more valid records than slots.
pub read-write_ring_header :
    (file : List ℕ) (h : RingHeader)
    → IsValid h
    → read_ring_header (write_ring_header file h) ≡ ok h
unfolding write_ring_header
read-write_ring_header file h v =
    ap read_ring_header (write_at-inside file 0 (header_bytes h) (omega arith))
    ∙ read-header_bytes h (drop (0 + length (header_bytes h)) file) v
