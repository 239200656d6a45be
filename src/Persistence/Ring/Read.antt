-- ===== src/Persistence/Ring/Read.antt =====
-- `read_ring_records_limited` on the bytes of a ring file (bandix-plus/src/persistence.rs).
use native.Mathlib.Nat.{mod-eq_of_lt, mod-add-mod, mod-mod, mod-lt, add_assoc, add-zero}
use bandix_plus_lite.Base.{
  ℕ, zero, suc, ◌+◌, ◌-◌, ◌*◌, ◌%◌, ◌<◌, ◌≤◌, ◌≡◌, ◌⊎◌, inl, inr, min, refl, sym, ap, ap₂, ◌∙◌,
  List, [], ◌∷◌, ◌++◌, length, take, drop, All, ok, some, false, ltb, arith, Bool-cases, ◌==◌,
  split_at, last, append-nil, append_assoc, length-append, drop-append,
}
use bandix_plus_lite.Base.Bytes.{slice, saturating_add}
use bandix_plus_lite.Persistence.Codec.{RingRecord}
use bandix_plus_lite.Persistence.Codec.RoundTrip.{Fits, record_bytes, decode-record_bytes}
use bandix_plus_lite.Persistence.Header.{
  RingHeader, header_bytes, ring_data_offset, read_ring_header,
}
use bandix_plus_lite.Persistence.Ring.{
  Disk, read_exact, read_slot, reader_pos, read_loop, start_index, read_accepted, read_with_header,
  read_file, read_ring_records_limited,
}
use bandix_plus_lite.Persistence.Ring.Layout.{
  flat, ring_header, Stored, slice-stored, length-stored, ring_size_bounds-stored,
  size_outside-stored,
}
use bandix_plus_lite.Persistence.Ring.Append.{Holds, wp-slots, read_header-stored}
use bandix_plus_lite.Persistence.Ring.Rotation.{
  window, next_slot, wraps_to_zero, in_order, length-in_order, start_before, window-start,
}

next_slot-mod : (n a j : ℕ) → j < n → a % n ≡ j → (a + 1) % n ≡ next_slot n j
next_slot-mod n a j h e =
    sym (mod-add-mod a n 1) ∙ ap (λ t. (t + 1) % n) e ∙ elim (Bool-cases (j + 1 == n)) [
      | inl full ↦ wraps_to_zero (j + 1) n (omega arith) (ground arith) ∙ ground arith
      | inr inner ↦ mod-eq_of_lt {n = j + 1} {m = n} (ground arith) ∙ ground arith
    ]

next_slot-lt : (n j : ℕ) → j < n → next_slot n j < n
next_slot-lt n j h = ground arith

read_exact-inside :
    (file : List ℕ) (pos n : ℕ)
    → pos + n ≤ length file
    → read_exact file pos n ≡ ok (slice file pos n)
unfolding read_exact
read_exact-inside file pos n h = ground arith

All-middle :
    (front : List RingRecord) (r : RingRecord) (back : List RingRecord)
    → All Fits (front ++ (r ∷ back))
    → Fits r
All-middle [] r back f = f.0
All-middle (x ∷ front) r back f = All-middle front r back f.1

module _ {n : ℕ} {file : List ℕ} {slots : List RingRecord} {wp : ℕ}
    (s : Stored n file slots wp) where
  abbrev hdr : RingHeader
  hdr = ring_header n wp (length slots)

  pub length-file : length file ≡ 64 + 220 * length slots
  length-file = ap length s.bytes ∙ length-stored n wp (length slots) slots

  -- The slot `j` that the file holds is read.
  read_slot-stored :
      (front : List RingRecord) (r : RingRecord) (back : List RingRecord)
      → slots ≡ front ++ (r ∷ back)
      → read_slot file hdr (64 + length front * 220) (64 + length front * 220)
        ≡ ok (some (r, 64 + length front * 220 + 220))
  unfolding read_slot
  read_slot-stored front r back e = rw (
    fits_in,
    read_exact-inside file (64 + length front * 220) 220 inside,
    content,
    decode-record_bytes r (All-middle front r back (subst_fits e)),
  )
    where
      inside : 64 + length front * 220 + 220 ≤ length file
      inside = omega (arith, length-file, ap length e, length-append front (r ∷ back))

      fits_in : ltb (length file) (saturating_add (64 + length front * 220) 220) ≡ false
      fits_in = ground (arith, inside)

      content : slice file (64 + length front * 220) 220 ≡ record_bytes r
      content =
          ap₂ (λ (a : List ℕ) k. slice a (64 + k) 220)
            (s.bytes ∙ ap (λ t. header_bytes hdr ++ flat t) e) (omega arith)
          ∙ slice-stored hdr front r back (length front) refl

      subst_fits : slots ≡ front ++ (r ∷ back) → All Fits (front ++ (r ∷ back))
      subst_fits p = rw p at (s.fits)

  read_slot-at :
      (j : ℕ)
      → j < length slots
      → (r : RingRecord) × (read_slot file hdr (64 + j * 220) (64 + j * 220)
          ≡ ok (some (r, 64 + j * 220 + 220)))
        × (take 1 (drop j slots) ≡ r ∷ [])
  read_slot-at j h =
      let (front, r, back, e, l) = split_at j slots h in
      (
        r,
        ap (λ k. read_slot file hdr (64 + k * 220) (64 + k * 220)) (sym l)
            ∙ read_slot-stored front r back e
            ∙ ap (λ k. ok (some (r, 64 + k * 220 + 220))) l,
        ap (λ t. take 1 (drop j t)) e ∙ ap (take 1) (drop-append front (r ∷ back) j (sym l)),
      )

  -- The reader stands at the slot that is due, or seeks back to slot 0.
  abbrev AtSlot : ℕ → ℕ → ℕ → Type 0
  AtSlot i j pos = (pos ≡ 64 + j * 220) ⊎ ((0 < i) × (j ≡ 0))

  abbrev InReach : ℕ → ℕ → Type 0
  InReach j left = (length slots ≡ n) ⊎ (j + left ≤ length slots)

  seek_or_stay : (i j pos : ℕ) → AtSlot i j pos → reader_pos hdr i j pos ≡ 64 + j * 220
  unfolding reader_pos ring_data_offset
  seek_or_stay i j pos at = ground arith

  next_AtSlot : (i j : ℕ) → j < n → AtSlot (i + 1) (next_slot n j) (64 + j * 220 + 220)
  next_AtSlot i j h = ground arith

  next_InReach : (j left : ℕ) → j < n → InReach j (suc left) → InReach (next_slot n j) left
  next_InReach j left h r = ground (arith, s.slots_in)

  read_loop-window :
      (start i j pos left : ℕ) (out : List RingRecord)
      → (start + i) % n ≡ j
      → j < n
      → AtSlot i j pos
      → InReach j left
      → read_loop file hdr start left i pos out ≡ ok (some (out ++ window slots n j left))
  unfolding read_loop window ring_data_offset
  read_loop-window start i j pos zero out e h at reach =
      ap (λ t. ok (some t)) (sym (append-nil out))
  read_loop-window start i j pos (suc left) out e h at reach =
      let (r, now, cell) = read_slot-at j (in_use reach) in
      rw (e, seek_or_stay i j pos at, now)
        (read_loop-window start (i + 1) (next_slot n j) (64 + j * 220 + 220) left (out ++ (r ∷ []))
            (ap (λ t. t % n) (sym (add_assoc start i 1)) ∙ next_slot-mod n (start + i) j h e)
            (next_slot-lt n j h) (next_AtSlot i j h) (next_InReach j left h reach)
          ∙ ap (λ t. ok (some t))
              (append_assoc out (r ∷ []) (window slots n (next_slot n j) left)
                ∙ ap (λ t. out ++ (t ++ window slots n (next_slot n j) left)) (sym cell)))
    where
      in_use : InReach j (suc left) → j < length slots
      in_use q = omega arith

  read_accepted-stored :
      (limit : ℕ)
      → read_accepted file hdr limit
        ≡ ok (some (last (min (length slots) limit) (in_order wp slots)))
  unfolding read_accepted start_index ring_data_offset
  read_accepted-stored limit =
      let c = min (length slots) limit in
      read_loop-window ((wp + n - c) % n) 0 ((wp + n - c) % n) (64 + (wp + n - c) % n * 220) c []
        (ap (λ t. t % n) (add-zero ((wp + n - c) % n)) ∙ mod-mod (wp + n - c) n)
        (mod-lt (wp + n - c) (let w : wp < n = s.wp_in in omega arith)) (inl refl)
        (reach c (omega arith))
      ∙ ap (λ t. ok (some t)) (window-start slots n wp c s.wp_in s.slots_in s.room (omega arith))
    where
      reach : (c : ℕ) → c ≤ length slots → InReach ((wp + n - c) % n) c
      reach c h = elim (Bool-cases (length slots == n)) [
        | inl full ↦ inl (ground arith)
        | inr less ↦
            let w : wp ≡ length slots = s.room (ground (arith, s.slots_in)) in
            inr (omega (arith, start_before n wp c s.wp_in (omega arith)))
      ]

  -- The checks before the loop accept the file.
  read_within-stored :
      (d : Disk) (limit : ℕ)
      → read_with_header d file limit (read_ring_header file)
        ≡ ok (last (min (length slots) limit) (in_order wp slots), d)
  unfolding read_with_header
  read_within-stored d limit = rw (
    read_header-stored s,
    ring_size_bounds-stored n wp (length slots) s.slots_in s.room s.n_small,
    size_outside-stored file (length slots) n length-file s.slots_in,
    read_accepted-stored limit,
  )

-- Reading at most `limit` records of a ring file of version 2 without spare bytes that holds some
-- records, and whose size is below 2 ^ 32 bytes, returns the newest ones, oldest first, and leaves
-- the disk as it is.
pub read_limited-Holds :
    {n : ℕ} {file : List ℕ} {records : List RingRecord} (d : Disk) (limit : ℕ)
    → Holds n file records
    → d.ring ≡ some file
    → read_ring_records_limited d limit ≡ ok (last (min (length records) limit) records, d)
unfolding read_ring_records_limited
read_limited-Holds {file} d limit h e =
    ap (read_file d limit) e
    ∙ read_within-stored h.stored d limit
    ∙ ap₂ (λ (k : ℕ) (t : List RingRecord). ok (last (min k limit) t, d))
        (sym (length-in_order h.slots h.wp (omega (arith, wp-slots h.stored))) ∙ ap length h.order)
        h.order
