-- ===== src/Persistence/Ring/Open.antt =====
-- `open_or_create_ring`, its migration to another capacity, and the whole of
-- `append_ring_record_with_capacity` (bandix-plus/src/persistence.rs).
use native.Mathlib.Nat.{mod-eq_of_lt}
use bandix_plus_lite.Base.{
  ℕ, zero, suc, ◌+◌, ◌*◌, ◌-◌, ◌%◌, ◌^◌, ◌<◌, ◌≤◌, ◌≡◌, ◌≢◌, ◌⊎◌, inl, inr, min, refl, sym, ap,
  subst, subst₂, drop-nil, eq→==, ◌∙◌, List, [], ◌∷◌, ◌++◌, length, drop, take, All, ok, some, none,
  true, false, arith, Bool-cases, last, last_all, length-drop, ◌==◌, ◌!=◌, append-nil,
}
use bandix_plus_lite.Persistence.Codec.{RingRecord}
use bandix_plus_lite.Persistence.Codec.RoundTrip.{Fits}
use bandix_plus_lite.Persistence.Header.{header_bytes, default_ring_header, write_ring_header}
use bandix_plus_lite.Persistence.Ring.{
  Disk, migrate, create_ring, open_within, open_file, open_or_create_ring,
  append_ring_record_with_capacity, read_ring_records,
}
use bandix_plus_lite.Persistence.Ring.Layout.{
  ring_header, write_ring_header-new, ring_size_bounds-stored, size_outside-stored,
}
use bandix_plus_lite.Persistence.Ring.Conversion.{
  converted, fresh-Holds, migrate-converted, IsConverted, kept-short, open_file-converted,
}
use bandix_plus_lite.Persistence.Ring.Append.{Holds, wp-slots, read_header-stored, append-Holds}
use bandix_plus_lite.Persistence.Ring.Read.{length-file, read_limited-Holds}
use bandix_plus_lite.Persistence.Ring.Rotation.{length-in_order}

-- The disk's ring is absent, or holds these records in `n` slots.
abbrev pub Contents : ℕ → Disk → List RingRecord → Type 0
Contents n d records =
    ((d.ring ≡ none) × (records ≡ []))
    ⊎ ((file : List ℕ) × (d.ring ≡ some file) × Holds n file records)

All-drop : (k : ℕ) (rs : List RingRecord) → All Fits rs → All Fits (drop k rs)
All-drop zero rs f = f
All-drop (suc k) [] f = f
All-drop (suc k) (r ∷ rs) f = All-drop k rs f.1

All-take : (k : ℕ) (rs : List RingRecord) → All Fits rs → All Fits (take k rs)
All-take zero rs f = tt
All-take (suc k) [] f = tt
All-take (suc k) (r ∷ rs) f = (f.0, All-take k rs f.1)

All-append : (rs more : List RingRecord) → All Fits rs → All Fits more → All Fits (rs ++ more)
All-append [] more f g = g
All-append (r ∷ rs) more f g = (f.0, All-append rs more f.1 g)

Holds-Fits :
    {n : ℕ} {file : List ℕ} {records : List RingRecord} → Holds n file records → All Fits records
Holds-Fits h = rw h.order at (
    All-append (drop h.wp h.slots) (take h.wp h.slots) (All-drop h.wp h.slots h.stored.fits)
      (All-take h.wp h.slots h.stored.fits))

Holds-short :
    {n : ℕ} {file : List ℕ} {records : List RingRecord} → Holds n file records → length records ≤ n
Holds-short h = omega (
  arith,
  ap length h.order,
  length-in_order h.slots h.wp (omega (arith, wp-slots h.stored)),
  h.stored.slots_in,
)

differ_self : (n : ℕ) → (n != n) ≡ false
differ_self n = ground arith

differ : (m n : ℕ) → n ≢ m → (n != m) ≡ true
differ m n h = ground arith

positive : (m : ℕ) → 0 < m → (m == 0) ≡ false
positive m h = ground arith

module _ {n : ℕ} {file : List ℕ} {records : List RingRecord} (h : Holds n file records) where
  open_file-same : (d : Disk) → open_file d n (some file) ≡ ok (file, d)
  unfolding open_file open_within
  open_file-same d =
      rw
        (
          read_header-stored h.stored,
          ring_size_bounds-stored n h.wp (length h.slots) h.stored.slots_in h.stored.room
              h.stored.n_small,
          size_outside-stored file (length h.slots) n (length-file h.stored) h.stored.slots_in,
        )
        (rw (differ_self n))

  open_file-other : (d : Disk) (m : ℕ) → n ≢ m → open_file d m (some file) ≡ migrate d m
  unfolding open_file open_within
  open_file-other d m ne =
      rw
        (
          read_header-stored h.stored,
          ring_size_bounds-stored n h.wp (length h.slots) h.stored.slots_in h.stored.room
              h.stored.n_small,
          size_outside-stored file (length h.slots) n (length-file h.stored) h.stored.slots_in,
        )
        (rw (differ m n ne))

  -- The newest records that fit are all that a migration keeps.
  last-min : (m : ℕ) → last (min (length records) m) records ≡ last m records
  last-min m =
      let e : length records - min (length records) m ≡ length records - m = omega arith in
      ap (λ k. drop k records) e

  migrate-migrated :
      (d : Disk) (m : ℕ)
      → d.ring ≡ some file
      → migrate d m
        ≡ ok (converted m (last m records), record d { ring = some (converted m (last m records)) })
  migrate-migrated d m e =
      migrate-converted d m (last m records)
        (read_limited-Holds d m h e ∙ ap (λ t. ok (t, d)) (last-min m))

  migrated-Holds :
      (m : ℕ)
      → 0 < m
      → 64 + m * 220 < 2 ^ 32
      → Holds m (converted m (last m records)) (last m records)
  migrated-Holds m pos small =
      fresh-Holds m (last m records) pos small
        (omega (arith, length-drop (length records - m) records))
        (All-drop (length records - m) records (Holds-Fits h))

-- What a call leaves: the ring's file, which holds these records, and nothing new set aside.
pub record Opened (m : ℕ) (d : Disk) (records : List RingRecord) (file : List ℕ) (d' : Disk)
    : Type 0 where
  pub at_path : d'.ring ≡ some file
  pub holds : Holds m file records
  pub kept : d'.bad ≡ d.bad

created-Holds :
    (m : ℕ)
    → 0 < m
    → 64 + m * 220 < 2 ^ 32
    → Holds m (write_ring_header [] (default_ring_header m)) []
unfolding default_ring_header
created-Holds m pos small =
    subst (λ f. Holds m f [])
      (sym (
        write_ring_header-new (ring_header m 0 0)
        ∙ ap (λ k. header_bytes (ring_header m k 0)) (sym (mod-eq_of_lt {n = 0} {m = m} pos))
        ∙ sym (append-nil (header_bytes (ring_header m (0 % m) 0)))))
      (fresh-Holds m [] pos small (omega arith) tt)

-- The disk's ring is absent or holds these records in `n` slots, or it is one that is converted and
-- these are what the conversion keeps.
abbrev pub Start : ℕ → ℕ → Disk → List RingRecord → Type 0
Start n m d records = Contents n d records ⊎ IsConverted m d records

open_file-Opened :
    (n m : ℕ) (d : Disk) (records : List RingRecord)
    → 0 < m
    → 64 + m * 220 < 2 ^ 32
    → Contents n d records
    → (file : List ℕ) × (d' : Disk) × (open_file d m d.ring ≡ ok (file, d'))
      × Opened m d (last m records) file d'
unfolding open_file create_ring
open_file-Opened n m d records pos small (inl (e, r)) = (
  write_ring_header [] (default_ring_header m),
  record d { ring = some (write_ring_header [] (default_ring_header m)) },
  rw e,
  record { at_path = refl; holds = rw (r, drop-nil) (created-Holds m pos small); kept = refl },
)
open_file-Opened n m d records pos small (inr (file, e, h)) = elim (Bool-cases (n == m)) [
  | inl same ↦
      let k : n ≡ m = ground arith in
      (
        file,
        d,
        ap (open_file d m) e ∙ ap (λ t. open_file d t (some file)) (sym k) ∙ open_file-same h d,
        record {
          at_path = e;
          holds =
              subst₂ (λ t q. Holds t file q) k
                (sym (
                  last_all m records
                    (let l : length records ≤ n = Holds-short h in omega (arith, k))))
                h;
          kept = refl;
        },
      )
  | inr other ↦ (
    converted m (last m records),
    record d { ring = some (converted m (last m records)) },
    ap (open_file d m) e
        ∙ open_file-other h d m (λ k. cc (eq→== n m k, other))
        ∙ migrate-migrated h d m e,
    record { at_path = refl; holds = migrated-Holds h m pos small; kept = refl },
  )
]

open_converted :
    (m : ℕ) (d : Disk) (records : List RingRecord)
    → 0 < m
    → 64 + m * 220 < 2 ^ 32
    → IsConverted m d records
    → (file : List ℕ) × (d' : Disk) × (open_file d m d.ring ≡ ok (file, d'))
      × Opened m d (last m records) file d'
open_converted m d records pos small c = (
  converted m records,
  record d { ring = some (converted m records) },
  open_file-converted c,
  record {
    at_path = refl;
    holds =
        subst (Holds m (converted m records)) (sym (last_all m records (kept-short c)))
          (fresh-Holds m records pos small (kept-short c) c.fits);
    kept = refl;
  },
)

pub open-Opened :
    (n m : ℕ) (d : Disk) (records : List RingRecord)
    → 0 < m
    → 64 + m * 220 < 2 ^ 32
    → Start n m d records
    → (file : List ℕ) × (d' : Disk) × (open_or_create_ring d m ≡ ok (file, d'))
      × Opened m d (last m records) file d'
unfolding open_or_create_ring
open-Opened n m d records pos small c =
    let (file, d', e, o) = open_start c in (file, d', rw (positive m pos) e, o)
  where
    open_start :
        Start n m d records
        → (file : List ℕ) × (d' : Disk) × (open_file d m d.ring ≡ ok (file, d'))
          × Opened m d (last m records) file d'
    open_start (inl held) = open_file-Opened n m d records pos small held
    open_start (inr c) = open_converted m d records pos small c

pub append_ring-Contents :
    (n m : ℕ) (d : Disk) (records : List RingRecord) (r : RingRecord)
    → 0 < m
    → 64 + m * 220 < 2 ^ 32
    → Start n m d records
    → Fits r
    → (d' : Disk) × (append_ring_record_with_capacity d r m ≡ ok (tt, d'))
      × Contents m d' (last m (last m records ++ (r ∷ [])))
      × (d'.bad ≡ d.bad)
unfolding append_ring_record_with_capacity
append_ring-Contents n m d records r pos small c g =
    let (file, d', e, o) = open-Opened n m d records pos small c in
    let (file', e', h') = append-Holds r o.holds g in
    (record d' { ring = some file' }, rw (e, e'), inr (file', refl, h'), o.kept)

-- Reading a ring returns exactly the records that it holds, oldest first, and changes nothing.
pub read_ring-Contents :
    (n : ℕ) (d : Disk) (records : List RingRecord) {file : List ℕ}
    → d.ring ≡ some file
    → Holds n file records
    → read_ring_records d ≡ ok (records, d)
unfolding read_ring_records
read_ring-Contents n d records e h =
    read_limited-Holds d (2 ^ 32 - 1) h e
    ∙ ap (λ t. ok (t, d)) (last_all (min (length records) (2 ^ 32 - 1)) records short)
  where
    short : length records ≤ min (length records) (2 ^ 32 - 1)
    short = omega (arith, Holds-short h, h.stored.n_small)
