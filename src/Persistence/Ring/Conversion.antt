-- ===== src/Persistence/Ring/Conversion.antt =====
-- Rings that are converted when they are opened: those of version 1, whatever their capacity, and
-- those of another capacity (bandix-plus/src/persistence.rs).
use native.Mathlib.Nat.{mod-eq_of_lt}
use bandix_plus_lite.Base.{
  ℕ, zero, suc, ◌+◌, ◌*◌, ◌%◌, ◌^◌, ◌<◌, ◌≤◌, ◌≡◌, ◌≢◌, ◌⊎◌, inl, inr, min, refl, sym, ap, ◌∙◌,
  List, [], ◌∷◌, ◌++◌, length, drop_all, take_all, All, Result, ok, err, ◌>>=◌, Option, some, none,
  true, false, ◌||◌, arith, Bool-cases, ◌==◌, ◌!=◌, append_assoc, append-nil, length-append,
}
use bandix_plus_lite.Persistence.Codec.{RingRecord, RingError}
use bandix_plus_lite.Persistence.Codec.RoundTrip.{Fits, record_bytes, encode-eq-record_bytes}
use bandix_plus_lite.Persistence.Header.{
  RingHeader, header_bytes, default_ring_header, ring_size_bounds, read_ring_header,
}
use bandix_plus_lite.Persistence.Ring.{
  Disk, size_outside, read_loop, read_accepted, read_ring_records_limited, read_file, finish_read,
  read_with_header, read_within, write_records, migrated_header, migrate, open_within,
  open_with_header, open_file,
}
use bandix_plus_lite.Persistence.Ring.Layout.{flat, ring_header, write_ring_header-new}
use bandix_plus_lite.Persistence.Ring.Append.{Holds}
use bandix_plus_lite.Persistence.Ring.Rotation.{wraps_to_zero}

write_records-flat :
    (rs : List RingRecord) (file : List ℕ) → write_records file rs ≡ ok (file ++ flat rs)
unfolding write_records
write_records-flat [] file = ap ok (sym (append-nil file))
write_records-flat (r ∷ rs) file = rw (encode-eq-record_bytes r) (
    write_records-flat rs (file ++ record_bytes r)
    ∙ ap ok (append_assoc file (record_bytes r) (flat rs)))

-- A file that is written whole.
abbrev pub converted : ℕ → List RingRecord → List ℕ
converted m rs = header_bytes (ring_header m (length rs % m) (length rs)) ++ flat rs

-- It holds its records.
pub fresh-Holds :
    (m : ℕ) (rs : List RingRecord)
    → 0 < m
    → 64 + m * 220 < 2 ^ 32
    → length rs ≤ m
    → All Fits rs
    → Holds m (converted m rs) rs
fresh-Holds m rs pos small short f = record {
  slots = rs;
  wp = length rs % m;
  stored = record {
    bytes = refl;
    n_small = small;
    wp_in = omega arith;
    slots_in = short;
    room = λ less. mod-eq_of_lt less;
    fits = f;
  };
  order = elim (Bool-cases (length rs == m)) [
    | inl full ↦ rw (wraps_to_zero (length rs) m pos (ground arith)) (append-nil rs)
    | inr less ↦ rw (
      mod-eq_of_lt {n = length rs} {m = m} (ground arith),
      drop_all rs (length rs) (omega arith),
      take_all rs (length rs) (omega arith),
    )
  ];
}

pub migrate-converted :
    (d : Disk) (m : ℕ) (kept : List RingRecord)
    → read_ring_records_limited d m ≡ ok (kept, d)
    → migrate d m ≡ ok (converted m kept, record d { ring = some (converted m kept) })
unfolding migrate migrated_header default_ring_header
migrate-converted d m kept h = rw (
  h,
  write_ring_header-new (ring_header m (length kept % m) (length kept)),
  write_records-flat kept (header_bytes (ring_header m (length kept % m) (length kept))),
)

-- The ring at the path is of version 1 or of another capacity than `m`. Its header and its size are
-- accepted, spare bytes included, and its newest `m` records are read as these.
pub record IsConverted (m : ℕ) (d : Disk) (kept : List RingRecord) : Type 0 where
  pub file : List ℕ
  pub header : RingHeader
  pub bounds : ℕ × ℕ
  pub at_path : d.ring ≡ some file
  pub header_read : read_ring_header file ≡ ok header
  pub differs : (header.version ≡ 1) ⊎ (header.slot_count ≢ m)
  pub bounds_read : ring_size_bounds header ≡ ok bounds
  pub long_enough : bounds.0 ≤ length file
  pub not_too_long : length file ≤ bounds.1
  pub records_read : read_accepted file header m ≡ ok (some kept)
  pub fits : All Fits kept

round_length :
    (n : ℕ) (xs : List RingRecord) (slot : Result RingError (Option (RingRecord × ℕ)))
    (rest : RingRecord → ℕ → Result RingError (Option (List RingRecord)))
    → ((r : RingRecord) (after : ℕ) → rest r after ≡ ok (some xs) → length xs ≡ n)
    → (slot >>= λ o. elim o [ none ↦ ok none | some (r, after) ↦ rest r after ]) ≡ ok (some xs)
    → length xs ≡ n
round_length n xs (err e) rest again h = absurd (cc h)
round_length n xs (ok none) rest again h = absurd (cc h)
round_length n xs (ok (some (r, after))) rest again h = again r after h

read_loop-length :
    (file : List ℕ) (h : RingHeader) (start left i pos : ℕ) (out xs : List RingRecord)
    → read_loop file h start left i pos out ≡ ok (some xs)
    → length xs ≡ length out + left
unfolding read_loop
read_loop-length file h start zero i pos out xs e =
    let p : xs ≡ out = cc e in omega (arith, ap length p)
read_loop-length file h start (suc left) i pos out xs e =
    round_length (length out + suc left) xs _
      (λ r after. read_loop file h start left (i + 1) after (out ++ (r ∷ [])))
      (λ r after again. omega (
        arith,
        read_loop-length file h start left (i + 1) after (out ++ (r ∷ [])) xs again,
        length-append out (r ∷ []),
      ))
      e

pub kept-short :
    {m : ℕ} {d : Disk} {kept : List RingRecord} → IsConverted m d kept → length kept ≤ m
unfolding read_accepted
kept-short {m} {kept} c =
    let l : length kept ≡ 0 + min c.header.valid_count m =
      read_loop-length c.file c.header _ (min c.header.valid_count m) 0 _ [] kept c.records_read in
    omega (arith, l)

module _ {m : ℕ} {d : Disk} {kept : List RingRecord} (c : IsConverted m d kept) where
  accepted_size : size_outside c.file c.bounds ≡ false
  unfolding size_outside
  accepted_size = ground (arith, c.long_enough, c.not_too_long)

  read_limited-kept : read_ring_records_limited d m ≡ ok (kept, d)
  unfolding read_ring_records_limited read_file read_with_header read_within finish_read
  read_limited-kept =
      rw (c.at_path, c.header_read, c.bounds_read, accepted_size, c.records_read) refl

  must_convert : (c.header.version == 1 || c.header.slot_count != m) ≡ true
  must_convert = ground (arith, c.differs)

  pub open_file-converted :
      open_file d m d.ring ≡ ok (converted m kept, record d { ring = some (converted m kept) })
  unfolding open_file open_with_header open_within
  open_file-converted =
      ap (open_file d m) c.at_path
      ∙ rw (c.header_read, c.bounds_read, accepted_size, must_convert)
          (migrate-converted d m kept read_limited-kept)
