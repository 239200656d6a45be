-- ===== src/Persistence/Ring/History.antt =====
-- A ring over a whole history of appends (bandix-plus/src/persistence.rs).
use bandix_plus_lite.Base.{
  ℕ, ◌+◌, ◌*◌, ◌<◌, ◌≤◌, ◌^◌, ◌≡◌, ◌≢◌, refl, ap, ◌∙◌, inl, inr, List, [], ◌∷◌, ◌++◌, All, length,
  last, ◌-◌, subst, length-drop, length-append, last-last_append, last_all, append_assoc,
  append-nil, ok, Result, ◌>>=◌, sym, arith,
}
use bandix_plus_lite.Persistence.Codec.{RingRecord, RingError}
use bandix_plus_lite.Persistence.Codec.RoundTrip.{Fits}
use bandix_plus_lite.Persistence.Ring.{Disk, append_ring_record_with_capacity, read_ring_records}
use bandix_plus_lite.Persistence.Ring.Open.{
  Contents, Start, append_ring-Contents, read_ring-Contents,
}

-- The records of a history, appended one after the other with one capacity.
unfoldable pub append_all : Disk → ℕ → List RingRecord → Result RingError Disk
append_all d slots [] = ok d
append_all d slots (r ∷ rs) =
    append_ring_record_with_capacity d r slots >>= λ (u, d'). append_all d' slots rs

length-last : (m : ℕ) (rs : List RingRecord) → length (last m rs) ≤ m
length-last m rs = omega (arith, length-drop (length rs - m) rs)

newest :
    (m : ℕ) (records : List RingRecord) (r : RingRecord) (rs : List RingRecord)
    → last m (last m (last m records ++ (r ∷ [])) ++ rs) ≡ last m (records ++ (r ∷ rs))
newest m records r rs =
    last-last_append m (last m records ++ (r ∷ [])) rs
    ∙ ap (last m) (append_assoc (last m records) (r ∷ []) rs)
    ∙ last-last_append m records (r ∷ rs)

append_all-Contents :
    (m : ℕ) (d : Disk) (records rs : List RingRecord)
    → 0 < m
    → 64 + m * 220 < 2 ^ 32
    → length records ≤ m
    → Contents m d records
    → All Fits rs
    → (d' : Disk) × (append_all d m rs ≡ ok d')
      × Contents m d' (last m (records ++ rs))
      × (d'.bad ≡ d.bad)
unfolding append_all
append_all-Contents m d records [] pos small short c f = (
  d,
  refl,
  subst (Contents m d) (sym (ap (last m) (append-nil records) ∙ last_all m records short)) c,
  refl,
)
append_all-Contents m d records (r ∷ rs) pos small short c f =
    let (d1, e1, c1, b1) = append_ring-Contents m m d records r pos small (inl c) f.0 in
    let (d2, e2, c2, b2) =
      append_all-Contents m d1 (last m (last m records ++ (r ∷ []))) rs pos small
        (length-last m (last m records ++ (r ∷ []))) c1 f.1 in
    (d2, rw e1 e2, subst (Contents m d2) (newest m records r rs) c2, b2 ∙ b1)

newest_some :
    (m : ℕ) (records : List RingRecord) (r : RingRecord) (rs : List RingRecord)
    → 0 < m
    → last m (records ++ (r ∷ rs)) ≢ []
newest_some m records r rs pos e = omega (
  arith,
  ap length e,
  length-drop (length (records ++ (r ∷ rs)) - m) (records ++ (r ∷ rs)),
  length-append records (r ∷ rs),
)

first_append :
    (d : Disk) (m : ℕ) (r : RingRecord) (rs : List RingRecord) (d1 d' : Disk)
    → append_ring_record_with_capacity d r m ≡ ok (tt, d1)
    → append_all d1 m rs ≡ ok d'
    → append_all d m (r ∷ rs) ≡ ok d'
unfolding append_all
first_append d m r rs d1 d' e1 e = rw e1 e

-- A ring that is absent, or holds records in `m` slots of version 2 without spare bytes, or is
-- converted to `m` slots, takes any number of further records, at least one, whose fields are u64s,
-- without an error and without setting a file aside, and reading it then gives exactly the newest
-- `m` of all the records, those that it held or that the conversion kept and then the new ones,
-- oldest first, and leaves the disk as it is. There is a slot, and the size of the ring is below 2
-- ^ 32 bytes.
pub read-append_all :
    (m : ℕ) (d : Disk) (records : List RingRecord) (r : RingRecord) (rs : List RingRecord)
    → 0 < m
    → 64 + m * 220 < 2 ^ 32
    → Start m m d records
    → All Fits (r ∷ rs)
    → (d' : Disk) × (append_all d m (r ∷ rs) ≡ ok d')
      × (read_ring_records d' ≡ ok (last m (records ++ (r ∷ rs)), d'))
      × (d'.bad ≡ d.bad)
read-append_all m d records r rs pos small c f =
    let (d1, e1, c1, b1) = append_ring-Contents m m d records r pos small c f.0 in
    let (d', e, c', b) =
      append_all-Contents m d1 (last m (last m records ++ (r ∷ []))) rs pos small
        (length-last m (last m records ++ (r ∷ []))) c1 f.1 in
    (
      d',
      first_append d m r rs d1 d' e1 e,
      read_back d' (subst (Contents m d') (newest m records r rs) c'),
      b ∙ b1,
    )
  where
    read_back :
        (d' : Disk)
        → Contents m d' (last m (records ++ (r ∷ rs)))
        → read_ring_records d' ≡ ok (last m (records ++ (r ∷ rs)), d')
    read_back d' (inl (gone, none_left)) = absurd (newest_some m records r rs pos none_left)
    read_back d' (inr (file, at_path, h)) =
        read_ring-Contents m d' (last m (records ++ (r ∷ rs))) at_path h
