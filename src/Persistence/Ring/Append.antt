-- ===== src/Persistence/Ring/Append.antt =====
-- `append_ring_record_with_capacity` on the bytes of a ring file
-- (bandix-plus/src/persistence.rs).
use native.Mathlib.Nat.{mod-eq_of_lt}
use bandix_plus_lite.Base.{
  ℕ, ◌+◌, ◌*◌, ◌%◌, ◌<◌, ◌≤◌, ◌≡◌, ◌⊎◌, inl, inr, min, refl, sym, ap, ap₂, ◌∙◌, List, [], ◌∷◌, ◌++◌,
  length, ok, arith, Bool-cases, last, ◌==◌,
}
use bandix_plus_lite.Persistence.Codec.{RingRecord}
use bandix_plus_lite.Persistence.Codec.RoundTrip.{Fits, record_bytes, encode-eq-record_bytes}
use bandix_plus_lite.Persistence.Header.{
  RingHeader, header_bytes, ring_data_offset, write_at, write_ring_header, read_ring_header,
}
use bandix_plus_lite.Persistence.Header.RoundTrip.{read-header_bytes}
use bandix_plus_lite.Persistence.Ring.{append_to_file}
use bandix_plus_lite.Persistence.Ring.Layout.{
  flat, ring_header, Stored, ring_header-IsValid, write_at-slot, write_ring_header-over, put-Fits,
  length-put_inside, length-put_end,
}
use bandix_plus_lite.Persistence.Ring.Rotation.{put, in_order, in_order-put}

module _ {n : ℕ} {file : List ℕ} {slots : List RingRecord} {wp : ℕ}
    (s : Stored n file slots wp) where
  pub wp-slots : (wp < length slots) ⊎ (wp ≡ length slots)
  wp-slots = elim (Bool-cases (length slots == n)) [
    | inl full ↦ inl (ground (arith, s.wp_in))
    | inr less ↦ inr (s.room (ground (arith, s.slots_in)))
  ]

  length-put_wp : (r : RingRecord) → length (put wp r slots) ≡ min (length slots + 1) n
  length-put_wp r = elim (Bool-cases (length slots == n)) [
    | inl full ↦
        length-put_inside slots r wp (ground (arith, s.wp_in))
        ∙ (let e : length slots ≡ n = ground arith in omega (arith, e))
    | inr less ↦
        length-put_end slots r wp (s.room (ground (arith, s.slots_in)))
        ∙ (let e : length slots < n = ground (arith, s.slots_in) in omega (arith, e))
  ]

  pub read_header-stored : read_ring_header file ≡ ok (ring_header n wp (length slots))
  read_header-stored =
      ap read_ring_header s.bytes
      ∙ read-header_bytes (ring_header n wp (length slots)) (flat slots)
          (ring_header-IsValid n wp (length slots) (omega (arith, s.n_small)) s.wp_in s.slots_in)

  abbrev appended : RingRecord → List ℕ
  appended r =
      header_bytes (ring_header n ((wp + 1) % n) (length (put wp r slots))) ++ flat (put wp r slots)

  append_to_file-appended : (r : RingRecord) → append_to_file file r ≡ ok (appended r)
  unfolding append_to_file ring_data_offset
  append_to_file-appended r =
      rw (read_header-stored, encode-eq-record_bytes r, mod-eq_of_lt s.wp_in)
        (ap ok (
          ap₂ write_ring_header written header_eq
          ∙ write_ring_header-over (ring_header n wp (length slots)) new_header
              (flat (put wp r slots))))
    where
      new_header : RingHeader
      new_header = ring_header n ((wp + 1) % n) (length (put wp r slots))

      header_eq : ring_header n ((wp + 1) % n) (min (length slots + 1) n) ≡ new_header
      header_eq = ap (ring_header n ((wp + 1) % n)) (sym (length-put_wp r))

      at_or_below : wp ≤ length slots
      at_or_below = omega (arith, wp-slots)

      written :
          write_at file (64 + wp * 220) (record_bytes r)
          ≡ header_bytes (ring_header n wp (length slots)) ++ flat (put wp r slots)
      written =
          ap (λ t. write_at t (64 + wp * 220) (record_bytes r)) s.bytes
          ∙ write_at-slot (ring_header n wp (length slots)) slots r wp at_or_below

  next_wp : (count : ℕ) → count ≡ min (length slots + 1) n → count < n → (wp + 1) % n ≡ count
  next_wp count e less =
      let w : wp ≡ length slots = s.room (omega arith) in
      mod-eq_of_lt {n = wp + 1} {m = n} (omega arith) ∙ omega arith

  appended-Stored :
      (r : RingRecord) → Fits r → Stored n (appended r) (put wp r slots) ((wp + 1) % n)
  appended-Stored r g = record {
    bytes = refl;
    n_small = s.n_small;
    wp_in = let w : wp < n = s.wp_in in omega arith;
    slots_in = omega (arith, length-put_wp r);
    room = next_wp (length (put wp r slots)) (length-put_wp r);
    fits = put-Fits slots r wp s.fits g;
  }

-- The ring file holds these records, oldest first, in `n` slots.
pub record Holds (n : ℕ) (file : List ℕ) (records : List RingRecord) : Type 0 where
  pub slots : List RingRecord
  pub wp : ℕ
  pub stored : Stored n file slots wp
  pub order : in_order wp slots ≡ records

-- Appending a record to a ring file of `n` slots succeeds, and the file then holds the newest `n`
-- of the records before and the new one, in order.
pub append-Holds :
    {n : ℕ} {file : List ℕ} {records : List RingRecord} (r : RingRecord)
    → Holds n file records
    → Fits r
    → (file' : List ℕ) × (append_to_file file r ≡ ok file')
      × Holds n file' (last n (records ++ (r ∷ [])))
append-Holds {n} r h g = (
  appended h.stored r,
  append_to_file-appended h.stored r,
  record {
    slots = put h.wp r h.slots;
    wp = (h.wp + 1) % n;
    stored = appended-Stored h.stored r g;
    order =
        in_order-put h.slots r n h.wp h.stored.wp_in h.stored.slots_in h.stored.room
        ∙ ap (λ t. last n (t ++ (r ∷ []))) h.order;
  },
)
