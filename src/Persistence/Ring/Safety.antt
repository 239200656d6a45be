-- ===== src/Persistence/Ring/Safety.antt =====
-- Files that the reader accepts and refuses (bandix-plus/src/persistence.rs).
use bandix_plus_lite.Base.{ℕ, ◌<◌, ◌≤◌, ◌≡◌, ◌⊎◌, List, [], ◌∷◌, some, none, ok, err, length}
use bandix_plus_lite.Persistence.Codec.{RingRecord, RingError}
use bandix_plus_lite.Persistence.Header.{RingHeader, read_ring_header, ring_size_bounds}
use bandix_plus_lite.Persistence.Ring.{Disk, Io, read_accepted}

-- The file's header is read, its size lies within the bounds, and its slots give these records.
pub record Accepted (file : List ℕ) (limit : ℕ) (records : List RingRecord) : Type 0 where
  pub header : RingHeader
  pub bounds : ℕ × ℕ
  pub header_read : read_ring_header file ≡ ok header
  pub bounds_read : ring_size_bounds header ≡ ok bounds
  pub long_enough : bounds.0 ≤ length file
  pub not_too_long : length file ≤ bounds.1
  pub records_read : read_accepted file header limit ≡ ok (some records)

-- Its header is not one, or states no bounds, or its size lies outside of them, or a slot that is
-- due is not in the file or does not decode.
pub data Refused (file : List ℕ) (limit : ℕ) : Type 0 where
  bad_header : (e : RingError) → read_ring_header file ≡ err e → Refused file limit
  bad_positions :
      (h : RingHeader) (e : RingError)
      → read_ring_header file ≡ ok h
      → ring_size_bounds h ≡ err e
      → Refused file limit
  bad_size :
      (h : RingHeader) (bounds : ℕ × ℕ)
      → read_ring_header file ≡ ok h
      → ring_size_bounds h ≡ ok bounds
      → (length file < bounds.0) ⊎ (bounds.1 < length file)
      → Refused file limit
  bad_record :
      (h : RingHeader)
      → read_ring_header file ≡ ok h
      → read_accepted file h limit ≡ ok none
      → Refused file limit

-- An accepted file stays and gives its records; a refused one is set aside and gives none.
abbrev pub IsSafe : List ℕ → ℕ → Disk → List RingRecord × Disk → Type 0
IsSafe file limit d r =
    (Accepted file limit r.0 × (r.1 ≡ d))
    ⊎ (Refused file limit × (r.0 ≡ []) × (r.1.ring ≡ none) × (r.1.bad ≡ file ∷ d.bad))

pub SafeResult : List ℕ → ℕ → Disk → Io (List RingRecord) → Type 0
SafeResult file limit d (ok r) = IsSafe file limit d r
SafeResult file limit d (err e) = Unit
