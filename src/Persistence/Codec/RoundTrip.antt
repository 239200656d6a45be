-- ===== src/Persistence/Codec/RoundTrip.antt =====
-- The bytes that `encode_ring_record` writes, read by `decode_ring_record`
-- (bandix-plus/src/persistence.rs).
use mathlib.Core.List.{foldl}
use bandix_plus_lite.Base.{
  ℕ, zero, suc, ◌*◌, ◌^◌, ◌<◌, ◌≡◌, refl, sym, ap, ◌∙◌, List, [], ◌∷◌, ◌++◌, length, get_or, drop,
  take, ◌>>=◌, All, length-append, drop-append, take-append, drop-append_add, append_assoc, arith,
  ok, eq→==,
}
use bandix_plus_lite.Base.Bytes.{to_le_bytes, from_le_bytes, from-to_le_bytes}
use bandix_plus_lite.Monitor.Types.{AggregatedBucket}
use bandix_plus_lite.Persistence.Codec.{
  RingRecord, checksum_step, checksum32, record_fields, encode_values, encode_ring_record, next_at,
  bucket_v2, decode_ring_record, ring_record_size,
}

abbrev pub IsU64 : ℕ → Type 0
IsU64 v = v < 2 ^ 64

-- Every field of the record's bucket is a u64.
abbrev pub Fits : RingRecord → Type 0
Fits r = All IsU64 (record_fields r.bucket)

checksum_step-lt : (hash b : ℕ) → checksum_step hash b < 2 ^ 32
unfolding checksum_step
checksum_step-lt hash b = omega arith

foldl_step-lt :
    (bytes : List ℕ) (hash : ℕ) → hash < 2 ^ 32 → foldl checksum_step hash bytes < 2 ^ 32
foldl_step-lt [] hash h = h
foldl_step-lt (b ∷ bytes) hash h =
    foldl_step-lt bytes (checksum_step hash b) (checksum_step-lt hash b)

pub checksum32-lt : (bytes : List ℕ) → checksum32 bytes < 2 ^ 32
unfolding checksum32
checksum32-lt bytes = foldl_step-lt bytes 0x811c9dc5 (omega arith)

pub length-encode_values : (vs : List ℕ) → length (encode_values vs) ≡ 8 * length vs
unfolding encode_values
length-encode_values [] = refl
length-encode_values (v ∷ vs) = omega (arith, length-encode_values vs)

next_at-encode_values :
    (vs rest : List ℕ) (i : ℕ)
    → All IsU64 vs
    → i < length vs
    → next_at (encode_values vs ++ rest) i ≡ get_or vs i 0
unfolding next_at encode_values
next_at-encode_values [] rest i fits h = absurd (omega arith)
next_at-encode_values (v ∷ vs) rest zero fits h = from-to_le_bytes 8 v fits.0
next_at-encode_values (v ∷ vs) rest (suc i) fits h =
    ap (λ (t : List ℕ). from_le_bytes (take 8 t))
      (ap (drop (8 * suc i)) (append_assoc (to_le_bytes 8 v) (encode_values vs) rest)
        ∙ drop-append_add (to_le_bytes 8 v) (encode_values vs ++ rest) (8 * suc i) (8 * i)
            (omega arith))
    ∙ next_at-encode_values vs rest i fits.1 (omega arith)

bucket_v2_ext :
    (next : ℕ → ℕ) (b : AggregatedBucket)
    → ((i : ℕ) → i < 27 → next i ≡ get_or (record_fields b) i 0)
    → bucket_v2 next ≡ b
unfolding bucket_v2 record_fields
bucket_v2_ext next b h = λ j. record {
  start_ts_ms = h 0 (omega arith) j;
  end_ts_ms = h 1 (omega arith) j;
  sample_count = h 2 (omega arith) j;
  up_v4_bytes = h 3 (omega arith) j;
  down_v4_bytes = h 4 (omega arith) j;
  up_v6_bytes = h 5 (omega arith) j;
  down_v6_bytes = h 6 (omega arith) j;
  up_v4_bps_sum = h 7 (omega arith) j;
  up_v4_bps_max = h 8 (omega arith) j;
  up_v4_bps_min = h 9 (omega arith) j;
  down_v4_bps_sum = h 12 (omega arith) j;
  down_v4_bps_max = h 13 (omega arith) j;
  down_v4_bps_min = h 14 (omega arith) j;
  up_v6_bps_sum = h 17 (omega arith) j;
  up_v6_bps_max = h 18 (omega arith) j;
  up_v6_bps_min = h 19 (omega arith) j;
  down_v6_bps_sum = h 22 (omega arith) j;
  down_v6_bps_max = h 23 (omega arith) j;
  down_v6_bps_min = h 24 (omega arith) j;
  up_v4_bps_avg = h 10 (omega arith) j;
  up_v4_bps_p95 = h 11 (omega arith) j;
  down_v4_bps_avg = h 15 (omega arith) j;
  down_v4_bps_p95 = h 16 (omega arith) j;
  up_v6_bps_avg = h 20 (omega arith) j;
  up_v6_bps_p95 = h 21 (omega arith) j;
  down_v6_bps_avg = h 25 (omega arith) j;
  down_v6_bps_p95 = h 26 (omega arith) j;
}

fields_lt : (b : AggregatedBucket) (i : ℕ) → i < 27 → i < length (record_fields b)
unfolding record_fields
fields_lt b i h = h

-- The bytes that `encode_ring_record` writes for a record.
unfoldable pub record_bytes : RingRecord → List ℕ
record_bytes r =
    encode_values (record_fields r.bucket)
    ++ to_le_bytes 4 (checksum32 (encode_values (record_fields r.bucket)))

length-encode_fields : (r : RingRecord) → length (encode_values (record_fields r.bucket)) ≡ 216
unfolding record_fields
length-encode_fields r = length-encode_values (record_fields r.bucket)

pub length-record_bytes : (r : RingRecord) → length (record_bytes r) ≡ ring_record_size
unfolding record_bytes
length-record_bytes r = omega (
  arith,
  length-append (encode_values (record_fields r.bucket))
      (to_le_bytes 4 (checksum32 (encode_values (record_fields r.bucket)))),
  length-encode_fields r,
)

pub encode-eq-record_bytes : (r : RingRecord) → encode_ring_record r ≡ ok (record_bytes r)
unfolding encode_ring_record record_bytes
encode-eq-record_bytes r = ground (arith, length-encode_fields r)

decode_parts :
    (bytes sum : List ℕ)
    → length bytes ≡ 216
    → length sum ≡ 4
    → from_le_bytes sum ≡ checksum32 bytes
    → decode_ring_record (bytes ++ sum) 2
      ≡ ok (record { bucket = bucket_v2 (next_at (bytes ++ sum)) })
unfolding decode_ring_record
decode_parts bytes sum hb hs e =
    let whole : length (bytes ++ sum) ≡ 220 = omega (arith, length-append bytes sum) in
    rw (
      eq→== (length (bytes ++ sum)) 220 whole,
      drop-append bytes sum 216 (sym hb),
      take-append bytes sum 216 (sym hb),
      eq→== (from_le_bytes sum) (checksum32 bytes) e,
    )

-- Decoding what was encoded gives the record back, if its fields are u64s.
pub decode-record_bytes : (r : RingRecord) → Fits r → decode_ring_record (record_bytes r) 2 ≡ ok r
unfolding record_bytes
decode-record_bytes r fits =
    decode_parts body sum (length-encode_fields r) refl
      (from-to_le_bytes 4 (checksum32 body) (checksum32-lt body))
    ∙ ap (λ (b : AggregatedBucket). ok (record { bucket = b })) same
  where
    body : List ℕ
    body = encode_values (record_fields r.bucket)

    sum : List ℕ
    sum = to_le_bytes 4 (checksum32 body)

    same : bucket_v2 (next_at (body ++ sum)) ≡ r.bucket
    same =
        bucket_v2_ext (next_at (body ++ sum)) r.bucket (λ i h.
          next_at-encode_values (record_fields r.bucket) sum i fits (fields_lt r.bucket i h))

-- Encoding a record whose fields are u64s succeeds, and decoding the bytes as version 2 gives the
-- record back, its checksum included.
pub decode-encode_ring_record :
    (r : RingRecord)
    → Fits r
    → (encode_ring_record r >>= λ bytes. decode_ring_record bytes 2) ≡ ok r
decode-encode_ring_record r fits = rw (encode-eq-record_bytes r) (decode-record_bytes r fits)
