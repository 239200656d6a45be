-- ===== src/Persistence/Codec.antt =====
-- Ring records as bytes: `checksum32`, `encode_ring_record` and `decode_ring_record` of
-- bandix-plus/src/persistence.rs. Their `RingRecord` has the one field `bucket`.
pub mod RoundTrip
use Prim.Native.Nat.{bit_xor}
use mathlib.Core.List.{foldl}
use bandix_plus_lite.Base.{
  ℕ, suc, zero, ◌+◌, ◌-◌, ◌*◌, ◌%◌, ◌^◌, ◌≡◌, refl, List, [], ◌∷◌, ◌++◌, Bool, true, false, ◌==◌,
  ◌!=◌, if◌then◌else◌, length, drop, take, Result, ok, err, ensure, ◌>>=◌, ◌>>◌, arith,
}
use bandix_plus_lite.Base.Bytes.{to_le_bytes, from_le_bytes, slice}
use bandix_plus_lite.Monitor.Types.{AggregatedBucket}

pub record RingRecord : Type 0 where
  pub bucket : AggregatedBucket

-- The messages of `anyhow::bail!` and the I/O error of a short read.
pub data RingError : Type 0 where
  invalid_magic unsupported_version invalid_header_checksum invalid_header_values : RingError
  invalid_positions invalid_write_pos invalid_record_length record_checksum_mismatch : RingError
  unexpected_record_size unexpected_eof zero_capacity no_such_file : RingError

abbrev pub ring_version : ℕ
ring_version = 2

abbrev pub ring_v1_record_size : ℕ
ring_v1_record_size = 22 * 8 + 4

abbrev pub ring_record_data_size : ℕ
ring_record_data_size = 27 * 8

abbrev pub ring_record_size : ℕ
ring_record_size = ring_record_data_size + 4

-- FNV-1a on 32 bits.
unfoldable pub checksum_step : ℕ → ℕ → ℕ
checksum_step hash b = bit_xor hash b * 0x01000193 % 2 ^ 32

unfoldable pub checksum32 : List ℕ → ℕ
checksum32 bytes = foldl checksum_step 0x811c9dc5 bytes

-- The values that `encode_ring_record` loops over, in its order.
unfoldable pub record_fields : AggregatedBucket → List ℕ
record_fields b =
    b.start_ts_ms ∷ b.end_ts_ms ∷ b.sample_count ∷ b.up_v4_bytes ∷ b.down_v4_bytes ∷ b.up_v6_bytes
    ∷ b.down_v6_bytes ∷ b.up_v4_bps_sum ∷ b.up_v4_bps_max ∷ b.up_v4_bps_min ∷ b.up_v4_bps_avg
    ∷ b.up_v4_bps_p95 ∷ b.down_v4_bps_sum ∷ b.down_v4_bps_max ∷ b.down_v4_bps_min
    ∷ b.down_v4_bps_avg ∷ b.down_v4_bps_p95 ∷ b.up_v6_bps_sum ∷ b.up_v6_bps_max ∷ b.up_v6_bps_min
    ∷ b.up_v6_bps_avg ∷ b.up_v6_bps_p95 ∷ b.down_v6_bps_sum ∷ b.down_v6_bps_max ∷ b.down_v6_bps_min
    ∷ b.down_v6_bps_avg ∷ b.down_v6_bps_p95 ∷ []

unfoldable pub encode_values : List ℕ → List ℕ
encode_values [] = []
encode_values (v ∷ vs) = to_le_bytes 8 v ++ encode_values vs

unfoldable pub encode_ring_record : RingRecord → Result RingError (List ℕ)
encode_ring_record record_in =
    let bytes = encode_values (record_fields record_in.bucket) in
    if length bytes != ring_record_data_size
    then err unexpected_record_size
    else ok (bytes ++ to_le_bytes 4 (checksum32 bytes))

-- The value of the closure's call number `i`: the calls read eight bytes each, one after the other.
unfoldable pub next_at : List ℕ → ℕ → ℕ
next_at bytes i = from_le_bytes (slice bytes (8 * i) 8)

-- Version 1 had no sample counts and no sums: the averages become the sums of one sample.
unfoldable pub bucket_v1 : (ℕ → ℕ) → AggregatedBucket
bucket_v1 next = record {
  start_ts_ms = next 0;
  end_ts_ms = next 1;
  sample_count = 1;
  up_v4_bytes = next 2;
  down_v4_bytes = next 3;
  up_v6_bytes = next 4;
  down_v6_bytes = next 5;
  up_v4_bps_sum = next 6;
  up_v4_bps_max = next 7;
  up_v4_bps_min = next 8;
  down_v4_bps_sum = next 10;
  down_v4_bps_max = next 11;
  down_v4_bps_min = next 12;
  up_v6_bps_sum = next 14;
  up_v6_bps_max = next 15;
  up_v6_bps_min = next 16;
  down_v6_bps_sum = next 18;
  down_v6_bps_max = next 19;
  down_v6_bps_min = next 20;
  up_v4_bps_avg = next 6;
  up_v4_bps_p95 = next 9;
  down_v4_bps_avg = next 10;
  down_v4_bps_p95 = next 13;
  up_v6_bps_avg = next 14;
  up_v6_bps_p95 = next 17;
  down_v6_bps_avg = next 18;
  down_v6_bps_p95 = next 21;
}

unfoldable pub bucket_v2 : (ℕ → ℕ) → AggregatedBucket
bucket_v2 next = record {
  start_ts_ms = next 0;
  end_ts_ms = next 1;
  sample_count = next 2;
  up_v4_bytes = next 3;
  down_v4_bytes = next 4;
  up_v6_bytes = next 5;
  down_v6_bytes = next 6;
  up_v4_bps_sum = next 7;
  up_v4_bps_max = next 8;
  up_v4_bps_min = next 9;
  down_v4_bps_sum = next 12;
  down_v4_bps_max = next 13;
  down_v4_bps_min = next 14;
  up_v6_bps_sum = next 17;
  up_v6_bps_max = next 18;
  up_v6_bps_min = next 19;
  down_v6_bps_sum = next 22;
  down_v6_bps_max = next 23;
  down_v6_bps_min = next 24;
  up_v4_bps_avg = next 10;
  up_v4_bps_p95 = next 11;
  down_v4_bps_avg = next 15;
  down_v4_bps_p95 = next 16;
  up_v6_bps_avg = next 20;
  up_v6_bps_p95 = next 21;
  down_v6_bps_avg = next 25;
  down_v6_bps_p95 = next 26;
}

abbrev pub record_size_of_version : ℕ → ℕ
record_size_of_version version = if version == 1 then ring_v1_record_size else ring_record_size

unfoldable pub decode_ring_record : List ℕ → ℕ → Result RingError RingRecord
decode_ring_record bytes version = do
  let record_size = record_size_of_version version
  ensure (length bytes == record_size) invalid_record_length
  let data_size = record_size - 4
  let checksum = from_le_bytes (drop data_size bytes)
  ensure (checksum == checksum32 (take data_size bytes)) record_checksum_mismatch
  ok (record {
    bucket = if version == 1 then bucket_v1 (next_at bytes) else bucket_v2 (next_at bytes);
  })
