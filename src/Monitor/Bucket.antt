-- ===== src/Monitor/Bucket.antt =====
-- Hour buckets of bandix-plus/src/monitor.rs: a sample added, a bucket closed, and byte totals.
pub mod Rates
use bandix_plus_lite.Base.{
  ℕ, ◌+◌, ◌/◌, min, max, List, [], ◌∷◌, ltb, ◌==◌, ◌&&◌, Bool, if◌then◌else◌, length, last,
}
use bandix_plus_lite.Base.Bytes.{saturating_add, wrapping_add}
use bandix_plus_lite.Monitor.Types.{
  CounterQuad, AggregatedBucket, HistoryTrafficType, all, ipv4, ipv6,
}

-- Only the chosen address family is kept: the other one's bytes and rates become zero.
unfoldable pub with_traffic_type : HistoryTrafficType → AggregatedBucket → AggregatedBucket
with_traffic_type all b = b
with_traffic_type ipv4 b = record b {
  up_v6_bytes = 0;
  down_v6_bytes = 0;
  up_v6_bps_sum = 0;
  up_v6_bps_avg = 0;
  up_v6_bps_max = 0;
  up_v6_bps_min = 0;
  up_v6_bps_p95 = 0;
  down_v6_bps_sum = 0;
  down_v6_bps_avg = 0;
  down_v6_bps_max = 0;
  down_v6_bps_min = 0;
  down_v6_bps_p95 = 0;
}
with_traffic_type ipv6 b = record b {
  up_v4_bytes = 0;
  down_v4_bytes = 0;
  up_v4_bps_sum = 0;
  up_v4_bps_avg = 0;
  up_v4_bps_max = 0;
  up_v4_bps_min = 0;
  up_v4_bps_p95 = 0;
  down_v4_bps_sum = 0;
  down_v4_bps_avg = 0;
  down_v4_bps_max = 0;
  down_v4_bps_min = 0;
  down_v4_bps_p95 = 0;
}

-- The averages that `finalize` fills in; none for a bucket with no sample.
unfoldable pub average : ℕ → ℕ → ℕ → ℕ
average old total count = if ltb 0 count then total / count else old

unfoldable pub finalize : AggregatedBucket → AggregatedBucket
unfolding average
finalize b = record b {
  up_v4_bps_avg = average b.up_v4_bps_avg b.up_v4_bps_sum b.sample_count;
  down_v4_bps_avg = average b.down_v4_bps_avg b.down_v4_bps_sum b.sample_count;
  up_v6_bps_avg = average b.up_v6_bps_avg b.up_v6_bps_sum b.sample_count;
  down_v6_bps_avg = average b.down_v6_bps_avg b.down_v6_bps_sum b.sample_count;
  up_v4_bps_p95 = b.up_v4_bps_max;
  down_v4_bps_p95 = b.down_v4_bps_max;
  up_v6_bps_p95 = b.up_v6_bps_max;
  down_v6_bps_p95 = b.down_v6_bps_max;
}

-- The minimum of a rate so far; a first sample sets it.
unfoldable pub min_rate : ℕ → ℕ → ℕ → ℕ
min_rate count old rate = if count == 0 then rate else min old rate

-- One sample joins a bucket: the part that `ingest_iface` and `ingest_device` share.
unfoldable pub add_sample : AggregatedBucket → CounterQuad → AggregatedBucket
unfolding min_rate
add_sample b m = record b {
  up_v4_bytes = saturating_add b.up_v4_bytes m.up_v4_bytes;
  down_v4_bytes = saturating_add b.down_v4_bytes m.down_v4_bytes;
  up_v6_bytes = saturating_add b.up_v6_bytes m.up_v6_bytes;
  down_v6_bytes = saturating_add b.down_v6_bytes m.down_v6_bytes;
  up_v4_bps_min = min_rate b.sample_count b.up_v4_bps_min m.up_v4_bps;
  down_v4_bps_min = min_rate b.sample_count b.down_v4_bps_min m.down_v4_bps;
  up_v6_bps_min = min_rate b.sample_count b.up_v6_bps_min m.up_v6_bps;
  down_v6_bps_min = min_rate b.sample_count b.down_v6_bps_min m.down_v6_bps;
  up_v4_bps_max = max b.up_v4_bps_max m.up_v4_bps;
  down_v4_bps_max = max b.down_v4_bps_max m.down_v4_bps;
  up_v6_bps_max = max b.up_v6_bps_max m.up_v6_bps;
  down_v6_bps_max = max b.down_v6_bps_max m.down_v6_bps;
  up_v4_bps_sum = saturating_add b.up_v4_bps_sum m.up_v4_bps;
  down_v4_bps_sum = saturating_add b.down_v4_bps_sum m.down_v4_bps;
  up_v6_bps_sum = saturating_add b.up_v6_bps_sum m.up_v6_bps;
  down_v6_bps_sum = saturating_add b.down_v6_bps_sum m.down_v6_bps;
  sample_count = wrapping_add b.sample_count 1;
}

unfoldable pub zero_quad : CounterQuad
zero_quad = record {
  up_v4_bps = 0;
  down_v4_bps = 0;
  up_v6_bps = 0;
  down_v6_bps = 0;
  up_v4_bytes = 0;
  down_v4_bytes = 0;
  up_v6_bytes = 0;
  down_v6_bytes = 0;
}

unfoldable pub add_quad : CounterQuad → CounterQuad → CounterQuad
add_quad dst src = record {
  up_v4_bps = saturating_add dst.up_v4_bps src.up_v4_bps;
  down_v4_bps = saturating_add dst.down_v4_bps src.down_v4_bps;
  up_v6_bps = saturating_add dst.up_v6_bps src.up_v6_bps;
  down_v6_bps = saturating_add dst.down_v6_bps src.down_v6_bps;
  up_v4_bytes = saturating_add dst.up_v4_bytes src.up_v4_bytes;
  down_v4_bytes = saturating_add dst.down_v4_bytes src.down_v4_bytes;
  up_v6_bytes = saturating_add dst.up_v6_bytes src.up_v6_bytes;
  down_v6_bytes = saturating_add dst.down_v6_bytes src.down_v6_bytes;
}

unfoldable pub add_bucket_bytes : CounterQuad → AggregatedBucket → CounterQuad
add_bucket_bytes dst bucket = record dst {
  up_v4_bytes = saturating_add dst.up_v4_bytes bucket.up_v4_bytes;
  down_v4_bytes = saturating_add dst.down_v4_bytes bucket.down_v4_bytes;
  up_v6_bytes = saturating_add dst.up_v6_bytes bucket.up_v6_bytes;
  down_v6_bytes = saturating_add dst.down_v6_bytes bucket.down_v6_bytes;
}

unfoldable pub add_bytes_quad : CounterQuad → CounterQuad → CounterQuad
add_bytes_quad dst src = record dst {
  up_v4_bytes = saturating_add dst.up_v4_bytes src.up_v4_bytes;
  down_v4_bytes = saturating_add dst.down_v4_bytes src.down_v4_bytes;
  up_v6_bytes = saturating_add dst.up_v6_bytes src.up_v6_bytes;
  down_v6_bytes = saturating_add dst.down_v6_bytes src.down_v6_bytes;
}

unfoldable pub is_empty : CounterQuad → Bool
is_empty q =
    q.up_v4_bytes == 0
    && q.down_v4_bytes == 0
    && q.up_v6_bytes == 0
    && q.down_v6_bytes == 0
    && q.up_v4_bps == 0
    && q.down_v4_bps == 0
    && q.up_v6_bps == 0
    && q.down_v6_bps == 0
