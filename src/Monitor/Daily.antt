-- ===== src/Monitor/Daily.antt =====
-- `merge_hourly_to_daily` of bandix-plus/src/monitor.rs. The local day of a time stamp comes from
-- chrono, and it and the iteration order of the hash map are parameters.
pub mod Totals
mod Tests
use bandix_plus_lite.Base.{
  ℕ, ◌+◌, ◌/◌, max, List, [], ◌∷◌, Option, some, none, Bool, ◌&&◌, ◌||◌, ◌==◌, ltb, if◌then◌else◌,
}
use bandix_plus_lite.Base.Bytes.{saturating_add}
use bandix_plus_lite.Base.Map.{nat_eq, get, insert}
use bandix_plus_lite.Monitor.Types.{AggregatedBucket, empty_bucket}
use bandix_plus_lite.Monitor.Bucket.{average}
use bandix_plus_lite.Monitor.Histogram.{sort_by_start}

-- The least rate so far that is not zero.
unfoldable pub least_rate : ℕ → ℕ → ℕ
least_rate old rate = if old == 0 || ltb 0 rate && ltb rate old then rate else old

-- One hour joins its day.
unfoldable pub merge_hour : AggregatedBucket → AggregatedBucket → AggregatedBucket
unfolding least_rate average
merge_hour acc b =
    let up_v4_max = max acc.up_v4_bps_max b.up_v4_bps_max in
    let down_v4_max = max acc.down_v4_bps_max b.down_v4_bps_max in
    let up_v6_max = max acc.up_v6_bps_max b.up_v6_bps_max in
    let down_v6_max = max acc.down_v6_bps_max b.down_v6_bps_max in
    let samples = saturating_add acc.sample_count b.sample_count in
    let up_v4_sum = saturating_add acc.up_v4_bps_sum b.up_v4_bps_sum in
    let down_v4_sum = saturating_add acc.down_v4_bps_sum b.down_v4_bps_sum in
    let up_v6_sum = saturating_add acc.up_v6_bps_sum b.up_v6_bps_sum in
    let down_v6_sum = saturating_add acc.down_v6_bps_sum b.down_v6_bps_sum in
    record acc {
      up_v4_bytes = saturating_add acc.up_v4_bytes b.up_v4_bytes;
      down_v4_bytes = saturating_add acc.down_v4_bytes b.down_v4_bytes;
      up_v6_bytes = saturating_add acc.up_v6_bytes b.up_v6_bytes;
      down_v6_bytes = saturating_add acc.down_v6_bytes b.down_v6_bytes;
      up_v4_bps_max = up_v4_max;
      down_v4_bps_max = down_v4_max;
      up_v6_bps_max = up_v6_max;
      down_v6_bps_max = down_v6_max;
      up_v4_bps_min = least_rate acc.up_v4_bps_min b.up_v4_bps_min;
      down_v4_bps_min = least_rate acc.down_v4_bps_min b.down_v4_bps_min;
      up_v6_bps_min = least_rate acc.up_v6_bps_min b.up_v6_bps_min;
      down_v6_bps_min = least_rate acc.down_v6_bps_min b.down_v6_bps_min;
      up_v4_bps_p95 = up_v4_max;
      down_v4_bps_p95 = down_v4_max;
      up_v6_bps_p95 = up_v6_max;
      down_v6_bps_p95 = down_v6_max;
      sample_count = samples;
      up_v4_bps_sum = up_v4_sum;
      down_v4_bps_sum = down_v4_sum;
      up_v6_bps_sum = up_v6_sum;
      down_v6_bps_sum = down_v6_sum;
      up_v4_bps_avg = average acc.up_v4_bps_avg up_v4_sum samples;
      down_v4_bps_avg = average acc.down_v4_bps_avg down_v4_sum samples;
      up_v6_bps_avg = average acc.up_v6_bps_avg up_v6_sum samples;
      down_v6_bps_avg = average acc.down_v6_bps_avg down_v6_sum samples;
    }

abbrev pub Days : Type 0
Days = List (ℕ × AggregatedBucket)

-- `or_insert_with`
abbrev pub day_or_new : ℕ → ℕ → Option AggregatedBucket → AggregatedBucket
day_or_new day_start day_end none = empty_bucket day_start day_end
day_or_new day_start day_end (some acc) = acc

abbrev pub bucket_values : Days → List AggregatedBucket
bucket_values [] = []
bucket_values ((day, b) ∷ days) = b ∷ bucket_values days

module _ (daily_bucket_local : ℕ → ℕ × ℕ) where
  -- The loop over the hours.
  unfoldable pub merge_hours : List AggregatedBucket → Days → Days
  merge_hours [] by_day = by_day
  merge_hours (b ∷ hourly) by_day =
      let (day_start, day_end) = daily_bucket_local b.start_ts_ms in
      merge_hours hourly (
        insert day_start (merge_hour (day_or_new day_start day_end (get day_start by_day)) b)
          by_day)

  unfoldable pub merge_hourly_to_daily :
      (Days → Days) → List AggregatedBucket → List AggregatedBucket
  merge_hourly_to_daily iteration_order hourly =
      sort_by_start (bucket_values (iteration_order (merge_hours hourly [])))
