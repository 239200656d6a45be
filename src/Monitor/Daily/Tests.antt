-- ===== src/Monitor/Daily/Tests.antt =====
-- Two hours of one day (bandix-plus/src/monitor.rs).
use bandix_plus_lite.Base.{ℕ, ◌+◌, ◌*◌, ◌/◌, List, [], ◌∷◌}
use bandix_plus_lite.Monitor.Types.{AggregatedBucket, empty_bucket}
use bandix_plus_lite.Monitor.Daily.Totals.{HoldsSum, merge_hours-sums}

-- The day of a time zone without an offset.
abbrev utc_day : ℕ → ℕ × ℕ
utc_day ts = (ts / 86400000 * 86400000, ts / 86400000 * 86400000 + 86399999)

abbrev busy_hour : ℕ → AggregatedBucket
busy_hour start = record (empty_bucket start (start + 3599999)) {
  up_v4_bytes = 7;
  sample_count = 2;
}

abbrev two_hours : List AggregatedBucket
two_hours = busy_hour 0 ∷ busy_hour 3600000 ∷ []

merge_hours-sums_example :
    HoldsSum utc_day 0 two_hours (λ b. b.up_v4_bytes)
    × HoldsSum utc_day 0 two_hours (λ b. b.down_v4_bytes)
    × HoldsSum utc_day 0 two_hours (λ b. b.up_v6_bytes)
    × HoldsSum utc_day 0 two_hours (λ b. b.down_v6_bytes)
    × HoldsSum utc_day 0 two_hours (λ b. b.sample_count)
merge_hours-sums_example = merge_hours-sums utc_day 0 two_hours
