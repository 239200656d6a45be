-- ===== src/Monitor/Tests.antt =====
-- Runs of the histories on concrete samples (bandix-plus/src/monitor.rs).
use bandix_plus_lite.Base.{
  ◌++◌, option_list, ℕ, ◌+◌, ◌*◌, ◌/◌, ◌<◌, ◌≤◌, ◌≡◌, [], ◌∷◌, true, length, arith,
}
use bandix_plus_lite.Base.Map.{nat_eq, get}
use bandix_plus_lite.Monitor.Types.{
  DeviceSeriesKey, device_series_key_eq, CounterQuad, AggregatedBucket, empty_bucket,
  device_series_key_eq, SnapshotData,
}
use bandix_plus_lite.Monitor.Bucket.{add_sample, finalize, add_bytes_quad}
use bandix_plus_lite.Monitor.Bucket.Rates.{
  IsValid, HasRoom, empty_bucket-IsValid, add_sample-IsValid, finalize_between,
}
use bandix_plus_lite.Monitor.Histogram.{
  query_iface_hourly, query_device_hourly, Queue, HistogramHistory, queue_of,
  trim_histogram_completed, ingest_iface, cumulative_all_iface, ingest_snapshot_collect_completed,
}
use mathlib.Core.List.{Perm}
use bandix_plus_lite.Monitor.Histogram.Queries.{StartInOrder, not_outside, query-exact}
use bandix_plus_lite.Monitor.Histogram.Queues.{IsBounded, ingest_snapshot-IsBounded}
use bandix_plus_lite.Monitor.Histogram.Totals.{cumulative-ingest_iface, cumulative-ingest_iface_ne}

-- The hour of a time zone without an offset.
abbrev utc_hour : ℕ → ℕ × ℕ
utc_hour ts = (ts / 3600000 * 3600000, ts / 3600000 * 3600000 + 3599999)

abbrev sample : CounterQuad
sample = record {
  up_v4_bps = 10;
  down_v4_bps = 20;
  up_v6_bps = 0;
  down_v6_bps = 4;
  up_v4_bytes = 1000;
  down_v4_bytes = 2000;
  up_v6_bytes = 0;
  down_v6_bytes = 7;
}

abbrev empty_history : HistogramHistory
empty_history = record {
  max_hours = 2;
  current_hour_iface = [];
  current_hour_device = [];
  completed_iface = [];
  completed_device = [];
}

-- Interface 3 has an hour in progress.
abbrev running_history : HistogramHistory
running_history = (ingest_iface utc_hour empty_history 3 1000 sample).0

abbrev snapshot_next_hour : SnapshotData
snapshot_next_hour = record {
  timestamp_ms = 3600500;
  interfaces =
      (record { ifindex = 3; ifname = "eth0"; metrics = sample; cumulative = sample }) ∷ [];
  devices =
      (record {
        ifindex = 3;
        logical_iface = "lan";
        mac = "02:00:00:00:00:01";
        metrics = sample;
        cumulative = sample;
        online = true;
      })
      ∷ [];
}

empty-IsBounded : IsBounded empty_history
unfolding queue_of get
empty-IsBounded = record { ifaces = λ k. omega arith; devices = λ k. omega arith }

ingest_snapshot_example :
    IsBounded (ingest_snapshot_collect_completed utc_hour empty_history snapshot_next_hour).0
ingest_snapshot_example =
    ingest_snapshot-IsBounded utc_hour empty_history snapshot_next_hour empty-IsBounded

running-room : length (queue_of 3 running_history.completed_iface) < running_history.max_hours
unfolding queue_of get ingest_iface bandix_plus_lite.Monitor.Histogram.entry_of empty_bucket
running-room = omega arith

-- The sample falls in the hour after the one in progress.
cumulative-ingest_example :
    cumulative_all_iface (ingest_iface utc_hour running_history 3 3600500 sample).0 3
    ≡ add_bytes_quad (cumulative_all_iface running_history 3) sample
cumulative-ingest_example =
    cumulative-ingest_iface utc_hour running_history 3 3600500 sample running-room

cumulative-ingest_ne_example :
    cumulative_all_iface (ingest_iface utc_hour running_history 4 3600500 sample).0 3
    ≡ cumulative_all_iface running_history 3
cumulative-ingest_ne_example =
    cumulative-ingest_iface_ne utc_hour running_history 4 3 3600500 sample (λ e. omega (arith, e))

abbrev hour_bucket : AggregatedBucket
hour_bucket = empty_bucket 0 3599999

hour_bucket-HasRoom : HasRoom hour_bucket sample
unfolding empty_bucket
hour_bucket-HasRoom = omega arith

add_sample_example : IsValid (add_sample hour_bucket sample)
add_sample_example =
    add_sample-IsValid hour_bucket sample (empty_bucket-IsValid 0 3599999) hour_bucket-HasRoom

abbrev one_sample : AggregatedBucket
one_sample = add_sample hour_bucket sample

one_sample-count : 0 < one_sample.sample_count
unfolding empty_bucket add_sample
one_sample-count = omega arith

one_sample-IsValid : IsValid one_sample
one_sample-IsValid =
    add_sample-IsValid hour_bucket sample (empty_bucket-IsValid 0 3599999) hour_bucket-HasRoom

finalize_example :
    ((one_sample.up_v4_bps_min ≤ (finalize one_sample).up_v4_bps_avg)
      × ((finalize one_sample).up_v4_bps_avg ≤ one_sample.up_v4_bps_max))
    × ((one_sample.down_v4_bps_min ≤ (finalize one_sample).down_v4_bps_avg)
        × ((finalize one_sample).down_v4_bps_avg ≤ one_sample.down_v4_bps_max))
    × ((one_sample.up_v6_bps_min ≤ (finalize one_sample).up_v6_bps_avg)
        × ((finalize one_sample).up_v6_bps_avg ≤ one_sample.up_v6_bps_max))
    × ((one_sample.down_v6_bps_min ≤ (finalize one_sample).down_v6_bps_avg)
        × ((finalize one_sample).down_v6_bps_avg ≤ one_sample.down_v6_bps_max))
finalize_example = finalize_between one_sample one_sample-IsValid one_sample-count

abbrev lan_device : DeviceSeriesKey
lan_device = record { ifindex = 3; mac = "02:00:00:00:00:01" }

query_example :
    (StartInOrder 0 (query_iface_hourly running_history 3 0 5000)
      × Perm (query_iface_hourly running_history 3 0 5000) (
          not_outside 0 5000 (
            queue_of 3 running_history.completed_iface
            ++ option_list (get 3 running_history.current_hour_iface))))
    × (StartInOrder 0 (query_device_hourly running_history lan_device 0 5000)
        × Perm (query_device_hourly running_history lan_device 0 5000) (
            not_outside 0 5000 (
              queue_of lan_device running_history.completed_device
              ++ option_list (get lan_device running_history.current_hour_device))))
query_example = query-exact running_history 3 lan_device 0 5000
