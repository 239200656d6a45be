-- ===== src/Monitor/Histogram.antt =====
-- `HistogramHistory` of bandix-plus/src/monitor.rs: the hour in progress and the completed hours
-- of every interface and device. The local hour of a time stamp is chrono's: a parameter.
pub mod Queues
pub mod Totals
pub mod Queries
use bandix_plus_lite.Base.{
  ℕ, ◌+◌, ◌-◌, ◌≡◌, List, [], ◌∷◌, ◌++◌, Option, some, none, Bool, true, false, not, ◌&&◌, ◌||◌,
  ltb, leb, ◌==◌, ◌!=◌, if◌then◌else◌, length, drop, option_list,
}
use bandix_plus_lite.Base.Map.{Eq, nat_eq, get, insert, remove}
use bandix_plus_lite.Monitor.Types.{
  CounterQuad, AggregatedBucket, empty_bucket, DeviceSeriesKey, device_series_key_eq, SnapshotData,
  InterfaceOverviewItem, DeviceListItem, CompletedAggregate, iface, device,
}
use bandix_plus_lite.Monitor.Bucket.{finalize, add_sample, is_empty, add_bucket_bytes, zero_quad}
use mathlib.Core.Option
use mathlib.Core.List.{foldl}

abbrev pub Queue : Type 0
Queue = List AggregatedBucket

pub record HistogramHistory : Type 0 where
  pub max_hours : ℕ
  pub current_hour_iface : List (ℕ × AggregatedBucket)
  pub current_hour_device : List (DeviceSeriesKey × AggregatedBucket)
  pub completed_iface : List (ℕ × Queue)
  pub completed_device : List (DeviceSeriesKey × Queue)

-- `while queue.len() > max_hours { queue.pop_front(); }`
unfoldable pub trim_histogram_completed : Queue → ℕ → Queue
trim_histogram_completed [] max_hours = []
trim_histogram_completed (b ∷ queue) max_hours =
    let trimmed = trim_histogram_completed queue max_hours in
    if ltb max_hours (length (b ∷ queue)) then trimmed else b ∷ queue

module _ {K : Type 0} ⦃e : Eq K⦄ where
  -- `entry(key).or_default()` of a queue.
  unfoldable pub queue_of : K → List (K × Queue) → Queue
  queue_of k m = Option.get_or (get k m) []

  -- `entry(key).or_default().push_back(bucket)` and the trim that follows.
  unfoldable pub push_completed : ℕ → K → AggregatedBucket → List (K × Queue) → List (K × Queue)
  push_completed max_hours k bucket m =
      insert k (trim_histogram_completed (queue_of k m ++ (bucket ∷ [])) max_hours) m

unfoldable pub restore_iface_bucket : HistogramHistory → ℕ → AggregatedBucket → HistogramHistory
restore_iface_bucket h ifindex bucket = record h {
  completed_iface = push_completed h.max_hours ifindex bucket h.completed_iface;
}

unfoldable pub restore_device_bucket :
    HistogramHistory → DeviceSeriesKey → AggregatedBucket → HistogramHistory
restore_device_bucket h key bucket = record h {
  completed_device = push_completed h.max_hours key bucket h.completed_device;
}

-- A device that is offline and silent: the bucket in progress is closed once its hour is over.
unfoldable pub close_entry :
    HistogramHistory
    → DeviceSeriesKey
    → ℕ
    → Option AggregatedBucket
    → HistogramHistory × Option AggregatedBucket
close_entry h key ts_ms none = (h, none)
close_entry h key ts_ms (some bucket) =
    if ltb bucket.end_ts_ms ts_ms
    then (
      restore_device_bucket (record h { current_hour_device = remove key h.current_hour_device })
          key (finalize bucket),
      some (finalize bucket),
    )
    else (h, none)

unfoldable pub close_idle :
    HistogramHistory → DeviceSeriesKey → ℕ → HistogramHistory × Option AggregatedBucket
unfolding close_entry
close_idle h key ts_ms = close_entry h key ts_ms (get key h.current_hour_device)

module _ (hourly_bucket_local : ℕ → ℕ × ℕ) where
  -- The hour's bucket of a series: the one in progress, or a new one.
  unfoldable pub entry_of : Option AggregatedBucket → ℕ → AggregatedBucket
  entry_of none ts_ms =
      let (new_start, new_end) = hourly_bucket_local ts_ms in empty_bucket new_start new_end
  entry_of (some b) ts_ms = b

  unfoldable pub ingest_iface :
      HistogramHistory → ℕ → ℕ → CounterQuad → HistogramHistory × Option AggregatedBucket
  ingest_iface h ifindex ts_ms metrics =
      let (new_start, new_end) = hourly_bucket_local ts_ms in
      let entry = entry_of (get ifindex h.current_hour_iface) ts_ms in
      if entry.start_ts_ms != new_start
      then (
        record h {
          current_hour_iface =
              insert ifindex (add_sample (empty_bucket new_start new_end) metrics)
                h.current_hour_iface;
          completed_iface = push_completed h.max_hours ifindex entry h.completed_iface;
        },
        some (finalize entry),
      )
      else (
        record h {
          current_hour_iface = insert ifindex (add_sample entry metrics) h.current_hour_iface;
        },
        none,
      )

  unfoldable pub ingest_device :
      HistogramHistory
      → DeviceSeriesKey
      → ℕ
      → CounterQuad
      → HistogramHistory × Option AggregatedBucket
  ingest_device h key ts_ms metrics =
      let (new_start, new_end) = hourly_bucket_local ts_ms in
      let entry = entry_of (get key h.current_hour_device) ts_ms in
      if entry.start_ts_ms != new_start
      then (
        record h {
          current_hour_device =
              insert key (add_sample (empty_bucket new_start new_end) metrics)
                h.current_hour_device;
          completed_device = push_completed h.max_hours key entry h.completed_device;
        },
        some (finalize entry),
      )
      else (
        record h {
          current_hour_device = insert key (add_sample entry metrics) h.current_hour_device;
        },
        none,
      )

  -- The loop over the snapshot's interfaces.
  unfoldable pub ingest_interfaces :
      HistogramHistory → ℕ → List InterfaceOverviewItem → HistogramHistory × List CompletedAggregate
  ingest_interfaces h ts_ms [] = (h, [])
  ingest_interfaces h ts_ms (item ∷ items) =
      let (h', closed) = ingest_iface h item.ifindex ts_ms item.metrics in
      let (h'', completed) = ingest_interfaces h' ts_ms items in
      (h'', option_list (Option.map (iface item.ifname) closed) ++ completed)

  unfoldable pub ingest_one_device :
      HistogramHistory → ℕ → DeviceListItem → HistogramHistory × Option AggregatedBucket
  ingest_one_device h ts_ms dev =
      let key : DeviceSeriesKey = record { ifindex = dev.ifindex; mac = dev.mac } in
      if not dev.online && is_empty dev.metrics
      then close_idle h key ts_ms
      else ingest_device h key ts_ms dev.metrics

  unfoldable pub ingest_devices :
      HistogramHistory → ℕ → List DeviceListItem → HistogramHistory × List CompletedAggregate
  ingest_devices h ts_ms [] = (h, [])
  ingest_devices h ts_ms (dev ∷ devs) =
      let (h', closed) = ingest_one_device h ts_ms dev in
      let (h'', completed) = ingest_devices h' ts_ms devs in
      (h'', option_list (Option.map (device dev.logical_iface dev.mac) closed) ++ completed)

  unfoldable pub ingest_snapshot_collect_completed :
      HistogramHistory → SnapshotData → HistogramHistory × List CompletedAggregate
  ingest_snapshot_collect_completed h snapshot =
      let (h', ifaces) = ingest_interfaces h snapshot.timestamp_ms snapshot.interfaces in
      let (h'', devices) = ingest_devices h' snapshot.timestamp_ms snapshot.devices in
      (h'', ifaces ++ devices)

-- `query_iface_hourly` and `query_device_hourly` before their sort: the buckets that overlap the
-- range, the completed ones first.
abbrev pub overlaps : ℕ → ℕ → AggregatedBucket → Bool
overlaps start_ms end_ms b = leb b.start_ts_ms end_ms && leb start_ms b.end_ts_ms

unfoldable pub select_overlapping : ℕ → ℕ → List AggregatedBucket → List AggregatedBucket
select_overlapping start_ms end_ms [] = []
select_overlapping start_ms end_ms (b ∷ bs) =
    let rest = select_overlapping start_ms end_ms bs in
    if overlaps start_ms end_ms b then b ∷ rest else rest

-- `sort_by_key(|b| b.start_ts_ms)`, which is stable.
unfoldable pub insert_by_start : AggregatedBucket → List AggregatedBucket → List AggregatedBucket
insert_by_start b [] = b ∷ []
insert_by_start b (c ∷ cs) =
    let later = insert_by_start b cs in
    if leb b.start_ts_ms c.start_ts_ms then b ∷ c ∷ cs else c ∷ later

unfoldable pub sort_by_start : List AggregatedBucket → List AggregatedBucket
unfolding insert_by_start
sort_by_start [] = []
sort_by_start (b ∷ bs) = insert_by_start b (sort_by_start bs)

unfoldable pub query_iface_hourly : HistogramHistory → ℕ → ℕ → ℕ → List AggregatedBucket
query_iface_hourly h ifindex start_ms end_ms = sort_by_start (
    select_overlapping start_ms end_ms (queue_of ifindex h.completed_iface)
    ++ select_overlapping start_ms end_ms (option_list (get ifindex h.current_hour_iface)))

unfoldable pub query_device_hourly :
    HistogramHistory → DeviceSeriesKey → ℕ → ℕ → List AggregatedBucket
query_device_hourly h key start_ms end_ms = sort_by_start (
    select_overlapping start_ms end_ms (queue_of key h.completed_device)
    ++ select_overlapping start_ms end_ms (option_list (get key h.current_hour_device)))

-- The entry of one interface in the maps of `cumulative_from_completed` and `cumulative_from_all`.
unfoldable pub cumulative_completed_iface : HistogramHistory → ℕ → CounterQuad
cumulative_completed_iface h ifindex =
    foldl add_bucket_bytes zero_quad (queue_of ifindex h.completed_iface)

unfoldable pub cumulative_all_iface : HistogramHistory → ℕ → CounterQuad
cumulative_all_iface h ifindex =
    foldl add_bucket_bytes (cumulative_completed_iface h ifindex)
      (option_list (get ifindex h.current_hour_iface))
