-- ===== src/Monitor/Samples.antt =====
-- `TrafficHistory` of bandix-plus/src/monitor.rs: the samples of the last seconds. The comparison
-- of hardware addresses without their case and the iteration order of a hash map are parameters.
pub mod Windows
mod Tests
use Prim.Native.String.{String}
use bandix_plus_lite.Base.{
  ℕ, ◌+◌, ◌-◌, max, List, [], ◌∷◌, ◌++◌, map, Option, some, none, Bool, true, false, not, ◌&&◌,
  ◌||◌, ◌==◌, ◌!=◌, ltb, if◌then◌else◌, length,
}
use bandix_plus_lite.Base.Map.{Eq, nat_eq, get, insert}
use bandix_plus_lite.Monitor.Types.{
  CounterQuad, DeviceSeriesKey, device_series_key_eq, InterfaceOverviewItem, DeviceListItem,
  SnapshotData,
}
use bandix_plus_lite.Monitor.Bucket.{zero_quad, add_quad, is_empty}

pub record HistoryPoint : Type 0 where
  pub ts_ms : ℕ
  pub metrics : CounterQuad
  pub cumulative : CounterQuad

pub record HistorySample : Type 0 where
  pub ts_ms : ℕ
  pub up_v4_bps : ℕ
  pub up_v6_bps : ℕ
  pub down_v4_bps : ℕ
  pub down_v6_bps : ℕ
  pub up_v4_bytes : ℕ
  pub up_v6_bytes : ℕ
  pub down_v4_bytes : ℕ
  pub down_v6_bytes : ℕ
  pub up_v4_bytes_cumulative : ℕ
  pub up_v6_bytes_cumulative : ℕ
  pub down_v4_bytes_cumulative : ℕ
  pub down_v6_bytes_cumulative : ℕ

abbrev pub Series : Type 0 → Type 0
Series K = List (K × List HistoryPoint)

pub record TrafficHistory : Type 0 where
  pub window_points : ℕ
  pub iface_series : Series ℕ
  pub device_series : Series DeviceSeriesKey

unfoldable pub new_history : ℕ → TrafficHistory
new_history window_points = record {
  window_points = max window_points 1;
  iface_series = [];
  device_series = [];
}

-- `while queue.len() > max_points { queue.pop_front(); }`
unfoldable pub trim_history_queue : List HistoryPoint → ℕ → List HistoryPoint
trim_history_queue [] max_points = []
trim_history_queue (p ∷ queue) max_points =
    let trimmed = trim_history_queue queue max_points in
    if ltb max_points (length (p ∷ queue)) then trimmed else (p ∷ queue)

abbrev pub points_of : Option (List HistoryPoint) → List HistoryPoint
points_of none = []
points_of (some queue) = queue

-- `entry(key).or_default()`, a point behind it, and the trim that follows.
unfoldable pub push_point : {K : Type 0} ⦃e : Eq K⦄ → ℕ → K → HistoryPoint → Series K → Series K
push_point window k p series =
    insert k (trim_history_queue (points_of (get k series) ++ (p ∷ [])) window) series

-- The loop over the interfaces of a snapshot.
unfoldable pub push_interfaces : ℕ → ℕ → List InterfaceOverviewItem → Series ℕ → Series ℕ
push_interfaces window ts_ms [] series = series
push_interfaces window ts_ms (item ∷ items) series = push_interfaces window ts_ms items (
    push_point window item.ifindex
      (record { ts_ms = ts_ms; metrics = item.metrics; cumulative = item.cumulative }) series)

-- The loop over its devices; one that is offline and idle leaves no point.
unfoldable pub push_devices :
    ℕ → ℕ → List DeviceListItem → Series DeviceSeriesKey → Series DeviceSeriesKey
push_devices window ts_ms [] series = series
push_devices window ts_ms (dev ∷ devs) series = push_devices window ts_ms devs (
    if not dev.online && is_empty dev.metrics
    then series
    else push_point window (record { ifindex = dev.ifindex; mac = dev.mac })
        (record { ts_ms = ts_ms; metrics = dev.metrics; cumulative = dev.cumulative }) series)

unfoldable pub ingest_snapshot : TrafficHistory → SnapshotData → TrafficHistory
ingest_snapshot h snapshot = record h {
  iface_series =
      push_interfaces h.window_points snapshot.timestamp_ms snapshot.interfaces h.iface_series;
  device_series =
      push_devices h.window_points snapshot.timestamp_ms snapshot.devices h.device_series;
}

unfoldable pub sample_of : ℕ → CounterQuad → CounterQuad → HistorySample
sample_of ts_ms m c = record {
  ts_ms = ts_ms;
  up_v4_bps = m.up_v4_bps;
  up_v6_bps = m.up_v6_bps;
  down_v4_bps = m.down_v4_bps;
  down_v6_bps = m.down_v6_bps;
  up_v4_bytes = m.up_v4_bytes;
  up_v6_bytes = m.up_v6_bytes;
  down_v4_bytes = m.down_v4_bytes;
  down_v6_bytes = m.down_v6_bytes;
  up_v4_bytes_cumulative = c.up_v4_bytes;
  up_v6_bytes_cumulative = c.up_v6_bytes;
  down_v4_bytes_cumulative = c.down_v4_bytes;
  down_v6_bytes_cumulative = c.down_v6_bytes;
}

unfoldable pub series_to_samples : List HistoryPoint → List HistorySample
series_to_samples series = map (λ p. sample_of p.ts_ms p.metrics p.cumulative) series

-- `Vec::new()` for an interface without a series.
unfoldable pub query_iface : TrafficHistory → ℕ → List HistorySample
query_iface h ifindex = series_to_samples (points_of (get ifindex h.iface_series))

-- A B-tree map by time stamp, ascending.
abbrev pub Merged : Type 0
Merged = List (ℕ × (CounterQuad × CounterQuad))

unfoldable pub merge_point : HistoryPoint → Merged → Merged
merge_point p [] = (p.ts_ms, (add_quad zero_quad p.metrics, add_quad zero_quad p.cumulative)) ∷ []
merge_point p ((ts, (m, c)) ∷ merged) =
    if p.ts_ms == ts
    then ((ts, (add_quad m p.metrics, add_quad c p.cumulative)) ∷ merged)
    else if ltb p.ts_ms ts
    then ((p.ts_ms, (add_quad zero_quad p.metrics, add_quad zero_quad p.cumulative))
        ∷ (ts, (m, c))
        ∷ merged)
    else ((ts, (m, c)) ∷ merge_point p merged)

abbrev pub merge_points : List HistoryPoint → Merged → Merged
merge_points [] merged = merged
merge_points (p ∷ points) merged = merge_points points (merge_point p merged)

abbrev pub is_wanted : Option ℕ → ℕ → Bool
is_wanted none ifindex = true
is_wanted (some expected) ifindex = ifindex == expected

module _ (eq_ignore_ascii_case : String → String → Bool) where
  -- `retain` of all series but those of one device, and whether one was removed.
  abbrev pub retain_others : ℕ → String → Series DeviceSeriesKey → Series DeviceSeriesKey
  retain_others ifindex mac [] = []
  retain_others ifindex mac ((key, queue) ∷ series) =
      if key.ifindex != ifindex || not (eq_ignore_ascii_case key.mac mac)
      then ((key, queue) ∷ retain_others ifindex mac series)
      else retain_others ifindex mac series

  unfoldable pub remove_device : TrafficHistory → ℕ → String → TrafficHistory × Bool
  remove_device h ifindex mac =
      let retained = retain_others ifindex mac h.device_series in
      (record h { device_series = retained }, length retained != length h.device_series)

  abbrev pub merge_series : Option ℕ → String → Series DeviceSeriesKey → Merged → Merged
  merge_series ifindex mac [] merged = merged
  merge_series ifindex mac ((key, points) ∷ series) merged = merge_series ifindex mac series (
      if is_wanted ifindex key.ifindex && eq_ignore_ascii_case key.mac mac
      then merge_points points merged
      else merged)

  unfoldable pub query_device :
      (Series DeviceSeriesKey → Series DeviceSeriesKey)
      → TrafficHistory
      → Option ℕ
      → String
      → List HistorySample
  query_device iteration_order h ifindex mac =
      map (λ (ts, (m, c)). sample_of ts m c)
        (merge_series ifindex mac (iteration_order h.device_series) [])
