-- ===== src/Monitor/Types.antt =====
-- The data of bandix-plus/src/monitor.rs that its parts share. Every field is a u64.
use Prim.Native.String.{String}
use text.Mathlib.Text.{◌==◌ as str_eq}
use text.Mathlib.TextEquality.{eq_iff}
use bandix_plus_lite.Base.{ℕ, ◌≡◌, ◌↔◌, Bool, true, ◌&&◌, ◌==◌, List, arith}
use bandix_plus_lite.Base.Map.{Eq}

-- Rates and byte counts of one interface or device, by direction and address family.
pub record CounterQuad : Type 0 where
  pub up_v4_bps : ℕ
  pub down_v4_bps : ℕ
  pub up_v6_bps : ℕ
  pub down_v6_bps : ℕ
  pub up_v4_bytes : ℕ
  pub down_v4_bytes : ℕ
  pub up_v6_bytes : ℕ
  pub down_v6_bytes : ℕ

-- One hour or day of traffic.
pub record AggregatedBucket : Type 0 where
  pub start_ts_ms : ℕ
  pub end_ts_ms : ℕ
  pub sample_count : ℕ
  pub up_v4_bytes : ℕ
  pub down_v4_bytes : ℕ
  pub up_v6_bytes : ℕ
  pub down_v6_bytes : ℕ
  pub up_v4_bps_sum : ℕ
  pub up_v4_bps_max : ℕ
  pub up_v4_bps_min : ℕ
  pub down_v4_bps_sum : ℕ
  pub down_v4_bps_max : ℕ
  pub down_v4_bps_min : ℕ
  pub up_v6_bps_sum : ℕ
  pub up_v6_bps_max : ℕ
  pub up_v6_bps_min : ℕ
  pub down_v6_bps_sum : ℕ
  pub down_v6_bps_max : ℕ
  pub down_v6_bps_min : ℕ
  pub up_v4_bps_avg : ℕ
  pub up_v4_bps_p95 : ℕ
  pub down_v4_bps_avg : ℕ
  pub down_v4_bps_p95 : ℕ
  pub up_v6_bps_avg : ℕ
  pub up_v6_bps_p95 : ℕ
  pub down_v6_bps_avg : ℕ
  pub down_v6_bps_p95 : ℕ

pub data HistoryTrafficType : Type 0 where
  all ipv4 ipv6 : HistoryTrafficType

-- `AggregatedBucket { start_ts_ms, end_ts_ms, ..Default::default() }`
unfoldable pub empty_bucket : ℕ → ℕ → AggregatedBucket
empty_bucket start end = record {
  start_ts_ms = start;
  end_ts_ms = end;
  sample_count = 0;
  up_v4_bytes = 0;
  down_v4_bytes = 0;
  up_v6_bytes = 0;
  down_v6_bytes = 0;
  up_v4_bps_sum = 0;
  up_v4_bps_max = 0;
  up_v4_bps_min = 0;
  down_v4_bps_sum = 0;
  down_v4_bps_max = 0;
  down_v4_bps_min = 0;
  up_v6_bps_sum = 0;
  up_v6_bps_max = 0;
  up_v6_bps_min = 0;
  down_v6_bps_sum = 0;
  down_v6_bps_max = 0;
  down_v6_bps_min = 0;
  up_v4_bps_avg = 0;
  up_v4_bps_p95 = 0;
  down_v4_bps_avg = 0;
  down_v4_bps_p95 = 0;
  up_v6_bps_avg = 0;
  up_v6_bps_p95 = 0;
  down_v6_bps_avg = 0;
  down_v6_bps_p95 = 0;
}

-- A device of one logical interface.
pub record DeviceSeriesKey : Type 0 where
  pub ifindex : ℕ
  pub mac : String

abbrev pub series_beq : DeviceSeriesKey → DeviceSeriesKey → Bool
series_beq a b = a.ifindex == b.ifindex && str_eq a.mac b.mac

pub series_beq_iff : (a b : DeviceSeriesKey) → (series_beq a b ≡ true) ↔ (a ≡ b)
series_beq_iff a b = ground (arith, eq_iff a.mac b.mac)

instance abbrev pub device_series_key_eq : Eq DeviceSeriesKey
device_series_key_eq = record { beq = series_beq; beq_iff = series_beq_iff }

-- One interface of a snapshot: the fields that the histories read.
pub record InterfaceOverviewItem : Type 0 where
  pub ifindex : ℕ
  pub ifname : String
  pub metrics : CounterQuad
  pub cumulative : CounterQuad

-- One device of a snapshot: the fields that the histories read.
pub record DeviceListItem : Type 0 where
  pub ifindex : ℕ
  pub logical_iface : String
  pub mac : String
  pub metrics : CounterQuad
  pub cumulative : CounterQuad
  pub online : Bool

pub record SnapshotData : Type 0 where
  pub timestamp_ms : ℕ
  pub interfaces : List InterfaceOverviewItem
  pub devices : List DeviceListItem

pub data CompletedAggregate : Type 0 where
  iface : String → AggregatedBucket → CompletedAggregate
  device : String → String → AggregatedBucket → CompletedAggregate
