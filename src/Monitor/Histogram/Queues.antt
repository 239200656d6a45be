-- ===== src/Monitor/Histogram/Queues.antt =====
-- How many completed hours `HistogramHistory` keeps (bandix-plus/src/monitor.rs).
use bandix_plus_lite.Base.{
  ℕ, suc, ◌-◌, ◌≤◌, ◌≡◌, ◌≢◌, inl, inr, sym, ap, List, [], ◌∷◌, ◌++◌, Option, some, none, not, ◌&&◌,
  ltb, drop-nil, ◌!=◌, length, last, length-drop, Bool-cases, arith,
}
use bandix_plus_lite.Base.Map.{Eq, nat_eq, get, remove, get-insert_self, get-insert_ne}
use bandix_plus_lite.Monitor.Types.{
  AggregatedBucket, CounterQuad, SnapshotData, DeviceListItem, InterfaceOverviewItem,
  DeviceSeriesKey, device_series_key_eq,
}
use bandix_plus_lite.Monitor.Histogram.{
  Queue, HistogramHistory, trim_histogram_completed, queue_of, push_completed,
  restore_device_bucket, entry_of, ingest_iface, ingest_device, close_entry, close_idle,
  ingest_one_device, ingest_devices, ingest_interfaces, ingest_snapshot_collect_completed,
}
use bandix_plus_lite.Monitor.Bucket.{finalize, is_empty}
use mathlib.Core.Option

-- Trimming a queue keeps its newest `max_hours` buckets.
pub trim-eq-last :
    (queue : Queue) (max_hours : ℕ)
    → trim_histogram_completed queue max_hours ≡ last max_hours queue
unfolding trim_histogram_completed
trim-eq-last [] n = sym (drop-nil (0 - n))
trim-eq-last (b ∷ queue) n = elim (Bool-cases (ltb n (suc (length queue)))) [
  | inl over ↦
      let e : suc (length queue) - n ≡ suc (length queue - n) = ground arith in
      rw (over, e) (trim-eq-last queue n)
  | inr fits ↦ let e : suc (length queue) - n ≡ 0 = ground arith in rw (fits, e)
]

length-last : (n : ℕ) (queue : Queue) → length (last n queue) ≤ n
length-last n queue = omega (arith, length-drop (length queue - n) queue)

module _ {K : Type 0} ⦃e : Eq K⦄ where
  pub queue_of-push_self :
      (n : ℕ) (k : K) (b : AggregatedBucket) (m : List (K × Queue))
      → queue_of k (push_completed n k b m) ≡ last n (queue_of k m ++ (b ∷ []))
  unfolding queue_of push_completed
  queue_of-push_self n k b m =
      rw (get-insert_self k (trim_histogram_completed (queue_of k m ++ (b ∷ [])) n) m)
        (trim-eq-last (queue_of k m ++ (b ∷ [])) n)

  pub queue_of-push_ne :
      (n : ℕ) (k j : K) (b : AggregatedBucket) (m : List (K × Queue))
      → k ≢ j
      → queue_of j (push_completed n k b m) ≡ queue_of j m
  unfolding queue_of push_completed
  queue_of-push_ne n k j b m h =
      ap (λ o. Option.get_or o [])
        (get-insert_ne k j (trim_histogram_completed (queue_of k m ++ (b ∷ [])) n) m h)

  push_completed-short :
      (n : ℕ) (k : K) (b : AggregatedBucket) (m : List (K × Queue))
      → ((j : K) → length (queue_of j m) ≤ n)
      → (j : K) → length (queue_of j (push_completed n k b m)) ≤ n
  push_completed-short n k b m h j = elim (Bool-cases (e.beq k j)) [
    | inl same ↦
        rw (← (e.beq_iff k j).0 same, queue_of-push_self n k b m)
          (length-last n (queue_of k m ++ (b ∷ [])))
    | inr other ↦
        let k-ne : k ≢ j = λ q. cc ((e.beq_iff k j).1 q, other) in
        rw (queue_of-push_ne n k j b m k-ne) (h j)
  ]

-- No series keeps more than `max_hours` completed buckets.
pub record IsBounded (h : HistogramHistory) : Type 0 where
  pub ifaces : (k : ℕ) → length (queue_of k h.completed_iface) ≤ h.max_hours
  pub devices : (k : DeviceSeriesKey) → length (queue_of k h.completed_device) ≤ h.max_hours

module _ (hour : ℕ → ℕ × ℕ) where
  ingest_iface-IsBounded :
      (h : HistogramHistory) (i ts : ℕ) (m : CounterQuad)
      → IsBounded h
      → IsBounded (ingest_iface hour h i ts m).0
  unfolding ingest_iface
  ingest_iface-IsBounded h i ts m v =
      elim (Bool-cases
        ((entry_of hour (get i h.current_hour_iface) ts).start_ts_ms != (hour ts).0)) [
          | inl over ↦ rw over (record {
            ifaces =
                push_completed-short h.max_hours i (entry_of hour (get i h.current_hour_iface) ts)
                  h.completed_iface v.ifaces;
            devices = v.devices;
          })
          | inr same ↦ rw same (record { ifaces = v.ifaces; devices = v.devices })
        ]

  ingest_device-IsBounded :
      (h : HistogramHistory) (key : DeviceSeriesKey) (ts : ℕ) (m : CounterQuad)
      → IsBounded h
      → IsBounded (ingest_device hour h key ts m).0
  unfolding ingest_device
  ingest_device-IsBounded h key ts m v =
      elim (Bool-cases
        ((entry_of hour (get key h.current_hour_device) ts).start_ts_ms != (hour ts).0)) [
          | inl over ↦ rw over (record {
            ifaces = v.ifaces;
            devices =
                push_completed-short h.max_hours key
                  (entry_of hour (get key h.current_hour_device) ts) h.completed_device v.devices;
          })
          | inr same ↦ rw same (record { ifaces = v.ifaces; devices = v.devices })
        ]

  restore_device_bucket-IsBounded :
      (h : HistogramHistory) (key : DeviceSeriesKey) (b : AggregatedBucket)
      → IsBounded h
      → IsBounded (restore_device_bucket h key b)
  unfolding restore_device_bucket
  restore_device_bucket-IsBounded h key b v = record {
    ifaces = v.ifaces;
    devices = push_completed-short h.max_hours key b h.completed_device v.devices;
  }

  close_entry-IsBounded :
      (h : HistogramHistory) (key : DeviceSeriesKey) (ts : ℕ) (o : Option AggregatedBucket)
      → IsBounded h
      → IsBounded (close_entry h key ts o).0
  unfolding close_entry
  close_entry-IsBounded h key ts none v = v
  close_entry-IsBounded h key ts (some b) v = elim (Bool-cases (ltb b.end_ts_ms ts)) [
    | inl over ↦ rw over (
        restore_device_bucket-IsBounded
          (record h { current_hour_device = remove key h.current_hour_device }) key (finalize b)
          (record { ifaces = v.ifaces; devices = v.devices }))
    | inr running ↦ rw running v
  ]

  ingest_one_device-IsBounded :
      (h : HistogramHistory) (ts : ℕ) (dev : DeviceListItem)
      → IsBounded h
      → IsBounded (ingest_one_device hour h ts dev).0
  unfolding ingest_one_device close_idle
  ingest_one_device-IsBounded h ts dev v =
      let key : DeviceSeriesKey = record { ifindex = dev.ifindex; mac = dev.mac } in
      elim (Bool-cases (not dev.online && is_empty dev.metrics)) [
        | inl idle ↦ rw idle (close_entry-IsBounded h key ts (get key h.current_hour_device) v)
        | inr active ↦ rw active (ingest_device-IsBounded h key ts dev.metrics v)
      ]

  ingest_devices-IsBounded :
      (h : HistogramHistory) (ts : ℕ) (devs : List DeviceListItem)
      → IsBounded h
      → IsBounded (ingest_devices hour h ts devs).0
  unfolding ingest_devices
  ingest_devices-IsBounded h ts [] v = v
  ingest_devices-IsBounded h ts (dev ∷ devs) v =
      ingest_devices-IsBounded (ingest_one_device hour h ts dev).0 ts devs
        (ingest_one_device-IsBounded h ts dev v)

  ingest_interfaces-IsBounded :
      (h : HistogramHistory) (ts : ℕ) (items : List InterfaceOverviewItem)
      → IsBounded h
      → IsBounded (ingest_interfaces hour h ts items).0
  unfolding ingest_interfaces
  ingest_interfaces-IsBounded h ts [] v = v
  ingest_interfaces-IsBounded h ts (item ∷ items) v =
      ingest_interfaces-IsBounded (ingest_iface hour h item.ifindex ts item.metrics).0 ts items
        (ingest_iface-IsBounded h item.ifindex ts item.metrics v)

  -- A snapshot leaves at most `max_hours` completed buckets in every series of interfaces and
  -- devices, if that held before.
  pub ingest_snapshot-IsBounded :
      (h : HistogramHistory) (snapshot : SnapshotData)
      → IsBounded h
      → IsBounded (ingest_snapshot_collect_completed hour h snapshot).0
  unfolding ingest_snapshot_collect_completed
  ingest_snapshot-IsBounded h snapshot v =
      ingest_devices-IsBounded
        (ingest_interfaces hour h snapshot.timestamp_ms snapshot.interfaces).0 snapshot.timestamp_ms
        snapshot.devices (ingest_interfaces-IsBounded h snapshot.timestamp_ms snapshot.interfaces v)
