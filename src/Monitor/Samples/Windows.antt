-- ===== src/Monitor/Samples/Windows.antt =====
-- Which samples a series holds (bandix-plus/src/monitor.rs).
use bandix_plus_lite.Base.{
  ℕ, suc, ◌-◌, ◌≡◌, ◌≢◌, max, inl, inr, refl, sym, ap, ◌∙◌, List, [], ◌∷◌, ◌++◌, append-nil,
  append_assoc, Bool, true, false, ◌==◌, ltb, length, drop-nil, last, last-last_append, Bool-cases,
  arith,
}
use bandix_plus_lite.Base.Map.{Eq, nat_eq, get, get-insert_self, get-insert_ne}
use bandix_plus_lite.Monitor.Types.{device_series_key_eq, InterfaceOverviewItem, SnapshotData}
use bandix_plus_lite.Monitor.Samples.{
  HistoryPoint, HistorySample, Series, TrafficHistory, new_history, trim_history_queue, points_of,
  push_point, push_interfaces, ingest_snapshot, series_to_samples, sample_of, query_iface,
}

trim_history_queue-last :
    (queue : List HistoryPoint) (n : ℕ) → trim_history_queue queue n ≡ last n queue
unfolding trim_history_queue
trim_history_queue-last [] n = sym (drop-nil (0 - n))
trim_history_queue-last (p ∷ queue) n = elim (Bool-cases (ltb n (suc (length queue)))) [
  | inl over ↦
      let e : suc (length queue) - n ≡ suc (length queue - n) = ground arith in
      rw (over, e) (trim_history_queue-last queue n)
  | inr fits ↦ let e : suc (length queue) - n ≡ 0 = ground arith in rw (fits, e) refl
]

-- A point behind the others, if it is one of this key.
pub one_if : Bool → HistoryPoint → List HistoryPoint
one_if true p = p ∷ []
one_if false p = []

module _ {K : Type 0} ⦃e : Eq K⦄ where
  push_point-last :
      (n : ℕ) (j k : K) (p : HistoryPoint) (series : Series K) (xs : List HistoryPoint)
      → points_of (get k series) ≡ last n xs
      → points_of (get k (push_point n j p series)) ≡ last n (xs ++ one_if (e.beq j k) p)
  unfolding push_point one_if
  push_point-last n j k p series xs h = elim (Bool-cases (e.beq j k)) [
    | inl same ↦
        let q : j ≡ k = (e.beq_iff j k).0 same in
        ap (λ i. points_of (get i (push_point n j p series))) (sym q)
        ∙ ap points_of
            (get-insert_self j (trim_history_queue (points_of (get j series) ++ (p ∷ [])) n) series)
        ∙ trim_history_queue-last (points_of (get j series) ++ (p ∷ [])) n
        ∙ ap (λ t. last n (t ++ (p ∷ []))) (ap (λ i. points_of (get i series)) q ∙ h)
        ∙ last-last_append n xs (p ∷ [])
        ∙ ap (λ t. last n (xs ++ one_if t p)) (sym same)
    | inr other ↦
        let ne : j ≢ k = λ q. cc (other, (e.beq_iff j k).1 q) in
        ap points_of (
          get-insert_ne j k (trim_history_queue (points_of (get j series) ++ (p ∷ [])) n) series ne)
        ∙ h
        ∙ ap (last n) (sym (append-nil xs))
        ∙ ap (λ t. last n (xs ++ one_if t p)) (sym other)
  ]

-- The points of one interface in a snapshot, and in snapshots.
pub interface_points : ℕ → ℕ → List InterfaceOverviewItem → List HistoryPoint
interface_points k ts_ms [] = []
interface_points k ts_ms (item ∷ items) =
    one_if (item.ifindex == k)
      (record { ts_ms = ts_ms; metrics = item.metrics; cumulative = item.cumulative })
    ++ interface_points k ts_ms items

pub all_points : ℕ → List SnapshotData → List HistoryPoint
all_points k [] = []
all_points k (s ∷ snapshots) =
    interface_points k s.timestamp_ms s.interfaces ++ all_points k snapshots

push_interfaces-last :
    (n k ts_ms : ℕ) (items : List InterfaceOverviewItem) (series : Series ℕ)
    (xs : List HistoryPoint)
    → points_of (get k series) ≡ last n xs
    → points_of (get k (push_interfaces n ts_ms items series))
      ≡ last n (xs ++ interface_points k ts_ms items)
unfolding push_interfaces interface_points
push_interfaces-last n k ts_ms [] series xs h = h ∙ ap (last n) (sym (append-nil xs))
push_interfaces-last n k ts_ms (item ∷ items) series xs h =
    let p : HistoryPoint = record {
      ts_ms = ts_ms;
      metrics = item.metrics;
      cumulative = item.cumulative;
    } in
    let one = one_if (item.ifindex == k) p in
    push_interfaces-last n k ts_ms items (push_point n item.ifindex p series) (xs ++ one)
      (push_point-last n item.ifindex k p series xs h)
    ∙ ap (last n) (append_assoc xs one (interface_points k ts_ms items))

pub ingest_snapshots : List SnapshotData → TrafficHistory → TrafficHistory
ingest_snapshots [] h = h
ingest_snapshots (s ∷ snapshots) h = ingest_snapshots snapshots (ingest_snapshot h s)

ingest_snapshots-last :
    (snapshots : List SnapshotData) (k : ℕ) (h : TrafficHistory) (xs : List HistoryPoint)
    → points_of (get k h.iface_series) ≡ last h.window_points xs
    → points_of (get k (ingest_snapshots snapshots h).iface_series)
      ≡ last h.window_points (xs ++ all_points k snapshots)
unfolding ingest_snapshots ingest_snapshot all_points
ingest_snapshots-last [] k h xs e = e ∙ ap (last h.window_points) (sym (append-nil xs))
ingest_snapshots-last (s ∷ snapshots) k h xs e =
    let points = interface_points k s.timestamp_ms s.interfaces in
    ingest_snapshots-last snapshots k (ingest_snapshot h s) (xs ++ points)
      (push_interfaces-last h.window_points k s.timestamp_ms s.interfaces h.iface_series xs e)
    ∙ ap (last h.window_points) (append_assoc xs points (all_points k snapshots))

-- The samples of points, written out.
pub as_written : List HistoryPoint → List HistorySample
as_written [] = []
as_written (p ∷ points) =
    record {
      ts_ms = p.ts_ms;
      up_v4_bps = p.metrics.up_v4_bps;
      up_v6_bps = p.metrics.up_v6_bps;
      down_v4_bps = p.metrics.down_v4_bps;
      down_v6_bps = p.metrics.down_v6_bps;
      up_v4_bytes = p.metrics.up_v4_bytes;
      up_v6_bytes = p.metrics.up_v6_bytes;
      down_v4_bytes = p.metrics.down_v4_bytes;
      down_v6_bytes = p.metrics.down_v6_bytes;
      up_v4_bytes_cumulative = p.cumulative.up_v4_bytes;
      up_v6_bytes_cumulative = p.cumulative.up_v6_bytes;
      down_v4_bytes_cumulative = p.cumulative.down_v4_bytes;
      down_v6_bytes_cumulative = p.cumulative.down_v6_bytes;
    }
    ∷ as_written points

series-as_written : (points : List HistoryPoint) → series_to_samples points ≡ as_written points
unfolding series_to_samples sample_of as_written
series-as_written [] = refl
series-as_written (p ∷ points) =
    ap (λ t. sample_of p.ts_ms p.metrics p.cumulative ∷ t) (series-as_written points)

-- After any snapshots a query of an interface on a new history gives its newest samples in order,
-- as many as the window holds, each with the time, the rates, the bytes and the totals that its
-- snapshot had, field by field.
pub query_iface-newest :
    (window : ℕ) (snapshots : List SnapshotData) (ifindex : ℕ)
    → query_iface (ingest_snapshots snapshots (new_history window)) ifindex
      ≡ as_written (last (max window 1) (all_points ifindex snapshots))
unfolding query_iface new_history get
query_iface-newest window snapshots ifindex =
    ap series_to_samples (
      ingest_snapshots-last snapshots ifindex (new_history window) []
        (sym (drop-nil (0 - max window 1))))
    ∙ series-as_written (last (max window 1) (all_points ifindex snapshots))
