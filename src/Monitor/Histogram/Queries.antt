-- ===== src/Monitor/Histogram/Queries.antt =====
-- What the queries for a time range return (bandix-plus/src/monitor.rs).
use mathlib.Core.List.{Perm}
use mathlib.Core.List.Perm
use bandix_plus_lite.Base.{
  ℕ, ◌≤◌, ◌≡◌, inl, inr, refl, ap, List, [], ◌∷◌, ◌++◌, ltb, leb, sym, ◌∙◌, if◌then◌else◌,
  option_list, Bool-cases, arith,
}
use bandix_plus_lite.Base.Map.{nat_eq, get}
use bandix_plus_lite.Monitor.Types.{AggregatedBucket, DeviceSeriesKey, device_series_key_eq}
use bandix_plus_lite.Monitor.Histogram.{
  HistogramHistory, queue_of, overlaps, select_overlapping, insert_by_start, sort_by_start,
  query_iface_hourly, query_device_hourly,
}

-- The buckets begin at `least` or later, each no earlier than the one before it.
pub StartInOrder : ℕ → List AggregatedBucket → Type 0
StartInOrder least [] = Unit
StartInOrder least (b ∷ bs) = (least ≤ b.start_ts_ms) × StartInOrder b.start_ts_ms bs

insert-StartInOrder :
    (least : ℕ) (b : AggregatedBucket) (bs : List AggregatedBucket)
    → least ≤ b.start_ts_ms
    → StartInOrder least bs
    → StartInOrder least (insert_by_start b bs)
unfolding StartInOrder insert_by_start
insert-StartInOrder least b [] h v = (h, tt)
insert-StartInOrder least b (c ∷ cs) h v = elim (Bool-cases (leb b.start_ts_ms c.start_ts_ms)) [
  | inl before ↦ rw before (h, (ground (arith, before), v.1))
  | inr behind ↦
      rw behind (v.0, insert-StartInOrder c.start_ts_ms b cs (ground (arith, behind)) v.1)
]

sort-StartInOrder : (bs : List AggregatedBucket) → StartInOrder 0 (sort_by_start bs)
unfolding StartInOrder sort_by_start
sort-StartInOrder [] = tt
sort-StartInOrder (b ∷ bs) =
    insert-StartInOrder 0 b (sort_by_start bs) (omega arith) (sort-StartInOrder bs)

insert-Perm :
    (b : AggregatedBucket) (bs : List AggregatedBucket) → Perm (insert_by_start b bs) (b ∷ bs)
unfolding insert_by_start
insert-Perm b [] = Perm.refl (b ∷ [])
insert-Perm b (c ∷ cs) = elim (Bool-cases (leb b.start_ts_ms c.start_ts_ms)) [
  | inl before ↦ rw before (Perm.refl (b ∷ c ∷ cs))
  | inr behind ↦ rw behind (Perm.trans (Perm.cons c (insert-Perm b cs)) (Perm.swap b c cs))
]

sort-Perm : (bs : List AggregatedBucket) → Perm (sort_by_start bs) bs
unfolding sort_by_start
sort-Perm [] = Perm.refl []
sort-Perm (b ∷ bs) = Perm.trans (insert-Perm b (sort_by_start bs)) (Perm.cons b (sort-Perm bs))

select-append :
    (start end : ℕ) (bs cs : List AggregatedBucket)
    → select_overlapping start end (bs ++ cs)
      ≡ select_overlapping start end bs ++ select_overlapping start end cs
unfolding select_overlapping
select-append start end [] cs = refl
select-append start end (b ∷ bs) cs = elim (Bool-cases (overlaps start end b)) [
  | inl inside ↦ rw inside (ap (λ t. b ∷ t) (select-append start end bs cs))
  | inr outside ↦ rw outside (select-append start end bs cs)
]

-- Of these hours those that neither begin after the range nor end before it.
pub not_outside : ℕ → ℕ → List AggregatedBucket → List AggregatedBucket
not_outside start end [] = []
not_outside start end (b ∷ bs) =
    let rest = not_outside start end bs in
    if ltb end b.start_ts_ms then rest else if ltb b.end_ts_ms start then rest else (b ∷ rest)

select-not_outside :
    (start end : ℕ) (bs : List AggregatedBucket)
    → select_overlapping start end bs ≡ not_outside start end bs
unfolding select_overlapping not_outside
select-not_outside start end [] = refl
select-not_outside start end (b ∷ bs) = rw (select-not_outside start end bs) (ground arith)

select-both :
    (start end : ℕ) (bs cs : List AggregatedBucket)
    → select_overlapping start end bs ++ select_overlapping start end cs
      ≡ not_outside start end (bs ++ cs)
select-both start end bs cs =
    sym (select-append start end bs cs) ∙ select-not_outside start end (bs ++ cs)

-- A query for the hours of an interface or a device returns the buckets in the order of their
-- start, and they are, counted with repetitions, exactly those of its completed hours and of its
-- hour in progress that neither begin after the range nor end before it.
pub query-exact :
    (h : HistogramHistory) (k : ℕ) (key : DeviceSeriesKey) (start end : ℕ)
    → (StartInOrder 0 (query_iface_hourly h k start end)
        × Perm (query_iface_hourly h k start end) (
            not_outside start end
              (queue_of k h.completed_iface ++ option_list (get k h.current_hour_iface))))
      × (StartInOrder 0 (query_device_hourly h key start end)
          × Perm (query_device_hourly h key start end) (
              not_outside start end
                (queue_of key h.completed_device ++ option_list (get key h.current_hour_device))))
unfolding query_iface_hourly query_device_hourly
query-exact h k key start end =
    rw
      (
        select-both start end (queue_of k h.completed_iface)
            (option_list (get k h.current_hour_iface)),
        select-both start end (queue_of key h.completed_device)
            (option_list (get key h.current_hour_device)),
      )
      ((sort-StartInOrder _, sort-Perm _), (sort-StartInOrder _, sort-Perm _))
