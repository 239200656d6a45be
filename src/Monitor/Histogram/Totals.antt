-- ===== src/Monitor/Histogram/Totals.antt =====
-- Byte totals over the buckets of one interface (bandix-plus/src/monitor.rs).
use mathlib.Core.List.{foldl}
use bandix_plus_lite.Base.{
  ℕ, ◌<◌, ◌^◌, ◌≡◌, ◌≢◌, inl, inr, refl, ap, ◌∙◌, [], ◌∷◌, ◌++◌, Option, some, none, true, ◌!=◌,
  length, last, last_all, option_list, length-append, Bool-cases, arith,
}
use bandix_plus_lite.Base.Map.{nat_eq, get, get-insert_self, get-insert_ne}
use bandix_plus_lite.Monitor.Types.{AggregatedBucket, CounterQuad, empty_bucket}
use bandix_plus_lite.Monitor.Bucket.{add_sample, add_bucket_bytes, add_bytes_quad, zero_quad}
use bandix_plus_lite.Monitor.Histogram.{
  Queue, HistogramHistory, queue_of, entry_of, ingest_iface, cumulative_completed_iface,
  cumulative_all_iface,
}
use bandix_plus_lite.Monitor.Histogram.Queues.{queue_of-push_self, queue_of-push_ne}

-- The byte counts of a total are u64s.
record FitsU64 (q : CounterQuad) : Type 0 where
  up_v4 : q.up_v4_bytes < 2 ^ 64
  down_v4 : q.down_v4_bytes < 2 ^ 64
  up_v6 : q.up_v6_bytes < 2 ^ 64
  down_v6 : q.down_v6_bytes < 2 ^ 64

add_bucket_bytes-FitsU64 : (q : CounterQuad) (b : AggregatedBucket) → FitsU64 (add_bucket_bytes q b)
unfolding add_bucket_bytes
add_bucket_bytes-FitsU64 q b = omega arith

foldl-FitsU64 : (q : CounterQuad) (bs : Queue) → FitsU64 q → FitsU64 (foldl add_bucket_bytes q bs)
foldl-FitsU64 q [] f = f
foldl-FitsU64 q (b ∷ bs) f = foldl-FitsU64 (add_bucket_bytes q b) bs (add_bucket_bytes-FitsU64 q b)

zero_quad-FitsU64 : FitsU64 zero_quad
unfolding zero_quad
zero_quad-FitsU64 = omega arith

-- A sample adds its bytes to the total that its bucket is part of, saturation included.
add-sample_bytes :
    (q : CounterQuad) (b : AggregatedBucket) (m : CounterQuad)
    → add_bucket_bytes q (add_sample b m) ≡ add_bytes_quad (add_bucket_bytes q b) m
unfolding add_bucket_bytes add_sample add_bytes_quad
add-sample_bytes q b m = ground arith

add-empty_bytes :
    (q : CounterQuad) (start end : ℕ) → FitsU64 q → add_bucket_bytes q (empty_bucket start end) ≡ q
unfolding add_bucket_bytes empty_bucket
add-empty_bytes q start end f = ground arith

foldl-append :
    (q : CounterQuad) (bs cs : Queue)
    → foldl add_bucket_bytes q (bs ++ cs) ≡ foldl add_bucket_bytes (foldl add_bucket_bytes q bs) cs
foldl-append q [] cs = refl
foldl-append q (b ∷ bs) cs = foldl-append (add_bucket_bytes q b) bs cs

-- What a closed or running bucket adds to the total of its interface.
total_with : Queue → Option AggregatedBucket → CounterQuad
total_with queue current =
    foldl add_bucket_bytes (foldl add_bucket_bytes zero_quad queue) (option_list current)

queue-FitsU64 : (queue : Queue) → FitsU64 (foldl add_bucket_bytes zero_quad queue)
queue-FitsU64 queue = foldl-FitsU64 zero_quad queue zero_quad-FitsU64

module _ (hour : ℕ → ℕ × ℕ) where
  total-same_hour :
      (queue : Queue) (o : Option AggregatedBucket) (ts : ℕ) (m : CounterQuad)
      → total_with queue (some (add_sample (entry_of hour o ts) m))
        ≡ add_bytes_quad (total_with queue o) m
  unfolding total_with entry_of
  total-same_hour queue none ts m =
      add-sample_bytes (foldl add_bucket_bytes zero_quad queue)
        (empty_bucket (hour ts).0 (hour ts).1) m
      ∙ ap (λ q. add_bytes_quad q m)
          (add-empty_bytes (foldl add_bucket_bytes zero_quad queue) (hour ts).0 (hour ts).1
            (queue-FitsU64 queue))
  total-same_hour queue (some b) ts m =
      add-sample_bytes (foldl add_bucket_bytes zero_quad queue) b m

  total-next_hour :
      (queue : Queue) (o : Option AggregatedBucket) (ts n : ℕ) (m : CounterQuad)
      → length queue < n
      → ((entry_of hour o ts).start_ts_ms != (hour ts).0) ≡ true
      → total_with
          (last n (queue ++ (entry_of hour o ts ∷ [])))
          (some (add_sample (empty_bucket (hour ts).0 (hour ts).1) m))
        ≡ add_bytes_quad (total_with queue o) m
  unfolding total_with entry_of empty_bucket
  total-next_hour queue none ts n m room over = ground (arith, over)
  total-next_hour queue (some b) ts n m room over =
      ap (λ t. total_with t (some (add_sample (empty_bucket (hour ts).0 (hour ts).1) m)))
        (last_all n (queue ++ (b ∷ [])) (omega (arith, length-append queue (b ∷ []))))
      ∙ add-sample_bytes (foldl add_bucket_bytes zero_quad (queue ++ (b ∷ [])))
          (empty_bucket (hour ts).0 (hour ts).1) m
      ∙ ap (λ q. add_bytes_quad q m)
          (add-empty_bytes (foldl add_bucket_bytes zero_quad (queue ++ (b ∷ []))) (hour ts).0
              (hour ts).1 (queue-FitsU64 (queue ++ (b ∷ [])))
            ∙ foldl-append zero_quad queue (b ∷ []))

  -- Ingesting a sample of an interface with room for one more completed hour adds the sample's
  -- bytes to that interface's total, with u64 saturation, in the same hour and across the hour's
  -- end.
  pub cumulative-ingest_iface :
      (h : HistogramHistory) (k ts : ℕ) (m : CounterQuad)
      → length (queue_of k h.completed_iface) < h.max_hours
      → cumulative_all_iface (ingest_iface hour h k ts m).0 k
        ≡ add_bytes_quad (cumulative_all_iface h k) m
  unfolding ingest_iface cumulative_all_iface cumulative_completed_iface
  cumulative-ingest_iface h k ts m room =
      elim (Bool-cases
        ((entry_of hour (get k h.current_hour_iface) ts).start_ts_ms != (hour ts).0)) [
          | inl over ↦
              rw
                (
                  over,
                  get-insert_self k (add_sample (empty_bucket (hour ts).0 (hour ts).1) m)
                      h.current_hour_iface,
                  queue_of-push_self h.max_hours k (entry_of hour (get k h.current_hour_iface) ts)
                      h.completed_iface,
                )
                (unfold total_with in
                  total-next_hour (queue_of k h.completed_iface) (get k h.current_hour_iface) ts
                    h.max_hours m room over)
          | inr same ↦
              rw
                (
                  same,
                  get-insert_self k (add_sample (entry_of hour (get k h.current_hour_iface) ts) m)
                      h.current_hour_iface,
                )
                (unfold total_with in
                  total-same_hour (queue_of k h.completed_iface) (get k h.current_hour_iface) ts m)
        ]

  -- Ingesting a sample of one interface leaves the totals of every other interface as they are.
  pub cumulative-ingest_iface_ne :
      (h : HistogramHistory) (k j ts : ℕ) (m : CounterQuad)
      → k ≢ j
      → cumulative_all_iface (ingest_iface hour h k ts m).0 j ≡ cumulative_all_iface h j
  unfolding ingest_iface cumulative_all_iface cumulative_completed_iface
  cumulative-ingest_iface_ne h k j ts m ne =
      elim (Bool-cases
        ((entry_of hour (get k h.current_hour_iface) ts).start_ts_ms != (hour ts).0)) [
          | inl over ↦ rw (
            over,
            get-insert_ne k j (add_sample (empty_bucket (hour ts).0 (hour ts).1) m)
                h.current_hour_iface ne,
            queue_of-push_ne h.max_hours k j (entry_of hour (get k h.current_hour_iface) ts)
                h.completed_iface ne,
          )
          | inr same ↦ rw (
            same,
            get-insert_ne k j (add_sample (entry_of hour (get k h.current_hour_iface) ts) m)
                h.current_hour_iface ne,
          )
        ]
