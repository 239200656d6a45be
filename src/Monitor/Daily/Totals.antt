-- ===== src/Monitor/Daily/Totals.antt =====
-- What a day holds of its hours (bandix-plus/src/monitor.rs).
use bandix_plus_lite.Base.{
  ℕ, ◌+◌, ◌-◌, ◌^◌, ◌≤◌, ◌≡◌, ◌≢◌, min, refl, sym, ap, ◌∙◌, List, [], ◌∷◌, Option, some, none, Bool,
  true, false, ◌==◌, if◌then◌else◌, ==_iff, arith,
}
use bandix_plus_lite.Base.Bytes.{saturating_add}
use bandix_plus_lite.Base.Map.{nat_eq, get, insert, get-insert_self, get-insert_ne}
use bandix_plus_lite.Monitor.Types.{AggregatedBucket, empty_bucket}
use bandix_plus_lite.Monitor.Daily.{merge_hour, day_or_new, Days, merge_hours}

-- The sum of a field over hours.
pub sum_of : (AggregatedBucket → ℕ) → List AggregatedBucket → ℕ
sum_of f [] = 0
sum_of f (b ∷ hours) = f b + sum_of f hours

-- A field of a day's bucket, zero for a day without one.
abbrev pub field_at : (AggregatedBucket → ℕ) → Option AggregatedBucket → ℕ
field_at f none = 0
field_at f (some b) = f b

module _ (daily_bucket_local : ℕ → ℕ × ℕ) where
  -- The hours that begin in a day.
  pub hours_of : ℕ → List AggregatedBucket → List AggregatedBucket
  hours_of day [] = []
  hours_of day (b ∷ hours) =
      let rest = hours_of day hours in
      if (daily_bucket_local b.start_ts_ms).0 == day then (b ∷ rest) else rest

  module _ (f : AggregatedBucket → ℕ)
      (added : (acc b : AggregatedBucket) → f (merge_hour acc b) ≡ saturating_add (f acc) (f b))
      (fresh : (start end : ℕ) → f (empty_bucket start end) ≡ 0) where
    day_or_new-field :
        (start end : ℕ) (o : Option AggregatedBucket) → f (day_or_new start end o) ≡ field_at f o
    day_or_new-field start end none = fresh start end
    day_or_new-field start end (some b) = refl

    insert-field :
        (day : ℕ) (b : AggregatedBucket) (by_day : Days)
        → field_at f (
            get day (
              insert
                (daily_bucket_local b.start_ts_ms).0
                (merge_hour
                  (day_or_new
                    (daily_bucket_local b.start_ts_ms).0
                    (daily_bucket_local b.start_ts_ms).1
                    (get (daily_bucket_local b.start_ts_ms).0 by_day))
                  b)
                by_day))
          ≡ (if (daily_bucket_local b.start_ts_ms).0 == day
              then saturating_add (field_at f (get day by_day)) (f b)
              else field_at f (get day by_day))
    insert-field day b by_day = pick (start == day) refl
      where
        start : ℕ
        start = (daily_bucket_local b.start_ts_ms).0

        merged : AggregatedBucket
        merged =
            merge_hour (day_or_new start (daily_bucket_local b.start_ts_ms).1 (get start by_day)) b

        start-ne : (start == day) ≡ false → start ≢ day
        start-ne e p = cc (e, (==_iff start day).1 p)

        pick :
            (t : Bool)
            → (start == day) ≡ t
            → field_at f (get day (insert start merged by_day)) ≡ (
                if t
                then saturating_add (field_at f (get day by_day)) (f b)
                else field_at f (get day by_day))
        pick true e =
            let p : start ≡ day = (==_iff start day).0 e in
            ap (λ k. field_at f (get k (insert start merged by_day))) (sym p)
            ∙ ap (field_at f) (get-insert_self start merged by_day)
            ∙ added (day_or_new start (daily_bucket_local b.start_ts_ms).1 (get start by_day)) b
            ∙ ap (λ n. saturating_add n (f b))
                (day_or_new-field start (daily_bucket_local b.start_ts_ms).1 (get start by_day)
                  ∙ ap (λ k. field_at f (get k by_day)) p)
        pick false e = ap (field_at f) (get-insert_ne start day merged by_day (start-ne e))

    merge_hours-field :
        (day : ℕ) (hourly : List AggregatedBucket) (by_day : Days)
        → field_at f (get day by_day) ≤ 2 ^ 64 - 1
        → field_at f (get day (merge_hours daily_bucket_local hourly by_day))
          ≡ min (field_at f (get day by_day) + sum_of f (hours_of day hourly)) (2 ^ 64 - 1)
    unfolding merge_hours hours_of sum_of
    merge_hours-field day [] by_day h = omega arith
    merge_hours-field day (b ∷ hourly) by_day h =
        let start = (daily_bucket_local b.start_ts_ms).0 in
        let after =
          insert start
            (merge_hour (day_or_new start (daily_bucket_local b.start_ts_ms).1 (get start by_day))
              b)
            by_day in
        let grown = insert-field day b by_day in
        merge_hours-field day hourly after (bound (start == day) grown) ∙ total (start == day) grown
      where
        x : ℕ
        x = field_at f (get day by_day)

        bound : {y : ℕ} (t : Bool) → y ≡ (if t then saturating_add x (f b) else x) → y ≤ 2 ^ 64 - 1
        bound true e = omega (arith, e)
        bound false e = omega (arith, e, h)

        total :
            {y : ℕ} (t : Bool)
            → y ≡ (if t then saturating_add x (f b) else x)
            → min (y + sum_of f (hours_of day hourly)) (2 ^ 64 - 1)
              ≡ min
                  (x + sum_of f (if t then b ∷ hours_of day hourly else hours_of day hourly))
                  (2 ^ 64 - 1)
        total true e = omega (arith, e)
        total false e = omega (arith, e)

  -- A field of the day's bucket is the saturated sum over its hours.
  abbrev pub HoldsSum : ℕ → List AggregatedBucket → (AggregatedBucket → ℕ) → Type 0
  HoldsSum day hourly f =
      field_at f (get day (merge_hours daily_bucket_local hourly []))
      ≡ min (sum_of f (hours_of day hourly)) (2 ^ 64 - 1)

  sum_from_nothing :
      (f : AggregatedBucket → ℕ)
      → ((acc b : AggregatedBucket) → f (merge_hour acc b) ≡ saturating_add (f acc) (f b))
      → ((start end : ℕ) → f (empty_bucket start end) ≡ 0)
      → (day : ℕ) (hourly : List AggregatedBucket) → HoldsSum day hourly f
  unfolding get
  sum_from_nothing f added fresh day hourly =
      merge_hours-field f added fresh day hourly [] (omega arith)
      ∙ ap (λ n. min n (2 ^ 64 - 1)) (omega arith)

  -- A day holds the bytes of each direction and family, and the samples, of exactly the hours that
  -- begin in it, saturating at the greatest u64.
  pub merge_hours-sums :
      (day : ℕ) (hourly : List AggregatedBucket)
      → HoldsSum day hourly (λ b. b.up_v4_bytes)
        × HoldsSum day hourly (λ b. b.down_v4_bytes)
        × HoldsSum day hourly (λ b. b.up_v6_bytes)
        × HoldsSum day hourly (λ b. b.down_v6_bytes)
        × HoldsSum day hourly (λ b. b.sample_count)
  unfolding merge_hour empty_bucket
  merge_hours-sums day hourly = (
    sum_from_nothing (λ b. b.up_v4_bytes) (λ acc b. refl) (λ s e. refl) day hourly,
    sum_from_nothing (λ b. b.down_v4_bytes) (λ acc b. refl) (λ s e. refl) day hourly,
    sum_from_nothing (λ b. b.up_v6_bytes) (λ acc b. refl) (λ s e. refl) day hourly,
    sum_from_nothing (λ b. b.down_v6_bytes) (λ acc b. refl) (λ s e. refl) day hourly,
    sum_from_nothing (λ b. b.sample_count) (λ acc b. refl) (λ s e. refl) day hourly,
  )
