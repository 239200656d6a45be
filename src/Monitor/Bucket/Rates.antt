-- ===== src/Monitor/Bucket/Rates.antt =====
-- The minimum, maximum, sum and average of the rates in a bucket (bandix-plus/src/monitor.rs).
use native.Mathlib.Nat.{mul_comm, mul-one, mul-le-mul_right, le-div_iff_mul-le, div-le_of_le-mul}
use bandix_plus_lite.Base.{
  ℕ, ◌+◌, ◌*◌, ◌<◌, ◌≤◌, ◌^◌, ◌≡◌, min, max, inl, inr, ◌==◌, ltb, true, arith, Bool-cases,
}
use bandix_plus_lite.Base.Bytes.{saturating_add, wrapping_add}
use bandix_plus_lite.Monitor.Types.{AggregatedBucket, CounterQuad, empty_bucket}
use bandix_plus_lite.Monitor.Bucket.{add_sample, finalize, average, min_rate}

-- The minimum, sum and maximum of `count` rates agree.
pub record RateIsValid (count total least most : ℕ) : Type 0 where
  pub above : least * count ≤ total
  pub below : total ≤ most * count

-- All four rates of a bucket, and its count is a u64.
pub record IsValid (b : AggregatedBucket) : Type 0 where
  pub count_u64 : b.sample_count < 2 ^ 64
  pub up_v4 : RateIsValid b.sample_count b.up_v4_bps_sum b.up_v4_bps_min b.up_v4_bps_max
  pub down_v4 : RateIsValid b.sample_count b.down_v4_bps_sum b.down_v4_bps_min b.down_v4_bps_max
  pub up_v6 : RateIsValid b.sample_count b.up_v6_bps_sum b.up_v6_bps_min b.up_v6_bps_max
  pub down_v6 : RateIsValid b.sample_count b.down_v6_bps_sum b.down_v6_bps_min b.down_v6_bps_max

-- The sample does not saturate a sum, nor wrap the count.
pub record HasRoom (b : AggregatedBucket) (m : CounterQuad) : Type 0 where
  pub count : b.sample_count + 1 < 2 ^ 64
  pub up_v4 : b.up_v4_bps_sum + m.up_v4_bps < 2 ^ 64
  pub down_v4 : b.down_v4_bps_sum + m.down_v4_bps < 2 ^ 64
  pub up_v6 : b.up_v6_bps_sum + m.up_v6_bps < 2 ^ 64
  pub down_v6 : b.down_v6_bps_sum + m.down_v6_bps < 2 ^ 64

min-mul_le :
    (least count total x : ℕ) → least * count ≤ total → min least x * (count + 1) ≤ total + x
min-mul_le least count total x h =
    omega (arith, mul-le-mul_right {m = min least x} {n = least} count (omega arith))

le-max_mul : (most count total x : ℕ) → total ≤ most * count → total + x ≤ max most x * (count + 1)
le-max_mul most count total x h =
    omega (arith, mul-le-mul_right {m = most} {n = max most x} count (omega arith))

add_rate :
    (count total least most x : ℕ)
    → RateIsValid count total least most
    → count + 1 < 2 ^ 64
    → total + x < 2 ^ 64
    → RateIsValid
        (wrapping_add count 1)
        (saturating_add total x)
        (min_rate count least x)
        (max most x)
unfolding min_rate
add_rate count total least most x v hc hs =
    let c : wrapping_add count 1 ≡ count + 1 = omega arith in
    let t : saturating_add total x ≡ total + x = omega arith in
    rw (c, t)
      (elim (Bool-cases (count == 0)) [
        | inl first ↦
            let z : count ≡ 0 = ground arith in
            rw (first) (record {
              above = rw z (omega (arith, mul-one x));
              below = le-max_mul most count total x v.below;
            })
        | inr later ↦ rw later (record {
          above = min-mul_le least count total x v.above;
          below = le-max_mul most count total x v.below;
        })
      ])

average_between :
    (old count total least most : ℕ)
    → RateIsValid count total least most
    → 0 < count
    → (least ≤ average old total count) × (average old total count ≤ most)
unfolding average
average_between old count total least most v h =
    let positive : ltb 0 count ≡ true = ground arith in
    rw positive ((le-div_iff_mul-le h).1 v.above, div-le_of_le-mul count (rw mul_comm v.below))

-- A new bucket is valid.
pub empty_bucket-IsValid : (start end : ℕ) → IsValid (empty_bucket start end)
unfolding empty_bucket
empty_bucket-IsValid start end = omega arith

-- Adding a sample keeps the four rates of a bucket consistent, as long as no sum saturates and the
-- count does not wrap: the minimum times the count is at most the sum, and the sum at most the
-- maximum times the count.
pub add_sample-IsValid :
    (b : AggregatedBucket) (m : CounterQuad) → IsValid b → HasRoom b m → IsValid (add_sample b m)
unfolding add_sample
add_sample-IsValid b m v r = record {
  count_u64 = omega arith;
  up_v4 =
      add_rate b.sample_count b.up_v4_bps_sum b.up_v4_bps_min b.up_v4_bps_max m.up_v4_bps v.up_v4
        r.count r.up_v4;
  down_v4 =
      add_rate b.sample_count b.down_v4_bps_sum b.down_v4_bps_min b.down_v4_bps_max m.down_v4_bps
        v.down_v4 r.count r.down_v4;
  up_v6 =
      add_rate b.sample_count b.up_v6_bps_sum b.up_v6_bps_min b.up_v6_bps_max m.up_v6_bps v.up_v6
        r.count r.up_v6;
  down_v6 =
      add_rate b.sample_count b.down_v6_bps_sum b.down_v6_bps_min b.down_v6_bps_max m.down_v6_bps
        v.down_v6 r.count r.down_v6;
}

-- The four averages that finalize fills in for a valid bucket with at least one sample lie between
-- the minimum and the maximum of that rate.
pub finalize_between :
    (b : AggregatedBucket)
    → IsValid b
    → 0 < b.sample_count
    → ((b.up_v4_bps_min ≤ (finalize b).up_v4_bps_avg)
        × ((finalize b).up_v4_bps_avg ≤ b.up_v4_bps_max))
      × ((b.down_v4_bps_min ≤ (finalize b).down_v4_bps_avg)
          × ((finalize b).down_v4_bps_avg ≤ b.down_v4_bps_max))
      × ((b.up_v6_bps_min ≤ (finalize b).up_v6_bps_avg)
          × ((finalize b).up_v6_bps_avg ≤ b.up_v6_bps_max))
      × ((b.down_v6_bps_min ≤ (finalize b).down_v6_bps_avg)
          × ((finalize b).down_v6_bps_avg ≤ b.down_v6_bps_max))
unfolding finalize
finalize_between b v h =
    unfold average in
    (
      average_between b.up_v4_bps_avg b.sample_count b.up_v4_bps_sum b.up_v4_bps_min b.up_v4_bps_max
          v.up_v4 h,
      average_between b.down_v4_bps_avg b.sample_count b.down_v4_bps_sum b.down_v4_bps_min
          b.down_v4_bps_max v.down_v4 h,
      average_between b.up_v6_bps_avg b.sample_count b.up_v6_bps_sum b.up_v6_bps_min b.up_v6_bps_max
          v.up_v6 h,
      average_between b.down_v6_bps_avg b.sample_count b.down_v6_bps_sum b.down_v6_bps_min
          b.down_v6_bps_max v.down_v6 h,
    )
