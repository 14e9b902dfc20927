-- ===== src/Clearing/NetSwap/Errors.antt =====
-- How `bucketNetSwap` fails, and which failures its `catch` answers.
use quetzaldex.Prelude.{
  ℕ, suc, zero, ◌*◌, ◌/◌, ◌<◌, ◌≡◌, ◌≢◌, refl, false, ◌==◌, arith, sum_by, inl, inr, ◌⊎◌,
}
use quetzaldex.Prelude.Result.{Result, ok, err, Error, Result-cases}
use quetzaldex.FixedPoint.{scale, mul_div}
use quetzaldex.Clearing.Types.{PoolWithBuckets, NetSwap}
use quetzaldex.Clearing.Trace.{trace_bucket_swap}
use quetzaldex.Clearing.NetSwap.{bucket_a_in, bucket_b_in, catch_infeasible, saturated_swap, ratio}

-- The capacity errors, that a swap answers with saturation, and the others.
abbrev pub Infeasible {ℓ} : {A : Type ℓ} → Result A → Type ℓ
Infeasible r = (r ≡ err Error.exceeded_all_buckets) ⊎ (r ≡ err Error.too_many_buckets)

abbrev pub Fatal : Error → Type 0
Fatal e = (e ≢ Error.exceeded_all_buckets) × (e ≢ Error.too_many_buckets)

pub catch_cases :
    (pool : PoolWithBuckets) (m : Result NetSwap) {s : NetSwap}
    → catch_infeasible pool m ≡ ok s
    → (m ≡ ok s) ⊎ (s ≡ saturated_swap pool) × Infeasible m
unfolding catch_infeasible
catch_cases pool (ok s) h = inl h
catch_cases pool (err Error.exceeded_all_buckets) h = inr (cc, inl refl)
catch_cases pool (err Error.too_many_buckets) h = inr (cc, inr refl)
catch_cases pool (err e) h = cc

pub catch_throws :
    (pool : PoolWithBuckets) (m : Result NetSwap) {e : Error}
    → catch_infeasible pool m ≡ err e
    → (m ≡ err e) × Fatal e
unfolding catch_infeasible
catch_throws pool (ok s) h = cc
catch_throws pool (err Error.exceeded_all_buckets) h = cc
catch_throws pool (err Error.too_many_buckets) h = cc
catch_throws pool (err e) h = (h, (λ q. cc, λ q. cc))

ratio-total : (a b c : ℕ) → (q : ℕ) × (ratio a b c ≡ ok q)
unfolding mul_div
ratio-total a b zero = (0, refl)
ratio-total a b (suc c) =
    let nonzero : (suc c == 0) ≡ false = ground arith in (a * b / suc c, rw (nonzero, mul_div) refl)

-- Only the trace can fail, and for token B a price of zero.
pub bucket_a_in-fails :
    (pool : PoolWithBuckets) (n : ℕ) {e : Error}
    → bucket_a_in pool n ≡ err e
    → trace_bucket_swap pool n 0 ≡ err e
unfolding bucket_a_in
bucket_a_in-fails pool n {e} h = elim (Result-cases (trace_bucket_swap pool n 0)) [
  | inl (t, k) ↦
      let (q, f) = ratio-total n scale (sum_by (λ d. d.reserve_b_sub) t.bucket_deltas) in
      cc (rw (bucket_a_in, k, f) at h)
  | inr (g, k) ↦ let same : err g ≡ err e = rw (bucket_a_in, k) at h in cc
]

pub bucket_b_in-fails :
    (pool : PoolWithBuckets) (n p : ℕ) {e : Error}
    → bucket_b_in pool n p ≡ err e
    → (p ≡ 0) × (e ≡ Error.mul_div_zero)
      ⊎ (0 < p) × (trace_bucket_swap pool 0 (n * scale / p) ≡ err e)
unfolding bucket_b_in mul_div
bucket_b_in-fails pool n zero h = inl (refl, cc)
bucket_b_in-fails pool n (suc p) {e} h =
    let nonzero : (suc p == 0) ≡ false = ground arith in
    let b = n * scale / suc p in
    elim (Result-cases (trace_bucket_swap pool 0 b)) [
      | inl (t, k) ↦
          let (q, f) = ratio-total (sum_by (λ d. d.reserve_a_sub) t.bucket_deltas) scale b in
          cc (rw (bucket_b_in, mul_div, nonzero, k, f) at h)
      | inr (g, k) ↦
          let same : err g ≡ err e = rw (bucket_b_in, mul_div, nonzero, k) at h in
          inr (omega arith, cc)
    ]
