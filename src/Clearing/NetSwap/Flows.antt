-- ===== src/Clearing/NetSwap/Flows.antt =====
-- What `bucketNetSwap` moves, in and out of the pool, and by which trace.
use quetzaldex.Prelude.{
  ℕ, suc, zero, ◌*◌, ◌/◌, ◌<◌, ◌≡◌, true, false, none, some, arith, sum_by, inl, inr, ◌⊎◌,
}
use quetzaldex.Prelude.Int.{ℤ, pos, negsuc}
use quetzaldex.Prelude.Result.{Result, ok, >>=-eq-ok}
use quetzaldex.FixedPoint.{scale, mul_div}
use quetzaldex.FixedPoint.Laws.{mul_div-ok}
use quetzaldex.Clearing.Types.{PoolWithBuckets, NetSwap, BucketTrace}
use quetzaldex.Clearing.Trace.{trace_bucket_swap}
use quetzaldex.Clearing.NetSwap.Errors.{
  Infeasible, catch_cases, bucket_a_in-fails, bucket_b_in-fails,
}
use quetzaldex.Clearing.NetSwap.{
  bucket_net_swap, bucket_a_in, bucket_b_in, saturated_swap, ratio, no_swap,
}

-- A swap of token A: all of the net flow goes in, token B comes out, by one trace.
pub record SwapsA (pool : PoolWithBuckets) (net_a : ℕ) (s : NetSwap) : Type 0 where
  pub trace : BucketTrace
  pub traced : trace_bucket_swap pool net_a 0 ≡ ok trace
  pub kept : s.trace ≡ some trace
  pub a_in : s.amm_a_in ≡ net_a
  pub b_out : s.amm_b_out ≡ sum_by (λ d. d.reserve_b_sub) trace.bucket_deltas
  pub no_b_in : s.amm_b_in ≡ 0
  pub no_a_out : s.amm_a_out ≡ 0
  pub reserve_a : s.new_reserve_a ≡ trace.new_reserve_a
  pub reserve_b : s.new_reserve_b ≡ trace.new_reserve_b
  pub fits : s.saturated ≡ false

pub record SwapsB (pool : PoolWithBuckets) (deficit p : ℕ) (s : NetSwap) : Type 0 where
  pub trace : BucketTrace
  pub traced : trace_bucket_swap pool 0 s.amm_b_in ≡ ok trace
  pub kept : s.trace ≡ some trace
  pub b_in : s.amm_b_in ≡ deficit * scale / p
  pub a_out : s.amm_a_out ≡ sum_by (λ d. d.reserve_a_sub) trace.bucket_deltas
  pub no_a_in : s.amm_a_in ≡ 0
  pub no_b_out : s.amm_b_out ≡ 0
  pub reserve_a : s.new_reserve_a ≡ trace.new_reserve_a
  pub reserve_b : s.new_reserve_b ≡ trace.new_reserve_b
  pub fits : s.saturated ≡ false

-- No flow at all, and the reserves as they were.
pub record Still (pool : PoolWithBuckets) (s : NetSwap) : Type 0 where
  pub no_a_in : s.amm_a_in ≡ 0
  pub no_a_out : s.amm_a_out ≡ 0
  pub no_b_in : s.amm_b_in ≡ 0
  pub no_b_out : s.amm_b_out ≡ 0
  pub untraced : s.trace ≡ none
  pub reserve_a : s.new_reserve_a ≡ pool.reserve_a
  pub reserve_b : s.new_reserve_b ≡ pool.reserve_b

bucket_a_in-SwapsA :
    (pool : PoolWithBuckets) (n : ℕ) {s : NetSwap} → bucket_a_in pool n ≡ ok s → SwapsA pool n s
unfolding bucket_a_in
bucket_a_in-SwapsA pool n h =
    let (t, e, h1) = >>=-eq-ok (trace_bucket_swap pool n 0) _ h in
    let out = sum_by (λ d. d.reserve_b_sub) t.bucket_deltas in
    let (q, f, h2) = >>=-eq-ok (ratio n scale out) _ h1 in
    record {
      trace = t;
      traced = e;
      kept = ground arith;
      a_in = ground arith;
      b_out = ground arith;
      no_b_in = ground arith;
      no_a_out = ground arith;
      reserve_a = ground arith;
      reserve_b = ground arith;
      fits = ground arith;
    }

bucket_b_in-SwapsB :
    (pool : PoolWithBuckets) (n p : ℕ) {s : NetSwap}
    → bucket_b_in pool n p ≡ ok s
    → SwapsB pool n p s × (0 < p)
unfolding bucket_b_in
bucket_b_in-SwapsB pool n p {s} h =
    let (i, d, h0) = >>=-eq-ok (mul_div n scale p) _ h in
    let (t, e, h1) = >>=-eq-ok (trace_bucket_swap pool 0 i) _ h0 in
    let out = sum_by (λ d. d.reserve_a_sub) t.bucket_deltas in
    let (q, f, h2) = >>=-eq-ok (ratio out scale i) _ h1 in
    let sized : s.amm_b_in ≡ i = ground arith in
    (
      record {
        trace = t;
        traced = rw sized e;
        kept = ground arith;
        b_in = ground (arith, mul_div-ok n scale p d);
        a_out = ground arith;
        no_a_in = ground arith;
        no_b_out = ground arith;
        reserve_a = ground arith;
        reserve_b = ground arith;
        fits = ground arith;
      },
      (mul_div-ok n scale p d).0,
    )

-- A swap that the buckets have no room for: the trace says so, and nothing moves.
abbrev pub Saturates : PoolWithBuckets → Result BucketTrace → NetSwap → Type 0
Saturates pool traced s = (s.saturated ≡ true) × Still pool s × Infeasible traced

-- What the net flow `net` at price `p` became.
abbrev pub Moves : PoolWithBuckets → ℤ → ℕ → NetSwap → Type 0
Moves pool (pos zero) p s = (s.saturated ≡ false) × Still pool s
Moves pool (pos (suc n)) p s =
    SwapsA pool (suc n) s ⊎ Saturates pool (trace_bucket_swap pool (suc n) 0) s
Moves pool (negsuc n) p s =
    (0 < p)
    × (SwapsB pool (suc n) p s ⊎ Saturates pool (trace_bucket_swap pool 0 (suc n * scale / p)) s)

saturated-Still :
    (pool : PoolWithBuckets) (s : NetSwap)
    → s ≡ saturated_swap pool
    → (s.saturated ≡ true) × Still pool s
unfolding saturated_swap no_swap
saturated-Still pool s e = ground arith

a_in-Infeasible :
    (pool : PoolWithBuckets) (n : ℕ)
    → Infeasible (bucket_a_in pool n)
    → Infeasible (trace_bucket_swap pool n 0)
a_in-Infeasible pool n (inl e) = inl (bucket_a_in-fails pool n e)
a_in-Infeasible pool n (inr e) = inr (bucket_a_in-fails pool n e)

b_in-Infeasible :
    (pool : PoolWithBuckets) (n p : ℕ)
    → Infeasible (bucket_b_in pool n p)
    → (0 < p) × Infeasible (trace_bucket_swap pool 0 (n * scale / p))
b_in-Infeasible pool n p (inl e) = elim (bucket_b_in-fails pool n p e) [
  | inl z ↦ cc (z.1)
  | inr (h, f) ↦ (h, inl f)
]
b_in-Infeasible pool n p (inr e) = elim (bucket_b_in-fails pool n p e) [
  | inl z ↦ cc (z.1)
  | inr (h, f) ↦ (h, inr f)
]

-- What a net swap that returns moved.
pub bucket_net_swap-Moves :
    (pool : PoolWithBuckets) (net : ℤ) (p : ℕ) {s : NetSwap}
    → bucket_net_swap pool net p ≡ ok s
    → Moves pool net p s
unfolding bucket_net_swap no_swap
bucket_net_swap-Moves pool (pos zero) p h = ground arith
bucket_net_swap-Moves pool (pos (suc n)) p {s} h =
    elim (catch_cases pool (bucket_a_in pool (suc n)) h) [
      | inl e ↦ inl (bucket_a_in-SwapsA pool (suc n) e)
      | inr (e, f) ↦
          let (full, none_moved) = saturated-Still pool s e in
          inr (full, none_moved, a_in-Infeasible pool (suc n) f)
    ]
bucket_net_swap-Moves pool (negsuc n) p {s} h =
    elim (catch_cases pool (bucket_b_in pool (suc n) p) h) [
      | inl e ↦ let (swaps, priced) = bucket_b_in-SwapsB pool (suc n) p e in (priced, inl swaps)
      | inr (e, f) ↦
          let (full, none_moved) = saturated-Still pool s e in
          let (priced, g) = b_in-Infeasible pool (suc n) p f in (priced, inr (full, none_moved, g))
    ]
