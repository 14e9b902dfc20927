-- ===== src/Clearing/NetSwap.antt =====
-- The swap of the net imbalance: `simulateNet` (constant product) and `bucketNetSwap` (buckets) of
-- aggregator/src/clearing.ts. A net flow is an integer; the source's tests on its sign are a match.
pub mod Errors
pub mod Flows
pub mod Outcome
use quetzaldex.Prelude.{
  ℕ, suc, zero, ◌+◌, ◌-◌, ◌*◌, ◌/◌, Bool, true, false, List, [], ◌∷◌, Option, none, some, ◌==◌,
  if◌then◌else◌, sum_by,
}
use quetzaldex.Prelude.Int.{ℤ, pos, negsuc}
use quetzaldex.Prelude.Result.{Result, ok, err, ◌>>=◌, Error}
use quetzaldex.FixedPoint.{scale, fee_num, fee_den, mul_div, div}
use quetzaldex.Clearing.Types.{PoolWithBuckets, BucketDelta, BucketTrace, NetSwap}
use quetzaldex.Clearing.Trace.{trace_bucket_swap}

-- No swap: the price is the candidate.
unfoldable pub no_swap : ℤ → ℤ → ℕ → NetSwap
no_swap reserve_a reserve_b p = record {
  new_reserve_a = reserve_a;
  new_reserve_b = reserve_b;
  realized_p = p;
  fee_amount_a = 0;
  fee_amount_b = 0;
  amm_a_in = 0;
  amm_a_out = 0;
  amm_b_in = 0;
  amm_b_out = 0;
  saturated = false;
  trace = none;
}

-- A quotient of flows, 0 where the divisor is 0.
abbrev pub ratio : ℕ → ℕ → ℕ → Result ℕ
ratio a b c = if c == 0 then ok 0 else mul_div a b c

-- Token A flows into a constant-product pool. The output is a difference that cannot be negative.
pub simulate_a_in : ℕ → ℕ → ℕ → Result NetSwap
simulate_a_in reserve_a reserve_b net_a = do
  let after_fee = net_a * fee_num / fee_den
  kept ← mul_div reserve_a reserve_b (reserve_a + after_fee)
  let out_b = reserve_b - kept
  p ← ratio net_a scale out_b
  ok (record {
    new_reserve_a = pos (reserve_a + after_fee);
    new_reserve_b = pos (reserve_b - out_b);
    realized_p = p;
    fee_amount_a = net_a - after_fee;
    fee_amount_b = 0;
    amm_a_in = net_a;
    amm_a_out = 0;
    amm_b_in = 0;
    amm_b_out = out_b;
    saturated = false;
    trace = none;
  })

-- Token B flows in, for a deficit of token A valued at `p`.
pub simulate_b_in : ℕ → ℕ → ℕ → ℕ → Result NetSwap
simulate_b_in reserve_a reserve_b deficit p = do
  in_b ← mul_div deficit scale p
  let after_fee = in_b * fee_num / fee_den
  kept ← mul_div reserve_a reserve_b (reserve_b + after_fee)
  let out_a = reserve_a - kept
  q ← ratio out_a scale in_b
  ok (record {
    new_reserve_a = pos (reserve_a - out_a);
    new_reserve_b = pos (reserve_b + after_fee);
    realized_p = q;
    fee_amount_a = 0;
    fee_amount_b = in_b - after_fee;
    amm_a_in = 0;
    amm_a_out = out_a;
    amm_b_in = in_b;
    amm_b_out = 0;
    saturated = false;
    trace = none;
  })

pub simulate_net : ℕ → ℕ → ℤ → ℕ → Result NetSwap
unfolding simulate_a_in simulate_b_in
simulate_net reserve_a reserve_b (pos zero) p = ok (no_swap (pos reserve_a) (pos reserve_b) p)
simulate_net reserve_a reserve_b (pos (suc n)) p = simulate_a_in reserve_a reserve_b (suc n)
simulate_net reserve_a reserve_b (negsuc n) p = simulate_b_in reserve_a reserve_b (suc n) p

-- Token A flows into the buckets.
unfoldable pub bucket_a_in : PoolWithBuckets → ℕ → Result NetSwap
bucket_a_in pool net_a = do
  trace ← trace_bucket_swap pool net_a 0
  let out = sum_by (λ d. d.reserve_b_sub) trace.bucket_deltas
  p ← ratio net_a scale out
  ok (record {
    new_reserve_a = trace.new_reserve_a;
    new_reserve_b = trace.new_reserve_b;
    realized_p = p;
    fee_amount_a = 0;
    fee_amount_b = 0;
    amm_a_in = net_a;
    amm_a_out = 0;
    amm_b_in = 0;
    amm_b_out = out;
    saturated = false;
    trace = some trace;
  })

-- Token B flows into the buckets.
unfoldable pub bucket_b_in : PoolWithBuckets → ℕ → ℕ → Result NetSwap
bucket_b_in pool deficit p = do
  in_b ← mul_div deficit scale p
  trace ← trace_bucket_swap pool 0 in_b
  let out = sum_by (λ d. d.reserve_a_sub) trace.bucket_deltas
  q ← ratio out scale in_b
  ok (record {
    new_reserve_a = trace.new_reserve_a;
    new_reserve_b = trace.new_reserve_b;
    realized_p = q;
    fee_amount_a = 0;
    fee_amount_b = 0;
    amm_a_in = 0;
    amm_a_out = out;
    amm_b_in = in_b;
    amm_b_out = 0;
    saturated = false;
    trace = some trace;
  })

unfoldable pub saturated_swap : PoolWithBuckets → NetSwap
saturated_swap pool = record (no_swap pool.reserve_a pool.reserve_b 0) { saturated = true }

-- The `catch`: it turns the two capacity errors into a result and throws the others again.
unfoldable pub catch_infeasible : PoolWithBuckets → Result NetSwap → Result NetSwap
unfolding saturated_swap no_swap
catch_infeasible pool (ok s) = ok s
catch_infeasible pool (err Error.exceeded_all_buckets) = ok (saturated_swap pool)
catch_infeasible pool (err Error.too_many_buckets) = ok (saturated_swap pool)
catch_infeasible pool (err e) = err e

unfoldable pub bucket_net_swap : PoolWithBuckets → ℤ → ℕ → Result NetSwap
unfolding bucket_a_in bucket_b_in catch_infeasible
bucket_net_swap pool (pos zero) p = ok (no_swap pool.reserve_a pool.reserve_b p)
bucket_net_swap pool (pos (suc n)) p = catch_infeasible pool (bucket_a_in pool (suc n))
bucket_net_swap pool (negsuc n) p = catch_infeasible pool (bucket_b_in pool (suc n) p)
