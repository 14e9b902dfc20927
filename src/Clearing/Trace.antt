-- ===== src/Clearing/Trace.antt =====
-- `traceBucketSwap` of aggregator/src/clearing.ts: a swap walks from bucket to bucket. The body of
-- its loop is `trace_bucket`, the loop `trace_loop`; the fuel is one more than the number of buckets,
-- which the loop never uses up (Trace/Fuel). `up` is the source's `direction`.
pub mod Bucket
pub mod Deltas
pub mod Account
pub mod Walk
pub mod Loop
pub mod Routed
pub mod Flow
pub mod Price
pub mod Fuel
pub mod Step
unfoldable pub use quetzaldex.Clearing.Trace.Bucket.*
use quetzaldex.Prelude.{
  ℕ, zero, suc, ◌+◌, ◌-◌, ◌*◌, ◌/◌, Bool, true, false, ◌&&◌, ◌||◌, List, [], ◌∷◌, ◌++◌, Option,
  none, some, ltb, leb, ◌==◌, if◌then◌else◌, get_elem?, length,
}
use quetzaldex.Prelude.Int.{ℤ, pos, sub_ℕ, ◌+ℤ◌}
use quetzaldex.Prelude.Result.{Result, ok, err, ◌>>=◌, ◌>>◌, throw_if, or_fault, Error}
use quetzaldex.Prelude.Sort.{sort_by}
use quetzaldex.FixedPoint.{scale, div}
use quetzaldex.Buckets.{
  BucketBounds, BucketState, next_sqrt_p_up, next_sqrt_p_down, swap_step_out_a, swap_step_out_b,
}
use quetzaldex.Clearing.Types.{PoolWithBuckets, BucketDelta, BucketTrace}

-- One round of the loop at bucket `id`. Its test `stepInMax < 0n` is never met: the containment test
-- before it leaves a product of naturals.
unfoldable pub trace_bucket :
    Bool → ℕ → ℕ → ℕ → Option BucketState → BucketBounds → TraceState → Result TraceState
unfolding funded_bucket skip_bucket
trace_bucket up total fee_withheld id bucket bounds t = do
  throw_if (ltb t.sqrt_p bounds.sqrt_lower || ltb bounds.sqrt_upper t.sqrt_p) Error.outside_grid
  b ← or_fault bucket
  if b.liquidity == 0
      then ok (skip_bucket up id bounds t)
      else funded_bucket up total fee_withheld id b.liquidity bounds t

-- The bucket that the loop's condition lets it enter.
unfoldable pub current : List BucketBounds → TraceState → Option (ℕ × BucketBounds)
current bounds t = if t.in_after_fee == 0 then none else elim t.cursor [
  | none ↦ none
  | some id ↦ elim (get_elem? bounds id) [ none ↦ none | some b ↦ some (id, b) ]
]

unfoldable pub trace_loop : PoolWithBuckets → Bool → ℕ → ℕ → ℕ → TraceState → Result TraceState
trace_loop pool up total fee_withheld zero t = err Error.out_of_fuel
trace_loop pool up total fee_withheld (suc fuel) t = elim (current pool.bucket_bounds t) [
  | none ↦ ok t
  | some (id, bounds) ↦ do
    t' ← trace_bucket up total fee_withheld id (get_elem? pool.bucket_states id) bounds t
    trace_loop pool up total fee_withheld fuel t'
]

unfoldable pub after_fee : ℕ → ℕ
after_fee gross = gross * (bucket_fee_scale - bucket_fee_bps) / bucket_fee_scale

unfoldable pub start_state : PoolWithBuckets → ℕ → TraceState
unfolding start_bucket
start_state pool total = record {
  in_after_fee = total;
  cursor = start_bucket pool.current_sqrt_price pool.bucket_bounds;
  sqrt_p = pool.current_sqrt_price;
  fee_distributed = 0;
  deltas = [];
}

-- The loops over `deltas.values()`.
unfoldable pub agg_a : List BucketDelta → ℤ
agg_a [] = pos 0
agg_a (d ∷ ds) = sub_ℕ d.reserve_a_add d.reserve_a_sub +ℤ agg_a ds

unfoldable pub agg_b : List BucketDelta → ℤ
agg_b [] = pos 0
agg_b (d ∷ ds) = sub_ℕ d.reserve_b_add d.reserve_b_sub +ℤ agg_b ds

abbrev pub le_id : BucketDelta → BucketDelta → Bool
le_id x y = leb x.bucket_id y.bucket_id

unfoldable pub finish_trace : PoolWithBuckets → TraceState → Result BucketTrace
unfolding agg_a agg_b
finish_trace pool t = do
  throw_if (ltb 0 t.in_after_fee) Error.exceeded_all_buckets
  throw_if (ltb max_bucket_hops (length t.deltas)) Error.too_many_buckets
  ok (record {
    new_sqrt_price = t.sqrt_p;
    bucket_deltas = sort_by le_id t.deltas;
    new_reserve_a = pool.reserve_a +ℤ agg_a t.deltas;
    new_reserve_b = pool.reserve_b +ℤ agg_b t.deltas;
  })

-- The walk of one input of either token.
unfoldable pub trace_input : PoolWithBuckets → Bool → ℕ → Result BucketTrace
unfolding trace_loop after_fee start_state finish_trace
trace_input pool up remaining = do
  let total = after_fee remaining
  t ←
      trace_loop pool up total (remaining - total) (suc (length pool.bucket_bounds))
        (start_state pool total)
  finish_trace pool t

unfoldable pub trace_bucket_swap : PoolWithBuckets → ℕ → ℕ → Result BucketTrace
unfolding trace_input
trace_bucket_swap pool net_a net_b =
    if net_a == 0 && net_b == 0
    then ok (record {
      new_sqrt_price = pool.current_sqrt_price;
      bucket_deltas = [];
      new_reserve_a = pool.reserve_a;
      new_reserve_b = pool.reserve_b;
    })
    else trace_input pool (ltb 0 net_b) (if ltb 0 net_b then net_b else net_a)
