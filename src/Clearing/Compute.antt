-- ===== src/Clearing/Compute.antt =====
-- One epoch: `findClearingPrice`, `computeClearing` and `computeClearingV2` of
-- aggregator/src/clearing.ts.
pub mod Distribute
pub mod Extend
pub mod Conserve
use quetzaldex.Prelude.{
  ℕ, suc, zero, ◌+◌, ◌-◌, ◌*◌, ◌/◌, Bool, true, false, not, ◌&&◌, ◌||◌, List, [], ◌∷◌, ◌++◌, Option,
  none, some, ltb, leb, ◌==◌, if◌then◌else◌, map, length, sum_by, get_elem?, find,
}
use quetzaldex.Prelude.Int.{ℤ, pos, ◌+ℤ◌, ◌-ℤ◌}
use quetzaldex.Prelude.Result.{Result, ok, err, ◌>>=◌, Error, or_fault, map_result}
use quetzaldex.FixedPoint.{scale, mul_div}
use quetzaldex.Buckets.{BucketState}
use quetzaldex.Clearing.Types.{
  ClearingOrder, OrderFill, PoolWithBuckets, BucketDelta, BucketTrace, NetSwap, PriceEval,
  ClearingResult,
}
use quetzaldex.Clearing.Batch.{select_batch}
use quetzaldex.Clearing.Price.{
  price_band, has_funded, price_bands, has_buys, has_sells, two_sided_price, clearing_at, amount_in,
}
use quetzaldex.Clearing.OneSided.{one_sided_clearing_price}

-- Where the two sides of the book differ in being there, the pool alone sets the price. A price band
-- is there once a bucket is funded.
unfoldable pub find_clearing_price : PoolWithBuckets → List ClearingOrder → Result (Option ℕ)
find_clearing_price pool batch =
    if not (has_funded pool.bucket_states pool.bucket_bounds) then ok none else do
      band ← price_bands pool.bucket_states pool.bucket_bounds none
      elim band [
        | none ↦ ok none
        | some (band_lo, band_hi) ↦
            let lo = if ltb (band_lo / price_band) 1 then 1 else band_lo / price_band in
            let hi = band_hi * price_band in
            elim (has_buys batch) [
              | true ↦ elim (has_sells batch) [
                | true ↦ two_sided_price pool batch lo hi
                | false ↦ one_sided_clearing_price pool batch false
              ]
              | false ↦ elim (has_sells batch) [
                | true ↦ one_sided_clearing_price pool batch true
                | false ↦ two_sided_price pool batch lo hi
              ]
            ]
      ]

unfoldable pub skipped : PoolWithBuckets → ClearingResult
skipped pool = record {
  cleared = false;
  clearing_price = 0;
  fills = [];
  new_reserve_a = pool.reserve_a;
  new_reserve_b = pool.reserve_b;
  fee_a_per_share_increment = 0;
  fee_b_per_share_increment = 0;
  bucket_trace = none;
}

unfoldable pub fill : ClearingOrder → ℕ → OrderFill
fill o out = record { order_nonce = o.order_nonce; filled_in = o.amount_in; amount_out = out }

-- `total` is shared out by the amounts in, whose sum is `sum`; the last order takes what is left of
-- it after `acc`.
unfoldable pub distribute : ℕ → ℕ → ℕ → List ClearingOrder → Result (List OrderFill)
unfolding fill
distribute total sum acc [] = ok []
distribute total sum acc (o ∷ []) = ok (fill o (total - acc) ∷ [])
distribute total sum acc (o ∷ o' ∷ os) = do
  out ← mul_div total o.amount_in sum
  rest ← distribute total sum (acc + out) (o' ∷ os)
  ok (fill o out ∷ rest)

-- Token A paid to the sellers, token B paid to the buyers.
unfoldable pub x_total : PriceEval → ℕ
x_total ev = sum_by amount_in ev.eligible_buys - ev.swap.amm_a_in + ev.swap.amm_a_out

unfoldable pub y_total : PriceEval → ℕ
y_total ev = sum_by amount_in ev.eligible_sells - ev.swap.amm_b_in + ev.swap.amm_b_out

-- The fills and reserves at the clearing price.
unfoldable pub settle : ℕ → PriceEval → Result ClearingResult
unfolding x_total y_total
settle p ev = do
  bought ← distribute (y_total ev) (sum_by amount_in ev.eligible_buys) 0 ev.eligible_buys
  sold ← distribute (x_total ev) (sum_by amount_in ev.eligible_sells) 0 ev.eligible_sells
  ok (record {
    cleared = true;
    clearing_price = p;
    fills = bought ++ sold;
    new_reserve_a = ev.swap.new_reserve_a;
    new_reserve_b = ev.swap.new_reserve_b;
    fee_a_per_share_increment = 0;
    fee_b_per_share_increment = 0;
    bucket_trace = ev.swap.trace;
  })

-- An evaluation with no eligible order, or past the pool's liquidity, is not settled.
unfoldable pub settle_eligible : PoolWithBuckets → ℕ → PriceEval → Result ClearingResult
unfolding skipped
settle_eligible pool p ev =
    if (length ev.eligible_buys == 0) && (length ev.eligible_sells == 0)
    then ok (skipped pool)
    else if ev.swap.saturated
    then ok (skipped pool)
    else settle p ev

unfoldable pub clear_at_price :
    PoolWithBuckets → List ClearingOrder → Option ℕ → Result ClearingResult
unfolding settle_eligible
clear_at_price pool batch none = ok (skipped pool)
clear_at_price pool batch (some p) = do ev ← clearing_at pool batch p; settle_eligible pool p ev

unfoldable pub compute_clearing : PoolWithBuckets → List ClearingOrder → Result ClearingResult
unfolding find_clearing_price clear_at_price
compute_clearing pool orders =
    let batch = select_batch orders in
    if length batch == 0
    then ok (skipped pool)
    else do p_star ← find_clearing_price pool batch; clear_at_price pool batch p_star

pub record ClearingResultV2 : Type 0 where
  pub base : ClearingResult
  pub bucket_deltas : List BucketDelta
  pub current_sqrt_price_after : ℕ
  pub bucket_states_before : List BucketState
  pub bucket_states_after : List BucketState

-- `{ ...base, newReserveA: pool.reserveA, ... }` with no bucket touched.
unfoldable pub untouched : PoolWithBuckets → ClearingResult → ClearingResultV2
untouched pool base = record {
  base = base;
  bucket_deltas = [];
  current_sqrt_price_after = pool.current_sqrt_price;
  bucket_states_before = [];
  bucket_states_after = [];
}

unfoldable pub apply_delta : BucketState → BucketDelta → BucketState
apply_delta s d = record {
  reserve_a = s.reserve_a +ℤ pos d.reserve_a_add -ℤ pos d.reserve_a_sub;
  reserve_b = s.reserve_b +ℤ pos d.reserve_b_add -ℤ pos d.reserve_b_sub;
  liquidity = s.liquidity;
  cum_fee_a_per_share = s.cum_fee_a_per_share + d.cum_fee_a_inc;
  cum_fee_b_per_share = s.cum_fee_b_per_share + d.cum_fee_b_inc;
}

-- The state before, of the bucket of a delta.
unfoldable pub state_before : PoolWithBuckets → BucketDelta → Result BucketState
state_before pool d = or_fault (get_elem? pool.bucket_states d.bucket_id)

-- The state after: the source looks the delta up again by its bucket's id.
unfoldable pub state_after : PoolWithBuckets → List BucketDelta → BucketDelta → Result BucketState
unfolding apply_delta
state_after pool deltas d = do
  found ← or_fault (find (λ x. x.bucket_id == d.bucket_id) deltas)
  s ← or_fault (get_elem? pool.bucket_states d.bucket_id)
  ok (apply_delta s found)

unfoldable pub with_trace : PoolWithBuckets → ClearingResult → BucketTrace → Result ClearingResultV2
unfolding state_before state_after
with_trace pool base trace = do
  before ← map_result (state_before pool) trace.bucket_deltas
  after ← map_result (state_after pool trace.bucket_deltas) trace.bucket_deltas
  ok (record {
    base = record base { new_reserve_a = trace.new_reserve_a; new_reserve_b = trace.new_reserve_b };
    bucket_deltas = trace.bucket_deltas;
    current_sqrt_price_after = trace.new_sqrt_price;
    bucket_states_before = before;
    bucket_states_after = after;
  })

unfoldable pub extend_v2 : PoolWithBuckets → ClearingResult → Result ClearingResultV2
unfolding untouched with_trace
extend_v2 pool base =
    if not base.cleared then ok (untouched pool base) else elim base.bucket_trace [
      | none ↦ ok (
          untouched pool
            (record base { new_reserve_a = pool.reserve_a; new_reserve_b = pool.reserve_b }))
      | some trace ↦ with_trace pool base trace
    ]

unfoldable pub compute_clearing_v2 : PoolWithBuckets → List ClearingOrder → Result ClearingResultV2
unfolding extend_v2
compute_clearing_v2 pool orders = do base ← compute_clearing pool orders; extend_v2 pool base
