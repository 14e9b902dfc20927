-- ===== src/Clearing/Tests.antt =====
-- The clearing run on a pool of two buckets, and the properties of the clearing applied to it.
use quetzaldex.Prelude.{ℕ, ◌≡◌, ◌⊎◌, refl, Bool, true, false, List, [], ◌∷◌, map}
use quetzaldex.Prelude.Int.{pos}
use quetzaldex.Prelude.Result.{Result, ok, err}
use quetzaldex.FixedPoint.{mul_div, div}
use quetzaldex.Prelude.Int.{◌+ℤ◌, ◌-ℤ◌}
use quetzaldex.Prelude.Sort.{sort_by}
use quetzaldex.Buckets.{
  BucketState, next_sqrt_p_up, next_sqrt_p_down, swap_step_out_a, swap_step_out_b,
}
use quetzaldex.Clearing.Types.{ClearingOrder, PoolWithBuckets, ClearingResult}
use quetzaldex.Clearing.Batch.{select_batch}
use quetzaldex.Clearing.NetSwap.{
  bucket_a_in, bucket_b_in, saturated_swap, catch_infeasible, bucket_net_swap, no_swap,
}
use quetzaldex.Clearing.Price.{
  clearing_at, has_funded, price_at, widen, price_bands, has_buys, has_sells, judge, probe,
  endpoint, narrow, steer, bisect, two_sided_price,
}
use quetzaldex.Clearing.OneSided.{
  on_side, accepts, limit_le, candidates, realized, price_of, settle_pass, priced_pass, refine,
  one_sided_clearing_price,
}
use quetzaldex.Clearing.Compute.{
  find_clearing_price, skipped, fill, distribute, x_total, y_total, settle, settle_eligible,
  clear_at_price, compute_clearing, untouched, apply_delta, state_before, state_after, with_trace,
  extend_v2, compute_clearing_v2, ClearingResultV2,
}
use quetzaldex.Clearing.Aggregate.{AggregateFlows, derive_aggregate_flows}
use quetzaldex.Clearing.Aggregate.Epoch.{Solvent}
use quetzaldex.Clearing.Aggregate.Covered.{liquidities}
use quetzaldex.Clearing.Aggregate.Settled.{compute_clearing_v2-settles}
use quetzaldex.Clearing.Compute.Extend.{Extends, compute_clearing_v2-Extends}
use quetzaldex.Clearing.Compute.Conserve.{Conserves, compute_clearing-Conserves}
use quetzaldex.Clearing.Trace.{
  find_bucket, last_id, first_lower, start_bucket, next_bucket, get_delta, set_delta, prev_delta,
  step_in_max, step_out, next_sqrt_p, far_edge, partial_step, full_step, swap_step, step_fee,
  add_step, after_step, skip_bucket, funded_bucket, trace_bucket, current, trace_loop, after_fee,
  start_state, agg_a, agg_b, finish_trace, trace_input, trace_bucket_swap,
}

abbrev pub is_ok {ℓ} : {A : Type ℓ} → Result A → Bool
is_ok (ok a) = true
is_ok (err e) = false

-- What a run returned.
abbrev pub ran {ℓ} : {A : Type ℓ} (m : Result A) → is_ok m ≡ true → (a : A) × (m ≡ ok a)
ran (ok a) h = (a, refl)
ran (err e) h = cc

abbrev pub bucket : ℕ → BucketState
bucket l = record {
  reserve_a = pos 1_000_000_000_000_000_000_000;
  reserve_b = pos 1_000_000_000_000_000_000_000;
  liquidity = l;
  cum_fee_a_per_share = 0;
  cum_fee_b_per_share = 0;
}

abbrev pub two_buckets : PoolWithBuckets
two_buckets = record {
  reserve_a = pos 2_000_000_000_000_000_000_000;
  reserve_b = pos 2_000_000_000_000_000_000_000;
  lp_supply = 2_000_000_000_000_000_000_000;
  current_sqrt_price = 1_050_000_000_000_000_000;
  bucket_bounds =
      record { sqrt_lower = 1_000_000_000_000_000_000; sqrt_upper = 1_100_000_000_000_000_000 }
      ∷ record { sqrt_lower = 1_100_000_000_000_000_000; sqrt_upper = 1_200_000_000_000_000_000 }
      ∷ [];
  bucket_states = bucket 1_000_000_000_000_000_000_000 ∷ bucket 1_000_000_000_000_000_000_000 ∷ [];
}

abbrev pub order : Bool → ℕ → ℕ → ℕ → ClearingOrder
order side amount_in limit_price order_nonce = record {
  side = side;
  amount_in = amount_in;
  limit_price = limit_price;
  submitted_at_block = 7;
  order_nonce = order_nonce;
  owner = 77;
}

-- One buy and one sell that the pool's price suits.
abbrev pub both_sides : List ClearingOrder
both_sides =
    order false 3_000_000_000_000_000_000 1_300_000_000_000_000_000 11
    ∷ order true 1_000_000_000_000_000_000 900_000_000_000_000_000 12
    ∷ []

pub both_sides-is_ok : is_ok (compute_clearing_v2 two_buckets both_sides) ≡ true
unfolding compute_clearing_v2 extend_v2 with_trace state_after state_before apply_delta untouched
    compute_clearing clear_at_price settle_eligible settle y_total x_total distribute fill skipped
    find_clearing_price select_batch one_sided_clearing_price refine priced_pass settle_pass
    price_of realized candidates limit_le accepts on_side two_sided_price bisect steer narrow
    endpoint probe judge has_sells has_buys price_bands widen price_at has_funded clearing_at
    bucket_net_swap catch_infeasible saturated_swap bucket_b_in bucket_a_in no_swap
    trace_bucket_swap trace_input finish_trace agg_a agg_b start_state after_fee trace_loop current
    trace_bucket funded_bucket skip_bucket after_step add_step step_fee swap_step full_step
    partial_step far_edge next_sqrt_p step_out step_in_max prev_delta set_delta get_delta
    next_bucket start_bucket first_lower last_id find_bucket next_sqrt_p_up next_sqrt_p_down
    swap_step_out_a swap_step_out_b mul_div div sort_by ◌+ℤ◌ ◌-ℤ◌
both_sides-is_ok = refl

abbrev pub epoch : (v : ClearingResultV2) × (compute_clearing_v2 two_buckets both_sides ≡ ok v)
epoch = ran (compute_clearing_v2 two_buckets both_sides) both_sides-is_ok

-- It clears, between the two limits, and fills both orders.
pub epoch_clears : epoch.0.base.cleared ≡ true
unfolding compute_clearing_v2 extend_v2 with_trace state_after state_before apply_delta untouched
    compute_clearing clear_at_price settle_eligible settle y_total x_total distribute fill skipped
    find_clearing_price select_batch one_sided_clearing_price refine priced_pass settle_pass
    price_of realized candidates limit_le accepts on_side two_sided_price bisect steer narrow
    endpoint probe judge has_sells has_buys price_bands widen price_at has_funded clearing_at
    bucket_net_swap catch_infeasible saturated_swap bucket_b_in bucket_a_in no_swap
    trace_bucket_swap trace_input finish_trace agg_a agg_b start_state after_fee trace_loop current
    trace_bucket funded_bucket skip_bucket after_step add_step step_fee swap_step full_step
    partial_step far_edge next_sqrt_p step_out step_in_max prev_delta set_delta get_delta
    next_bucket start_bucket first_lower last_id find_bucket next_sqrt_p_up next_sqrt_p_down
    swap_step_out_a swap_step_out_b mul_div div sort_by ◌+ℤ◌ ◌-ℤ◌
epoch_clears = refl

epoch_fills : map (λ f. f.order_nonce) epoch.0.base.fills ≡ 11 ∷ 12 ∷ []
unfolding compute_clearing_v2 extend_v2 with_trace state_after state_before apply_delta untouched
    compute_clearing clear_at_price settle_eligible settle y_total x_total distribute fill skipped
    find_clearing_price select_batch one_sided_clearing_price refine priced_pass settle_pass
    price_of realized candidates limit_le accepts on_side two_sided_price bisect steer narrow
    endpoint probe judge has_sells has_buys price_bands widen price_at has_funded clearing_at
    bucket_net_swap catch_infeasible saturated_swap bucket_b_in bucket_a_in no_swap
    trace_bucket_swap trace_input finish_trace agg_a agg_b start_state after_fee trace_loop current
    trace_bucket funded_bucket skip_bucket after_step add_step step_fee swap_step full_step
    partial_step far_edge next_sqrt_p step_out step_in_max prev_delta set_delta get_delta
    next_bucket start_bucket first_lower last_id find_bucket next_sqrt_p_up next_sqrt_p_down
    swap_step_out_a swap_step_out_b mul_div div sort_by ◌+ℤ◌ ◌-ℤ◌
epoch_fills = refl

compute_clearing_v2-settles_example :
    (f : AggregateFlows) × (derive_aggregate_flows epoch.0.bucket_deltas
        (liquidities epoch.0.bucket_states_before)
      ≡ ok f)
    × Solvent (select_batch both_sides) epoch.0 f
compute_clearing_v2-settles_example =
    compute_clearing_v2-settles two_buckets both_sides epoch.1 epoch_clears

compute_clearing_v2-Extends_example :
    (base : ClearingResult) × (compute_clearing two_buckets both_sides ≡ ok base)
    × Extends two_buckets base epoch.0
compute_clearing_v2-Extends_example = compute_clearing_v2-Extends two_buckets both_sides epoch.1

base_is_ok : is_ok (compute_clearing two_buckets both_sides) ≡ true
unfolding compute_clearing clear_at_price settle_eligible settle y_total x_total distribute fill
    skipped find_clearing_price select_batch one_sided_clearing_price refine priced_pass settle_pass
    price_of realized candidates limit_le accepts on_side two_sided_price bisect steer narrow
    endpoint probe judge has_sells has_buys price_bands widen price_at has_funded clearing_at
    bucket_net_swap catch_infeasible saturated_swap bucket_b_in bucket_a_in no_swap
    trace_bucket_swap trace_input finish_trace agg_a agg_b start_state after_fee trace_loop current
    trace_bucket funded_bucket skip_bucket after_step add_step step_fee swap_step full_step
    partial_step far_edge next_sqrt_p step_out step_in_max prev_delta set_delta get_delta
    next_bucket start_bucket first_lower last_id find_bucket next_sqrt_p_up next_sqrt_p_down
    swap_step_out_a swap_step_out_b mul_div div sort_by ◌+ℤ◌ ◌-ℤ◌
base_is_ok = refl

abbrev base : (r : ClearingResult) × (compute_clearing two_buckets both_sides ≡ ok r)
base = ran (compute_clearing two_buckets both_sides) base_is_ok

compute_clearing-Conserves_example :
    (base.0 ≡ skipped two_buckets)
    ⊎ (base.0.cleared ≡ true) × Conserves two_buckets (select_batch both_sides) base.0
compute_clearing-Conserves_example = compute_clearing-Conserves two_buckets both_sides base.1
