-- ===== src/Clearing/SwapTests.antt =====
-- Swaps and prices on the two buckets of the tests.
use quetzaldex.Prelude.{
  ℕ, ◌≡◌, ◌≢◌, ◌≤◌, ◌<◌, refl, Bool, true, false, List, [], ◌∷◌, Option, none, some, map, arith,
}
use quetzaldex.Prelude.Int.{negsuc}
use quetzaldex.Prelude.Result.{Result, ok, err, Error}
use quetzaldex.FixedPoint.{mul_div, div}
use quetzaldex.Prelude.Int.{◌+ℤ◌, ◌-ℤ◌}
use quetzaldex.Prelude.Sort.{sort_by}
use quetzaldex.Buckets.{next_sqrt_p_up, next_sqrt_p_down, swap_step_out_a, swap_step_out_b}
use quetzaldex.Clearing.Types.{ClearingOrder, BucketTrace, NetSwap, PriceEval}
use quetzaldex.Clearing.NetSwap.{
  bucket_a_in, bucket_b_in, saturated_swap, catch_infeasible, bucket_net_swap, no_swap,
}
use quetzaldex.Clearing.Price.{
  clearing_at, has_funded, price_at, widen, price_bands, has_buys, has_sells, judge, probe,
  endpoint, narrow, steer, bisect, two_sided_price,
}
use quetzaldex.Clearing.OneSided.{
  on_side, accepts, limit_le, candidates, hop_after_fee, realized, price_of, settle_pass,
  priced_pass, refine, one_sided_clearing_price,
}
use quetzaldex.Clearing.Trace.Routed.{Routed, trace_bucket_swap-Routed}
use quetzaldex.Clearing.Trace.Price.{trace_bucket_swap-Toward}
use quetzaldex.Clearing.Trace.Fuel.{trace_bucket_swap-ne-out_of_fuel}
use quetzaldex.Clearing.NetSwap.Outcome.{Outcome, bucket_net_swap-Outcome}
use quetzaldex.Clearing.Price.Eligible.{Escrowed, clearing_at-Escrowed}
use quetzaldex.Clearing.Price.Search.{Found, two_sided_price-Found}
use quetzaldex.Clearing.OneSided.FixedPoint.{volume_at, one_sided_clearing_price-fixed}
use quetzaldex.Clearing.Trace.{
  find_bucket, last_id, first_lower, start_bucket, next_bucket, get_delta, set_delta, prev_delta,
  step_in_max, step_out, next_sqrt_p, far_edge, partial_step, full_step, swap_step, step_fee,
  add_step, after_step, skip_bucket, funded_bucket, trace_bucket, current, trace_loop, after_fee,
  start_state, agg_a, agg_b, finish_trace, trace_input, trace_bucket_swap,
}
use quetzaldex.Clearing.Tests.{is_ok, ran, two_buckets, both_sides, order}

-- An input of token B that crosses from the first bucket into the second.
crossing_is_ok : is_ok (trace_bucket_swap two_buckets 0 70_000_000_000_000_000_000) ≡ true
unfolding trace_bucket_swap trace_input finish_trace agg_a agg_b start_state after_fee trace_loop
    current trace_bucket funded_bucket skip_bucket after_step add_step step_fee swap_step full_step
    partial_step far_edge next_sqrt_p step_out step_in_max prev_delta set_delta get_delta
    next_bucket start_bucket first_lower last_id find_bucket next_sqrt_p_up next_sqrt_p_down
    swap_step_out_a swap_step_out_b mul_div div sort_by ◌+ℤ◌ ◌-ℤ◌
crossing_is_ok = refl

abbrev crossing :
    (r : BucketTrace) × (trace_bucket_swap two_buckets 0 70_000_000_000_000_000_000 ≡ ok r)
crossing = ran (trace_bucket_swap two_buckets 0 70_000_000_000_000_000_000) crossing_is_ok

crossing_touches_both : map (λ d. d.bucket_id) crossing.0.bucket_deltas ≡ 0 ∷ 1 ∷ []
unfolding trace_bucket_swap trace_input finish_trace agg_a agg_b start_state after_fee trace_loop
    current trace_bucket funded_bucket skip_bucket after_step add_step step_fee swap_step full_step
    partial_step far_edge next_sqrt_p step_out step_in_max prev_delta set_delta get_delta
    next_bucket start_bucket first_lower last_id find_bucket next_sqrt_p_up next_sqrt_p_down
    swap_step_out_a swap_step_out_b mul_div div sort_by ◌+ℤ◌ ◌-ℤ◌
crossing_touches_both = refl

trace_bucket_swap-Routed_example : Routed two_buckets true 70_000_000_000_000_000_000 crossing.0
trace_bucket_swap-Routed_example =
    trace_bucket_swap-Routed two_buckets 0 70_000_000_000_000_000_000 crossing.1

trace_bucket_swap-Toward_example : two_buckets.current_sqrt_price ≤ crossing.0.new_sqrt_price
trace_bucket_swap-Toward_example =
    trace_bucket_swap-Toward two_buckets 0 70_000_000_000_000_000_000 crossing.1

trace_bucket_swap-ne-out_of_fuel_example :
    trace_bucket_swap two_buckets 0 70_000_000_000_000_000_000 ≢ err Error.out_of_fuel
trace_bucket_swap-ne-out_of_fuel_example =
    trace_bucket_swap-ne-out_of_fuel two_buckets 0 70_000_000_000_000_000_000

-- A swap at the net flow that a price leaves.
swap_is_ok : is_ok (bucket_net_swap two_buckets (negsuc 999_999) 1_100_000_000_000_000_000) ≡ true
unfolding bucket_net_swap catch_infeasible saturated_swap bucket_b_in bucket_a_in no_swap
    trace_bucket_swap trace_input finish_trace agg_a agg_b start_state after_fee trace_loop current
    trace_bucket funded_bucket skip_bucket after_step add_step step_fee swap_step full_step
    partial_step far_edge next_sqrt_p step_out step_in_max prev_delta set_delta get_delta
    next_bucket start_bucket first_lower last_id find_bucket next_sqrt_p_up next_sqrt_p_down
    swap_step_out_a swap_step_out_b mul_div div sort_by ◌+ℤ◌ ◌-ℤ◌
swap_is_ok = refl

abbrev swap :
    (s : NetSwap) × (bucket_net_swap two_buckets (negsuc 999_999) 1_100_000_000_000_000_000 ≡ ok s)
swap = ran (bucket_net_swap two_buckets (negsuc 999_999) 1_100_000_000_000_000_000) swap_is_ok

bucket_net_swap-Outcome_example :
    Outcome two_buckets
      (negsuc 999_999)
      1_100_000_000_000_000_000
      (bucket_net_swap two_buckets (negsuc 999_999) 1_100_000_000_000_000_000)
bucket_net_swap-Outcome_example =
    bucket_net_swap-Outcome two_buckets (negsuc 999_999) 1_100_000_000_000_000_000

eval_is_ok : is_ok (clearing_at two_buckets both_sides 1_100_000_000_000_000_000) ≡ true
unfolding clearing_at bucket_net_swap catch_infeasible saturated_swap bucket_b_in bucket_a_in
    no_swap trace_bucket_swap trace_input finish_trace agg_a agg_b start_state after_fee trace_loop
    current trace_bucket funded_bucket skip_bucket after_step add_step step_fee swap_step full_step
    partial_step far_edge next_sqrt_p step_out step_in_max prev_delta set_delta get_delta
    next_bucket start_bucket first_lower last_id find_bucket next_sqrt_p_up next_sqrt_p_down
    swap_step_out_a swap_step_out_b mul_div div sort_by ◌+ℤ◌ ◌-ℤ◌
eval_is_ok = refl

abbrev eval :
    (ev : PriceEval) × (clearing_at two_buckets both_sides 1_100_000_000_000_000_000 ≡ ok ev)
eval = ran (clearing_at two_buckets both_sides 1_100_000_000_000_000_000) eval_is_ok

clearing_at-Escrowed_example : Escrowed eval.0
clearing_at-Escrowed_example =
    clearing_at-Escrowed two_buckets both_sides 1_100_000_000_000_000_000 eval.1

-- The prices that were found.
abbrev is_priced : Result (Option ℕ) → Bool
is_priced (ok (some p)) = true
is_priced (ok none) = false
is_priced (err e) = false

abbrev priced : (m : Result (Option ℕ)) → is_priced m ≡ true → (p : ℕ) × (m ≡ ok (some p))
priced (ok (some p)) h = (p, refl)
priced (ok none) h = cc
priced (err e) h = cc

two_sided_is_priced :
    is_priced
      (two_sided_price two_buckets both_sides 10_000_000_000_000_000 144_000_000_000_000_000_000)
    ≡ true
unfolding two_sided_price bisect steer narrow endpoint probe judge has_sells has_buys price_bands
    widen price_at has_funded clearing_at bucket_net_swap catch_infeasible saturated_swap
    bucket_b_in bucket_a_in no_swap trace_bucket_swap trace_input finish_trace agg_a agg_b
    start_state after_fee trace_loop current trace_bucket funded_bucket skip_bucket after_step
    add_step step_fee swap_step full_step partial_step far_edge next_sqrt_p step_out step_in_max
    prev_delta set_delta get_delta next_bucket start_bucket first_lower last_id find_bucket
    next_sqrt_p_up next_sqrt_p_down swap_step_out_a swap_step_out_b mul_div div sort_by ◌+ℤ◌ ◌-ℤ◌
two_sided_is_priced = refl

abbrev two_sided :
    (p : ℕ) × (two_sided_price two_buckets both_sides 10_000_000_000_000_000
        144_000_000_000_000_000_000
      ≡ ok (some p))
two_sided =
    priced
      (two_sided_price two_buckets both_sides 10_000_000_000_000_000 144_000_000_000_000_000_000)
      two_sided_is_priced

two_sided_price-Found_example :
    Found two_buckets both_sides 10_000_000_000_000_000 144_000_000_000_000_000_000 two_sided.0
two_sided_price-Found_example =
    two_sided_price-Found two_buckets both_sides 10_000_000_000_000_000 144_000_000_000_000_000_000
      (omega arith) two_sided.1

abbrev sells_only : List ClearingOrder
sells_only =
    order true 1_000_000_000_000_000_000 900_000_000_000_000_000 12
    ∷ order true 2_000_000_000_000_000_000 3_000_000_000_000_000_000 13
    ∷ []

one_sided_is_priced : is_priced (one_sided_clearing_price two_buckets sells_only true) ≡ true
unfolding one_sided_clearing_price refine priced_pass settle_pass price_of realized candidates
    limit_le accepts on_side bucket_net_swap catch_infeasible saturated_swap bucket_b_in bucket_a_in
    no_swap trace_bucket_swap trace_input finish_trace agg_a agg_b start_state after_fee trace_loop
    current trace_bucket funded_bucket skip_bucket after_step add_step step_fee swap_step full_step
    partial_step far_edge next_sqrt_p step_out step_in_max prev_delta set_delta get_delta
    next_bucket start_bucket first_lower last_id find_bucket next_sqrt_p_up next_sqrt_p_down
    swap_step_out_a swap_step_out_b mul_div div sort_by ◌+ℤ◌ ◌-ℤ◌
one_sided_is_priced = refl

abbrev one_sided : (p : ℕ) × (one_sided_clearing_price two_buckets sells_only true ≡ ok (some p))
one_sided = priced (one_sided_clearing_price two_buckets sells_only true) one_sided_is_priced

one_sided_clearing_price-fixed_example :
    (realized two_buckets true (volume_at true sells_only one_sided.0) ≡ ok (some one_sided.0))
    × (0 < hop_after_fee (volume_at true sells_only one_sided.0))
one_sided_clearing_price-fixed_example =
    one_sided_clearing_price-fixed two_buckets sells_only true one_sided.1
