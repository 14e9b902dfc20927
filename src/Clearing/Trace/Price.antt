-- ===== src/Clearing/Trace/Price.antt =====
-- Which way `traceBucketSwap` moves the price.
use quetzaldex.Prelude.{
  ℕ, suc, ◌-◌, ◌≤◌, ◌≡◌, Bool, true, false, arith, ltb, ◌==◌, ◌&&◌, length, Bool-cases, inl, inr,
  sym, subst, ap,
}
use quetzaldex.Prelude.Result.{ok, >>=-eq-ok}
use quetzaldex.Buckets.{BucketBounds}
use quetzaldex.Clearing.Types.{PoolWithBuckets, BucketTrace}
use quetzaldex.Clearing.Trace.{
  TraceState, trace_loop, start_state, after_fee, trace_input, trace_bucket_swap, skip_bucket,
  after_step,
}
use quetzaldex.Clearing.Trace.Step.{Within, Moved, step-Moved}
use quetzaldex.Clearing.Trace.Loop.{Round, skipped, swapped, trace_loop_inv}
use quetzaldex.Clearing.Trace.Routed.{finish_trace-ok}

abbrev pub Toward : Bool → ℕ → ℕ → Type 0
Toward true p q = p ≤ q
Toward false p q = q ≤ p

skip-Toward :
    (up : Bool) (p id : ℕ) (b : BucketBounds) (t : TraceState)
    → Within b t.sqrt_p
    → Toward up p t.sqrt_p
    → Toward up p (skip_bucket up id b t).sqrt_p
unfolding skip_bucket
skip-Toward true p id b t w h = omega arith
skip-Toward false p id b t w h = omega arith

Moved-Toward :
    (up : Bool) (b : BucketBounds) (p q r : ℕ) → Moved up b q r → Toward up p q → Toward up p r
Moved-Toward true b p q r m h = omega arith
Moved-Toward false b p q r m h = omega arith

Round-Toward :
    (up : Bool) (p total fee id : ℕ) {bucket : _} (b : BucketBounds) (t t' : TraceState)
    → Toward up p t.sqrt_p
    → Within b t.sqrt_p
    → Round up total fee id bucket b t t'
    → Toward up p t'.sqrt_p
unfolding after_step
Round-Toward up p total fee id b t t' h w (skipped s e z g) = rw g (skip-Toward up p id b t w h)
Round-Toward up p total fee id b t t' h w (swapped s v f e pos m k g) = rw g (
    Moved-Toward up b p t.sqrt_p v.sqrt_p_new
      (step-Moved up s.liquidity b t.sqrt_p t.in_after_fee w m) h)

Toward-refl : (up : Bool) (p : ℕ) → Toward up p p
Toward-refl true p = omega arith
Toward-refl false p = omega arith

trace_input-Toward :
    (pool : PoolWithBuckets) (up : Bool) (gross : ℕ) {r : BucketTrace}
    → trace_input pool up gross ≡ ok r
    → Toward up pool.current_sqrt_price r.new_sqrt_price
unfolding trace_input start_state
trace_input-Toward pool up gross {r} h =
    let p = pool.current_sqrt_price in
    let total = after_fee gross in
    let fee = gross - total in
    let fuel = suc (length pool.bucket_bounds) in
    let (t, e, k) = >>=-eq-ok (trace_loop pool up total fee fuel (start_state pool total)) _ h in
    let (toward, _) =
      trace_loop_inv (λ s. Toward up p s.sqrt_p) pool up total fee
        (λ s s' id b q more cur at w round. Round-Toward up p total fee id b s s' q w round) fuel
        (start_state pool total) (Toward-refl up p) e in
    let (done, few, shape) = finish_trace-ok pool t k in
    subst (Toward up p) (sym (ap (λ (x : BucketTrace). x.new_sqrt_price) shape)) toward

-- A trace that returns moves the price with its direction: an input of token B never lowers the
-- square-root price, and one of token A alone never raises it.
pub trace_bucket_swap-Toward :
    (pool : PoolWithBuckets) (net_a net_b : ℕ) {r : BucketTrace}
    → trace_bucket_swap pool net_a net_b ≡ ok r
    → Toward (ltb 0 net_b) pool.current_sqrt_price r.new_sqrt_price
unfolding trace_bucket_swap
trace_bucket_swap-Toward pool net_a net_b {r} h = elim (Bool-cases (net_a == 0 && net_b == 0)) [
  | inl z ↦
      let b : net_b ≡ 0 = ground arith in
      let same : pool.current_sqrt_price ≡ r.new_sqrt_price = ground arith in rw b (omega arith)
  | inr n ↦ trace_input-Toward pool (ltb 0 net_b) _ (rw n at h)
]
