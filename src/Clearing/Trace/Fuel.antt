-- ===== src/Clearing/Trace/Fuel.antt =====
-- The loop of `traceBucketSwap` ends: it enters each bucket once, so one round for each bucket and
-- one for the last test are enough.
use quetzaldex.Prelude.{
  ℕ, suc, zero, ◌∙◌, ◌-◌, ◌<◌, ◌≡◌, ◌≢◌, Bool, true, false, arith, ltb, ◌==◌, ◌&&◌, length,
  Bool-cases, Option-cases, inl, inr, if◌then◌else◌, List, [], ◌∷◌, Option, none, some, get_elem?,
  get_elem?-lt,
}
use quetzaldex.Prelude.Result.{Result, ◌>>=◌, ok, err, Result-cases, Error}
use quetzaldex.Buckets.{
  BucketBounds, BucketState, swap_step_out_a, swap_step_out_b, next_sqrt_p_up, next_sqrt_p_down,
}
use quetzaldex.FixedPoint.{div}
use quetzaldex.Clearing.Types.{PoolWithBuckets}
use quetzaldex.Clearing.Trace.{
  TraceState, trace_loop, start_state, after_fee, finish_trace, trace_input, trace_bucket_swap,
  skip_bucket, after_step, current, next_bucket, start_bucket, find_bucket, trace_bucket, swap_step,
  partial_step, full_step, step_in_max, step_out, next_sqrt_p, step_fee,
}
use quetzaldex.Clearing.Trace.Loop.{Round, skipped, swapped, trace_bucket-Round, current-some}

abbrev Fueled {ℓ} : {A : Type ℓ} → Result A → Type ℓ
Fueled r = r ≢ err Error.out_of_fuel

-- No step of the body runs out of fuel.
step-Fueled :
    (up : Bool) (l : ℕ) (b : BucketBounds) (p input : ℕ) → Fueled (swap_step up l b p input)
unfolding swap_step partial_step full_step step_in_max step_out next_sqrt_p div swap_step_out_a
    swap_step_out_b next_sqrt_p_up next_sqrt_p_down
step-Fueled true l b p input = ground arith
step-Fueled false l b p input = ground arith

bucket-Fueled :
    (up : Bool) (total fee id : ℕ) (bucket : Option BucketState) (b : BucketBounds) (t : TraceState)
    → Fueled (trace_bucket up total fee id bucket b t)
unfolding trace_bucket step_fee div
bucket-Fueled up total fee id none b t = ground arith
bucket-Fueled up total fee id (some s) b t =
    ground (arith, step-Fueled up s.liquidity b t.sqrt_p t.in_after_fee)

-- Buckets that the walk may still enter.
buckets_left : Bool → List BucketBounds → Option ℕ → ℕ
buckets_left up bounds none = 0
buckets_left up bounds (some id) = if up then length bounds - id else suc id

rounds_left : Bool → List BucketBounds → TraceState → ℕ
rounds_left up bounds t = if t.in_after_fee == 0 then 0 else buckets_left up bounds t.cursor

next-fewer :
    (up : Bool) (bounds : List BucketBounds) (id : ℕ)
    → id < length bounds
    → buckets_left up bounds (next_bucket up id) < buckets_left up bounds (some id)
unfolding buckets_left next_bucket
next-fewer true bounds id h = omega arith
next-fewer false bounds zero h = omega arith
next-fewer false bounds (suc id) h = omega arith

Round-fewer :
    (up : Bool) (bounds : List BucketBounds) (total fee id : ℕ) (bucket : Option BucketState)
    (b : BucketBounds) (t t' : TraceState)
    → t.cursor ≡ some id
    → 0 < t.in_after_fee
    → id < length bounds
    → Round up total fee id bucket b t t'
    → rounds_left up bounds t' < rounds_left up bounds t
unfolding rounds_left skip_bucket after_step
Round-fewer up bounds total fee id bucket b t t' cur more lt (skipped s e z g) =
    rw (g, cur) (ground (arith, next-fewer up bounds id lt))
Round-fewer up bounds total fee id bucket b t t' cur more lt (swapped s v f e pos m k g) =
    rw (g, cur) (ground (arith, next-fewer up bounds id lt))

trace_loop-Fueled :
    (pool : PoolWithBuckets) (up : Bool) (total fee fuel : ℕ) (t : TraceState)
    → rounds_left up pool.bucket_bounds t < fuel
    → Fueled (trace_loop pool up total fee fuel t)
unfolding trace_loop
trace_loop-Fueled pool up total fee zero t h e = absurd (omega arith)
trace_loop-Fueled pool up total fee (suc fuel) t h e =
    elim (Option-cases (current pool.bucket_bounds t)) [
      | inl stop ↦ let q : ok t ≡ err Error.out_of_fuel = rw (stop, trace_loop) at e in cc
      | inr ((id, b), go) ↦
          let bucket = get_elem? pool.bucket_states id in
          let (more, at_id, at_b) = current-some pool.bucket_bounds t go in
          let inside = get_elem?-lt pool.bucket_bounds id at_b in
          let bound = rw (go, trace_loop) at e in
          elim (Result-cases (trace_bucket up total fee id bucket b t)) [
            | inl (t', k) ↦
                let fewer =
                  Round-fewer up pool.bucket_bounds total fee id bucket b t t' at_id more inside
                    (trace_bucket-Round up total fee id b t bucket k).1 in
                trace_loop-Fueled pool up total fee fuel t' (omega arith) (rw k at bound)
            | inr (x, k) ↦
                let y : ◌≡◌ {A = Result TraceState} (err x) (err Error.out_of_fuel) =
                  rw k at bound in
                bucket-Fueled up total fee id bucket b t (k ∙ cc)
          ]
    ]

find_bucket-lt :
    (p : ℕ) (bounds : List BucketBounds) {i : ℕ} → find_bucket p bounds ≡ some i → i < length bounds
unfolding find_bucket
find_bucket-lt p [] h = cc
find_bucket-lt p (b ∷ bs) h = elim (Option-cases (find_bucket p bs)) [
  | inl e ↦ ground arith
  | inr (i, e) ↦ ground (arith, find_bucket-lt p bs e)
]

start_bucket-lt :
    (p : ℕ) (bounds : List BucketBounds) {i : ℕ}
    → start_bucket p bounds ≡ some i
    → i < length bounds
unfolding start_bucket
start_bucket-lt p [] h = ground arith
start_bucket-lt p (b ∷ bs) {i} h = elim (Option-cases (find_bucket p (b ∷ bs))) [
  | inl e ↦ ground arith
  | inr (j, e) ↦ ground (arith, find_bucket-lt p (b ∷ bs) e)
]

start-fewer :
    (up : Bool) (pool : PoolWithBuckets) (total : ℕ)
    → rounds_left up pool.bucket_bounds (start_state pool total) < suc (length pool.bucket_bounds)
unfolding rounds_left start_state buckets_left
start-fewer up pool total =
    elim (Option-cases (start_bucket pool.current_sqrt_price pool.bucket_bounds)) [
      | inl e ↦ ground arith
      | inr (i, e) ↦ ground (arith, start_bucket-lt pool.current_sqrt_price pool.bucket_bounds e)
    ]

finish-Fueled : (pool : PoolWithBuckets) (t : TraceState) → Fueled (finish_trace pool t)
unfolding finish_trace
finish-Fueled pool t = ground arith

bind-Fueled {ℓ κ} :
    {A : Type ℓ} {B : Type κ} (m : Result A) (f : A → Result B)
    → Fueled m
    → ((a : A) → Fueled (f a))
    → Fueled (m >>= f)
bind-Fueled (ok a) f h k e = k a e
bind-Fueled (err x) f h k e = h cc

trace_input-Fueled :
    (pool : PoolWithBuckets) (up : Bool) (gross : ℕ) → Fueled (trace_input pool up gross)
unfolding trace_input
trace_input-Fueled pool up gross =
    let total = after_fee gross in
    bind-Fueled _ _
      (trace_loop-Fueled pool up total (gross - total) _ (start_state pool total)
        (start-fewer up pool total))
      (λ t. finish-Fueled pool t)

-- A trace never runs out of the model's fuel, whatever the pool and the input: one round for each
-- bucket is enough.
pub trace_bucket_swap-ne-out_of_fuel :
    (pool : PoolWithBuckets) (net_a net_b : ℕ)
    → trace_bucket_swap pool net_a net_b ≢ err Error.out_of_fuel
unfolding trace_bucket_swap
trace_bucket_swap-ne-out_of_fuel pool net_a net_b e = elim (Bool-cases (net_a == 0 && net_b == 0)) [
  | inl z ↦ ground arith
  | inr n ↦ trace_input-Fueled pool (ltb 0 net_b) _ (rw n at e)
]
