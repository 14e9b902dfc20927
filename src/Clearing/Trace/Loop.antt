-- ===== src/Clearing/Trace/Loop.antt =====
-- What a round of the loop did, and the rule by which an invariant of the rounds holds at the end.
use quetzaldex.Prelude.{
  ℕ, suc, zero, ◌*◌, ◌/◌, ◌<◌, ◌≡◌, inl, inr, Bool, List, Option, none, some, subst, arith, ltb,
  ◌==◌, get_elem?, Bool-cases, Option-cases, ◌||◌,
}
use quetzaldex.Prelude.Result.{ok, >>=-eq-ok, throw_if, or_fault, Error}
use quetzaldex.FixedPoint.{scale, div}
use quetzaldex.FixedPoint.Laws.{div-ok}
use quetzaldex.Buckets.{BucketBounds, BucketState}
use quetzaldex.Clearing.Types.{PoolWithBuckets}
use quetzaldex.Clearing.Trace.{
  TraceState, SwapStep, swap_step, step_fee, after_step, skip_bucket, funded_bucket, trace_bucket,
  trace_loop, current,
}
use quetzaldex.Clearing.Trace.Step.{Within}

-- A round that did not throw was in its bucket, and skipped it or swapped in it.
pub data Round (up : Bool) (total fee id : ℕ) (bucket : Option BucketState) (b : BucketBounds)
    (t t' : TraceState) : Type 0 where
  skipped :
      (s : BucketState)
      → bucket ≡ some s
      → s.liquidity ≡ 0
      → t' ≡ skip_bucket up id b t
      → Round up total fee id bucket b t t'
  swapped :
      (s : BucketState) (w : SwapStep) (f : ℕ)
      → bucket ≡ some s
      → 0 < s.liquidity
      → swap_step up s.liquidity b t.sqrt_p t.in_after_fee ≡ ok w
      → step_fee fee total t.fee_distributed w ≡ ok f
      → t' ≡ after_step up id t w f (f * scale / s.liquidity)
      → Round up total fee id bucket b t t'

Within-of_tests :
    (b : BucketBounds) (p : ℕ)
    → throw_if (ltb p b.sqrt_lower || ltb b.sqrt_upper p) Error.outside_grid ≡ ok tt
    → Within b p
Within-of_tests b p h = ground arith

module _ (up : Bool) (total fee id : ℕ) (b : BucketBounds) (t : TraceState) where
  funded-Round :
      (bucket : Option BucketState) (s : BucketState) {t' : TraceState}
      → bucket ≡ some s
      → 0 < s.liquidity
      → funded_bucket up total fee id s.liquidity b t ≡ ok t'
      → Round up total fee id bucket b t t'
  unfolding funded_bucket
  funded-Round bucket s e pos h =
      let (w, e1, h1) = >>=-eq-ok (swap_step up s.liquidity b t.sqrt_p t.in_after_fee) _ h in
      let (f, e2, h2) = >>=-eq-ok (step_fee fee total t.fee_distributed w) _ h1 in
      let (i, e3, h3) = >>=-eq-ok (div (f * scale) s.liquidity) _ h2 in
      swapped s w f e pos e1 e2 (ground (arith, div-ok (f * scale) s.liquidity e3))

  pub trace_bucket-Round :
      (bucket : Option BucketState) {t' : TraceState}
      → trace_bucket up total fee id bucket b t ≡ ok t'
      → Within b t.sqrt_p × Round up total fee id bucket b t t'
  unfolding trace_bucket
  trace_bucket-Round bucket h =
      let (_, e1, h1) =
        >>=-eq-ok
          (throw_if (ltb t.sqrt_p b.sqrt_lower || ltb b.sqrt_upper t.sqrt_p) Error.outside_grid) _
          h in
      let (s, e2, h2) = >>=-eq-ok (or_fault bucket) _ h1 in
      let found : bucket ≡ some s = ground arith in
      elim (Bool-cases (s.liquidity == 0)) [
        | inl z ↦ (Within-of_tests b t.sqrt_p e1, skipped s found (ground arith) (ground arith))
        | inr n ↦
            (Within-of_tests b t.sqrt_p e1, funded-Round bucket s found (ground arith) (rw n at h2))
      ]

-- The bucket that a round enters.
pub current-some :
    (bounds : List BucketBounds) (t : TraceState) {id : ℕ} {b : BucketBounds}
    → current bounds t ≡ some (id, b)
    → (0 < t.in_after_fee) × (t.cursor ≡ some id) × (get_elem? bounds id ≡ some b)
unfolding current
current-some bounds t h = ground arith

-- The rule: what every round keeps holds at the end, where the loop's condition fails.
pub trace_loop_inv {ℓ} :
    (P : TraceState → Type ℓ) (pool : PoolWithBuckets) (up : Bool) (total fee : ℕ)
    → ((t t' : TraceState) (id : ℕ) (b : BucketBounds)
        → P t
        → 0 < t.in_after_fee
        → t.cursor ≡ some id
        → get_elem? pool.bucket_bounds id ≡ some b
        → Within b t.sqrt_p
        → Round up total fee id (get_elem? pool.bucket_states id) b t t'
        → P t')
    → (fuel : ℕ) (t : TraceState) {r : TraceState} → P t
    → trace_loop pool up total fee fuel t ≡ ok r
    → P r × (current pool.bucket_bounds r ≡ none)
unfolding trace_loop
trace_loop_inv P pool up total fee keep zero t p h = cc
trace_loop_inv P pool up total fee keep (suc fuel) t {r} p h =
    elim (Option-cases (current pool.bucket_bounds t)) [
      | inl stop ↦
          let e : ok t ≡ ok r = rw (stop, trace_loop) at h in
          let q : t ≡ r = cc in
          (subst P q p, subst (λ s. current pool.bucket_bounds s ≡ none) q stop)
      | inr ((id, b), go) ↦
          let bound = rw (go, trace_loop) at h in
          let bucket = get_elem? pool.bucket_states id in
          let (t', e, rest) = >>=-eq-ok (trace_bucket up total fee id bucket b t) _ bound in
          let (more, at_id, at_b) = current-some pool.bucket_bounds t go in
          let (within, round) = trace_bucket-Round up total fee id b t bucket e in
          trace_loop_inv P pool up total fee keep fuel t'
            (keep t t' id b p more at_id at_b within round) rest
    ]
