-- ===== src/Clearing/Trace/Walk.antt =====
-- The books hold after every round of the loop, and when it ends.
use quetzaldex.Prelude.{
  ℕ, ◌+◌, ◌*◌, ◌/◌, ◌≤◌, ◌<◌, ◌≡◌, refl, inl, inr, Bool, List, [], ◌∷◌, ◌++◌, some, arith, All,
  All-append, sum_by, sum_by-append, get_elem?,
}
use quetzaldex.Prelude.Nats.{floor_back, le_of_scaled}
use quetzaldex.FixedPoint.{scale}
use quetzaldex.Buckets.{BucketBounds, BucketState}
use quetzaldex.Clearing.Trace.{TraceState, SwapStep, add_step, after_step, skip_bucket, next_bucket}
use quetzaldex.Clearing.Trace.Step.{step_in-add-left}
use quetzaldex.Clearing.Trace.Loop.{Round, skipped, swapped}
use quetzaldex.Clearing.Trace.Deltas.{Behind, next-Behind, next-Behind_all}
use quetzaldex.Clearing.Trace.Account.{
  Account, added, recovered, OneSided, liquidity_at, entry, entry-added, entry-recovered,
  entry-OneSided, after_step-deltas, FeeStep, step_fee_cases,
}
use native.Mathlib.Nat.{mul-le-mul_left, le_trans}

module _ (states : List BucketState) (up : Bool) (total fee : ℕ) where
  share-le : (done sum : ℕ) → 0 < total → done * total ≤ fee * sum → sum ≤ total → done ≤ fee
  share-le done sum pos h k = le_of_scaled done fee total pos (le_trans h (mul-le-mul_left fee k))

  -- The shares after a step.
  step-shared :
      (done sum f : ℕ) (s : SwapStep)
      → 0 < total
      → done * total ≤ fee * sum
      → sum + s.step_in + s.left ≡ total
      → FeeStep fee total done s f
      → (done + f) * total ≤ fee * (sum + s.step_in)
  step-shared done sum f s pos h e (inl (l, g)) =
      let below = share-le done sum pos h (omega arith) in
      let whole : done + f ≡ fee = omega arith in
      let all : sum + s.step_in ≡ total = omega arith in rw (whole, all) (omega arith)
  step-shared done sum f s pos h e (inr (l, g)) = omega arith

  entry-backed :
      (id : ℕ) (s : SwapStep) (f l : ℕ)
      → liquidity_at states id ≡ l
      → recovered up states (entry up id s (f * scale / l)) ≤ f
  entry-backed id s f l e =
      rw (entry-recovered states up id s (f * scale / l), e) (floor_back f scale l)

  -- The other fields after a step.
  after_step-left :
      (id : ℕ) (t : TraceState) (s : SwapStep) (f inc : ℕ)
      → (after_step up id t s f inc).in_after_fee ≡ s.left
  unfolding after_step
  after_step-left id t s f inc = refl

  after_step-fee :
      (id : ℕ) (t : TraceState) (s : SwapStep) (f inc : ℕ)
      → (after_step up id t s f inc).fee_distributed ≡ t.fee_distributed + f
  unfolding after_step
  after_step-fee id t s f inc = refl

  after_step-cursor :
      (id c : ℕ) (t : TraceState) (s : SwapStep) (f inc : ℕ)
      → (after_step up id t s f inc).cursor ≡ some c
      → 0 < s.left
      → next_bucket up id ≡ some c
  unfolding after_step
  after_step-cursor id c t s f inc e h = ground arith

  entry-Behind :
      (id c : ℕ) (s : SwapStep) (inc : ℕ)
      → next_bucket up id ≡ some c
      → Behind up c (entry up id s inc)
  unfolding add_step
  entry-Behind id c s inc e = next-Behind up id c (entry up id s inc) e refl

  module _ (id l : ℕ) (t : TraceState) (s : SwapStep) (f : ℕ) (acc : Account states up total fee t)
      (cur : t.cursor ≡ some id) (more : 0 < t.in_after_fee) (liq : liquidity_at states id ≡ l)
      (split : s.step_in + s.left ≡ t.in_after_fee)
      (fs : FeeStep fee total t.fee_distributed s f) where
    abbrev next : TraceState
    next = after_step up id t s f (f * scale / l)

    grown : next.deltas ≡ t.deltas ++ entry up id s (f * scale / l) ∷ []
    grown = after_step-deltas up id t s f (f * scale / l) (acc.fresh id cur more)

    next-added : sum_by (added up) next.deltas ≡ sum_by (added up) t.deltas + s.step_in
    next-added =
        rw (grown, sum_by-append (added up) t.deltas (entry up id s (f * scale / l) ∷ []))
          (omega (arith, entry-added up id s (f * scale / l)))

    next-recovered :
        sum_by (recovered up states) next.deltas ≤ sum_by (recovered up states) t.deltas + f
    next-recovered =
        rw
          (grown, sum_by-append (recovered up states) t.deltas (entry up id s (f * scale / l) ∷ []))
          (omega (arith, entry-backed id s f l liq))

    next-shared : next.fee_distributed * total ≤ fee * sum_by (added up) next.deltas
    next-shared =
        rw (next-added, after_step-fee id t s f (f * scale / l))
          (step-shared t.fee_distributed (sum_by (added up) t.deltas) f s
            (omega (arith, acc.routed)) acc.shared (omega (arith, acc.routed)) fs)

    next-settled : next.in_after_fee ≡ 0 → 0 < total → next.fee_distributed ≡ fee
    next-settled z pos =
        let below = share-le t.fee_distributed _ pos acc.shared (omega (arith, acc.routed)) in
        omega (
          arith,
          after_step-fee id t s f (f * scale / l),
          after_step-left id t s f (f * scale / l),
          fs,
        )

    -- A funded bucket keeps the books.
    after_step-Account : Account states up total fee next
    after_step-Account = record {
      routed = omega (arith, next-added, after_step-left id t s f (f * scale / l), acc.routed);
      shared = next-shared;
      settled = next-settled;
      idle = λ z. absurd (omega (arith, acc.routed));
      backed = omega (arith, next-recovered, after_step-fee id t s f (f * scale / l), acc.backed);
      one_sided = rw grown (
          All-append (OneSided up) t.deltas _ acc.one_sided
            (entry-OneSided up id s (f * scale / l), tt));
      fresh = λ c e h. rw grown (
          next_all c (
            after_step-cursor id c t s f (f * scale / l) e
              (omega (arith, after_step-left id t s f (f * scale / l)))));
    }
      where
        next_all :
            (c : ℕ)
            → next_bucket up id ≡ some c
            → All (Behind up c) (t.deltas ++ entry up id s (f * scale / l) ∷ [])
        next_all c e =
            All-append (Behind up c) t.deltas _
              (next-Behind_all up id c t.deltas e (acc.fresh id cur more))
              (entry-Behind id c s (f * scale / l) e, tt)

  -- An empty bucket changes nothing in the books.
  skip_bucket-Account :
      (id : ℕ) (b : BucketBounds) (t : TraceState)
      → Account states up total fee t
      → t.cursor ≡ some id
      → 0 < t.in_after_fee
      → Account states up total fee (skip_bucket up id b t)
  unfolding skip_bucket
  skip_bucket-Account id b t acc cur more = record {
    routed = acc.routed;
    shared = acc.shared;
    settled = acc.settled;
    idle = acc.idle;
    backed = acc.backed;
    one_sided = acc.one_sided;
    fresh = λ c e h. next-Behind_all up id c t.deltas e (acc.fresh id cur more);
  }

  liquidity_found :
      (id : ℕ) (s : BucketState)
      → get_elem? states id ≡ some s
      → liquidity_at states id ≡ s.liquidity
  liquidity_found id s e = rw (e, liquidity_at)

  pub Round-Account :
      (id : ℕ) (b : BucketBounds) (t t' : TraceState)
      → Account states up total fee t
      → t.cursor ≡ some id
      → 0 < t.in_after_fee
      → Round up total fee id (get_elem? states id) b t t'
      → Account states up total fee t'
  Round-Account id b t t' acc cur more (skipped s e z g) =
      rw g (skip_bucket-Account id b t acc cur more)
  Round-Account id b t t' acc cur more (swapped s w f e pos h k g) = rw g (
      after_step-Account id s.liquidity t w f acc cur more (liquidity_found id s e)
        (step_in-add-left up s.liquidity b t.sqrt_p t.in_after_fee h)
        (step_fee_cases fee total t.fee_distributed w k))
