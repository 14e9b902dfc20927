-- ===== src/Clearing/Trace/Account.antt =====
-- The books of the walk: all of the input after the fee reaches a bucket, and the buckets' fee
-- increments are backed by the fee withheld.
use quetzaldex.Prelude.{
  ℕ, ◌+◌, ◌-◌, ◌*◌, ◌/◌, ◌≤◌, ◌<◌, ◌≡◌, ◌⊎◌, inl, inr, Bool, true, false, List, [], ◌∷◌, ◌++◌, none,
  some, arith, ◌==◌, if◌then◌else◌, All, sum_by, get_elem?, Bool-cases,
}
use quetzaldex.Prelude.Result.{ok}
use quetzaldex.Prelude.Nats.{floor_share}
use quetzaldex.FixedPoint.{scale}
use quetzaldex.FixedPoint.Laws.{div-ok}
use quetzaldex.Buckets.{BucketState}
use quetzaldex.Clearing.Types.{BucketDelta}
use quetzaldex.Clearing.Trace.{TraceState, SwapStep, step_fee, add_step, after_step, zero_delta}
use quetzaldex.Clearing.Trace.Deltas.{Behind, prev_delta_new, set_delta_new}

-- The input that a delta records, its output, and its fee increment, on the side of the walk.
abbrev pub added : Bool → BucketDelta → ℕ
added up d = if up then d.reserve_b_add else d.reserve_a_add

abbrev pub fee_inc : Bool → BucketDelta → ℕ
fee_inc up d = if up then d.cum_fee_b_inc else d.cum_fee_a_inc

abbrev pub liquidity_at : List BucketState → ℕ → ℕ
liquidity_at states id = elim (get_elem? states id) [ none ↦ 0 | some b ↦ b.liquidity ]

-- What a liquidity provider's shares of the bucket can claim of the increment.
abbrev pub recovered : Bool → List BucketState → BucketDelta → ℕ
recovered up states d = fee_inc up d * liquidity_at states d.bucket_id / scale

-- Only the side of the walk is recorded.
abbrev pub OneSided : Bool → BucketDelta → Type 0
OneSided true d = (d.reserve_a_add ≡ 0) × (d.reserve_b_sub ≡ 0) × (d.cum_fee_a_inc ≡ 0)
OneSided false d = (d.reserve_b_add ≡ 0) × (d.reserve_a_sub ≡ 0) × (d.cum_fee_b_inc ≡ 0)

module _ (states : List BucketState) (up : Bool) (total fee : ℕ) where
  -- The invariant of the loop.
  pub record Account (t : TraceState) : Type 0 where
    pub routed : sum_by (added up) t.deltas + t.in_after_fee ≡ total
    pub shared : t.fee_distributed * total ≤ fee * sum_by (added up) t.deltas
    pub settled : t.in_after_fee ≡ 0 → 0 < total → t.fee_distributed ≡ fee
    pub idle : total ≡ 0 → t.fee_distributed ≡ 0
    pub backed : sum_by (recovered up states) t.deltas ≤ t.fee_distributed
    pub one_sided : All (OneSided up) t.deltas
    pub fresh : (c : ℕ) → t.cursor ≡ some c → 0 < t.in_after_fee → All (Behind up c) t.deltas

-- The entry of one funded bucket.
abbrev pub entry : Bool → ℕ → SwapStep → ℕ → BucketDelta
entry up id s inc = add_step up (zero_delta id) s inc

pub entry-added :
    (up : Bool) (id : ℕ) (s : SwapStep) (inc : ℕ) → added up (entry up id s inc) ≡ s.step_in
unfolding add_step
entry-added true id s inc = omega arith
entry-added false id s inc = omega arith

pub entry-fee_inc :
    (up : Bool) (id : ℕ) (s : SwapStep) (inc : ℕ) → fee_inc up (entry up id s inc) ≡ inc
unfolding add_step
entry-fee_inc true id s inc = omega arith
entry-fee_inc false id s inc = omega arith

pub entry-recovered :
    (states : List BucketState) (up : Bool) (id : ℕ) (s : SwapStep) (inc : ℕ)
    → recovered up states (entry up id s inc) ≡ inc * liquidity_at states id / scale
unfolding add_step
entry-recovered states true id s inc = let e : 0 + inc ≡ inc = omega arith in rw e
entry-recovered states false id s inc = let e : 0 + inc ≡ inc = omega arith in rw e

pub entry-OneSided : (up : Bool) (id : ℕ) (s : SwapStep) (inc : ℕ) → OneSided up (entry up id s inc)
unfolding add_step
entry-OneSided true id s inc = omega arith
entry-OneSided false id s inc = omega arith

-- With a bucket that is new to the map, the map grows by its entry.
pub after_step-deltas :
    (up : Bool) (id : ℕ) (t : TraceState) (s : SwapStep) (fee inc : ℕ)
    → All (Behind up id) t.deltas
    → (after_step up id t s fee inc).deltas ≡ t.deltas ++ entry up id s inc ∷ []
unfolding after_step add_step
after_step-deltas up id t s fee inc h =
    rw (prev_delta_new up id t.deltas h) (set_delta_new up (entry up id s inc) t.deltas h)

-- The fee of a step never overdraws what is withheld.
abbrev pub FeeStep : ℕ → ℕ → ℕ → SwapStep → ℕ → Type 0
FeeStep fee total done s f =
    ((s.left ≡ 0) × (f ≡ fee - done)) ⊎ ((0 < s.left) × (f * total ≤ fee * s.step_in))

pub step_fee_cases :
    (fee total done : ℕ) (s : SwapStep) {f : ℕ}
    → step_fee fee total done s ≡ ok f
    → FeeStep fee total done s f
unfolding step_fee
step_fee_cases fee total done s h = elim (Bool-cases (s.left == 0)) [
  | inl e ↦ inl (ground arith)
  | inr e ↦
      let k = rw e at h in
      inr (ground (arith, div-ok (fee * s.step_in) total k, floor_share fee s.step_in total))
]
