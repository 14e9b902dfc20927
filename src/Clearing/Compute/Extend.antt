-- ===== src/Clearing/Compute/Extend.antt =====
-- `computeClearingV2` around `computeClearing`: the same fills and price, and the buckets before and
-- after, as the one trace of the epoch leaves them.
use quetzaldex.Prelude.{
  ◌≡◌, subst, true, false, List, [], ◌∷◌, none, some, arith, inl, inr, ◌⊎◌, get_elem?, Bool-cases,
  Option-cases,
}
use quetzaldex.Prelude.Result.{ok, >>=-eq-ok, map_result}
use quetzaldex.Buckets.{BucketState}
use quetzaldex.Clearing.Types.{
  BucketDelta, BucketTrace, PoolWithBuckets, ClearingOrder, ClearingResult,
}
use quetzaldex.Clearing.Compute.{
  ClearingResultV2, compute_clearing, compute_clearing_v2, extend_v2, untouched, with_trace,
  state_before, state_after,
}

-- The states of the deltas' buckets, before.
abbrev pub BeforeOf : PoolWithBuckets → List BucketDelta → List BucketState → Type 0
BeforeOf pool [] [] = Unit
BeforeOf pool [] (s ∷ ss) = ⊥
BeforeOf pool (d ∷ ds) [] = ⊥
BeforeOf pool (d ∷ ds) (s ∷ ss) =
    (get_elem? pool.bucket_states d.bucket_id ≡ some s) × BeforeOf pool ds ss

before-BeforeOf :
    (pool : PoolWithBuckets) (ds : List BucketDelta) {ss : List BucketState}
    → map_result (state_before pool) ds ≡ ok ss
    → BeforeOf pool ds ss
unfolding state_before
before-BeforeOf pool [] {ss} h =
    let shape : ◌≡◌ {A = List BucketState} [] ss = cc in subst (BeforeOf pool []) shape tt
before-BeforeOf pool (d ∷ ds) {ss} h =
    let (s, e, k) = >>=-eq-ok (state_before pool d) _ h in
    let (rest, f, l) = >>=-eq-ok (map_result (state_before pool) ds) _ k in
    let found : get_elem? pool.bucket_states d.bucket_id ≡ some s = ground arith in
    let shape : s ∷ rest ≡ ss = cc in
    subst (BeforeOf pool (d ∷ ds)) shape (found, before-BeforeOf pool ds f)

-- How the extended result stands to the plain one.
pub record Extends (pool : PoolWithBuckets) (base : ClearingResult) (v : ClearingResultV2)
    : Type 0 where
  pub cleared : v.base.cleared ≡ base.cleared
  pub price : v.base.clearing_price ≡ base.clearing_price
  pub fills : v.base.fills ≡ base.fills
  pub traced :
      ((base.cleared ≡ true)
        × (t : BucketTrace) × (base.bucket_trace ≡ some t)
        × (v.bucket_deltas ≡ t.bucket_deltas)
        × BeforeOf pool t.bucket_deltas v.bucket_states_before
        × (v.current_sqrt_price_after ≡ t.new_sqrt_price))
      ⊎ (((base.cleared ≡ false) ⊎ (base.bucket_trace ≡ none))
          × (v.bucket_deltas ≡ [])
          × (v.bucket_states_before ≡ [])
          × (v.current_sqrt_price_after ≡ pool.current_sqrt_price))

with_trace-Extends :
    (pool : PoolWithBuckets) (base : ClearingResult) (t : BucketTrace) {v : ClearingResultV2}
    → base.cleared ≡ true
    → base.bucket_trace ≡ some t
    → with_trace pool base t ≡ ok v
    → Extends pool base v
unfolding with_trace
with_trace-Extends pool base t {v} c e h =
    let (before, f, k) = >>=-eq-ok (map_result (state_before pool) t.bucket_deltas) _ h in
    let (after, g, l) =
      >>=-eq-ok (map_result (state_after pool t.bucket_deltas) t.bucket_deltas) _ k in
    let same : before ≡ v.bucket_states_before = ground arith in
    record {
      cleared = ground arith;
      price = ground arith;
      fills = ground arith;
      traced = inl (
        c,
        t,
        e,
        ground arith,
        subst (BeforeOf pool t.bucket_deltas) same (before-BeforeOf pool t.bucket_deltas f),
        ground arith,
      );
    }

extend_v2-Extends :
    (pool : PoolWithBuckets) (base : ClearingResult) {v : ClearingResultV2}
    → extend_v2 pool base ≡ ok v
    → Extends pool base v
unfolding extend_v2 untouched
extend_v2-Extends pool base {v} h = elim (Bool-cases base.cleared) [
  | inl c ↦ elim (Option-cases base.bucket_trace) [
    | inl e ↦ record {
      cleared = ground arith;
      price = ground arith;
      fills = ground arith;
      traced = inr (inr e, ground arith, ground arith, ground arith);
    }
    | inr (t, e) ↦
        let k : with_trace pool base t ≡ ok v = ground arith in with_trace-Extends pool base t c e k
  ]
  | inr c ↦ record {
    cleared = ground arith;
    price = ground arith;
    fills = ground arith;
    traced = inr (inl c, ground arith, ground arith, ground arith);
  }
]

-- The extended clearing returns only where the plain one does, with the same cleared flag, price
-- and fills; with a trace it has the trace's deltas and price and the states of the touched
-- buckets before it, and without one it has none and the pool's price.
pub compute_clearing_v2-Extends :
    (pool : PoolWithBuckets) (orders : List ClearingOrder) {v : ClearingResultV2}
    → compute_clearing_v2 pool orders ≡ ok v
    → (base : ClearingResult) × (compute_clearing pool orders ≡ ok base) × Extends pool base v
unfolding compute_clearing_v2
compute_clearing_v2-Extends pool orders h =
    let (base, e, k) = >>=-eq-ok (compute_clearing pool orders) _ h in
    (base, e, extend_v2-Extends pool base k)
