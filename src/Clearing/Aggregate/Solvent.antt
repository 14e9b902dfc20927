-- ===== src/Clearing/Aggregate/Solvent.antt =====
-- The settled flows never ask for more than was swapped: the orderbook stays solvent.
use quetzaldex.Prelude.{
  ℕ, ◌+◌, ◌*◌, ◌/◌, ◌≤◌, ◌≡◌, refl, true, false, not, List, [], ◌∷◌, arith, ◌==◌, length, sum_by,
  All, All-map,
}
use quetzaldex.Prelude.Result.{ok, >>=-eq-ok, Error, throw_if}
use quetzaldex.FixedPoint.{scale, mul_div}
use quetzaldex.FixedPoint.Laws.{mul_div-ok}
use quetzaldex.Buckets.{BucketState}
use quetzaldex.Clearing.Types.{BucketDelta, BucketTrace, PoolWithBuckets}
use quetzaldex.Clearing.Trace.Account.{liquidity_at}
use quetzaldex.Clearing.Trace.Routed.{Routed}
use quetzaldex.Clearing.Aggregate.{
  recover_loop, recover_forwarded_fee, derive_aggregate_flows, AggregateFlows,
}

-- The liquidity of each delta's bucket, in the order of the deltas.
abbrev pub Aligned : List BucketState → List BucketDelta → List ℕ → Type 0
Aligned states [] [] = Unit
Aligned states [] (l ∷ ls) = ⊥
Aligned states (d ∷ ds) [] = ⊥
Aligned states (d ∷ ds) (l ∷ ls) = (l ≡ liquidity_at states d.bucket_id) × Aligned states ds ls

abbrev recovered_a : List BucketState → BucketDelta → ℕ
recovered_a states d = d.cum_fee_a_inc * liquidity_at states d.bucket_id / scale

abbrev recovered_b : List BucketState → BucketDelta → ℕ
recovered_b states d = d.cum_fee_b_inc * liquidity_at states d.bucket_id / scale

recover_loop-sum :
    (states : List BucketState) (ds : List BucketDelta) (ls : List ℕ) (a b : ℕ) {f : ℕ × ℕ}
    → Aligned states ds ls
    → recover_loop ds ls a b ≡ ok f
    → (f.0 ≡ a + sum_by (recovered_a states) ds) × (f.1 ≡ b + sum_by (recovered_b states) ds)
unfolding recover_loop
recover_loop-sum states [] [] a b h e = ground arith
recover_loop-sum states [] (l ∷ ls) a b h e = absurd h
recover_loop-sum states (d ∷ ds) [] a b h e = absurd h
recover_loop-sum states (d ∷ ds) (l ∷ ls) a b (h, t) e =
    let (x, e1, k1) = >>=-eq-ok (mul_div d.cum_fee_a_inc l scale) _ e in
    let (y, e2, k2) = >>=-eq-ok (mul_div d.cum_fee_b_inc l scale) _ k1 in
    let x_is : x ≡ recovered_a states d = rw (← h) (mul_div-ok d.cum_fee_a_inc l scale e1).1 in
    let y_is : y ≡ recovered_b states d = rw (← h) (mul_div-ok d.cum_fee_b_inc l scale e2).1 in
    let ih = recover_loop-sum states ds ls (a + x) (b + y) t k2 in
    (omega (arith, ih.0, x_is), omega (arith, ih.1, y_is))

pub derive-sums :
    (states : List BucketState) (ds : List BucketDelta) (ls : List ℕ) {f : AggregateFlows}
    → Aligned states ds ls
    → derive_aggregate_flows ds ls ≡ ok f
    → (f.a_to_pool ≡ sum_by (λ d. d.reserve_a_add) ds + sum_by (recovered_a states) ds)
      × (f.b_to_pool ≡ sum_by (λ d. d.reserve_b_add) ds + sum_by (recovered_b states) ds)
      × (f.a_from_pool ≡ sum_by (λ d. d.reserve_a_sub) ds)
      × (f.b_from_pool ≡ sum_by (λ d. d.reserve_b_sub) ds)
unfolding derive_aggregate_flows
derive-sums states ds ls h e =
    let (fees, e1, k) = >>=-eq-ok (recover_forwarded_fee ds ls) _ e in
    let fits = throw_if (not (length ds == length ls)) Error.length_mismatch in
    let (_, e2, k2) = >>=-eq-ok fits _ e1 in
    let (fa, fb) = recover_loop-sum states ds ls 0 0 h k2 in
    (ground (arith, fa), ground (arith, fb), ground arith, ground arith)

-- The other side of a one-sided delta is zero.
zero-sum : (f : BucketDelta → ℕ) (ds : List BucketDelta) → All (λ d. f d ≡ 0) ds → sum_by f ds ≡ 0
zero-sum f [] h = refl
zero-sum f (d ∷ ds) h = omega (arith, h.0, zero-sum f ds h.1)

no_fee : (l : ℕ) → 0 * l / scale ≡ 0
no_fee l = omega arith

-- The settled flows of a trace of `gross` of token B.
pub up-Flows :
    (pool : PoolWithBuckets) (gross : ℕ) (t : BucketTrace) (ls : List ℕ) {f : AggregateFlows}
    → Routed pool true gross t
    → Aligned pool.bucket_states t.bucket_deltas ls
    → derive_aggregate_flows t.bucket_deltas ls ≡ ok f
    → (f.b_to_pool ≤ gross)
      × (f.a_to_pool ≡ 0)
      × (f.b_from_pool ≡ 0)
      × (f.a_from_pool ≡ sum_by (λ d. d.reserve_a_sub) t.bucket_deltas)
up-Flows pool gross t ls r h e =
    let ds = t.bucket_deltas in
    let states = pool.bucket_states in
    let sums = derive-sums states ds ls h e in
    let a_add = zero-sum (λ d. d.reserve_a_add) ds (All-map ds (λ d k. k.0) r.one_sided) in
    let b_sub = zero-sum (λ d. d.reserve_b_sub) ds (All-map ds (λ d k. k.1) r.one_sided) in
    let a_fee =
      zero-sum (recovered_a states) ds
        (All-map ds (λ d k. rw k.2 (no_fee (liquidity_at states d.bucket_id))) r.one_sided) in
    (
      omega (arith, sums.1, r.routed, r.solvent),
      omega (arith, sums.0, a_add, a_fee),
      omega (arith, sums.3, b_sub),
      sums.2,
    )

pub down-Flows :
    (pool : PoolWithBuckets) (gross : ℕ) (t : BucketTrace) (ls : List ℕ) {f : AggregateFlows}
    → Routed pool false gross t
    → Aligned pool.bucket_states t.bucket_deltas ls
    → derive_aggregate_flows t.bucket_deltas ls ≡ ok f
    → (f.a_to_pool ≤ gross)
      × (f.b_to_pool ≡ 0)
      × (f.a_from_pool ≡ 0)
      × (f.b_from_pool ≡ sum_by (λ d. d.reserve_b_sub) t.bucket_deltas)
down-Flows pool gross t ls r h e =
    let ds = t.bucket_deltas in
    let states = pool.bucket_states in
    let sums = derive-sums states ds ls h e in
    let b_add = zero-sum (λ d. d.reserve_b_add) ds (All-map ds (λ d k. k.0) r.one_sided) in
    let a_sub = zero-sum (λ d. d.reserve_a_sub) ds (All-map ds (λ d k. k.1) r.one_sided) in
    let b_fee =
      zero-sum (recovered_b states) ds
        (All-map ds (λ d k. rw k.2 (no_fee (liquidity_at states d.bucket_id))) r.one_sided) in
    (
      omega (arith, sums.0, r.routed, r.solvent),
      omega (arith, sums.1, b_add, b_fee),
      omega (arith, sums.2, a_sub),
      sums.3,
    )
