-- ===== src/Clearing/Trace/Routed.antt =====
-- The contract of `traceBucketSwap`: what a trace that did not throw tells of the input, the fee and
-- the reserves.
use quetzaldex.Prelude.{
  ℕ, suc, ◌+◌, ◌-◌, ◌≤◌, ◌≡◌, refl, Bool, true, false, List, [], arith, subst, ltb, ◌==◌, ◌&&◌,
  if◌then◌else◌, All, sum_by, length, Bool-cases, inl, inr, sym,
}
use quetzaldex.Prelude.Int.{ℤ, pos, ◌+ℤ◌, ◌-ℤ◌, int_laws}
use quetzaldex.Prelude.Result.{ok, >>=-eq-ok}
use quetzaldex.Prelude.Sort.{
  sort_by, sort_by-sum, sort_by-All, sort_by-length, Sorted, sort_by-Sorted,
}
use quetzaldex.Clearing.Types.{PoolWithBuckets, BucketDelta, BucketTrace}
use quetzaldex.Clearing.Trace.{
  TraceState, trace_loop, start_state, after_fee, finish_trace, trace_input, trace_bucket_swap,
  agg_a, agg_b, le_id, max_bucket_hops,
}
use quetzaldex.Clearing.Trace.Loop.{trace_loop_inv}
use quetzaldex.Clearing.Trace.Account.{Account, added, recovered, OneSided}
use quetzaldex.Clearing.Trace.Flow.{paid, reserve_in, reserve_out, agg_in, agg_out}
use quetzaldex.Clearing.Trace.Walk.{Round-Account}

pub record Routed (pool : PoolWithBuckets) (up : Bool) (gross : ℕ) (r : BucketTrace) : Type 0 where
  -- all of the input after the fee reaches the buckets
  pub routed : sum_by (added up) r.bucket_deltas ≡ after_fee gross
  -- what liquidity providers can claim was withheld from the input
  pub solvent : sum_by (recovered up pool.bucket_states) r.bucket_deltas + after_fee gross ≤ gross
  pub one_sided : All (OneSided up) r.bucket_deltas
  pub few : length r.bucket_deltas ≤ max_bucket_hops
  pub ordered : Sorted le_id r.bucket_deltas
  pub paid_in :
      reserve_in up (r.new_reserve_a, r.new_reserve_b)
      ≡ reserve_in up (pool.reserve_a, pool.reserve_b) +ℤ pos (after_fee gross)
  pub paid_out :
      reserve_out up (r.new_reserve_a, r.new_reserve_b)
      ≡ reserve_out up (pool.reserve_a, pool.reserve_b) -ℤ pos (sum_by (paid up) r.bucket_deltas)

after_fee-le : (gross : ℕ) → after_fee gross ≤ gross
unfolding after_fee
after_fee-le gross = omega arith

abbrev pub final : PoolWithBuckets → TraceState → BucketTrace
final pool t = record {
  new_sqrt_price = t.sqrt_p;
  bucket_deltas = sort_by le_id t.deltas;
  new_reserve_a = pool.reserve_a +ℤ agg_a t.deltas;
  new_reserve_b = pool.reserve_b +ℤ agg_b t.deltas;
}

pub finish_trace-ok :
    (pool : PoolWithBuckets) (t : TraceState) {r : BucketTrace}
    → finish_trace pool t ≡ ok r
    → (t.in_after_fee ≡ 0) × (length t.deltas ≤ max_bucket_hops) × (r ≡ final pool t)
unfolding finish_trace
finish_trace-ok pool t h = ground arith

start-Account :
    (pool : PoolWithBuckets) (up : Bool) (total fee : ℕ)
    → Account pool.bucket_states up total fee (start_state pool total)
unfolding start_state
start-Account pool up total fee = record {
  routed = omega arith;
  shared = omega arith;
  settled = λ z pos. absurd (omega arith);
  idle = λ z. refl;
  backed = omega arith;
  one_sided = tt;
  fresh = λ c e h. tt;
}

settled_le :
    (states : List _) (up : Bool) (total fee : ℕ) (t : TraceState)
    → Account states up total fee t
    → t.in_after_fee ≡ 0
    → t.fee_distributed ≤ fee
settled_le states up total fee t acc z = elim (Bool-cases (total == 0)) [
  | inl e ↦ omega (arith, acc.idle (ground arith))
  | inr e ↦ omega (arith, acc.settled z (ground arith))
]

le_id_total : (x y : BucketDelta) → le_id x y ≡ false → le_id y x ≡ true
le_id_total x y h = ground arith

le_id_trans : (x y z : BucketDelta) → le_id x y ≡ true → le_id y z ≡ true → le_id x z ≡ true
le_id_trans x y z h k = ground arith

+ℤ-neg : (a : ℤ) (n : ℕ) → a +ℤ (pos 0 -ℤ pos n) ≡ a -ℤ pos n
+ℤ-neg a n = omega int_laws

final-in :
    (pool : PoolWithBuckets) (up : Bool) (t : TraceState)
    → reserve_in up ((final pool t).new_reserve_a, (final pool t).new_reserve_b)
      ≡ reserve_in up (pool.reserve_a, pool.reserve_b)
        +ℤ reserve_in up (agg_a t.deltas, agg_b t.deltas)
final-in pool true t = refl
final-in pool false t = refl

final-out :
    (pool : PoolWithBuckets) (up : Bool) (t : TraceState)
    → reserve_out up ((final pool t).new_reserve_a, (final pool t).new_reserve_b)
      ≡ reserve_out up (pool.reserve_a, pool.reserve_b)
        +ℤ reserve_out up (agg_a t.deltas, agg_b t.deltas)
final-out pool true t = refl
final-out pool false t = refl

module _ (pool : PoolWithBuckets) (up : Bool) (gross : ℕ) (t : TraceState)
    (acc : Account pool.bucket_states up (after_fee gross) (gross - after_fee gross) t)
    (done : t.in_after_fee ≡ 0) (few : length t.deltas ≤ max_bucket_hops) where
  all_added : sum_by (added up) t.deltas ≡ after_fee gross
  all_added = omega (arith, acc.routed)

  final-Routed : Routed pool up gross (final pool t)
  final-Routed = record {
    routed = rw (sort_by-sum le_id (added up) t.deltas) all_added;
    solvent = rw (sort_by-sum le_id (recovered up pool.bucket_states) t.deltas) (
        omega (
          arith,
          acc.backed,
          settled_le pool.bucket_states up (after_fee gross) (gross - after_fee gross) t acc done,
          after_fee-le gross,
        ));
    one_sided = sort_by-All le_id (OneSided up) t.deltas acc.one_sided;
    few = rw (sort_by-length le_id t.deltas) few;
    ordered = sort_by-Sorted le_id le_id_total le_id_trans t.deltas;
    paid_in = rw (final-in pool up t, agg_in up t.deltas acc.one_sided, all_added);
    paid_out =
        rw
          (
            final-out pool up t,
            agg_out up t.deltas acc.one_sided,
            sort_by-sum le_id (paid up) t.deltas,
          )
          (+ℤ-neg _ _);
  }

-- The trace of one input keeps the contract.
pub trace_input-Routed :
    (pool : PoolWithBuckets) (up : Bool) (gross : ℕ) {r : BucketTrace}
    → trace_input pool up gross ≡ ok r
    → Routed pool up gross r
unfolding trace_input
trace_input-Routed pool up gross {r} h =
    let total = after_fee gross in
    let fee = gross - total in
    let (t, e, k) =
      >>=-eq-ok
        (trace_loop pool up total fee (suc (length pool.bucket_bounds)) (start_state pool total)) _
        h in
    let (acc, _) =
      trace_loop_inv (Account pool.bucket_states up total fee) pool up total fee
        (λ t t' id b acc more cur at within.
          Round-Account pool.bucket_states up total fee id b t t' acc cur more)
        (suc (length pool.bucket_bounds)) (start_state pool total) (start-Account pool up total fee)
        e in
    let (done, few, shape) = finish_trace-ok pool t k in
    subst (Routed pool up gross) (sym shape) (final-Routed pool up gross t acc done few)

abbrev idle_trace : PoolWithBuckets → BucketTrace
idle_trace pool = record {
  new_sqrt_price = pool.current_sqrt_price;
  bucket_deltas = [];
  new_reserve_a = pool.reserve_a;
  new_reserve_b = pool.reserve_b;
}

idle-Routed : (pool : PoolWithBuckets) → Routed pool false 0 (idle_trace pool)
unfolding after_fee
idle-Routed pool = record {
  routed = refl;
  solvent = omega arith;
  one_sided = tt;
  few = omega arith;
  ordered = tt;
  paid_in = omega int_laws;
  paid_out = omega int_laws;
}

abbrev pub gross_in : ℕ → ℕ → ℕ
gross_in net_a net_b = if ltb 0 net_b then net_b else net_a

-- A trace that returns routes its whole input: the deltas' inputs sum to the input after the fee;
-- with the fees that the deltas let liquidity providers claim they are at most the input; every
-- delta has the flows of one direction only; at most four buckets are touched, in the order of
-- their ids; and the pool's reserves change by the input after the fee and by what the deltas pay
-- out.
pub trace_bucket_swap-Routed :
    (pool : PoolWithBuckets) (net_a net_b : ℕ) {r : BucketTrace}
    → trace_bucket_swap pool net_a net_b ≡ ok r
    → Routed pool (ltb 0 net_b) (gross_in net_a net_b) r
unfolding trace_bucket_swap
trace_bucket_swap-Routed pool net_a net_b {r} h = elim (Bool-cases (net_a == 0 && net_b == 0)) [
  | inl z ↦
      let a : net_a ≡ 0 = ground arith in
      let b : net_b ≡ 0 = ground arith in
      let shape : idle_trace pool ≡ r = ground arith in
      rw (a, b) (subst (Routed pool false 0) shape (idle-Routed pool))
  | inr n ↦ trace_input-Routed pool (ltb 0 net_b) (gross_in net_a net_b) (rw n at h)
]

-- Nothing in, no bucket touched.
pub trace_bucket_swap-zero :
    (pool : PoolWithBuckets) {r : BucketTrace}
    → trace_bucket_swap pool 0 0 ≡ ok r
    → r.bucket_deltas ≡ []
unfolding trace_bucket_swap
trace_bucket_swap-zero pool h = ground arith
