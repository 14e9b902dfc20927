-- ===== src/Clearing/Aggregate/Total.antt =====
-- The flows of as many deltas as liquidities are computed: no division in them is by zero.
use quetzaldex.Prelude.{
  ℕ, ◌+◌, ◌*◌, ◌/◌, ◌≡◌, refl, ==_iff, true, List, [], ◌∷◌, length, sum_by, ◌==◌,
}
use quetzaldex.Prelude.Result.{ok}
use quetzaldex.FixedPoint.{mul_div, scale}
use quetzaldex.Clearing.Types.{BucketDelta}
use quetzaldex.Clearing.Aggregate.{
  AggregateFlows, recover_loop, recover_forwarded_fee, derive_aggregate_flows,
}

recover_loop-total :
    (ds : List BucketDelta) (ls : List ℕ) (a b : ℕ)
    → (fees : ℕ × ℕ) × (recover_loop ds ls a b ≡ ok fees)
unfolding recover_loop mul_div
recover_loop-total (d ∷ ds) (l ∷ ls) a b =
    recover_loop-total ds ls (a + d.cum_fee_a_inc * l / scale) (b + d.cum_fee_b_inc * l / scale)
recover_loop-total (d ∷ ds) [] a b = ((a, b), refl)
recover_loop-total [] (l ∷ ls) a b = ((a, b), refl)
recover_loop-total [] [] a b = ((a, b), refl)

pub derive_aggregate_flows-total :
    (ds : List BucketDelta) (ls : List ℕ)
    → length ds ≡ length ls
    → (flows : AggregateFlows) × (derive_aggregate_flows ds ls ≡ ok flows)
unfolding derive_aggregate_flows recover_forwarded_fee
derive_aggregate_flows-total ds ls h =
    let (fees, e) = recover_loop-total ds ls 0 0 in
    let same : (length ds == length ls) ≡ true = (==_iff (length ds) (length ls)).1 h in
    (
      record {
        a_to_pool = sum_by (λ d. d.reserve_a_add) ds + fees.0;
        b_to_pool = sum_by (λ d. d.reserve_b_add) ds + fees.1;
        a_from_pool = sum_by (λ d. d.reserve_a_sub) ds;
        b_from_pool = sum_by (λ d. d.reserve_b_sub) ds;
      },
      rw (derive_aggregate_flows, recover_forwarded_fee, same, e) refl,
    )
