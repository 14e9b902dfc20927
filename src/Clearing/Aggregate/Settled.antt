-- ===== src/Clearing/Aggregate/Settled.antt =====
-- A cleared epoch always has its on-chain flows, and the orderbook covers them.
use quetzaldex.Prelude.{
  ℕ, suc, ◌≡◌, refl, true, List, [], ◌∷◌, inl, inr, length, ◌==◌, ==_iff, ◌∙◌, ap,
}
use quetzaldex.Prelude.Result.{ok}
use quetzaldex.FixedPoint.{mul_div}
use quetzaldex.Buckets.{BucketState}
use quetzaldex.Clearing.Types.{ClearingOrder, ClearingResult, PoolWithBuckets, BucketDelta}
use quetzaldex.Clearing.Batch.{select_batch}
use quetzaldex.Clearing.Compute.{ClearingResultV2, compute_clearing_v2}
use quetzaldex.Clearing.Compute.Extend.{Extends, BeforeOf, compute_clearing_v2-Extends}
use quetzaldex.Clearing.Aggregate.Epoch.{Solvent, compute_clearing_v2-Solvent}
use quetzaldex.Clearing.Aggregate.Covered.{liquidities}
use quetzaldex.Clearing.Aggregate.{
  AggregateFlows, recover_loop, recover_forwarded_fee, derive_aggregate_flows,
}

recover_loop-total :
    (ds : List BucketDelta) (ls : List ℕ) (a b : ℕ) → (f : ℕ × ℕ) × (recover_loop ds ls a b ≡ ok f)
unfolding recover_loop mul_div
recover_loop-total [] [] a b = ((a, b), refl)
recover_loop-total [] (l ∷ ls) a b = ((a, b), refl)
recover_loop-total (d ∷ ds) [] a b = ((a, b), refl)
recover_loop-total (d ∷ ds) (l ∷ ls) a b = recover_loop-total ds ls _ _

derive_aggregate_flows-total :
    (ds : List BucketDelta) (ls : List ℕ)
    → length ds ≡ length ls
    → (f : AggregateFlows) × (derive_aggregate_flows ds ls ≡ ok f)
unfolding derive_aggregate_flows recover_forwarded_fee
derive_aggregate_flows-total ds ls e =
    let same : (length ds == length ls) ≡ true = (==_iff (length ds) (length ls)).1 e in
    let (f, h) = recover_loop-total ds ls 0 0 in rw (same, h) (_, refl)

BeforeOf-length :
    (pool : PoolWithBuckets) (ds : List BucketDelta) (ss : List BucketState)
    → BeforeOf pool ds ss
    → length ds ≡ length (liquidities ss)
BeforeOf-length pool [] [] h = refl
BeforeOf-length pool [] (s ∷ ss) h = absurd h
BeforeOf-length pool (d ∷ ds) [] h = absurd h
BeforeOf-length pool (d ∷ ds) (s ∷ ss) h = ap suc (BeforeOf-length pool ds ss h.1)

Extends-length :
    (pool : PoolWithBuckets) (base : ClearingResult) (v : ClearingResultV2)
    → Extends pool base v
    → length v.bucket_deltas ≡ length (liquidities v.bucket_states_before)
Extends-length pool base v x = elim x.traced [
  | inl (c, t, e, ds, before, p) ↦
      ap length ds ∙ BeforeOf-length pool t.bucket_deltas v.bucket_states_before before
  | inr (c, ds, ss, p) ↦ rw (ds, ss) refl
]

-- When a clearing clears, its aggregate flows are defined, and for either token what the fills
-- pay out and what goes to the pool, fees included, is covered by what the eligible orders of the
-- batch put in escrow and what the pool sends. The fills are those of the batch's orders that the
-- price suits, each filled in full, buys before sells.
pub compute_clearing_v2-settles :
    (pool : PoolWithBuckets) (orders : List ClearingOrder) {v : ClearingResultV2}
    → compute_clearing_v2 pool orders ≡ ok v
    → v.base.cleared ≡ true
    → (f : AggregateFlows) × (derive_aggregate_flows v.bucket_deltas
          (liquidities v.bucket_states_before)
        ≡ ok f)
      × Solvent (select_batch orders) v f
compute_clearing_v2-settles pool orders {v} h cleared =
    let (base, k, x) = compute_clearing_v2-Extends pool orders h in
    let (f, e) =
      derive_aggregate_flows-total v.bucket_deltas (liquidities v.bucket_states_before)
        (Extends-length pool base v x) in
    (f, e, compute_clearing_v2-Solvent pool orders h cleared e)
