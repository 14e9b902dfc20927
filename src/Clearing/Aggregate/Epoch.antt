-- ===== src/Clearing/Aggregate/Epoch.antt =====
-- The whole of an epoch on the orderbook's side: what its makers claim and what goes to the pool is
-- covered by what they paid in and what comes from the pool.
use quetzaldex.Prelude.{
  ℕ, ◌+◌, ◌≤◌, ◌≡◌, true, List, [], ◌∷◌, ◌++◌, arith, inl, inr, sum_by, filter, sym, ◌∙◌,
}
use quetzaldex.Prelude.Result.{ok}
use quetzaldex.Clearing.Types.{PoolWithBuckets, ClearingOrder, ClearingResult, OrderFill}
use quetzaldex.Clearing.Batch.{select_batch}
use quetzaldex.Clearing.Price.{buys_at, sells_at, amount_in}
use quetzaldex.Clearing.Price.Eligible.{clearing_at-EvalAt}
use quetzaldex.Clearing.Compute.{ClearingResultV2, compute_clearing_v2, x_total, y_total}
use quetzaldex.Clearing.Compute.Distribute.{amount_out, FillsFor}
use quetzaldex.Clearing.Compute.Conserve.{
  skipped-cleared, Conserves, SideSettled, compute_clearing-Conserves,
}
use quetzaldex.Clearing.Compute.Extend.{Extends, compute_clearing_v2-Extends}
use quetzaldex.Clearing.Aggregate.{derive_aggregate_flows, AggregateFlows}
use quetzaldex.Clearing.Aggregate.Covered.{liquidities, Covered, epoch-Covered}

paid-le :
    (orders : List ClearingOrder) (fills : List OrderFill) (total : ℕ)
    → SideSettled orders fills total
    → sum_by amount_out fills ≤ total
paid-le [] [] total h = omega arith
paid-le [] (f ∷ fs) total h = absurd h.in_full
paid-le (o ∷ os) fills total h = omega (arith, h.exact (λ e. cc))

-- What the epoch cleared by `v` settles on chain by the flows `f`.
pub record Solvent (batch : List ClearingOrder) (v : ClearingResultV2) (f : AggregateFlows)
    : Type 0 where
  pub bought : List OrderFill
  pub sold : List OrderFill
  pub fills : v.base.fills ≡ bought ++ sold
  pub buyers : FillsFor (filter (buys_at v.base.clearing_price) batch) bought
  pub sellers : FillsFor (filter (sells_at v.base.clearing_price) batch) sold
  pub token_a :
      sum_by amount_out sold + f.a_to_pool
      ≤ sum_by amount_in (filter (buys_at v.base.clearing_price) batch) + f.a_from_pool
  pub token_b :
      sum_by amount_out bought + f.b_to_pool
      ≤ sum_by amount_in (filter (sells_at v.base.clearing_price) batch) + f.b_from_pool

Solvent-of :
    (pool : PoolWithBuckets) (batch : List ClearingOrder) (base : ClearingResult)
    (v : ClearingResultV2) {f : AggregateFlows}
    → (c : Conserves pool batch base) → Extends pool base v
    → Covered c.ev.swap f
    → Solvent batch v f
Solvent-of pool batch base v c x k =
    let at = clearing_at-EvalAt pool batch base.clearing_price c.evaluated in
    let sold_le = paid-le c.ev.eligible_sells c.sold (x_total c.ev) c.sellers in
    let bought_le = paid-le c.ev.eligible_buys c.bought (y_total c.ev) c.buyers in
    record {
      bought = c.bought;
      sold = c.sold;
      fills = x.fills ∙ c.fills;
      buyers = rw (x.price, ← at.buys) c.buyers.in_full;
      sellers = rw (x.price, ← at.sells) c.sellers.in_full;
      token_a = rw (x.price, ← at.buys) (omega (arith, sold_le, c.token_a, k.a_to, k.a_from));
      token_b = rw (x.price, ← at.sells) (omega (arith, bought_le, c.token_b, k.b_to, k.b_from));
    }

-- The orderbook covers every cleared epoch.
pub compute_clearing_v2-Solvent :
    (pool : PoolWithBuckets) (orders : List ClearingOrder) {v : ClearingResultV2}
    {f : AggregateFlows}
    → compute_clearing_v2 pool orders ≡ ok v
    → v.base.cleared ≡ true
    → derive_aggregate_flows v.bucket_deltas (liquidities v.bucket_states_before) ≡ ok f
    → Solvent (select_batch orders) v f
compute_clearing_v2-Solvent pool orders {v} h cleared e =
    let (base, k, x) = compute_clearing_v2-Extends pool orders h in
    let base_cleared = sym x.cleared ∙ cleared in
    elim (compute_clearing-Conserves pool orders k) [
      | inl skip ↦ cc (base_cleared, skip, skipped-cleared pool)
      | inr (_, c) ↦
          Solvent-of pool (select_batch orders) base v c x
            (epoch-Covered pool (select_batch orders) base v c base_cleared x e)
    ]
