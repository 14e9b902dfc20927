-- ===== src/Clearing/Aggregate/Covered.antt =====
-- The settled flows of an epoch are covered by the swap that it was cleared with.
use quetzaldex.Prelude.{
  ℕ, suc, zero, ◌≤◌, ◌≡◌, refl, true, false, List, [], ◌∷◌, none, some, arith, inl, inr, sum_by,
  map, subst, sym, ap, ltb, if◌then◌else◌, ◌∙◌,
}
use quetzaldex.Prelude.Int.{ℤ, pos, negsuc}
use quetzaldex.Prelude.Result.{ok}
use quetzaldex.Buckets.{BucketState}
use quetzaldex.Clearing.Types.{
  BucketDelta, BucketTrace, PoolWithBuckets, ClearingOrder, ClearingResult, NetSwap,
}
use quetzaldex.Clearing.Trace.Account.{liquidity_at}
use quetzaldex.Clearing.Trace.Routed.{Routed, trace_bucket_swap-Routed, trace_bucket_swap-zero}
use quetzaldex.Clearing.Trace.{trace_bucket_swap}
use quetzaldex.Clearing.Price.Eligible.{clearing_at-EvalAt}
use quetzaldex.Clearing.NetSwap.Flows.{Moves, Still, SwapsA, bucket_net_swap-Moves}
use quetzaldex.Clearing.Compute.{ClearingResultV2}
use quetzaldex.Clearing.Compute.Conserve.{Conserves}
use quetzaldex.Clearing.Compute.Extend.{Extends, BeforeOf}
use quetzaldex.Clearing.Aggregate.{derive_aggregate_flows, AggregateFlows}
use quetzaldex.Clearing.Aggregate.Solvent.{Aligned, up-Flows, down-Flows, derive-sums}

abbrev pub liquidities : List BucketState → List ℕ
liquidities = map (λ s. s.liquidity)

before-Aligned :
    (pool : PoolWithBuckets) (ds : List BucketDelta) (ss : List BucketState)
    → BeforeOf pool ds ss
    → Aligned pool.bucket_states ds (liquidities ss)
before-Aligned pool [] [] h = tt
before-Aligned pool [] (s ∷ ss) h = h
before-Aligned pool (d ∷ ds) [] h = h
before-Aligned pool (d ∷ ds) (s ∷ ss) h = (rw (h.0, liquidity_at), before-Aligned pool ds ss h.1)

-- The settled flows, against the swap that the epoch was cleared with.
pub record Covered (s : NetSwap) (f : AggregateFlows) : Type 0 where
  pub a_to : f.a_to_pool ≤ s.amm_a_in
  pub b_to : f.b_to_pool ≤ s.amm_b_in
  pub a_from : f.a_from_pool ≡ s.amm_a_out
  pub b_from : f.b_from_pool ≡ s.amm_b_out

SwapsA-Covered :
    (pool : PoolWithBuckets) (n : ℕ) (s : NetSwap) (ls : List ℕ) {f : AggregateFlows}
    → (m : SwapsA pool n s) → Aligned pool.bucket_states m.trace.bucket_deltas ls
    → derive_aggregate_flows m.trace.bucket_deltas ls ≡ ok f
    → Covered s f
SwapsA-Covered pool n s ls m h e =
    let r = trace_bucket_swap-Routed pool n 0 m.traced in
    let flows = down-Flows pool n m.trace ls r h e in
    record {
      a_to = omega (arith, flows.0, m.a_in);
      b_to = omega (arith, flows.1);
      a_from = omega (arith, flows.2, m.no_a_out);
      b_from = omega (arith, flows.3, m.b_out);
    }

-- The same for token B, of which none may be left after rounding.
flow_b-Covered :
    (pool : PoolWithBuckets) (b : ℕ) (s : NetSwap) (t : BucketTrace) (ls : List ℕ)
    {f : AggregateFlows}
    → trace_bucket_swap pool 0 b ≡ ok t
    → s.amm_b_in ≡ b
    → s.amm_a_out ≡ sum_by (λ d. d.reserve_a_sub) t.bucket_deltas
    → s.amm_a_in ≡ 0
    → s.amm_b_out ≡ 0
    → Aligned pool.bucket_states t.bucket_deltas ls
    → derive_aggregate_flows t.bucket_deltas ls ≡ ok f
    → Covered s f
flow_b-Covered pool zero s t ls {f} tr bi ao ai bo h e =
    let none_touched = trace_bucket_swap-zero pool tr in
    let h' = subst (λ ds. Aligned pool.bucket_states ds ls) none_touched h in
    let e' = subst (λ ds. derive_aggregate_flows ds ls ≡ ok f) none_touched e in
    let sums = derive-sums pool.bucket_states [] ls h' e' in
    let out : sum_by (λ d. d.reserve_a_sub) t.bucket_deltas ≡ 0 =
      ap (sum_by (λ d. d.reserve_a_sub)) none_touched in
    record {
      a_to = omega (arith, sums.0);
      b_to = omega (arith, sums.1);
      a_from = omega (arith, sums.2);
      b_from = omega (arith, sums.3);
    }
flow_b-Covered pool (suc b) s t ls tr bi ao ai bo h e =
    let some_in : ltb 0 (suc b) ≡ true = ground arith in
    let routed =
      subst (λ u. Routed pool u (if u then suc b else 0) t) some_in
        (trace_bucket_swap-Routed pool 0 (suc b) tr) in
    let flows = up-Flows pool (suc b) t ls routed h e in
    record {
      a_to = omega (arith, flows.1);
      b_to = omega (arith, flows.0, bi);
      a_from = omega (arith, flows.3, ao);
      b_from = omega (arith, flows.2, bo);
    }

module _ (pool : PoolWithBuckets) (s : NetSwap) (ds : List BucketDelta) (ss : List BucketState)
    {f : AggregateFlows} (before : BeforeOf pool ds ss)
    (derived : derive_aggregate_flows ds (liquidities ss) ≡ ok f) where
  aligned : {es : List BucketDelta} → ds ≡ es → Aligned pool.bucket_states es (liquidities ss)
  aligned g =
      subst (λ x. Aligned pool.bucket_states x (liquidities ss)) g
        (before-Aligned pool ds ss before)

  flows : {es : List BucketDelta} → ds ≡ es → derive_aggregate_flows es (liquidities ss) ≡ ok f
  flows g = subst (λ x. derive_aggregate_flows x (liquidities ss) ≡ ok f) g derived

  still : Still pool s → ds ≡ [] → Covered s f
  still m g =
      ground (arith, derive-sums pool.bucket_states [] (liquidities ss) (aligned g) (flows g))

  -- The deltas of the epoch are those of the swap's trace, or there are none.
  traced-Covered :
      (net : ℤ) (p : ℕ) (t : BucketTrace)
      → Moves pool net p s
      → s.trace ≡ some t
      → ds ≡ t.bucket_deltas
      → s.saturated ≡ false
      → Covered s f
  traced-Covered (pos zero) p t m e g fits = cc (m.1.untraced)
  traced-Covered (pos (suc n)) p t (inl m) e g fits =
      let same : t ≡ m.trace = cc (m.kept) in
      let shape = g ∙ ap (λ (x : BucketTrace). x.bucket_deltas) same in
      SwapsA-Covered pool (suc n) s (liquidities ss) m (aligned shape) (flows shape)
  traced-Covered (pos (suc n)) p t (inr m) e g fits = cc (m.0)
  traced-Covered (negsuc n) p t (q, inl m) e g fits =
      let same : t ≡ m.trace = cc (m.kept) in
      let shape = g ∙ ap (λ (x : BucketTrace). x.bucket_deltas) same in
      flow_b-Covered pool s.amm_b_in s m.trace (liquidities ss) m.traced refl m.a_out m.no_a_in
        m.no_b_out (aligned shape) (flows shape)
  traced-Covered (negsuc n) p t (q, inr m) e g fits = cc (m.0)

  untraced-Covered :
      (net : ℤ) (p : ℕ)
      → Moves pool net p s
      → s.trace ≡ none
      → ds ≡ []
      → s.saturated ≡ false
      → Covered s f
  untraced-Covered (pos zero) p m e g fits = still m.1 g
  untraced-Covered (pos (suc n)) p (inl m) e g fits = cc (m.kept)
  untraced-Covered (pos (suc n)) p (inr m) e g fits = cc (m.0)
  untraced-Covered (negsuc n) p (q, inl m) e g fits = cc (m.kept)
  untraced-Covered (negsuc n) p (q, inr m) e g fits = cc (m.0)

-- The settled flows are covered by the swap of the epoch.
pub epoch-Covered :
    (pool : PoolWithBuckets) (batch : List ClearingOrder) (base : ClearingResult)
    (v : ClearingResultV2) {f : AggregateFlows}
    → (c : Conserves pool batch base) → base.cleared ≡ true
    → Extends pool base v
    → derive_aggregate_flows v.bucket_deltas (liquidities v.bucket_states_before) ≡ ok f
    → Covered c.ev.swap f
epoch-Covered pool batch base v c cleared x e =
    let s = c.ev.swap in
    let p = base.clearing_price in
    let at = clearing_at-EvalAt pool batch p c.evaluated in
    let moves = bucket_net_swap-Moves pool c.ev.net_a p at.swapped in
    let via = c.reserves.2 in
    elim x.traced [
      | inl (_, t, k, g, b, _) ↦
          traced-Covered pool s v.bucket_deltas v.bucket_states_before
            (subst (λ ds. BeforeOf pool ds v.bucket_states_before) (sym g) b) e c.ev.net_a p t moves
            (sym via ∙ k) g c.fits
      | inr (inl k, g, b, _) ↦ cc
      | inr (inr k, g, b, _) ↦
          untraced-Covered pool s v.bucket_deltas v.bucket_states_before (rw (g, b) tt) e c.ev.net_a
            p moves (sym via ∙ k) g c.fits
    ]
