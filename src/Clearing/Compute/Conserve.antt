-- ===== src/Clearing/Compute/Conserve.antt =====
-- What `computeClearing` promises of an epoch: cleared, every token is accounted for; skipped,
-- nothing changes.
use quetzaldex.Prelude.{
  ℕ, ◌+◌, ◌≡◌, ◌≢◌, refl, true, false, ◌&&◌, List, [], ◌∷◌, ◌++◌, Option, none, some, arith, sum_by,
  length, ◌==◌, inl, inr, ◌⊎◌, Bool-cases, subst,
}
use quetzaldex.Prelude.Result.{ok, >>=-eq-ok}
use quetzaldex.Clearing.Types.{ClearingOrder, OrderFill, PoolWithBuckets, PriceEval, ClearingResult}
use quetzaldex.Clearing.Batch.{select_batch}
use quetzaldex.Clearing.Price.{clearing_at, amount_in}
use quetzaldex.Clearing.Price.Eligible.{clearing_at-Escrowed, Escrowed}
use quetzaldex.Clearing.Compute.{
  distribute, x_total, y_total, settle, settle_eligible, clear_at_price, compute_clearing,
  find_clearing_price, skipped,
}
use quetzaldex.Clearing.Compute.Distribute.{
  amount_out, FillsFor, distribute-FillsFor, distribute-exact,
}

-- One side of a cleared epoch: a fill in full for each of its orders, and all of the side's total
-- paid out, if there is anybody to pay.
pub record SideSettled (orders : List ClearingOrder) (fills : List OrderFill) (total : ℕ)
    : Type 0 where
  pub in_full : FillsFor orders fills
  pub exact : orders ≢ [] → sum_by amount_out fills ≡ total

-- The books of an epoch cleared at `p`: what the sellers are paid and the pool takes of token A is
-- what the buyers pay in and the pool gives, and so for token B.
pub record Conserves (pool : PoolWithBuckets) (batch : List ClearingOrder) (r : ClearingResult)
    : Type 0 where
  pub ev : PriceEval
  pub bought : List OrderFill
  pub sold : List OrderFill
  pub evaluated : clearing_at pool batch r.clearing_price ≡ ok ev
  pub fits : ev.swap.saturated ≡ false
  pub fills : r.fills ≡ bought ++ sold
  pub buyers : SideSettled ev.eligible_buys bought (y_total ev)
  pub sellers : SideSettled ev.eligible_sells sold (x_total ev)
  pub token_a :
      x_total ev + ev.swap.amm_a_in ≡ sum_by amount_in ev.eligible_buys + ev.swap.amm_a_out
  pub token_b :
      y_total ev + ev.swap.amm_b_in ≡ sum_by amount_in ev.eligible_sells + ev.swap.amm_b_out
  pub traded : (ev.eligible_buys ≢ []) ⊎ (ev.eligible_sells ≢ [])
  pub reserves :
      (r.new_reserve_a ≡ ev.swap.new_reserve_a)
      × (r.new_reserve_b ≡ ev.swap.new_reserve_b)
      × (r.bucket_trace ≡ ev.swap.trace)

settled :
    (total : ℕ) (os : List ClearingOrder) {fs : List OrderFill}
    → distribute total (sum_by amount_in os) 0 os ≡ ok fs
    → SideSettled os fs total
settled total os d = record {
  in_full = distribute-FillsFor total (sum_by amount_in os) 0 os d;
  exact = λ n. distribute-exact total os n d;
}

x_total-balance :
    (ev : PriceEval)
    → Escrowed ev
    → x_total ev + ev.swap.amm_a_in ≡ sum_by amount_in ev.eligible_buys + ev.swap.amm_a_out
unfolding x_total
x_total-balance ev h = omega arith

y_total-balance :
    (ev : PriceEval)
    → Escrowed ev
    → y_total ev + ev.swap.amm_b_in ≡ sum_by amount_in ev.eligible_sells + ev.swap.amm_b_out
unfolding y_total
y_total-balance ev h = omega arith

module _ (pool : PoolWithBuckets) (batch : List ClearingOrder) (p : ℕ) (ev : PriceEval)
    (evaluated : clearing_at pool batch p ≡ ok ev)
    (traded : (ev.eligible_buys ≢ []) ⊎ (ev.eligible_sells ≢ []))
    (fits : ev.swap.saturated ≡ false) where
  settle-Conserves :
      {r : ClearingResult} → settle p ev ≡ ok r → Conserves pool batch r × (r.cleared ≡ true)
  unfolding settle
  settle-Conserves {r} h =
      let buys = ev.eligible_buys in
      let sells = ev.eligible_sells in
      let (bought, d1, r1) =
        >>=-eq-ok (distribute (y_total ev) (sum_by amount_in buys) 0 buys) _ h in
      let (sold, d2, r2) =
        >>=-eq-ok (distribute (x_total ev) (sum_by amount_in sells) 0 sells) _ r1 in
      let escrowed = clearing_at-Escrowed pool batch p evaluated in
      (
        record {
          ev = ev;
          bought = bought;
          sold = sold;
          evaluated = subst (λ q. clearing_at pool batch q ≡ ok ev) (ground arith) evaluated;
          fits = fits;
          fills = ground arith;
          buyers = settled (y_total ev) buys d1;
          sellers = settled (x_total ev) sells d2;
          token_a = x_total-balance ev escrowed;
          token_b = y_total-balance ev escrowed;
          traded = traded;
          reserves = (ground arith, ground arith, ground arith);
        },
        ground arith,
      )

nonempty :
    (xs ys : List ClearingOrder)
    → ((length xs == 0) && (length ys == 0)) ≡ false
    → (xs ≢ []) ⊎ (ys ≢ [])
nonempty (x ∷ xs) ys h = inl cc
nonempty [] (y ∷ ys) h = inr cc
nonempty [] [] h = cc

abbrev Outcome : PoolWithBuckets → List ClearingOrder → ClearingResult → Type 0
Outcome pool batch r = (r ≡ skipped pool) ⊎ (r.cleared ≡ true) × Conserves pool batch r

settle_eligible-Outcome :
    (pool : PoolWithBuckets) (batch : List ClearingOrder) (p : ℕ) (ev : PriceEval)
    {r : ClearingResult}
    → clearing_at pool batch p ≡ ok ev
    → settle_eligible pool p ev ≡ ok r
    → Outcome pool batch r
unfolding settle_eligible
settle_eligible-Outcome pool batch p ev {r} evaluated h =
    elim (Bool-cases ((length ev.eligible_buys == 0) && (length ev.eligible_sells == 0))) [
      | inl e ↦ inl (ground arith)
      | inr e ↦ elim (Bool-cases ev.swap.saturated) [
        | inl s ↦ inl (ground arith)
        | inr s ↦
            let k : settle p ev ≡ ok r = ground arith in
            let traded = nonempty ev.eligible_buys ev.eligible_sells e in
            let (c, cleared) = settle-Conserves pool batch p ev evaluated traded s k in
            inr (cleared, c)
      ]
    ]

clear_at_price-Outcome :
    (pool : PoolWithBuckets) (batch : List ClearingOrder) (price : Option ℕ) {r : ClearingResult}
    → clear_at_price pool batch price ≡ ok r
    → Outcome pool batch r
unfolding clear_at_price
clear_at_price-Outcome pool batch none h = inl cc
clear_at_price-Outcome pool batch (some p) h =
    let (ev, e, k) = >>=-eq-ok (clearing_at pool batch p) _ h in
    settle_eligible-Outcome pool batch p ev e k

pub skipped-cleared : (pool : PoolWithBuckets) → (skipped pool).cleared ≡ false
unfolding skipped
skipped-cleared pool = refl

-- A clearing that returns is the skipped one, or it is cleared and conserves: at its price the
-- batch was evaluated with a swap that is not saturated and with an eligible order, its fills are
-- the buys' and then the sells', each side's orders are filled in full and, where the side has
-- orders, paid exactly what its escrows and the swap leave, and its reserves are the swap's.
pub compute_clearing-Conserves :
    (pool : PoolWithBuckets) (orders : List ClearingOrder) {r : ClearingResult}
    → compute_clearing pool orders ≡ ok r
    → (r ≡ skipped pool) ⊎ (r.cleared ≡ true) × Conserves pool (select_batch orders) r
unfolding compute_clearing
compute_clearing-Conserves pool orders {r} h =
    let batch = select_batch orders in
    elim (Bool-cases (length batch == 0)) [
      | inl e ↦ inl (ground arith)
      | inr e ↦
          let (price, _, k) = >>=-eq-ok (find_clearing_price pool batch) _ (rw e at h) in
          clear_at_price-Outcome pool batch price k
    ]
