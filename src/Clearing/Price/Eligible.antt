-- ===== src/Clearing/Price/Eligible.antt =====
-- What `clearingAt` found: the eligible orders, and that the pool takes no more than they pay in.
use quetzaldex.Prelude.{
  ℕ, suc, zero, ◌*◌, ◌/◌, ◌≤◌, ◌<◌, ◌≡◌, refl, List, arith, ap, subst, sum_by, inl, inr, filter,
}
use quetzaldex.Prelude.Int.{ℤ, pos, negsuc, sub_ℕ}
use quetzaldex.Prelude.Result.{ok, >>=-eq-ok}
use quetzaldex.FixedPoint.{scale, mul_div}
use quetzaldex.FixedPoint.Laws.{mul_div-ok}
use quetzaldex.Clearing.Types.{ClearingOrder, PoolWithBuckets, NetSwap, PriceEval}
use quetzaldex.Clearing.NetSwap.{bucket_net_swap}
use quetzaldex.Clearing.NetSwap.Flows.{Moves, bucket_net_swap-Moves}
use quetzaldex.Clearing.Price.{clearing_at, buys_at, sells_at, amount_in}
use native.Mathlib.Nat.{div-mul-le_self, div-le_of_le-mul, le_trans, mul-le-mul_right}

-- An evaluation at `p`, read off.
pub record EvalAt (pool : PoolWithBuckets) (batch : List ClearingOrder) (p : ℕ) (ev : PriceEval)
    : Type 0 where
  pub buys : ev.eligible_buys ≡ filter (buys_at p) batch
  pub sells : ev.eligible_sells ≡ filter (sells_at p) batch
  pub net :
      ev.net_a
      ≡ sub_ℕ (sum_by amount_in ev.eligible_buys) (sum_by amount_in ev.eligible_sells * p / scale)
  pub swapped : bucket_net_swap pool ev.net_a p ≡ ok ev.swap

pub clearing_at-EvalAt :
    (pool : PoolWithBuckets) (batch : List ClearingOrder) (p : ℕ) {ev : PriceEval}
    → clearing_at pool batch p ≡ ok ev
    → EvalAt pool batch p ev
unfolding clearing_at
clearing_at-EvalAt pool batch p {ev} h =
    let buys = filter (buys_at p) batch in
    let sells = filter (sells_at p) batch in
    let (v, d, h0) = >>=-eq-ok (mul_div (sum_by amount_in sells) p scale) _ h in
    let net : ℤ = sub_ℕ (sum_by amount_in buys) v in
    let (s, e, h1) = >>=-eq-ok (bucket_net_swap pool net p) _ h0 in
    let valued = (mul_div-ok (sum_by amount_in sells) p scale d).1 in
    subst (EvalAt pool batch p) (cc) (evaluated v s valued e)
  where
    evaluated :
        (v : ℕ) (s : NetSwap)
        → v ≡ sum_by amount_in (filter (sells_at p) batch) * p / scale
        → bucket_net_swap pool (sub_ℕ (sum_by amount_in (filter (buys_at p) batch)) v) p ≡ ok s
        → EvalAt pool batch p (record {
          net_a = sub_ℕ (sum_by amount_in (filter (buys_at p) batch)) v;
          swap = s;
          eligible_buys = filter (buys_at p) batch;
          eligible_sells = filter (sells_at p) batch;
        })
    evaluated v s valued e = record {
      buys = refl;
      sells = refl;
      net = ap (sub_ℕ (sum_by amount_in (filter (buys_at p) batch))) valued;
      swapped = e;
    }

-- The pool takes from each side no more than its orders pay in.
abbrev pub Escrowed : PriceEval → Type 0
Escrowed ev =
    (ev.swap.amm_a_in ≤ sum_by amount_in ev.eligible_buys)
    × (ev.swap.amm_b_in ≤ sum_by amount_in ev.eligible_sells)

sized_back : (n sells p : ℕ) → 0 < p → n ≤ sells * p / scale → n * scale / p ≤ sells
sized_back n sells p q h =
    div-le_of_le-mul p
      (omega (arith, le_trans (mul-le-mul_right scale h) (div-mul-le_self (sells * p) scale)))

deficit_of : (n buys valued : ℕ) → negsuc n ≡ sub_ℕ buys valued → suc n ≤ valued
deficit_of n buys valued h = ground arith

surplus_of : (n buys valued : ℕ) → pos n ≡ sub_ℕ buys valued → n ≤ buys
surplus_of n buys valued h = ground arith

Moves-le :
    (pool : PoolWithBuckets) (net : ℤ) (buys sells p : ℕ) (s : NetSwap)
    → net ≡ sub_ℕ buys (sells * p / scale)
    → Moves pool net p s
    → (s.amm_a_in ≤ buys) × (s.amm_b_in ≤ sells)
Moves-le pool (pos zero) buys sells p s e m = omega arith
Moves-le pool (pos (suc n)) buys sells p s e (inl m) =
    omega (arith, surplus_of (suc n) buys (sells * p / scale) e)
Moves-le pool (pos (suc n)) buys sells p s e (inr m) = omega arith
Moves-le pool (negsuc n) buys sells p s e (h, inl m) =
    omega (arith, m.b_in, sized_back (suc n) sells p h (deficit_of n buys (sells * p / scale) e))
Moves-le pool (negsuc n) buys sells p s e (h, inr m) = omega arith

-- At any price that can be evaluated the swap takes no more of either token than the orders
-- eligible there put in escrow.
pub clearing_at-Escrowed :
    (pool : PoolWithBuckets) (batch : List ClearingOrder) (p : ℕ) {ev : PriceEval}
    → clearing_at pool batch p ≡ ok ev
    → Escrowed ev
clearing_at-Escrowed pool batch p {ev} h =
    let at = clearing_at-EvalAt pool batch p h in
    Moves-le pool ev.net_a _ _ p ev.swap at.net (bucket_net_swap-Moves pool ev.net_a p at.swapped)
