-- ===== src/Clearing/Price/Search.antt =====
-- The search of a two-sided book: a price that it returns lies in the band, has eligible orders, and
-- does not saturate the pool.
use quetzaldex.Prelude.{
  ℕ, suc, zero, ◌+◌, ◌-◌, ◌/◌, ◌≤◌, ◌≡◌, ◌≢◌, refl, true, false, not, ◌||◌, List, [], Option, some,
  arith, inl, inr, ◌⊎◌, leb, Bool-cases,
}
use quetzaldex.Prelude.Result.{Result, ok, >>=-eq-ok}
use quetzaldex.Clearing.Types.{ClearingOrder, PoolWithBuckets, PriceEval}
use quetzaldex.Clearing.Price.{
  Probe, residual, too_high, too_low, gap, judge, probe, clearing_at, is_residual, is_close,
  is_positive, endpoint, narrow, steer, bisect, two_sided_price, max_iters, is_gap, lo_ok, hi_ok,
}

-- Orders can trade at `p`, and the pool can take their imbalance.
pub record Tradable (pool : PoolWithBuckets) (batch : List ClearingOrder) (p : ℕ) : Type 0 where
  pub ev : PriceEval
  pub evaluated : clearing_at pool batch p ≡ ok ev
  pub fits : ev.swap.saturated ≡ false
  pub eligible : (ev.eligible_buys ≢ []) ⊎ (ev.eligible_sells ≢ [])

judge-residual :
    (batch : List ClearingOrder) (p : ℕ) (ev : PriceEval)
    → is_residual (judge batch p ev) ≡ true
    → (ev.swap.saturated ≡ false) × ((ev.eligible_buys ≢ []) ⊎ (ev.eligible_sells ≢ []))
unfolding judge
judge-residual batch p ev h = ground arith

probe-Tradable :
    (pool : PoolWithBuckets) (batch : List ClearingOrder) (p : ℕ) (m : Probe)
    → probe pool batch p ≡ ok m
    → is_residual m ≡ true
    → Tradable pool batch p
unfolding probe
probe-Tradable pool batch p m h r =
    let (ev, e, k) = >>=-eq-ok (clearing_at pool batch p) _ h in
    let j : judge batch p ev ≡ m = cc in
    let (fits, eligible) = judge-residual batch p ev (rw j r) in
    record { ev = ev; evaluated = e; fits = fits; eligible = eligible }

module _ (pool : PoolWithBuckets) (batch : List ClearingOrder) where
  -- A price in the interval at which orders can trade.
  abbrev pub Found : ℕ → ℕ → ℕ → Type 0
  Found lo hi p = (lo ≤ p) × (p ≤ hi) × Tradable pool batch p

  endpoint-Found :
      (lo hi : ℕ) {p : ℕ} → lo ≤ hi → endpoint pool batch lo hi ≡ ok (some p) → Found lo hi p
  unfolding endpoint
  endpoint-Found lo hi {p} o h =
      let (l, e, k) = >>=-eq-ok (probe pool batch lo) _ h in
      elim (Bool-cases (is_residual l)) [
        | inl r ↦
            let at : lo ≡ p = ground arith in
            rw (← at) (omega arith, o, probe-Tradable pool batch lo l e r)
        | inr n ↦
            let (m, f, g) = >>=-eq-ok (probe pool batch hi) _ (rw n at k) in
            elim (Bool-cases (is_residual m)) [
              | inl r ↦
                  let at : hi ≡ p = ground arith in
                  rw (← at) (o, omega arith, probe-Tradable pool batch hi m f r)
              | inr u ↦ ground arith
            ]
      ]

  module _ (k : ℕ → ℕ → Result (Option ℕ))
      (rec : (lo hi p : ℕ) → lo ≤ hi → k lo hi ≡ ok (some p) → Found lo hi p) where
    narrow-Found :
        (lo hi : ℕ) {p : ℕ} → lo ≤ hi → narrow pool batch k lo hi ≡ ok (some p) → Found lo hi p
    unfolding narrow
    narrow-Found lo hi {p} o h = elim (Bool-cases (leb (hi - lo) 1)) [
      | inl e ↦ endpoint-Found lo hi o (ground arith)
      | inr e ↦ rec lo hi p o (ground arith)
    ]

    -- Both halves of the interval lie in it.
    steer-Found :
        (lo hi mid : ℕ) (m : Probe) {p : ℕ}
        → lo ≤ mid
        → mid ≤ hi
        → probe pool batch mid ≡ ok m
        → steer pool batch k lo hi mid m ≡ ok (some p)
        → Found lo hi p
    unfolding steer
    steer-Found lo hi mid gap a b e h = cc
    steer-Found lo hi mid too_low a b e h =
        let (l, r, t) = narrow-Found mid hi b h in (omega arith, r, t)
    steer-Found lo hi mid too_high a b e h =
        let (l, r, t) = narrow-Found lo mid a h in (l, omega arith, t)
    steer-Found lo hi mid (residual r) {p} a b e h = elim (Bool-cases (is_close r)) [
      | inl c ↦
          let at : mid ≡ p = ground arith in
          rw (← at) (a, b, probe-Tradable pool batch mid (residual r) e refl)
      | inr c ↦ elim (Bool-cases (is_positive r)) [
        | inl s ↦ let (l, u, t) = narrow-Found mid hi b (rw s at (rw c at h)) in (omega arith, u, t)
        | inr s ↦ let (l, u, t) = narrow-Found lo mid a (rw s at (rw c at h)) in (l, omega arith, t)
      ]
    ]

  bisect-Found : (n lo hi p : ℕ) → lo ≤ hi → bisect pool batch n lo hi ≡ ok (some p) → Found lo hi p
  unfolding bisect
  bisect-Found zero lo hi p o h = cc
  bisect-Found (suc n) lo hi p o h =
      let mid = (lo + hi) / 2 in
      let (m, e, k) = >>=-eq-ok (probe pool batch mid) _ h in
      steer-Found (bisect pool batch n) (λ l u q. bisect-Found n l u q) lo hi mid m (omega arith)
        (omega arith) e k

  -- A price that the bisection returns lies in its interval, and at it an order is eligible and
  -- the pool can take the orders' imbalance.
  pub two_sided_price-Found :
      (lo hi : ℕ) {p : ℕ} → lo ≤ hi → two_sided_price pool batch lo hi ≡ ok (some p) → Found lo hi p
  unfolding two_sided_price
  two_sided_price-Found lo hi {p} o h =
      let (l, e, k) = >>=-eq-ok (probe pool batch lo) _ h in
      let (u, f, g) = >>=-eq-ok (probe pool batch hi) _ k in
      elim (Bool-cases (is_gap l || is_gap u)) [
        | inl c ↦ cc (rw c at g)
        | inr c ↦ elim (Bool-cases (not (lo_ok l) || not (hi_ok u))) [
          | inl d ↦ cc (rw d at (rw c at g))
          | inr d ↦ bisect-Found max_iters lo hi p o (rw d at (rw c at g))
        ]
      ]
