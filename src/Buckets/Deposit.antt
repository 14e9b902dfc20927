-- ===== src/Buckets/Deposit.antt =====
-- What a deposit takes and where it cannot fail: compute_deposit of aggregator/src/buckets.ts.
use quetzaldex.Prelude.{
  ℕ, ◌≤◌, ◌<◌, ◌≡◌, ◌-◌, ◌*◌, ◌/◌, arith, ltb, leb, if◌then◌else◌, Bool, true, false,
}
use quetzaldex.Prelude.Result.{ok, >>=-eq-ok}
use quetzaldex.Prelude.Nats.{floor_back, div_mono}
use quetzaldex.FixedPoint.{scale, mul_div}
use quetzaldex.FixedPoint.Laws.{mul_div-ok}
use quetzaldex.Buckets.{
  BucketBounds, DepositMath, compute_deposit, compute_deposit_in_range, compute_deposit_below_range,
  compute_deposit_above_range,
}
use native.Mathlib.Nat.{mul-le-mul_right, le_trans}

abbrev pub IsCovered : ℕ → ℕ → DepositMath → Type 0
IsCovered x_a x_b d = (d.used_a ≤ x_a) × (d.used_b ≤ x_b)

-- `l` was sized on `x`, and at most `l` is used: the cost of it is at most `x`.
cost_le : (x s l used span : ℕ) → 0 < s → used ≤ x * s / span → used * span / s ≤ x
cost_le x s l used span pos h =
    le_trans (div_mono _ _ s pos (mul-le-mul_right span h)) (floor_back x s span)

min_le : (a b : ℕ) → ((if ltb a b then a else b) ≤ a) × ((if ltb a b then a else b) ≤ b)
min_le a b = ground arith

in_range-IsCovered :
    (x_a x_b p lo up : ℕ) {d : DepositMath}
    → compute_deposit_in_range x_a x_b p lo up ≡ ok d
    → IsCovered x_a x_b d
unfolding compute_deposit_in_range
in_range-IsCovered x_a x_b p lo up h =
    let (s, es, h1) = >>=-eq-ok (mul_div p up scale) _ h in
    let (la, ea, h2) = >>=-eq-ok (mul_div x_a s (up - p)) _ h1 in
    let (lb, eb, h3) = >>=-eq-ok (mul_div x_b scale (p - lo)) _ h2 in
    let used : ℕ = if ltb la lb then la else lb in
    let (ua, e1, h4) = >>=-eq-ok (mul_div used (up - p) s) _ h3 in
    let (ub, e2, h5) = >>=-eq-ok (mul_div used (p - lo) scale) _ h4 in
    ground (
      arith,
      min_le la lb,
      mul_div-ok _ _ _ ea,
      mul_div-ok _ _ _ eb,
      mul_div-ok _ _ _ e1,
      mul_div-ok _ _ _ e2,
      cost_le x_a s la used (up - p),
      cost_le x_b scale lb used (p - lo),
    )

below_range-IsCovered :
    (x_a x_b lo up : ℕ) {d : DepositMath}
    → compute_deposit_below_range x_a lo up ≡ ok d
    → IsCovered x_a x_b d
unfolding compute_deposit_below_range
below_range-IsCovered x_a x_b lo up h =
    let (s, es, h1) = >>=-eq-ok (mul_div lo up scale) _ h in
    let (l, el, h2) = >>=-eq-ok (mul_div x_a s (up - lo)) _ h1 in ground arith

above_range-IsCovered :
    (x_a x_b lo up : ℕ) {d : DepositMath}
    → compute_deposit_above_range x_b lo up ≡ ok d
    → IsCovered x_a x_b d
unfolding compute_deposit_above_range
above_range-IsCovered x_a x_b lo up h =
    let (l, el, h2) = >>=-eq-ok (mul_div x_b scale (up - lo)) _ h in ground arith

-- Wherever the price lies, a deposit that is computed takes no more of either token than was
-- offered.
pub compute_deposit-IsCovered :
    (x_a x_b p : ℕ) (b : BucketBounds) {d : DepositMath}
    → compute_deposit x_a x_b p b ≡ ok d
    → IsCovered x_a x_b d
unfolding compute_deposit
compute_deposit-IsCovered x_a x_b p b h = go (leb p b.sqrt_lower) (leb b.sqrt_upper p) h
  where
    go :
        (s t : Bool) {d : DepositMath}
        → (if s
            then compute_deposit_below_range x_a b.sqrt_lower b.sqrt_upper
            else if t
            then compute_deposit_above_range x_b b.sqrt_lower b.sqrt_upper
            else compute_deposit_in_range x_a x_b p b.sqrt_lower b.sqrt_upper)
          ≡ ok d
        → IsCovered x_a x_b d
    go true t k = below_range-IsCovered x_a x_b b.sqrt_lower b.sqrt_upper k
    go false true k = above_range-IsCovered x_a x_b b.sqrt_lower b.sqrt_upper k
    go false false k = in_range-IsCovered x_a x_b p b.sqrt_lower b.sqrt_upper k
