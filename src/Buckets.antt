-- ===== src/Buckets.antt =====
-- V3 bucket math: aggregator/src/buckets.ts. Prices are square roots scaled by `scale`.
-- A difference of prices is written as the source has it. It is exact where the source's own guard
-- or stated precondition orders the two prices; the callers meet it (Buckets/Deposit, Trace/Step).
pub mod Deposit
pub mod Swap
mod Tests
use quetzaldex.Prelude.{ℕ, ◌+◌, ◌-◌, ◌*◌, ◌/◌, ltb, leb, if◌then◌else◌}
use quetzaldex.Prelude.Int.{ℤ}
use quetzaldex.Prelude.Result.{Result, ok, err, ◌>>=◌}
use quetzaldex.FixedPoint.{scale, mul_div, div}

pub record BucketBounds : Type 0 where
  pub sqrt_lower : ℕ
  pub sqrt_upper : ℕ

-- The reserves are integers, since a clearing adds signed flows to them.
pub record BucketState : Type 0 where
  pub reserve_a : ℤ
  pub reserve_b : ℤ
  pub liquidity : ℕ
  pub cum_fee_a_per_share : ℕ
  pub cum_fee_b_per_share : ℕ

pub record DepositMath : Type 0 where
  pub l_used : ℕ
  pub used_a : ℕ
  pub used_b : ℕ

pub compute_deposit_in_range : ℕ → ℕ → ℕ → ℕ → ℕ → Result DepositMath
compute_deposit_in_range x_a x_b sqrt_p sqrt_lower sqrt_upper = do
  sqrt_p_x_upper ← mul_div sqrt_p sqrt_upper scale
  let span_upper = sqrt_upper - sqrt_p
  let span_lower = sqrt_p - sqrt_lower
  l_a ← mul_div x_a sqrt_p_x_upper span_upper
  l_b ← mul_div x_b scale span_lower
  let used = if ltb l_a l_b then l_a else l_b
  used_a ← mul_div used span_upper sqrt_p_x_upper
  used_b ← mul_div used span_lower scale
  ok (record { l_used = used; used_a = used_a; used_b = used_b })

pub compute_deposit_below_range : ℕ → ℕ → ℕ → Result DepositMath
compute_deposit_below_range x_a sqrt_lower sqrt_upper = do
  sqrt_lower_x_upper ← mul_div sqrt_lower sqrt_upper scale
  let span = sqrt_upper - sqrt_lower
  l ← mul_div x_a sqrt_lower_x_upper span
  ok (record { l_used = l; used_a = x_a; used_b = 0 })

pub compute_deposit_above_range : ℕ → ℕ → ℕ → Result DepositMath
compute_deposit_above_range x_b sqrt_lower sqrt_upper = do
  let span = sqrt_upper - sqrt_lower
  l ← mul_div x_b scale span
  ok (record { l_used = l; used_a = 0; used_b = x_b })

pub compute_deposit : ℕ → ℕ → ℕ → BucketBounds → Result DepositMath
compute_deposit x_a x_b sqrt_p bounds =
    if leb sqrt_p bounds.sqrt_lower
    then compute_deposit_below_range x_a bounds.sqrt_lower bounds.sqrt_upper
    else if leb bounds.sqrt_upper sqrt_p
    then compute_deposit_above_range x_b bounds.sqrt_lower bounds.sqrt_upper
    else compute_deposit_in_range x_a x_b sqrt_p bounds.sqrt_lower bounds.sqrt_upper

pub max_a_in_to_upper : BucketState → BucketBounds → ℕ → Result ℕ
max_a_in_to_upper state bounds sqrt_p = do
  let span = bounds.sqrt_upper - sqrt_p
  denom ← mul_div sqrt_p bounds.sqrt_upper scale
  mul_div state.liquidity span denom

pub max_b_in_to_lower : BucketState → BucketBounds → ℕ → Result ℕ
max_b_in_to_lower state bounds sqrt_p = do
  let span = sqrt_p - bounds.sqrt_lower
  mul_div state.liquidity span scale

-- Token B goes in, the pool moves up.
unfoldable pub next_sqrt_p_up : ℕ → ℕ → ℕ → Result ℕ
next_sqrt_p_up l sqrt_p delta_b = do q ← div (delta_b * scale) l; ok (sqrt_p + q)

-- Token A goes in, the pool moves down; floored twice.
unfoldable pub next_sqrt_p_down : ℕ → ℕ → ℕ → Result ℕ
next_sqrt_p_down l sqrt_p delta_a =
    let denom = l + delta_a * sqrt_p / scale in div (sqrt_p * l) denom

-- Token A paid out by a move up, where sqrt_p ≤ sqrt_p_new.
unfoldable pub swap_step_out_a : ℕ → ℕ → ℕ → Result ℕ
swap_step_out_a l sqrt_p sqrt_p_new =
    let denom = sqrt_p * sqrt_p_new / scale in div (l * (sqrt_p_new - sqrt_p)) denom

-- Token B paid out by a move down, where sqrt_p_new ≤ sqrt_p.
unfoldable pub swap_step_out_b : ℕ → ℕ → ℕ → Result ℕ
swap_step_out_b l sqrt_p sqrt_p_new = ok (l * (sqrt_p - sqrt_p_new) / scale)
