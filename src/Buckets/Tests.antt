-- ===== src/Buckets/Tests.antt =====
-- A deposit run at a price inside its bucket.
use quetzaldex.Prelude.{◌≡◌, refl}
use quetzaldex.Prelude.Result.{ok}
use quetzaldex.FixedPoint.{mul_div}
use quetzaldex.Buckets.{
  BucketBounds, DepositMath, compute_deposit, compute_deposit_in_range, compute_deposit_above_range,
  compute_deposit_below_range,
}
use quetzaldex.Buckets.Deposit.{IsCovered, compute_deposit-IsCovered}

abbrev bounds : BucketBounds
bounds = record { sqrt_lower = 1_000_000_000_000_000_000; sqrt_upper = 2_000_000_000_000_000_000 }

abbrev deposit : DepositMath
deposit = record { l_used = 1_200; used_a = 200; used_b = 600 }

deposited : compute_deposit 200 900 1_500_000_000_000_000_000 bounds ≡ ok deposit
unfolding compute_deposit compute_deposit_in_range compute_deposit_above_range
    compute_deposit_below_range mul_div
deposited = refl

compute_deposit-IsCovered_example : IsCovered 200 900 deposit
compute_deposit-IsCovered_example =
    compute_deposit-IsCovered 200 900 1_500_000_000_000_000_000 bounds deposited
