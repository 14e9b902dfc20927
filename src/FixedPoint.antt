-- ===== src/FixedPoint.antt =====
-- Fixed-point helpers: aggregator/src/fixed-point.ts. The amounts and prices of the clearing are
-- never negative, so a `bigint` is a natural number here, and `/` on it truncates as in the source.
pub mod Laws
use quetzaldex.Prelude.{ℕ, ◌*◌, ◌/◌, ◌==◌, if◌then◌else◌}
use quetzaldex.Prelude.Result.{Result, ok, err, Error}

-- A price of 1.0.
abbrev pub scale : ℕ
scale = 1_000_000_000_000_000_000

abbrev pub fee_num : ℕ
fee_num = 9970

abbrev pub fee_den : ℕ
fee_den = 10_000

unfoldable pub mul_div : ℕ → ℕ → ℕ → Result ℕ
mul_div a b denom = if denom == 0 then err Error.mul_div_zero else ok (a * b / denom)

-- The language's `a / b` on bigints.
unfoldable pub div : ℕ → ℕ → Result ℕ
div a b = if b == 0 then err Error.division_by_zero else ok (a / b)
