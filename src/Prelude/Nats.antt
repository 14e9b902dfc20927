-- ===== src/Prelude/Nats.antt =====
-- Laws of products and quotients that the fixed-point code needs.
use Prim.Native.Nat.{ℕ, ◌*◌, ◌/◌, ◌≤◌, ◌<◌}
use native.Mathlib.Omega.{arith}
use native.Mathlib.Nat.{
  div-mul-le_self, div-le_of_le-mul, mul-le-mul_left, le_trans, le-div_iff_mul-le, mul_comm,
  le_of_mul-le-mul_right,
}

-- Rounding down twice never gains: (x * s / l) * l / s ≤ x.
pub floor_back : (x s l : ℕ) → x * s / l * l / s ≤ x
floor_back x s l = div-le_of_le-mul s (omega (arith, div-mul-le_self (x * s) l))

pub floor_share : (f p t : ℕ) → f * p / t * t ≤ f * p
floor_share f p t = div-mul-le_self (f * p) t

pub div_mono : (a b c : ℕ) → 0 < c → a ≤ b → a / c ≤ b / c
div_mono a b c pos h = (le-div_iff_mul-le pos).1 (le_trans (div-mul-le_self a c) h)

-- q * c ≤ a * b gives a bound on q where b ≤ c
pub scale_le : (a b c : ℕ) → b ≤ c → a * b / c ≤ a
scale_le a b c h = div-le_of_le-mul c (omega (arith, mul-le-mul_left a h, mul_comm a c))

pub le_of_scaled : (a b c : ℕ) → 0 < c → a * c ≤ b * c → a ≤ b
le_of_scaled a b c pos h = le_of_mul-le-mul_right h pos
