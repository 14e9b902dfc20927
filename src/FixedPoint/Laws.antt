-- ===== src/FixedPoint/Laws.antt =====
-- What a division that did not throw returned.
use quetzaldex.Prelude.{ℕ, ◌*◌, ◌/◌, ◌<◌, ◌≡◌, arith}
use quetzaldex.Prelude.Result.{ok}
use quetzaldex.FixedPoint.{mul_div, div}

pub mul_div-ok : (a b c : ℕ) {q : ℕ} → mul_div a b c ≡ ok q → (0 < c) × (q ≡ a * b / c)
unfolding mul_div
mul_div-ok a b c h = ground arith

pub div-ok : (a b : ℕ) {q : ℕ} → div a b ≡ ok q → (0 < b) × (q ≡ a / b)
unfolding div
div-ok a b h = ground arith

pub div_pos : (a b : ℕ) → 0 < b → div a b ≡ ok (a / b)
unfolding div
div_pos a b h = ground arith
