-- ===== src/Merkle/Powers.antt =====
-- Powers of two, as buildHopFillsTree tests them.
use native.Mathlib.Nat.{pow-zero, pow-succ'}
use quetzaldex.Prelude.{ℕ, zero, suc, ◌-◌, ◌*◌, ◌/◌, ◌%◌, ◌^◌, ◌≤◌, ◌≡◌, refl, true, ==_iff, arith}
use quetzaldex.Merkle.{land_bits, is_power_of_two}

land_bits-zero : (n a : ℕ) → land_bits n a 0 ≡ 0
unfolding land_bits
land_bits-zero zero a = refl
land_bits-zero (suc n) a = omega (arith, land_bits-zero n (a / 2))

land_bits-power : (k n : ℕ) → land_bits k (2 ^ n) (2 ^ n - 1) ≡ 0
unfolding land_bits
land_bits-power zero n = refl
land_bits-power (suc k) zero = omega (arith, land_bits-zero k 0)
land_bits-power (suc k) (suc n) =
    let double : 2 ^ suc n ≡ 2 * 2 ^ n = pow-succ' 2 n in
    let even : 2 ^ suc n % 2 ≡ 0 = omega (arith, double) in
    let half : 2 ^ suc n / 2 ≡ 2 ^ n = omega (arith, double) in
    let half_less : (2 ^ suc n - 1) / 2 ≡ 2 ^ n - 1 = omega (arith, double) in
    rw (even, half, half_less, land_bits-power k n) (omega arith)

pub is_power_of_two-power : (n : ℕ) → is_power_of_two (2 ^ n) ≡ true
unfolding is_power_of_two
is_power_of_two-power n = (==_iff (land_bits 32 (2 ^ n) (2 ^ n - 1)) 0).1 (land_bits-power 32 n)

pub power-ge : (n : ℕ) → suc n ≤ 2 ^ n
power-ge zero = omega (arith, pow-zero 2)
power-ge (suc n) = omega (arith, pow-succ' 2 n, power-ge n)
