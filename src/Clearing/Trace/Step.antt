-- ===== src/Clearing/Trace/Step.antt =====
-- One swap step inside a bucket: how much goes in, and where the price lands.
use quetzaldex.Prelude.{
  ℕ, ◌+◌, ◌-◌, ◌*◌, ◌/◌, ◌≤◌, ◌<◌, ◌≡◌, ◌⊎◌, inl, inr, Bool, true, false, arith, leb, leb→le,
  leb→gt, Bool-cases,
}
use quetzaldex.Prelude.Result.{ok, >>=-eq-ok}
use quetzaldex.FixedPoint.{scale}
use quetzaldex.FixedPoint.Laws.{div-ok}
use quetzaldex.Buckets.{BucketBounds}
use quetzaldex.Buckets.Swap.{next_sqrt_p_up-ok, next_sqrt_p_down-le}
use quetzaldex.Clearing.Trace.{
  SwapStep, swap_step, partial_step, full_step, step_in_max, step_out, next_sqrt_p, far_edge,
}
use native.Mathlib.Nat.{mul-le-mul_right, le_trans, div-le_of_le-mul, div-mul-le_self}

abbrev pub Cases : Bool → ℕ → BucketBounds → ℕ → ℕ → SwapStep → Type 0
Cases up l b p input s =
    (max : ℕ) × (step_in_max up l b p ≡ ok max)
    × ((input ≤ max) × (partial_step up l p input ≡ ok s)
        ⊎ (max < input) × (full_step up l b p input max ≡ ok s))

pub swap_step-Cases :
    (up : Bool) (l : ℕ) (b : BucketBounds) (p input : ℕ) {s : SwapStep}
    → swap_step up l b p input ≡ ok s
    → Cases up l b p input s
unfolding swap_step
swap_step-Cases up l b p input h =
    let (max, e, k) = >>=-eq-ok (step_in_max up l b p) _ h in
    elim (Bool-cases (leb input max)) [
      | inl t ↦ (max, e, inl (leb→le input max t, (rw t at k)))
      | inr t ↦ (max, e, inr (leb→gt input max t, (rw t at k)))
    ]

pub partial_step-ok :
    (up : Bool) (l p input : ℕ) {s : SwapStep}
    → partial_step up l p input ≡ ok s
    → (s.step_in ≡ input)
      × (s.left ≡ 0)
      × (next_sqrt_p up l p input ≡ ok s.sqrt_p_new)
      × (step_out up l p s.sqrt_p_new ≡ ok s.step_out)
unfolding partial_step
partial_step-ok up l p input h =
    let (q, e, h1) = >>=-eq-ok (next_sqrt_p up l p input) _ h in
    let (o, f, h2) = >>=-eq-ok (step_out up l p q) _ h1 in ground arith

pub full_step-ok :
    (up : Bool) (l : ℕ) (b : BucketBounds) (p input max : ℕ) {s : SwapStep}
    → full_step up l b p input max ≡ ok s
    → (s.step_in ≡ max)
      × (s.left ≡ input - max)
      × (s.sqrt_p_new ≡ far_edge up b)
      × (step_out up l p s.sqrt_p_new ≡ ok s.step_out)
unfolding full_step
full_step-ok up l b p input max h =
    let (o, f, h2) = >>=-eq-ok (step_out up l p (far_edge up b)) _ h in ground arith

-- Nothing is lost: what is not swapped in this bucket is left for the next.
pub step_in-add-left :
    (up : Bool) (l : ℕ) (b : BucketBounds) (p input : ℕ) {s : SwapStep}
    → swap_step up l b p input ≡ ok s
    → s.step_in + s.left ≡ input
step_in-add-left up l b p input {s} h = go (swap_step-Cases up l b p input h)
  where
    go : Cases up l b p input s → s.step_in + s.left ≡ input
    go (max, e, inl (le, k)) = omega (arith, partial_step-ok up l p input k)
    go (max, e, inr (gt, k)) = omega (arith, full_step-ok up l b p input max k)

abbrev pub Within : BucketBounds → ℕ → Type 0
Within b p = (b.sqrt_lower ≤ p) × (p ≤ b.sqrt_upper)

-- The direction of the move; upwards it also stays in the bucket.
abbrev pub Moved : Bool → BucketBounds → ℕ → ℕ → Type 0
Moved true b p q = (p ≤ q) × (q ≤ b.sqrt_upper)
Moved false b p q = q ≤ p

up_room :
    (l p up input : ℕ) → 0 < l → p ≤ up → input ≤ l * (up - p) / scale → p + input * scale / l ≤ up
up_room l p up input pos h k = omega (arith, fits)
  where
    fits : input * scale / l ≤ up - p
    fits =
        div-le_of_le-mul l
          (le_trans (mul-le-mul_right scale k) (div-mul-le_self (l * (up - p)) scale))

pub step-Moved :
    (up : Bool) (l : ℕ) (b : BucketBounds) (p input : ℕ) {s : SwapStep}
    → Within b p
    → swap_step up l b p input ≡ ok s
    → Moved up b p s.sqrt_p_new
unfolding step_in_max next_sqrt_p far_edge
step-Moved true l b p input {s} w h = go (swap_step-Cases true l b p input h)
  where
    go : Cases true l b p input s → Moved true b p s.sqrt_p_new
    go (max, e, inl (le, k)) = ground (
      arith,
      partial_step-ok true l p input k,
      div-ok (l * (b.sqrt_upper - p)) scale e,
      next_sqrt_p_up-ok l p input (partial_step-ok true l p input k).2,
      up_room l p b.sqrt_upper input,
    )
    go (max, e, inr (gt, k)) = ground (arith, full_step-ok true l b p input max k)
step-Moved false l b p input {s} w h = go (swap_step-Cases false l b p input h)
  where
    go : Cases false l b p input s → Moved false b p s.sqrt_p_new
    go (max, e, inl (le, k)) = next_sqrt_p_down-le l p input (partial_step-ok false l p input k).2
    go (max, e, inr (gt, k)) = ground (arith, full_step-ok false l b p input max k)
