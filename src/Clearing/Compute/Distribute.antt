-- ===== src/Clearing/Compute/Distribute.antt =====
-- The pro-rata distribution of `computeClearing`: the payouts sum to the total exactly.
use quetzaldex.Prelude.{
  ℕ, suc, zero, ◌+◌, ◌-◌, ◌*◌, ◌≤◌, ◌≡◌, ◌≢◌, refl, subst, List, [], ◌∷◌, arith, sum_by,
}
use quetzaldex.Prelude.Result.{ok, >>=-eq-ok}
use quetzaldex.Prelude.Nats.{floor_share, le_of_scaled}
use quetzaldex.FixedPoint.{mul_div}
use quetzaldex.FixedPoint.Laws.{mul_div-ok}
use quetzaldex.Clearing.Types.{ClearingOrder, OrderFill}
use quetzaldex.Clearing.Price.{amount_in}
use quetzaldex.Clearing.Compute.{distribute, fill}
use native.Mathlib.Nat.{mul-le-mul_left, le_trans}

abbrev pub amount_out : OrderFill → ℕ
amount_out f = f.amount_out

-- Each fill is of the order in its place, in full.
abbrev pub FillsFor : List ClearingOrder → List OrderFill → Type 0
FillsFor [] [] = Unit
FillsFor [] (f ∷ fs) = ⊥
FillsFor (o ∷ os) [] = ⊥
FillsFor (o ∷ os) (f ∷ fs) =
    (f.order_nonce ≡ o.order_nonce) × (f.filled_in ≡ o.amount_in) × FillsFor os fs

share_below :
    (total sum acc used : ℕ)
    → acc * sum ≤ total * used
    → used ≤ sum
    → (sum ≡ 0 → acc ≡ 0)
    → acc ≤ total
share_below total zero acc used h k z = omega (arith, z refl)
share_below total (suc s) acc used h k z =
    le_of_scaled acc total (suc s) (omega arith) (le_trans h (mul-le-mul_left total k))

share_next :
    (total sum acc used out a : ℕ)
    → acc * sum ≤ total * used
    → out * sum ≤ total * a
    → (acc + out) * sum ≤ total * (used + a)
share_next total sum acc used out a h k = omega arith

-- `acc` is what was paid for `used` of the sum: the rest of the payouts makes up the total.
distribute-sum :
    (total sum acc used : ℕ) (o : ClearingOrder) (os : List ClearingOrder) {fs : List OrderFill}
    → acc * sum ≤ total * used
    → used + sum_by amount_in (o ∷ os) ≡ sum
    → (sum ≡ 0 → acc ≡ 0)
    → distribute total sum acc (o ∷ os) ≡ ok fs
    → acc + sum_by amount_out fs ≡ total
unfolding distribute
distribute-sum total sum acc used o [] h e z d =
    ground (arith, share_below total sum acc used h (omega arith) z)
distribute-sum total sum acc used o (o' ∷ os) h e z d =
    let (out, d1, r1) = >>=-eq-ok (mul_div total o.amount_in sum) _ d in
    let (rest, d2, r2) = >>=-eq-ok (distribute total sum (acc + out) (o' ∷ os)) _ r1 in
    let (pos, shape) = mul_div-ok total o.amount_in sum d1 in
    let share : out * sum ≤ total * o.amount_in = rw shape (floor_share total o.amount_in sum) in
    let ih =
      distribute-sum total sum (acc + out) (used + o.amount_in) o' os
        (share_next total sum acc used out o.amount_in h share) (omega arith)
        (λ s. absurd (omega arith)) d2 in
    ground arith

pub distribute-FillsFor :
    (total sum acc : ℕ) (os : List ClearingOrder) {fs : List OrderFill}
    → distribute total sum acc os ≡ ok fs
    → FillsFor os fs
unfolding distribute
distribute-FillsFor total sum acc [] {fs} d =
    let shape : ◌≡◌ {A = List OrderFill} [] fs = cc in subst (FillsFor []) shape tt
distribute-FillsFor total sum acc (o ∷ []) {fs} d =
    let shape : fill o (total - acc) ∷ [] ≡ fs = cc in
    subst (FillsFor (o ∷ [])) shape (refl, refl, tt)
distribute-FillsFor total sum acc (o ∷ o' ∷ os) {fs} d =
    let (out, d1, r1) = >>=-eq-ok (mul_div total o.amount_in sum) _ d in
    let (rest, d2, r2) = >>=-eq-ok (distribute total sum (acc + out) (o' ∷ os)) _ r1 in
    let shape : fill o out ∷ rest ≡ fs = cc in
    let ih = distribute-FillsFor total sum (acc + out) (o' ∷ os) d2 in
    subst (FillsFor (o ∷ o' ∷ os)) shape (refl, refl, ih)

-- All of the total is paid out, to the unit.
pub distribute-exact :
    (total : ℕ) (os : List ClearingOrder) {fs : List OrderFill}
    → os ≢ []
    → distribute total (sum_by amount_in os) 0 os ≡ ok fs
    → sum_by amount_out fs ≡ total
distribute-exact total [] n d = absurd (n refl)
distribute-exact total (o ∷ os) n d = omega (
  arith,
  distribute-sum total (sum_by amount_in (o ∷ os)) 0 0 o os (omega arith) (omega arith) (λ z. refl)
      d,
)
