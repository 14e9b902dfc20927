-- ===== src/Validate/Fold.antt =====
-- What the accumulator check admits.
use mathlib.Core.List.{Perm}
use quetzaldex.Prelude.{
  ℕ, ◌≡◌, ◌≢◌, true, false, List, [], Option, ◌==◌, ==_iff, arith, inl, inr, Bool-cases, String,
}
use quetzaldex.Prelude.Int.{ℤ}
use quetzaldex.Prelude.Result.{Result, ok, >>=-eq-ok}
use quetzaldex.Prelude.Sort.{Sorted, sort_by-Sorted, sort_by-perm}
use quetzaldex.Queue.{RevealPayload}
use quetzaldex.Validate.{
  ValidatedReveal, earlier, sort_reveals, parse_all, replayed, validate_reveals,
}

earlier-total : (x y : ValidatedReveal) → earlier x y ≡ false → earlier y x ≡ true
earlier-total x y h = ground arith

pub earlier_trans :
    (x y z : ValidatedReveal) → earlier x y ≡ true → earlier y z ≡ true → earlier x z ≡ true
earlier_trans x y z h k = ground arith

-- The order in which the accumulator is replayed.
pub sort_reveals-Sorted : (rs : List ValidatedReveal) → Sorted earlier (sort_reveals rs)
unfolding sort_reveals
sort_reveals-Sorted rs = sort_by-Sorted earlier earlier-total earlier_trans rs

pub sort_reveals-perm : (rs : List ValidatedReveal) → Perm (sort_reveals rs) rs
unfolding sort_reveals
sort_reveals-perm rs = sort_by-perm earlier rs

module _ (poseidon2 : List ℤ → Result ℕ) (big_int : String → Option ℤ)
    (fr_from_string : String → Option ℕ) where
  -- Reveals that a validation returns, where there are any, replay to the accumulator, are all
  -- the reveals that parse, none lost or added, and stand in the canonical order.
  pub validate_reveals-Replayed :
      (reveals : List RevealPayload) (expected : ℕ) (rs : List ValidatedReveal)
      → validate_reveals poseidon2 big_int fr_from_string reveals expected ≡ ok rs
      → rs ≢ []
      → (replayed poseidon2 rs ≡ ok expected)
        × Perm rs (parse_all big_int fr_from_string reveals)
        × Sorted earlier rs
  unfolding validate_reveals
  validate_reveals-Replayed reveals expected rs e h =
      let parsed = parse_all big_int fr_from_string reveals in
      let (acc, hashed, shown) = >>=-eq-ok (replayed poseidon2 (sort_reveals parsed)) _ e in
      elim (Bool-cases (acc == expected)) [
        | inl t ↦
            let kept : ok (sort_reveals parsed) ≡ ok rs = rw t at shown in
            let same : sort_reveals parsed ≡ rs = cc in
            rw (← same) (
              rw (← (==_iff acc expected).0 t) hashed,
              sort_reveals-perm parsed,
              sort_reveals-Sorted parsed,
            )
        | inr f ↦ let empty : ok [] ≡ ok rs = rw f at shown in absurd (h cc)
      ]
