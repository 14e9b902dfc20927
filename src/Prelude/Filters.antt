-- ===== src/Prelude/Filters.antt =====
-- Laws of the Boolean `filter`.
use Prim.Native.Nat.{ℕ, ◌≤◌}
use mathlib.Core.Path.{◌≡◌, refl}
use mathlib.Core.Bool.{Bool, true}
use mathlib.Core.List.{List, [], ◌∷◌}
use native.Mathlib.Omega.{arith}
use quetzaldex.Prelude.Tests.{if◌then◌else◌}
use quetzaldex.Prelude.Lists.{filter, length, length-filter-le, sum_by}

module _ {ℓ} {A : Type ℓ} where
  abbrev pub Implies : (A → Bool) → (A → Bool) → Type ℓ
  Implies f g = (x : A) → f x ≡ true → g x ≡ true

  pub length-filter_mono :
      (f g : A → Bool) (xs : List A) → Implies f g → length (filter f xs) ≤ length (filter g xs)
  length-filter_mono f g [] h = omega arith
  length-filter_mono f g (x ∷ xs) h = ground (arith, h x, length-filter_mono f g xs h)

  -- Of two nested filters with results of one length, the results are one.
  pub filter-eq_of_length :
      (f g : A → Bool) (xs : List A)
      → Implies f g
      → length (filter f xs) ≡ length (filter g xs)
      → filter f xs ≡ filter g xs
  filter-eq_of_length f g [] h e = refl
  filter-eq_of_length f g (x ∷ xs) h e =
      ground (arith, h x, length-filter_mono f g xs h, filter-eq_of_length f g xs h)

  pub filter-all :
      (f : A → Bool) (xs : List A) → length (filter f xs) ≡ length xs → filter f xs ≡ xs
  filter-all f [] e = refl
  filter-all f (x ∷ xs) e = ground (arith, length-filter-le f xs, filter-all f xs)

  -- A sum over a filter, as a sum over the whole.
  pub filter-sum :
      (f : A → Bool) (w : A → ℕ) (xs : List A)
      → sum_by w (filter f xs) ≡ sum_by (λ x. if f x then w x else 0) xs
  filter-sum f w [] = refl
  filter-sum f w (x ∷ xs) = ground (arith, filter-sum f w xs)
