-- ===== src/Prelude/Keys.antt =====
-- Maps whose keys are distinct, and what holds of every entry.
use quetzaldex.Prelude.Tests.{◌==◌, ==_iff, Bool-cases}
use quetzaldex.Prelude.Lists.{All, filter}
use quetzaldex.Prelude.Map.{lookup, insert, erase}
use Prim.Native.Nat.{ℕ}
use mathlib.Core.Path.{◌≡◌, refl, subst}
use mathlib.Core.Logic.{inl, inr}
use mathlib.Core.Bool.{Bool, false}
use mathlib.Core.Option.{none, some}
use mathlib.Core.List.{List, [], ◌∷◌}
use native.Mathlib.Omega.{arith}

abbrev pub Keys : {V : Type 0} → List (ℕ × V) → Type 0
Keys [] = Unit
Keys ((k, v) ∷ m) = (lookup k m ≡ none) × Keys m

module _ {V : Type 0} where
  pub insert-All :
      (P : ℕ × V → Type 0) (k : ℕ) (v : V) (m : List (ℕ × V))
      → P (k, v)
      → All P m
      → All P (insert k v m)
  insert-All P k v [] h a = (h, tt)
  insert-All P k v ((j, w) ∷ m) h a = elim (Bool-cases (j == k)) [
    | inl e ↦ rw e (h, a.1)
    | inr e ↦ rw e (a.0, insert-All P k v m h a.1)
  ]

  pub erase-All : (P : ℕ × V → Type 0) (k : ℕ) (m : List (ℕ × V)) → All P m → All P (erase k m)
  erase-All P k [] a = tt
  erase-All P k ((j, w) ∷ m) a = elim (Bool-cases (j == k)) [
    | inl e ↦ rw e a.1
    | inr e ↦ rw e (a.0, erase-All P k m a.1)
  ]

  pub lookup-All :
      (P : ℕ × V → Type 0) (k : ℕ) (m : List (ℕ × V)) (v : V)
      → lookup k m ≡ some v
      → All P m
      → P (k, v)
  lookup-All P k [] v h a = cc
  lookup-All P k ((j, w) ∷ m) v h a = elim (Bool-cases (j == k)) [
    | inr e ↦ lookup-All P k m v (rw e at h) a.1
    | inl e ↦
        let q : w ≡ v = ground arith in
        let r : j ≡ k = (==_iff j k).0 e in subst (λ x. P (k, x)) q (subst (λ x. P (x, w)) r a.0)
  ]

  filter-none :
      (f : ℕ × V → Bool) (k : ℕ) (m : List (ℕ × V))
      → lookup k m ≡ none
      → lookup k (filter f m) ≡ none
  filter-none f k [] h = refl
  filter-none f k ((j, w) ∷ m) h = ground (arith, filter-none f k m)

  pub filter-Keys : (f : ℕ × V → Bool) (m : List (ℕ × V)) → Keys m → Keys (filter f m)
  filter-Keys f [] h = tt
  filter-Keys f ((j, w) ∷ m) h = elim (Bool-cases (f (j, w))) [
    | inl e ↦ rw e (filter-none f j m h.0, filter-Keys f m h.1)
    | inr e ↦ rw e (filter-Keys f m h.1)
  ]

  insert-none :
      (k j : ℕ) (v : V) (m : List (ℕ × V))
      → lookup j m ≡ none
      → (j == k) ≡ false
      → lookup j (insert k v m) ≡ none
  insert-none k j v [] h e = ground arith
  insert-none k j v ((i, w) ∷ m) h e = ground (arith, insert-none k j v m)

  pub insert-Keys : (k : ℕ) (v : V) (m : List (ℕ × V)) → Keys m → Keys (insert k v m)
  insert-Keys k v [] h = (refl, tt)
  insert-Keys k v ((j, w) ∷ m) h = elim (Bool-cases (j == k)) [
    | inl e ↦ let r : j ≡ k = (==_iff j k).0 e in rw e (subst (λ x. lookup x m ≡ none) r h.0, h.1)
    | inr e ↦ rw e (insert-none k j v m h.0 e, insert-Keys k v m h.1)
  ]

  erase-none : (k j : ℕ) (m : List (ℕ × V)) → lookup j m ≡ none → lookup j (erase k m) ≡ none
  erase-none k j [] h = refl
  erase-none k j ((i, w) ∷ m) h = ground (arith, erase-none k j m)

  pub erase-Keys : (k : ℕ) (m : List (ℕ × V)) → Keys m → Keys (erase k m)
  erase-Keys k [] h = tt
  erase-Keys k ((j, w) ∷ m) h = elim (Bool-cases (j == k)) [
    | inl e ↦ rw e h.1
    | inr e ↦ rw e (erase-none k j m h.0, erase-Keys k m h.1)
  ]
