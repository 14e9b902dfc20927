-- ===== src/Prelude/Map.antt =====
-- The language's `Map` and `Set` with numeric keys, in insertion order.
use Prim.Native.Nat.{ℕ}
use mathlib.Core.Path.{◌≡◌, refl}
use mathlib.Core.Logic.{inl, inr}
use mathlib.Core.Bool.{Bool, true, false, ◌||◌}
use mathlib.Core.Option.{Option, none, some}
use mathlib.Core.List.{List, [], ◌∷◌}
use native.Mathlib.Omega.{arith}
use quetzaldex.Prelude.Tests.{◌==◌, if◌then◌else◌, Bool-cases}

module _ {ℓ} {V : Type ℓ} where
  abbrev pub lookup : ℕ → List (ℕ × V) → Option V
  lookup k [] = none
  lookup k ((j, v) ∷ m) = if j == k then some v else lookup k m

  -- An existing key keeps its place.
  abbrev pub insert : ℕ → V → List (ℕ × V) → List (ℕ × V)
  insert k v [] = (k, v) ∷ []
  insert k v ((j, w) ∷ m) = if j == k then (k, v) ∷ m else (j, w) ∷ insert k v m

  abbrev pub erase : ℕ → List (ℕ × V) → List (ℕ × V)
  erase k [] = []
  erase k ((j, v) ∷ m) = if j == k then m else (j, v) ∷ erase k m

  pub lookup-insert :
      (k j : ℕ) (v : V) (m : List (ℕ × V))
      → lookup j (insert k v m) ≡ (if k == j then some v else lookup j m)
  lookup-insert k j v [] = refl
  lookup-insert k j v ((i, w) ∷ m) = ground (arith, lookup-insert k j v m)

abbrev pub has : ℕ → List ℕ → Bool
has k [] = false
has k (j ∷ s) = (j == k) || has k s

abbrev pub add : ℕ → List ℕ → List ℕ
add k s = if has k s then s else k ∷ s

pub has-add_self : (k : ℕ) (s : List ℕ) → has k (add k s) ≡ true
has-add_self k s = elim (Bool-cases (has k s)) [ inl h ↦ rw h h | inr h ↦ ground arith ]

pub has-add_keep : (k j : ℕ) (s : List ℕ) → has j s ≡ true → has j (add k s) ≡ true
has-add_keep k j s h = elim (Bool-cases (has k s)) [ inl e ↦ rw e h | inr e ↦ ground arith ]
