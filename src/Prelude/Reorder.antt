-- ===== src/Prelude/Reorder.antt =====
-- Sorting forgets the order that its list came in.
use mathlib.Core.List.{Permᴰ}
use quetzaldex.Prelude.Tests.{Bool-cases}
use quetzaldex.Prelude.Lists.{All}
use quetzaldex.Prelude.Sort.{insert_by, sort_by, Sorted}
use mathlib.Core.Path.{◌≡◌, refl, sym, ap, ◌∙◌, subst}
use mathlib.Core.Logic.{◌⊎◌, inl, inr}
use mathlib.Core.Bool.{Bool, true, false}
use mathlib.Core.List.{List, [], ◌∷◌}

module _ {A : Type 0} (le : A → A → Bool) where
  -- The order decides between two elements; and between any two of a list.
  abbrev pub Decided : A → A → Type 0
  Decided x y = ((le x y ≡ true) × (le y x ≡ false)) ⊎ ((le x y ≡ false) × (le y x ≡ true))

  abbrev pub Apart : List A → Type 0
  Apart [] = Unit
  Apart (x ∷ xs) = All (Decided x) xs × Apart xs

  Decided-symm : (x y : A) → Decided x y → Decided y x
  Decided-symm x y (inl (a, b)) = inr (b, a)
  Decided-symm x y (inr (a, b)) = inl (b, a)

  Permᴰ-All : (P : A → Type 0) {xs ys : List A} → Permᴰ xs ys → All P xs → All P ys
  Permᴰ-All P Permᴰ.nil h = h
  Permᴰ-All P (Permᴰ.cons e d) h = (subst P e h.0, Permᴰ-All P d h.1)
  Permᴰ-All P (Permᴰ.swap e f) h = (subst P f h.1.0, (subst P e h.0, h.1.1))
  Permᴰ-All P (Permᴰ.trans d f) h = Permᴰ-All P f (Permᴰ-All P d h)

  Permᴰ-Apart : {xs ys : List A} → Permᴰ xs ys → Apart xs → Apart ys
  Permᴰ-Apart Permᴰ.nil h = h
  Permᴰ-Apart (Permᴰ.cons {a = a} {b = b} {l₂ = l} e d) h =
      (subst (λ x. All (Decided x) l) e (Permᴰ-All (Decided a) d h.0), Permᴰ-Apart d h.1)
  Permᴰ-Apart (Permᴰ.swap {a = a} {b = b} {a' = a'} {b' = b'} {l = l} e f) h = (
    (
      subst (λ x. Decided x b') f (subst (Decided b) e (Decided-symm a b h.0.0)),
      subst (λ x. All (Decided x) l) f h.1.0,
    ),
    (subst (λ x. All (Decided x) l) e h.0.1, h.1.1),
  )
  Permᴰ-Apart (Permᴰ.trans d f) h = Permᴰ-Apart f (Permᴰ-Apart d h)

  module _ (trans : (x y z : A) → le x y ≡ true → le y z ≡ true → le x z ≡ true) where
    insert_by-insert_by :
        (x y : A) (zs : List A)
        → le x y ≡ true
        → le y x ≡ false
        → insert_by le x (insert_by le y zs) ≡ insert_by le y (insert_by le x zs)
    unfolding insert_by
    insert_by-insert_by x y [] h k = rw (h, k) refl
    insert_by-insert_by x y (z ∷ zs) h k = elim (Bool-cases (le y z)) [
      | inl e ↦ let f = trans x y z h e in rw (e, h, f, k, e) refl
      | inr e ↦ elim (Bool-cases (le x z)) [
        | inl f ↦ rw (e, f, k, e) refl
        | inr f ↦ rw (e, f, e) (ap (λ l. z ∷ l) (insert_by-insert_by x y zs h k))
      ]
    ]

    insert_by_comm :
        (x y : A) (zs : List A)
        → Decided x y
        → insert_by le x (insert_by le y zs) ≡ insert_by le y (insert_by le x zs)
    insert_by_comm x y zs (inl (a, b)) = insert_by-insert_by x y zs a b
    insert_by_comm x y zs (inr (a, b)) = sym (insert_by-insert_by y x zs b a)

    -- Two orders of one list sort to one, where any two of its elements can be told apart.
    pub sort_by-Permᴰ : {xs ys : List A} → Permᴰ xs ys → Apart xs → sort_by le xs ≡ sort_by le ys
    unfolding sort_by
    sort_by-Permᴰ Permᴰ.nil h = refl
    sort_by-Permᴰ (Permᴰ.cons {a = a} {l₂ = l} e d) h =
        ap (insert_by le a) (sort_by-Permᴰ d h.1) ∙ ap (λ x. insert_by le x (sort_by le l)) e
    sort_by-Permᴰ (Permᴰ.swap {a = a} {b = b} {a' = a'} {l = l} e f) h =
        insert_by_comm a b (sort_by le l) h.0.0
        ∙ ap (λ x. insert_by le x (insert_by le a (sort_by le l))) f
        ∙ ap (λ x. insert_by le a' (insert_by le x (sort_by le l))) e
    sort_by-Permᴰ (Permᴰ.trans d f) h = sort_by-Permᴰ d h ∙ sort_by-Permᴰ f (Permᴰ-Apart d h)

  -- A sorted list stays.
  pub sort_by_same : (xs : List A) → Sorted le xs → sort_by le xs ≡ xs
  unfolding sort_by insert_by
  sort_by_same [] h = refl
  sort_by_same (x ∷ []) h = refl
  sort_by_same (x ∷ y ∷ xs) h = rw (sort_by_same (y ∷ xs) h.1) (rw h.0.0 refl)
