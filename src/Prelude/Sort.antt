-- ===== src/Prelude/Sort.antt =====
-- The language's stable `sort`, as an insertion sort by a test `le x y` for "the comparator is
-- not positive at x y".
use mathlib.Core.List.{Perm}
use mathlib.Core.List.Perm
use quetzaldex.Prelude.Tests.{if◌then◌else◌, Bool-cases}
use quetzaldex.Prelude.Lists.{length, All, All-map, Some, sum_by}
use Prim.Native.Nat.{ℕ, ◌+◌, suc}
use mathlib.Core.Path.{◌≡◌, refl}
use mathlib.Core.Logic.{inl, inr}
use mathlib.Core.Bool.{Bool, true, false}
use mathlib.Core.List.{List, [], ◌∷◌}
use native.Mathlib.Omega.{arith}

module _ {ℓ} {A : Type ℓ} (le : A → A → Bool) where
  unfoldable pub insert_by : A → List A → List A
  insert_by x [] = x ∷ []
  insert_by x (y ∷ ys) = if le x y then x ∷ y ∷ ys else y ∷ insert_by x ys

  unfoldable pub sort_by : List A → List A
  unfolding insert_by
  sort_by [] = []
  sort_by (x ∷ xs) = insert_by x (sort_by xs)

  insert_by-perm : (x : A) (ys : List A) → Perm (insert_by x ys) (x ∷ ys)
  unfolding insert_by
  insert_by-perm x [] = Perm.refl (x ∷ [])
  insert_by-perm x (y ∷ ys) = elim (Bool-cases (le x y)) [
    | inl h ↦ rw h (Perm.refl (x ∷ y ∷ ys))
    | inr h ↦ rw h (Perm.trans (Perm.cons y (insert_by-perm x ys)) (Perm.swap x y ys))
  ]

  -- Sorting neither loses nor invents an element.
  pub sort_by-perm : (xs : List A) → Perm (sort_by xs) xs
  unfolding sort_by
  sort_by-perm [] = Perm.refl []
  sort_by-perm (x ∷ xs) = Perm.trans (insert_by-perm x (sort_by xs)) (Perm.cons x (sort_by-perm xs))

  insert_by-sum : (f : A → ℕ) (x : A) (ys : List A) → sum_by f (insert_by x ys) ≡ f x + sum_by f ys
  unfolding insert_by
  insert_by-sum f x [] = refl
  insert_by-sum f x (y ∷ ys) = ground (arith, insert_by-sum f x ys)

  pub sort_by-sum : (f : A → ℕ) (xs : List A) → sum_by f (sort_by xs) ≡ sum_by f xs
  unfolding sort_by
  sort_by-sum f [] = refl
  sort_by-sum f (x ∷ xs) = omega (arith, insert_by-sum f x (sort_by xs), sort_by-sum f xs)

  insert_by-length : (x : A) (ys : List A) → length (insert_by x ys) ≡ suc (length ys)
  unfolding insert_by
  insert_by-length x [] = refl
  insert_by-length x (y ∷ ys) = ground (arith, insert_by-length x ys)

  pub sort_by-length : (xs : List A) → length (sort_by xs) ≡ length xs
  unfolding sort_by
  sort_by-length [] = refl
  sort_by-length (x ∷ xs) = omega (arith, insert_by-length x (sort_by xs), sort_by-length xs)

  insert_by-All {κ} :
      (P : A → Type κ) (x : A) (ys : List A) → P x → All P ys → All P (insert_by x ys)
  unfolding insert_by
  insert_by-All P x [] h k = (h, tt)
  insert_by-All P x (y ∷ ys) h k = elim (Bool-cases (le x y)) [
    | inl e ↦ rw e (h, k)
    | inr e ↦ rw e (k.0, insert_by-All P x ys h k.1)
  ]

  pub sort_by-All {κ} : (P : A → Type κ) (xs : List A) → All P xs → All P (sort_by xs)
  unfolding sort_by
  sort_by-All P [] h = tt
  sort_by-All P (x ∷ xs) h = insert_by-All P x (sort_by xs) h.0 (sort_by-All P xs h.1)

-- What holds of a sorted list holds of the list.
module _ {A : Type 0} (le : A → A → Bool) (P : A → Type 0) where
  insert_by-All_back : (x : A) (ys : List A) → All P (insert_by le x ys) → P x × All P ys
  unfolding insert_by
  insert_by-All_back x [] h = (h.0, tt)
  insert_by-All_back x (y ∷ ys) h = elim (Bool-cases (le x y)) [
    | inl e ↦ rw e at h
    | inr e ↦
        let k : P y × All P (insert_by le x ys) = rw e at h in
        let (a, b) = insert_by-All_back x ys k.1 in (a, (k.0, b))
  ]

  pub sort_by-All_back : (xs : List A) → All P (sort_by le xs) → All P xs
  unfolding sort_by
  sort_by-All_back [] h = tt
  sort_by-All_back (x ∷ xs) h =
      let (a, b) = insert_by-All_back x (sort_by le xs) h in (a, sort_by-All_back xs b)

  insert_by-Some_back : (x : A) (ys : List A) → Some P (insert_by le x ys) → Some P (x ∷ ys)
  unfolding insert_by
  insert_by-Some_back x [] h = h
  insert_by-Some_back x (y ∷ ys) h = elim (Bool-cases (le x y)) [
    | inl e ↦ rw e at h
    | inr e ↦ moved (insert_by-Some_back x ys) (rw e at h)
  ]
    where
      moved :
          (Some P (insert_by le x ys) → Some P (x ∷ ys))
          → Some P (y ∷ insert_by le x ys)
          → Some P (x ∷ y ∷ ys)
      moved f (inl k) = inr (inl k)
      moved f (inr k) = behind (f k)
        where
          behind : Some P (x ∷ ys) → Some P (x ∷ y ∷ ys)
          behind (inl j) = inl j
          behind (inr j) = inr (inr j)

  pub sort_by-Some_back : (xs : List A) → Some P (sort_by le xs) → Some P xs
  unfolding sort_by
  sort_by-Some_back [] h = h
  sort_by-Some_back (x ∷ xs) h =
      back (sort_by-Some_back xs) (insert_by-Some_back x (sort_by le xs) h)
    where
      back : (Some P (sort_by le xs) → Some P xs) → Some P (x ∷ sort_by le xs) → Some P (x ∷ xs)
      back f (inl k) = inl k
      back f (inr k) = inr (f k)

-- A list in the order of the test.
abbrev pub Sorted {ℓ} : {A : Type ℓ} → (A → A → Bool) → List A → Type 0
Sorted le [] = Unit
Sorted le (x ∷ xs) = All (λ y. le x y ≡ true) xs × Sorted le xs

module _ {ℓ} {A : Type ℓ} (le : A → A → Bool) (total : (x y : A) → le x y ≡ false → le y x ≡ true)
    (trans : (x y z : A) → le x y ≡ true → le y z ≡ true → le x z ≡ true) where
  insert_by-Sorted : (x : A) (ys : List A) → Sorted le ys → Sorted le (insert_by le x ys)
  unfolding insert_by
  insert_by-Sorted x [] h = (tt, tt)
  insert_by-Sorted x (y ∷ ys) h = elim (Bool-cases (le x y)) [
    | inl e ↦ rw e ((e, All-map ys (λ z k. trans x y z e k) h.0), h)
    | inr e ↦
        rw e
          (insert_by-All le (λ z. le y z ≡ true) x ys (total x y e) h.0, insert_by-Sorted x ys h.1)
  ]

  pub sort_by-Sorted : (xs : List A) → Sorted le (sort_by le xs)
  unfolding sort_by
  sort_by-Sorted [] = tt
  sort_by-Sorted (x ∷ xs) = insert_by-Sorted x (sort_by le xs) (sort_by-Sorted xs)

module _ {A : Type 0} (le : A → A → Bool) (P : A → Type 0) where
  insert_by-Some : (x : A) (ys : List A) → Some P (x ∷ ys) → Some P (insert_by le x ys)
  unfolding insert_by
  insert_by-Some x [] h = h
  insert_by-Some x (y ∷ ys) h = elim (Bool-cases (le x y)) [
    | inl e ↦ rw e h
    | inr e ↦ rw e (moved (insert_by-Some x ys) h)
  ]
    where
      moved :
          (Some P (x ∷ ys) → Some P (insert_by le x ys))
          → Some P (x ∷ y ∷ ys)
          → Some P (y ∷ insert_by le x ys)
      moved f (inl k) = inr (f (inl k))
      moved f (inr (inl k)) = inl k
      moved f (inr (inr k)) = inr (f (inr k))

  pub sort_by-Some : (xs : List A) → Some P xs → Some P (sort_by le xs)
  unfolding sort_by
  sort_by-Some [] h = h
  sort_by-Some (x ∷ xs) (inl k) = insert_by-Some x (sort_by le xs) (inl k)
  sort_by-Some (x ∷ xs) (inr k) = insert_by-Some x (sort_by le xs) (inr (sort_by-Some xs k))
