-- ===== src/Witness/Multi/Index.antt =====
-- The orders that a witness's fills point at.
use quetzaldex.Prelude.{
  ℕ, zero, suc, ◌+◌, ◌<◌, ◌≡◌, refl, ap, ◌∙◌, Bool-cases, ==_iff, List, [], ◌∷◌, ◌++◌, some, arith,
  length, map, get_elem?, get_elem?-lt, inl, inr, ◌==◌, All, Some, false,
}
use quetzaldex.Prelude.Result.{ok}
use quetzaldex.Router.{HopFill}
use quetzaldex.Witness.{OrderNotePreimage, find_index}
use quetzaldex.Witness.Multi.{OrderRow, row_of, indices}

-- The row at an index, one of the first `count`, is of an order with the nonce.
abbrev pub Points : ℕ → List OrderRow → ℕ → ℕ → Type 0
Points count rows nonce k =
    (k < count)
    × ((row : OrderRow) × (get_elem? rows k ≡ some row) × (row.order.order_nonce ≡ nonce))

-- Each fill has an index, and the index points at a row with the fill's nonce.
abbrev pub Pointed : ℕ → List OrderRow → List HopFill → List ℕ → Type 0
Pointed count rows [] ks = Unit
Pointed count rows (f ∷ fs) [] = ⊥
Pointed count rows (f ∷ fs) (k ∷ ks) = Points count rows f.order_nonce k × Pointed count rows fs ks

get_elem?-append {ℓ} :
    {A : Type ℓ} (xs ys : List A) (i : ℕ) {x : A}
    → get_elem? xs i ≡ some x
    → get_elem? (xs ++ ys) i ≡ some x
get_elem?-append [] ys i h = cc
get_elem?-append (x ∷ xs) ys zero h = h
get_elem?-append (x ∷ xs) ys (suc i) h = get_elem?-append xs ys i h

get_elem?-map {ℓ κ} :
    {A : Type ℓ} {B : Type κ} (f : A → B) (xs : List A) (i : ℕ) {x : A}
    → get_elem? xs i ≡ some x
    → get_elem? (map f xs) i ≡ some (f x)
get_elem?-map f [] i h = cc
get_elem?-map f (x ∷ xs) zero h = cc
get_elem?-map f (x ∷ xs) (suc i) h = get_elem?-map f xs i h

find_index-finds :
    (nonce i : ℕ) (orders : List OrderNotePreimage)
    → Some (λ o. o.order_nonce ≡ nonce) orders
    → (j : ℕ) × (o : OrderNotePreimage) × (find_index nonce i orders ≡ some (i + j))
      × (get_elem? orders j ≡ some o)
      × (o.order_nonce ≡ nonce)
unfolding find_index
find_index-finds nonce i [] s = absurd s
find_index-finds nonce i (o ∷ orders) s = elim (Bool-cases (o.order_nonce == nonce)) [
  | inl e ↦
      (0, o, rw (find_index, e) (ap some (omega arith)), refl, (==_iff o.order_nonce nonce).0 e)
  | inr e ↦
      let (j, p, found, at, same) = find_index-finds nonce (suc i) orders (later e s) in
      (suc j, p, rw (find_index, e) (found ∙ ap some (omega arith)), at, same)
]
  where
    later :
        (o.order_nonce == nonce) ≡ false
        → Some (λ o. o.order_nonce ≡ nonce) (o ∷ orders)
        → Some (λ o. o.order_nonce ≡ nonce) orders
    later e (inl q) = absurd (ground (arith, (==_iff o.order_nonce nonce).1 q))
    later e (inr s) = s

-- Fills of known orders have their indices, whatever pads the rows and the indices.
pub indices-Pointed :
    (orders blank : List OrderNotePreimage) (zeros : List ℕ) (fills : List HopFill)
    → All (λ f. Some (λ o. o.order_nonce ≡ f.order_nonce) orders) fills
    → (ks : List ℕ) × (indices orders fills ≡ ok ks)
      × (length ks ≡ length fills)
      × Pointed (length orders) (map row_of (orders ++ blank)) fills (ks ++ zeros)
unfolding indices
indices-Pointed orders blank zeros [] h = ([], refl, refl, tt)
indices-Pointed orders blank zeros (f ∷ fs) h =
    let (k, o, counted, at, same) = find_index-finds f.order_nonce 0 orders h.0 in
    let found : find_index f.order_nonce 0 orders ≡ some k = counted ∙ ap some (omega arith) in
    let (ks, made, n, pointed) = indices-Pointed orders blank zeros fs h.1 in
    (
      k ∷ ks,
      rw (found, made) refl,
      ap suc n,
      (
        (
          get_elem?-lt orders k at,
          (
            row_of o,
            get_elem?-map row_of (orders ++ blank) k (get_elem?-append orders blank k at),
            same,
          ),
        ),
        pointed,
      ),
    )
