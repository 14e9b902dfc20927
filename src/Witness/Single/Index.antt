-- ===== src/Witness/Single/Index.antt =====
-- The fills of a witness for one pool: whose they are, and what they pay.
use quetzaldex.Prelude.{
  ℕ, zero, suc, ◌-◌, ◌≤◌, ◌≡◌, ◌≢◌, refl, sym, subst, ap, filter, length-append, List, [], ◌∷◌,
  ◌++◌, some, arith, length, map, get_elem?, take, inl, inr, Bool-cases,
}
use quetzaldex.Prelude.Result.{ok}
use quetzaldex.Clearing.Types.{OrderFill}
use quetzaldex.Merkle.{JsFillEntry, replicate}
use quetzaldex.Merkle.Inclusion.{get_elem?-middle, append_one}
use quetzaldex.Witness.{OrderNotePreimage, pad}
use quetzaldex.Witness.Single.{canonical_fills, is_filled, first_fills}
use quetzaldex.Witness.Single.Sums.{paid, entry, circuit_payout-paid}

-- A fill has the nonce of the order at the index, and pays what the circuit computes for it.
abbrev pub PaysAt : ℕ → List OrderNotePreimage → JsFillEntry → ℕ → Type 0
PaysAt p orders f k =
    (o : OrderNotePreimage) × (get_elem? orders k ≡ some o)
    × (f.order_nonce ≡ o.order_nonce)
    × (f.amount_out ≡ paid p o)

-- Each fill pays at its index.
abbrev pub PayAt : ℕ → List OrderNotePreimage → List JsFillEntry → List ℕ → Type 0
PayAt p orders [] ks = Unit
PayAt p orders (f ∷ fs) [] = ⊥
PayAt p orders (f ∷ fs) (k ∷ ks) = PaysAt p orders f k × PayAt p orders fs ks

-- Each of the orders stands in `all` at its index, counted from `i`.
abbrev At : List OrderNotePreimage → ℕ → List OrderNotePreimage → Type 0
At all i [] = Unit
At all i (o ∷ os) = (get_elem? all i ≡ some o) × At all (suc i) os

append-At : (pre os blank : List OrderNotePreimage) → At (pre ++ (os ++ blank)) (length pre) os
append-At pre [] blank = tt
append-At pre (o ∷ os) blank =
    let longer : length (pre ++ o ∷ []) ≡ suc (length pre) =
      omega (arith, length-append pre (o ∷ [])) in
    (
      get_elem?-middle pre o (os ++ blank),
      subst (λ i. At (pre ++ o ∷ (os ++ blank)) i os) longer
          (subst (λ all. At all (length (pre ++ o ∷ [])) os) (sym (append_one pre o (os ++ blank)))
            (append-At (pre ++ o ∷ []) os blank)),
    )

canonical_fills-At :
    (fills : List OrderFill) (p i : ℕ) (orders all : List OrderNotePreimage)
    → p ≢ 0
    → At all i orders
    → (cs : List (JsFillEntry × ℕ)) × (canonical_fills fills p i orders ≡ ok cs)
      × (map (λ c. c.0) cs ≡ map (entry p) (filter (is_filled fills) orders))
      × ((zeros : List ℕ) → PayAt p all (map (λ c. c.0) cs) (map (λ c. c.1) cs ++ zeros))
unfolding canonical_fills
canonical_fills-At fills p i [] all h a = ([], refl, refl, λ zeros. tt)
canonical_fills-At fills p i (o ∷ orders) all h a =
    let (cs, e, m, pays) = canonical_fills-At fills p (suc i) orders all h a.1 in
    let paying = circuit_payout-paid p o h in
    elim (Bool-cases (is_filled fills o)) [
      | inl f ↦ (
        (entry p o, i) ∷ cs,
        rw (canonical_fills, f, paying, e) refl,
        rw (f, m) refl,
        λ zeros. ((o, a.0, refl, refl), pays zeros),
      )
      | inr f ↦ (cs, rw (canonical_fills, f, e) refl, rw (f, m) refl, pays)
    ]

-- At a price that is not zero the canonical fills are those of the filled orders, each at its
-- order's index and with its payout, whatever pads the orders and the indices.
pub canonical_fills-total :
    (fills : List OrderFill) (p n : ℕ) (orders blank : List OrderNotePreimage)
    → p ≢ 0
    → (cs : List (JsFillEntry × ℕ)) × (canonical_fills fills p 0 orders ≡ ok cs)
      × (map (λ c. c.0) cs ≡ map (entry p) (filter (is_filled fills) orders))
      × PayAt p (orders ++ blank) (map (λ c. c.0) cs) (pad n 0 (map (λ c. c.1) cs))
unfolding pad
canonical_fills-total fills p n orders blank h =
    let (cs, e, m, pays) =
      canonical_fills-At fills p 0 orders (orders ++ blank) h (append-At [] orders blank) in
    (cs, e, m, pays (replicate (n - length (map (λ c. c.1) cs)) 0))

pub take-first_fills :
    (n : ℕ) (fs : List JsFillEntry) → length fs ≤ n → take (length fs) (first_fills n fs) ≡ fs
unfolding first_fills
take-first_fills zero [] h = refl
take-first_fills zero (f ∷ fs) h = absurd (omega arith)
take-first_fills (suc n) [] h = refl
take-first_fills (suc n) (f ∷ fs) h = ap (λ xs. f ∷ xs) (take-first_fills n fs (omega arith))
