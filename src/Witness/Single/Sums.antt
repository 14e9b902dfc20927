-- ===== src/Witness/Single/Sums.antt =====
-- What the filled orders of an epoch add up to, and their fills at the circuit's price.
use quetzaldex.Prelude.{
  ℕ, ◌+◌, ◌*◌, ◌/◌, ◌≡◌, ◌≢◌, refl, Bool, false, List, [], ◌∷◌, some, arith, Bool-cases, map,
  filter, find, sum_by, All, All-filter_keep, ◌==◌, if◌then◌else◌, inl, inr,
}
use quetzaldex.Prelude.Result.{ok}
use quetzaldex.FixedPoint.{div}
use quetzaldex.Merkle.{JsFillEntry}
use quetzaldex.Merkle.Inclusion.{Apart}
use quetzaldex.Witness.{OrderNotePreimage}
use quetzaldex.Witness.Single.{Totals, scale_fe, less_fee, circuit_payout, add_fill, totals}

-- What an order brings in and takes out, of either token, at a price that is not zero.
abbrev pub paid : ℕ → OrderNotePreimage → ℕ
paid p o = less_fee (if o.side then o.amount_in * p / scale_fe else o.amount_in * scale_fe / p)

abbrev pub sold_b : OrderNotePreimage → ℕ
sold_b o = if o.side then o.amount_in else 0

abbrev pub spent_a : OrderNotePreimage → ℕ
spent_a o = if o.side then 0 else o.amount_in

abbrev pub taken_a : ℕ → OrderNotePreimage → ℕ
taken_a p o = if o.side then paid p o else 0

abbrev pub taken_b : ℕ → OrderNotePreimage → ℕ
taken_b p o = if o.side then 0 else paid p o

abbrev pub entry : ℕ → OrderNotePreimage → JsFillEntry
entry p o = record { order_nonce = o.order_nonce; amount_out = paid p o }

-- The orders' nonces are real ones and differ.
abbrev pub Distinct : List OrderNotePreimage → Type 0
Distinct [] = Unit
Distinct (o ∷ os) = (o.order_nonce ≢ 0) × All (λ q. o.order_nonce ≢ q.order_nonce) os × Distinct os

pub Finds : List OrderNotePreimage → OrderNotePreimage → Type 0
Finds orders o = find (λ q. q.order_nonce == o.order_nonce) orders ≡ some o

both :
    (P Q R : OrderNotePreimage → Type 0) (os : List OrderNotePreimage)
    → ((o : OrderNotePreimage) → P o → Q o → R o)
    → All P os
    → All Q os
    → All R os
both P Q R [] f p q = tt
both P Q R (o ∷ os) f p q = (f o p.0 q.0, both P Q R os f p.1 q.1)

pub Distinct-Finds : (orders : List OrderNotePreimage) → Distinct orders → All (Finds orders) orders
unfolding Finds
Distinct-Finds [] d = tt
Distinct-Finds (o ∷ os) d = (
  ground arith,
  both (λ q. o.order_nonce ≢ q.order_nonce) (Finds os) (Finds (o ∷ os)) os later d.1
      (Distinct-Finds os d.2),
)
  where
    later : (q : OrderNotePreimage) → o.order_nonce ≢ q.order_nonce → Finds os q → Finds (o ∷ os) q
    later q apart h = let e : (o.order_nonce == q.order_nonce) ≡ false = ground arith in rw e h

-- The totals have grown by what the orders bring and take.
abbrev pub Grown : ℕ → List OrderNotePreimage → Totals → Totals → Type 0
Grown p os t s =
    (s.gross_buy_in_a ≡ t.gross_buy_in_a + sum_by spent_a os)
    × (s.gross_sell_in_b ≡ t.gross_sell_in_b + sum_by sold_b os)
    × (s.buyer_payouts_b ≡ t.buyer_payouts_b + sum_by (taken_b p) os)
    × (s.seller_payouts_a ≡ t.seller_payouts_a + sum_by (taken_a p) os)

add_fill-Grown :
    (p : ℕ) (o : OrderNotePreimage) (t : Totals) → Grown p (o ∷ []) t (add_fill o (paid p o) t)
add_fill-Grown p o t = elim (Bool-cases o.side) [
  | inl e ↦ rw e (omega arith, omega arith, omega arith, omega arith)
  | inr e ↦ rw e (omega arith, omega arith, omega arith, omega arith)
]

pub totals-Grown :
    (p : ℕ) (orders os : List OrderNotePreimage) (t : Totals)
    → All (Finds orders) os
    → Grown p os t (totals orders (map (entry p) os) t)
unfolding totals Finds
totals-Grown p orders [] t h = (omega arith, omega arith, omega arith, omega arith)
totals-Grown p orders (o ∷ os) t h =
    let found : find (λ q. q.order_nonce == o.order_nonce) orders ≡ some o = h.0 in
    let (a, b, c, d) = add_fill-Grown p o t in
    let (e, f, g, k) = totals-Grown p orders os (add_fill o (paid p o) t) h.1 in
    rw (totals, found)
      (omega (arith, a, e), omega (arith, b, f), omega (arith, c, g), omega (arith, d, k))

pub circuit_payout-paid :
    (p : ℕ) (o : OrderNotePreimage) → p ≢ 0 → circuit_payout o p ≡ ok (paid p o)
unfolding div
circuit_payout-paid p o h =
    let nonzero : (p == 0) ≡ false = ground arith in
    elim (Bool-cases o.side) [ inl e ↦ rw e refl | inr e ↦ rw (e, div, nonzero) refl ]

pub entries-Apart :
    (p : ℕ) (keep : OrderNotePreimage → Bool) (orders : List OrderNotePreimage)
    → Distinct orders
    → Apart (map (entry p) (filter keep orders))
entries-Apart p keep [] d = tt
entries-Apart p keep (o ∷ os) d = elim (Bool-cases (keep o)) [
  | inl e ↦ rw e (
    d.0,
    map-All (filter keep os) (All-filter_keep (λ q. o.order_nonce ≢ q.order_nonce) keep os d.1),
    entries-Apart p keep os d.2,
  )
  | inr e ↦ rw e (entries-Apart p keep os d.2)
]
  where
    map-All :
        (qs : List OrderNotePreimage)
        → All (λ q. o.order_nonce ≢ q.order_nonce) qs
        → All (λ c. o.order_nonce ≢ c.order_nonce) (map (entry p) qs)
    map-All [] h = tt
    map-All (q ∷ qs) h = (h.0, map-All qs h.1)
