-- ===== src/Clearing/OneSided/FixedPoint.antt =====
-- The price of a one-sided book is a fixed point: it is the pool's realized price of the very volume
-- that is eligible at it.
use quetzaldex.Prelude.{
  ℕ, suc, zero, ◌<◌, ◌≡◌, refl, Bool, true, false, List, [], ◌∷◌, Option, none, some, arith, inl,
  inr, ◌⊎◌, ◌==◌, leb, if◌then◌else◌, filter, any, length, sum_by, sym, ap, ◌∙◌, Bool-cases,
}
use quetzaldex.Prelude.Result.{Result, ok, >>=-eq-ok}
use quetzaldex.Prelude.Sort.{sort_by-sum}
use quetzaldex.Prelude.Filters.{Implies, filter-eq_of_length, filter-all, filter-sum}
use quetzaldex.Clearing.Types.{ClearingOrder, PoolWithBuckets}
use quetzaldex.Clearing.Price.{amount_in, buys_at, sells_at}
use quetzaldex.Clearing.OneSided.{
  accepts, on_side, candidates, realized, price_of, refine, priced_pass, settle_pass,
  one_sided_clearing_price, hop_after_fee, limit_le,
}

accepts-nested :
    (sells : Bool) (p q : ℕ)
    → Implies (accepts sells p) (accepts sells q) ⊎ Implies (accepts sells q) (accepts sells p)
unfolding accepts
accepts-nested true p q = elim (Bool-cases (leb p q)) [
  | inl h ↦ inl (λ x k. ground arith)
  | inr h ↦ inr (λ x k. ground arith)
]
accepts-nested false p q = elim (Bool-cases (leb p q)) [
  | inl h ↦ inr (λ x k. ground arith)
  | inr h ↦ inl (λ x k. ground arith)
]

-- The orders that a pass is about: all candidates, or those of an earlier price.
abbrev Current : Bool → List ClearingOrder → List ClearingOrder → Type 0
Current sells original current =
    (current ≡ original) ⊎ ((q : ℕ) × (current ≡ filter (accepts sells q) original))

same_set :
    (sells : Bool) (original current : List ClearingOrder) (p : ℕ)
    → Current sells original current
    → length (filter (accepts sells p) original) ≡ length current
    → filter (accepts sells p) original ≡ current
same_set sells original current p (inl c) e =
    filter-all (accepts sells p) original (e ∙ ap length c) ∙ sym c
same_set sells original current p (inr (q, c)) e = elim (accepts-nested sells p q) [
  | inl h ↦ filter-eq_of_length _ _ original h (e ∙ ap length c) ∙ sym c
  | inr h ↦ sym (filter-eq_of_length _ _ original h (sym (e ∙ ap length c))) ∙ sym c
]

-- A pass that ends in a price ended here, or went on.
settle_pass_cases :
    (k : List ClearingOrder → List ℕ → Result (Option ℕ)) (p : ℕ) (next : List ClearingOrder)
    (size : ℕ) (seen : List ℕ) {r : ℕ}
    → settle_pass k p next size seen ≡ ok (some r)
    → (length next ≡ size) × (p ≡ r) ⊎ (k next (length next ∷ seen) ≡ ok (some r))
unfolding settle_pass
settle_pass_cases k p next size seen h = elim (Bool-cases (length next == size)) [
  | inl e ↦ inl (ground arith, ground arith)
  | inr e ↦ elim (Bool-cases (any (λ n. n == length next) seen)) [
    | inl f ↦ ground arith
    | inr f ↦ inr (ground arith)
  ]
]

refine-fixed :
    (pool : PoolWithBuckets) (sells : Bool) (original : List ClearingOrder) (passes : ℕ)
    (current : List ClearingOrder) (seen : List ℕ) {p : ℕ}
    → Current sells original current
    → refine pool sells original passes current seen ≡ ok (some p)
    → price_of pool sells (filter (accepts sells p) original) ≡ ok (some p)
unfolding refine priced_pass
refine-fixed pool sells original zero current seen c h = cc
refine-fixed pool sells original (suc passes) current seen {p} c h =
    let (price, e, k) = >>=-eq-ok (price_of pool sells current) _ h in
    priced price e k λ q r.
      refine-fixed pool sells original passes (filter (accepts sells q) original) r (inr (q, refl))
  where
    next : ℕ → List ClearingOrder
    next q = filter (accepts sells q) original

    priced :
        (price : Option ℕ)
        → price_of pool sells current ≡ ok price
        → priced_pass (refine pool sells original passes) sells original (length current) seen price
          ≡ ok (some p)
        → ((q : ℕ) (r : List ℕ)
            → refine pool sells original passes (filter (accepts sells q) original) r ≡ ok (some p)
            → price_of pool sells (filter (accepts sells p) original) ≡ ok (some p))
        → price_of pool sells (filter (accepts sells p) original) ≡ ok (some p)
    priced none e k ih = cc
    priced (some q) e k ih =
        elim (settle_pass_cases (refine pool sells original passes) q (next q) (length current) seen
          k) [
            | inl (same, at) ↦
                let here = same_set sells original current q c same in rw (← at, here) e
            | inr more ↦ ih q (length (next q) ∷ seen) more
          ]

-- Eligible at `p`, on the side of the book.
abbrev pub eligible : Bool → ℕ → ClearingOrder → Bool
eligible sells p = if sells then sells_at p else buys_at p

-- The volume of the side that is eligible at `p`.
abbrev pub volume_at : Bool → List ClearingOrder → ℕ → ℕ
volume_at sells batch p = sum_by amount_in (filter (eligible sells p) batch)

weight : Bool → ℕ → ClearingOrder → ℕ
weight sells p o = if accepts sells p o then o.amount_in else 0

sum_side :
    (sells : Bool) (p : ℕ) (batch : List ClearingOrder)
    → sum_by (weight sells p) (filter (on_side sells) batch) ≡ volume_at sells batch p
unfolding weight accepts on_side
sum_side true p [] = refl
sum_side false p [] = refl
sum_side true p (o ∷ os) = ground (arith, sum_side true p os)
sum_side false p (o ∷ os) = ground (arith, sum_side false p os)

-- Sorting and choosing by side changes no volume.
candidates-volume :
    (sells : Bool) (p : ℕ) (batch : List ClearingOrder)
    → sum_by amount_in (filter (accepts sells p) (candidates sells batch)) ≡ volume_at sells batch p
unfolding candidates weight
candidates-volume sells p batch =
    filter-sum (accepts sells p) amount_in (candidates sells batch)
    ∙ sorted
    ∙ sum_side sells p batch
  where
    sorted :
        sum_by (weight sells p) (candidates sells batch)
        ≡ sum_by (weight sells p) (filter (on_side sells) batch)
    sorted = sort_by-sum (limit_le sells) (weight sells p) (filter (on_side sells) batch)

price_of-realized :
    (pool : PoolWithBuckets) (sells : Bool) (xs : List ClearingOrder) {p : ℕ}
    → price_of pool sells xs ≡ ok (some p)
    → (realized pool sells (sum_by amount_in xs) ≡ ok (some p))
      × (0 < hop_after_fee (sum_by amount_in xs))
unfolding price_of
price_of-realized pool sells [] h = cc
price_of-realized pool sells (o ∷ os) h =
    elim (Bool-cases (hop_after_fee (sum_by amount_in (o ∷ os)) == 0)) [
      | inl e ↦ ground arith
      | inr e ↦ (rw e at h, ground arith)
    ]

-- A price that the one-sided search returns is a fixed point: it is the price at which the pool
-- executes the whole volume of the orders that accept it, and that volume is not empty after the
-- fee.
pub one_sided_clearing_price-fixed :
    (pool : PoolWithBuckets) (batch : List ClearingOrder) (sells : Bool) {p : ℕ}
    → one_sided_clearing_price pool batch sells ≡ ok (some p)
    → (realized pool sells (volume_at sells batch p) ≡ ok (some p))
      × (0 < hop_after_fee (volume_at sells batch p))
unfolding one_sided_clearing_price
one_sided_clearing_price-fixed pool batch sells {p} h =
    let original = candidates sells batch in
    elim (Bool-cases (length original == 0)) [
      | inl e ↦ ground arith
      | inr e ↦
          let fixed =
            refine-fixed pool sells original (suc (suc (length original))) original
              (length original ∷ []) (inl refl) (rw e at h) in
          let same = candidates-volume sells p batch in
          rw (← same) (price_of-realized pool sells (filter (accepts sells p) original) fixed)
    ]
