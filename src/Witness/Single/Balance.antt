-- ===== src/Witness/Single/Balance.antt =====
-- The flows of a witness for one pool balance what its filled orders bring and take.
use quetzaldex.Prelude.{
  ℕ, ◌+◌, ◌≤◌, ◌≡◌, ◌≢◌, ◌⊎◌, refl, sym, ap, ◌∙◌, true, false, List, [], ◌∷◌, arith, Bool-cases,
  length, take, ◌-◌, map, filter, sum_by, All, Some, All-filter_keep, length-filter-le, ltb, ==_iff,
  inl, inr,
}
use quetzaldex.Prelude.Int.{ℤ}
use quetzaldex.Prelude.Result.{ok}
use quetzaldex.Clearing.Types.{OrderFill}
use quetzaldex.Merkle.{build_fills_tree}
use quetzaldex.Merkle.Inclusion.{build_fills_tree-Included, length-map}
use quetzaldex.Witness.{OrderNotePreimage}
use quetzaldex.Witness.Single.{
  first_fills, Args, ClearingWitness, guards, has_nonce, check_fills, is_filled, totals, no_totals,
  sat, witness_of, build_clearing_witness,
}
use quetzaldex.Witness.Single.Index.{PayAt, canonical_fills-total, take-first_fills}
use quetzaldex.Witness.{pad, empty_order}
use quetzaldex.Merkle.{replicate}
use quetzaldex.Witness.Single.Sums.{
  sold_b, spent_a, taken_a, taken_b, entry, Distinct, Finds, Distinct-Finds, Grown, totals-Grown,
  entries-Apart,
}

check_fills-known :
    (orders : List OrderNotePreimage) (fills : List OrderFill)
    → All (λ f. Some (λ o. o.order_nonce ≡ f.order_nonce) orders) fills
    → check_fills orders fills ≡ ok tt
check_fills-known orders [] h = refl
check_fills-known orders (f ∷ fs) h = rw (has orders h.0) (check_fills-known orders fs h.1)
  where
    has :
        (os : List OrderNotePreimage)
        → Some (λ o. o.order_nonce ≡ f.order_nonce) os
        → has_nonce f.order_nonce os ≡ true
    has [] s = absurd s
    has (o ∷ os) (inl e) = ground arith
    has (o ∷ os) (inr s) = ground (arith, has os s)

-- Subtractions both ways balance, and one of them is zero.
sat-balance : (x y : ℕ) → (sat x y + y ≡ sat y x + x) × ((sat x y ≡ 0) ⊎ (sat y x ≡ 0))
sat-balance x y = elim (Bool-cases (ltb y x)) [
  | inl e ↦ let f : ltb x y ≡ false = ground arith in (ground arith, inr (rw f refl))
  | inr e ↦ (ground arith, inl (rw e refl))
]

-- The counts that the guards ask for.
abbrev pub Fits : Args → Type 0
Fits a =
    (length a.orders ≡ a.epoch.order_count)
    × (length a.cancellation_indices ≡ a.epoch.cancel_count)
    × (length a.bucket_deltas ≤ 4)
    × (length a.bucket_states_before ≡ length a.bucket_deltas)
    × (length a.bucket_states_after ≡ length a.bucket_deltas)

guards-Fits : (a : Args) → Fits a → guards a ≡ ok tt
guards-Fits a h =
    let (orders, cancels, deltas, before, after) = h in
    let same = λ (m n : ℕ). (==_iff m n).1 in
    let d : ltb 4 (length a.bucket_deltas) ≡ false = ground arith in
    rw
      (
        same (length a.orders) a.epoch.order_count orders,
        same (length a.cancellation_indices) a.epoch.cancel_count cancels,
        d,
        same (length a.bucket_states_before) (length a.bucket_deltas) before,
        same (length a.bucket_states_after) (length a.bucket_deltas) after,
      )
      refl

-- The orders that some fill names.
abbrev pub filled : Args → List OrderNotePreimage
filled a = filter (is_filled a.clearing.fills) a.orders

-- Of each token, the pool gives what the filled orders take beyond what they bring, or gets what
-- they bring beyond what they take, and never both.
abbrev pub Balanced : Args → ClearingWitness → Type 0
Balanced a w =
    let t = w.prover_toml in
    let p = a.clearing.clearing_price in
    (t.a_to_pool + sum_by (taken_a p) (filled a) ≡ t.a_from_pool + sum_by spent_a (filled a))
    × (t.b_to_pool + sum_by (taken_b p) (filled a) ≡ t.b_from_pool + sum_by sold_b (filled a))
    × ((t.a_to_pool ≡ 0) ⊎ (t.a_from_pool ≡ 0))
    × ((t.b_to_pool ≡ 0) ⊎ (t.b_from_pool ≡ 0))

-- The witness's fills are the filled orders', in their order: each has its order's nonce, pays what
-- the circuit computes for that order, and has the order's index.
abbrev pub Pays : Args → ClearingWitness → Type 0
Pays a w =
    let t = w.prover_toml in
    let p = a.clearing.clearing_price in
    (t.fills_len ≡ length (filled a))
    × PayAt p t.orders (take t.fills_len t.fills) t.fill_to_order_index

module _ (poseidon2 : List ℤ → ℕ) where
  -- A witness for one pool is made when the counts are those of the epoch and the circuit, there
  -- are at most 32 orders, and no more than the largest number, with nonces not zero and all
  -- different, the price is not zero and every fill has the nonce of an order. Of each token,
  -- what the witness says goes to the pool and what the filled orders are paid make up what the
  -- pool sends and what the filled orders bring, and the pool does not both get and send. Its
  -- fills are as many as the filled orders; each has the nonce of the order at its index and pays
  -- what the circuit computes for that order.
  pub build_clearing_witness-Balanced :
      (a : Args)
      → Fits a
      → length a.orders ≤ 32
      → length a.orders ≤ a.max_orders
      → a.clearing.clearing_price ≢ 0
      → Distinct a.orders
      → All (λ f. Some (λ o. o.order_nonce ≡ f.order_nonce) a.orders) a.clearing.fills
      → (w : ClearingWitness) × (build_clearing_witness poseidon2 a ≡ ok w)
        × Balanced a w
        × Pays a w
  unfolding build_clearing_witness witness_of pad
  build_clearing_witness-Balanced a fits few room price distinct known =
      let p = a.clearing.clearing_price in
      let keep = is_filled a.clearing.fills in
      let (cs, made, entries, pays) =
        canonical_fills-total a.clearing.fills p a.max_orders a.orders
          (replicate (a.max_orders - length a.orders) empty_order) price in
      let n = length-map (entry p) (filled a) in
      let (tree, built, _, _) =
        build_fills_tree-Included poseidon2 (map (entry p) (filled a))
          (omega (arith, n, length-filter-le keep a.orders))
          (entries-Apart p keep a.orders distinct) in
      let tree_built : build_fills_tree poseidon2 (map (λ c. c.0) cs) ≡ ok tree =
        rw entries built in
      let t = totals a.orders (map (λ c. c.0) cs) no_totals in
      let grown : Grown p (filled a) no_totals t = rw entries (
        totals-Grown p a.orders (filled a) no_totals
          (All-filter_keep (Finds a.orders) keep a.orders (Distinct-Finds a.orders distinct))) in
      let (a_even, a_one) = sat-balance t.gross_buy_in_a t.seller_payouts_a in
      let (b_even, b_one) = sat-balance t.gross_sell_in_b t.buyer_payouts_b in
      let len = length-map (λ c. c.0) cs in
      let enough : length (map (λ c. c.0) cs) ≤ a.max_orders =
        omega (arith, ap length entries, n, length-filter-le keep a.orders) in
      let shown : take (length cs) (first_fills a.max_orders (map (λ c. c.0) cs))
          ≡ map (λ c. c.0) cs =
        rw (← len) (take-first_fills a.max_orders (map (λ c. c.0) cs) enough) in
      (
        witness_of a cs tree,
        rw
            (
              build_clearing_witness,
              guards-Fits a fits,
              check_fills-known a.orders a.clearing.fills known,
              made,
              tree_built,
            )
            refl,
        (omega (arith, a_even, grown), omega (arith, b_even, grown), a_one, b_one),
        (sym len ∙ ap length entries ∙ n, rw shown pays),
      )
