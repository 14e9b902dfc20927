-- ===== src/Witness/Multi/Returns.antt =====
-- The inputs that a witness for several pools is made for.
use quetzaldex.Prelude.{
  ℕ, zero, suc, ==_iff, ◌-◌, ap, All-append, ◌*◌, ◌^◌, ◌≤◌, ◌≡◌, refl, sym, ◌∙◌, true, false, List,
  [], ◌∷◌, ◌++◌, arith, length, map, take, All, Some, ltb, ◌==◌,
}
use quetzaldex.Prelude.Int.{ℤ}
use quetzaldex.Prelude.Result.{ok}
use quetzaldex.Prelude.Sort.{sort_by, sort_by-All, sort_by-length}
use quetzaldex.Clearing.Aggregate.Total.{derive_aggregate_flows-total}
use quetzaldex.Router.{PoolClearing}
use quetzaldex.Merkle.{build_hop_fills_tree, replicate}
use quetzaldex.Merkle.Inclusion.{length-map}
use quetzaldex.Merkle.Hops.{KeysApart, build_hop_fills_tree-Included}
use quetzaldex.Witness.{pad, empty_order}
use quetzaldex.Witness.Padding.{length-pad}
use quetzaldex.Witness.Multi.{
  row_of, empty_fill, four, Args, ActivePool, ClearingWitness, pool_row, witness_of, active_pool,
  active_pools, sorted_pools, sentinel_pool, by_pool_id, guards, leaf_of,
  build_clearing_witness_multi_pair,
}
use quetzaldex.Witness.Multi.Index.{Pointed, indices-Pointed}

-- A state for each of the deltas.
abbrev pub Paired : PoolClearing → Type 0
Paired p = length p.bucket_deltas ≡ length p.bucket_states_before

active_pools-total :
    (a : Args) (i : ℕ) (pools : List PoolClearing)
    → All Paired pools
    → (active : List ActivePool) × (active_pools a i pools ≡ ok active)
      × (length active ≡ length pools)
unfolding active_pools active_pool
active_pools-total a i [] h = ([], refl, refl)
active_pools-total a i (p ∷ pools) h =
    let n = length-map (λ s. s.liquidity) p.bucket_states_before in
    let (flows, e) =
      derive_aggregate_flows-total p.bucket_deltas (map (λ s. s.liquidity) p.bucket_states_before)
        (omega (arith, n, h.0)) in
    let (active, k, n) = active_pools-total a (suc i) pools h.1 in
    (pool_row a i p flows ∷ active, rw (active_pools, active_pool, e, k) refl, ap suc n)

sorted_pools-Paired :
    (pools : List PoolClearing) → All Paired pools → All Paired (sorted_pools pools)
unfolding sorted_pools pad
sorted_pools-Paired pools h =
    All-append Paired (sort_by by_pool_id pools) _ (sort_by-All by_pool_id Paired pools h)
      (blanks (3 - length (sort_by by_pool_id pools)))
  where
    blanks : (n : ℕ) → All Paired (replicate n sentinel_pool)
    blanks zero = tt
    blanks (suc n) = (refl, blanks n)

length-sorted_pools :
    (pools : List PoolClearing) → length pools ≤ 3 → length (sorted_pools pools) ≡ 3
unfolding sorted_pools
length-sorted_pools pools h =
    length-pad 3 sentinel_pool (sort_by by_pool_id pools)
      (omega (arith, sort_by-length by_pool_id pools))

-- The counts that the guards ask for.
abbrev pub Fits : Args → Type 0
Fits a =
    (length a.per_pool_clearings ≤ 3)
    × (length a.fills ≤ 2 * a.max_orders)
    × (length a.orders ≡ a.epoch.order_count)
    × (length a.orders ≤ a.max_orders)
    × (length a.cancellation_indices ≡ a.epoch.cancel_count)

guards-Fits : (a : Args) → Fits a → guards a ≡ ok tt
guards-Fits a h =
    let (pools, fills, orders, few, cancels) = h in
    let p : ltb 3 (length a.per_pool_clearings) ≡ false = ground arith in
    let f : ltb (2 * a.max_orders) (length a.fills) ≡ false = ground arith in
    let o : (length a.orders == a.epoch.order_count) ≡ true =
      (==_iff (length a.orders) a.epoch.order_count).1 orders in
    let m : ltb a.max_orders (length a.orders) ≡ false = ground arith in
    let c : (length a.cancellation_indices == a.epoch.cancel_count) ≡ true =
      (==_iff (length a.cancellation_indices) a.epoch.cancel_count).1 cancels in
    rw (p, f, o, m, c) refl

-- The arrays of the circuit's inputs are full.
abbrev pub Shaped : Args → ClearingWitness → Type 0
Shaped a w =
    let t = w.prover_toml in
    (length t.active_pool_clearings ≡ 3)
    × (length t.orders ≡ a.max_orders)
    × (length t.fills ≡ 2 * a.max_orders)
    × (length t.fill_to_order_index ≡ 2 * a.max_orders)
    × (length t.pool_bucket_states_before ≡ 3)
    × (length t.pool_bucket_states_after ≡ 3)
    × (take t.fills_len t.fills ≡ a.fills)
    × (length w.leaves ≡ 2 * a.max_orders)

take-length {ℓ} : {A : Type ℓ} (xs ys : List A) → take (length xs) (xs ++ ys) ≡ xs
take-length [] ys = refl
take-length (x ∷ xs) ys = ap (λ zs. x ∷ zs) (take-length xs ys)

module _ (poseidon2 : List ℤ → ℕ) where
  -- A witness for several pools is made when at most three pools clear, the orders, fills and
  -- cancellations are as many as the epoch and the circuit say, every pool has a state for each
  -- delta, no two fills share a nonce and a hop, every fill has the nonce of an order, and twice
  -- the largest number of orders is a power of two. The arrays of pools, orders, fills, indices
  -- and states then have their lengths, the fills come first in theirs, and each fill's index is
  -- that of an order of the epoch with the fill's nonce.
  pub build_clearing_witness_multi_pair-returns :
      (a : Args) (n : ℕ)
      → Fits a
      → 2 * a.max_orders ≡ 2 ^ n
      → All Paired a.per_pool_clearings
      → KeysApart (map leaf_of a.fills)
      → All (λ f. Some (λ o. o.order_nonce ≡ f.order_nonce) a.orders) a.fills
      → (w : ClearingWitness) × (build_clearing_witness_multi_pair poseidon2 a ≡ ok w)
        × Shaped a w
        × Pointed a.epoch.order_count w.prover_toml.orders a.fills w.prover_toml.fill_to_order_index
  unfolding build_clearing_witness_multi_pair witness_of pad
  build_clearing_witness_multi_pair-returns a n fits power paired apart known =
      let (pools, few, orders, room, cancels) = fits in
      let leaves = length-map leaf_of a.fills in
      let (tree, root, built, rooted, full, included) =
        build_hop_fills_tree-Included poseidon2 (map leaf_of a.fills) n (omega arith) apart in
      let tree_built : build_hop_fills_tree poseidon2 (map leaf_of a.fills) (2 * a.max_orders)
          ≡ ok tree =
        rw power built in
      let (active, made, three) =
        active_pools-total a 0 (sorted_pools a.per_pool_clearings)
          (sorted_pools-Paired a.per_pool_clearings paired) in
      let (ks, indexed, m, pointed) =
        indices-Pointed a.orders (replicate (a.max_orders - length a.orders) empty_order)
          (replicate (2 * a.max_orders - length a.fills) 0) a.fills known in
      let slots = length-sorted_pools a.per_pool_clearings pools in
      (
        witness_of a tree.leaves root active ks,
        rw
            (
              build_clearing_witness_multi_pair,
              guards-Fits a fits,
              tree_built,
              rooted,
              made,
              indexed,
            )
            refl,
        (
          three ∙ slots,
          length-map row_of (pad a.max_orders empty_order a.orders)
              ∙ length-pad a.max_orders empty_order a.orders room,
          length-pad (2 * a.max_orders) empty_fill a.fills few,
          length-pad (2 * a.max_orders) 0 ks (omega arith),
          length-map (λ p. four p.bucket_states_before) (sorted_pools a.per_pool_clearings) ∙ slots,
          length-map (λ p. four p.bucket_states_after) (sorted_pools a.per_pool_clearings) ∙ slots,
          take-length a.fills (replicate (2 * a.max_orders - length a.fills) empty_fill),
          full ∙ sym power,
        ),
        rw (← orders, m) pointed,
      )
