-- ===== src/Router/Unrouted.antt =====
-- Orders that cannot be routed.
use quetzaldex.Prelude.{ℕ, ◌≡◌, refl, ◌⊎◌, List, [], ◌∷◌, inl, inr, Option-cases, Some}
use quetzaldex.Prelude.Result.{ok, err, Error, map_result}
use quetzaldex.Clearing.Types.{PoolWithBuckets}
use quetzaldex.Router.Registry.{PoolRegistryEntry, resolve_hop, resolve_pool_id}
use quetzaldex.Router.{
  MultiPairOrder, Routed, PathLen, two, three, hops_of, compute_clearing_multi_pair, route,
}

-- An order that names a pair no pool trades: its first pair, or the second of an order of two hops.
abbrev pub Unrouted : List PoolRegistryEntry → MultiPairOrder → Type 0
Unrouted registry o =
    (resolve_hop registry o.path_0 o.path_1 ≡ err Error.no_pool)
    ⊎ ((o.path_len ≡ three) × (resolve_hop registry o.path_1 o.path_2 ≡ err Error.no_pool))

resolve_hop-cases :
    (registry : List PoolRegistryEntry) (a b : ℕ)
    → ((h : ℕ) × (resolve_hop registry a b ≡ ok h)) ⊎ (resolve_hop registry a b ≡ err Error.no_pool)
unfolding resolve_hop
resolve_hop-cases registry a b = elim (Option-cases (resolve_pool_id registry a b)) [
  | inl e ↦ rw (resolve_hop, e) (inr refl)
  | inr (h, e) ↦ rw (resolve_hop, e) (inl (h, refl))
]

hops_of-cases :
    (registry : List PoolRegistryEntry) (n : PathLen) (a b c : ℕ)
    → ((hs : List ℕ) × (hops_of registry n a b c ≡ ok hs))
      ⊎ (hops_of registry n a b c ≡ err Error.no_pool)
unfolding hops_of
hops_of-cases registry two a b c = elim (resolve_hop-cases registry a b) [
  | inr e ↦ rw (hops_of, e) (inr refl)
  | inl (h, e) ↦ rw (hops_of, e) (inl (h ∷ [], refl))
]
hops_of-cases registry three a b c = elim (resolve_hop-cases registry a b) [
  | inr e ↦ rw (hops_of, e) (inr refl)
  | inl (h, e) ↦ elim (resolve_hop-cases registry b c) [
    | inr f ↦ rw (hops_of, e, f) (inr refl)
    | inl (k, f) ↦ rw (hops_of, e, f) (inl (h ∷ k ∷ [], refl))
  ]
]

-- The hops of an order stand, or a pair has no pool.
hops_of-Unrouted :
    (registry : List PoolRegistryEntry) (n : PathLen) (a b c : ℕ)
    → ((resolve_hop registry a b ≡ err Error.no_pool)
        ⊎ ((n ≡ three) × (resolve_hop registry b c ≡ err Error.no_pool)))
    → hops_of registry n a b c ≡ err Error.no_pool
unfolding hops_of
hops_of-Unrouted registry two a b c (inl e) = rw (hops_of, e) refl
hops_of-Unrouted registry three a b c (inl e) = rw (hops_of, e) refl
hops_of-Unrouted registry two a b c (inr (n, e)) = cc
hops_of-Unrouted registry three a b c (inr (n, e)) = elim (resolve_hop-cases registry a b) [
  | inr f ↦ rw (hops_of, f) refl
  | inl (h, f) ↦ rw (hops_of, f, e) refl
]

route-cases :
    (registry : List PoolRegistryEntry) (o : MultiPairOrder)
    → ((r : Routed) × (route registry o ≡ ok r)) ⊎ (route registry o ≡ err Error.no_pool)
unfolding route
route-cases registry o = elim (hops_of-cases registry o.path_len o.path_0 o.path_1 o.path_2) [
  | inr e ↦ rw (route, e) (inr refl)
  | inl (hs, e) ↦ rw (route, e) (inl (record { source = o; hops = hs }, refl))
]

route-Unrouted :
    (registry : List PoolRegistryEntry) (o : MultiPairOrder)
    → Unrouted registry o
    → route registry o ≡ err Error.no_pool
unfolding route
route-Unrouted registry o h =
    rw (route, hops_of-Unrouted registry o.path_len o.path_0 o.path_1 o.path_2 h) refl

routes-Unrouted :
    (registry : List PoolRegistryEntry) (orders : List MultiPairOrder)
    → Some (Unrouted registry) orders
    → map_result (route registry) orders ≡ err Error.no_pool
routes-Unrouted registry [] h = absurd h
routes-Unrouted registry (o ∷ orders) (inl h) = rw (map_result, route-Unrouted registry o h) refl
routes-Unrouted registry (o ∷ orders) (inr h) = elim (route-cases registry o) [
  | inr e ↦ rw (map_result, e) refl
  | inl (r, e) ↦ rw (map_result, e, routes-Unrouted registry orders h) refl
]

-- One order whose route names a pair without a pool, wherever it stands among the orders, makes
-- the whole multi-pair clearing throw.
pub compute_clearing_multi_pair-no_pool :
    (orders : List MultiPairOrder) (pools : List (ℕ × PoolWithBuckets))
    (registry : List PoolRegistryEntry)
    → Some (Unrouted registry) orders
    → compute_clearing_multi_pair orders pools registry ≡ err Error.no_pool
unfolding compute_clearing_multi_pair
compute_clearing_multi_pair-no_pool orders pools registry h =
    rw (routes-Unrouted registry orders h) refl
