-- ===== src/Router/Known.antt =====
-- What routing and clearing record: the pool of each clearing, and the order and first hop of each
-- routed order.
use quetzaldex.Prelude.{
  ℕ, ◌≡◌, ==_iff, refl, Bool, true, false, not, List, [], ◌∷◌, some, arith, inl, inr, ◌==◌,
  if◌then◌else◌, All, All-map, Bool-cases, Option-cases, ◌∙◌, subst, Some,
}
use quetzaldex.Prelude.Result.{ok, >>=-eq-ok, map_result}
use quetzaldex.Prelude.Map.{lookup, insert}
use quetzaldex.Clearing.Types.{ClearingOrder, PoolWithBuckets}
use quetzaldex.Clearing.Compute.{ClearingResultV2, compute_clearing_v2}
use quetzaldex.Router.Registry.{PoolRegistryEntry, resolve_hop}
use quetzaldex.Router.{
  MultiPairOrder, PoolClearing, Routed, PathLen, two, three, run_pools, pool_clearing, hops_of,
  values, hop_0, route,
}

abbrev pub Keyed : ℕ × PoolClearing → Type 0
Keyed e = e.1.pool_id ≡ e.0

insert-Keyed :
    (k : ℕ) (c : PoolClearing) (m : List (ℕ × PoolClearing))
    → c.pool_id ≡ k
    → All Keyed m
    → All Keyed (insert k c m)
insert-Keyed k c [] e h = (e, tt)
insert-Keyed k c ((j, d) ∷ m) e h = elim (Bool-cases (j == k)) [
  | inl b ↦ rw b (e, h.1)
  | inr b ↦ rw b (h.0, insert-Keyed k c m e h.1)
]

pub run_pools-Keyed :
    (pools : List (ℕ × PoolWithBuckets)) (os : List (ℕ × List ClearingOrder))
    (m : List (ℕ × PoolClearing)) {t : List (ℕ × PoolClearing)}
    → run_pools pools os m ≡ ok t
    → All Keyed m
    → All Keyed t
unfolding run_pools pool_clearing
run_pools-Keyed pools [] m {t} h k = let q : m ≡ t = ground arith in rw (← q) k
run_pools-Keyed pools ((pid, orders) ∷ os) m {t} h k = elim (Option-cases (lookup pid pools)) [
  | inl e ↦ run_pools-Keyed pools os m (rw (e, run_pools) at h) k
  | inr (pool, e) ↦
      let (v, _, l) = >>=-eq-ok (compute_clearing_v2 pool orders) _ (rw (e, run_pools) at h) in
      run_pools-Keyed pools os _ l (kept v (not v.base.cleared))
]
  where
    kept :
        (v : ClearingResultV2) (b : Bool)
        → All Keyed (if b then m else insert pid (pool_clearing pid v) m)
    kept v true = k
    kept v false = insert-Keyed pid (pool_clearing pid v) m refl k

pub lookup-values :
    (k : ℕ) (m : List (ℕ × PoolClearing)) (c : PoolClearing)
    → All Keyed m
    → lookup k m ≡ some c
    → Some (λ d. (d.pool_id ≡ k) × (d ≡ c)) (values m)
unfolding values
lookup-values k ((j, d) ∷ m) c h e = elim (Bool-cases (j == k)) [
  | inl b ↦ let q : d ≡ c = ground arith in inl (h.0 ∙ (==_iff j k).0 b, q)
  | inr b ↦ inr (lookup-values k m c h.1 (rw b at e))
]
lookup-values k [] c h e = cc

-- The first hop of a routed order is the pool of its first pair.
abbrev pub Resolved : List PoolRegistryEntry → Routed → Type 0
Resolved registry r =
    (pid : ℕ)
    → hop_0 r.hops ≡ some pid
    → resolve_hop registry r.source.path_0 r.source.path_1 ≡ ok pid

hops_of-first :
    (registry : List PoolRegistryEntry) (n : PathLen) (a b c pid : ℕ) (hops : List ℕ)
    → hops_of registry n a b c ≡ ok hops
    → hop_0 hops ≡ some pid
    → resolve_hop registry a b ≡ ok pid
unfolding hops_of hop_0
hops_of-first registry two a b c pid hops h k =
    let (p, e, l) = >>=-eq-ok (resolve_hop registry a b) _ h in
    let q : p ∷ [] ≡ hops = ground arith in
    let j : p ≡ pid = ground (arith, rw (← q) at k) in rw (← j) e
hops_of-first registry three a b c pid hops h k =
    let (p, e, l) = >>=-eq-ok (resolve_hop registry a b) _ h in
    let (p', _, m) = >>=-eq-ok (resolve_hop registry b c) _ l in
    let q : p ∷ p' ∷ [] ≡ hops = ground arith in
    let j : p ≡ pid = ground (arith, rw (← q) at k) in rw (← j) e

route-Resolved :
    (registry : List PoolRegistryEntry) (o : MultiPairOrder) (r : Routed)
    → route registry o ≡ ok r
    → (o ≡ r.source) × Resolved registry r
unfolding route
route-Resolved registry o r h =
    let (hops, e, l) = >>=-eq-ok (hops_of registry o.path_len o.path_0 o.path_1 o.path_2) _ h in
    let s : o ≡ r.source = ground arith in
    let q : hops ≡ r.hops = ground arith in
    (
      s,
      λ pid k.
          rw (← s) (
            hops_of-first registry o.path_len o.path_0 o.path_1 o.path_2 pid hops e
              (rw (← q) at k)),
    )

-- Every routed order is one of the orders, and is resolved.
abbrev pub From : List PoolRegistryEntry → List MultiPairOrder → Routed → Type 0
From registry orders r = Some (λ o. o ≡ r.source) orders × Resolved registry r

pub routed-From :
    (registry : List PoolRegistryEntry) (orders : List MultiPairOrder) (rs : List Routed)
    → map_result (route registry) orders ≡ ok rs
    → All (From registry orders) rs
routed-From registry [] [] h = tt
routed-From registry [] (r ∷ rs) h = cc
routed-From registry (o ∷ orders) rs h =
    let (r, e, l) = >>=-eq-ok (route registry o) _ h in
    let (rs', f, m) = >>=-eq-ok (map_result (route registry) orders) _ l in
    let q : r ∷ rs' ≡ rs = ground arith in
    let (s, k) = route-Resolved registry o r e in
    let rest = All-map rs' (λ x u. (inr u.0, u.1)) (routed-From registry orders rs' f) in
    subst (λ x. All (From registry (o ∷ orders)) x) q ((inl s, k), rest)
