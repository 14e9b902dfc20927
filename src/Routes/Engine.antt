-- ===== src/Routes/Engine.antt =====
-- The route of a reveal is the route that the multi-pair clearing finds for it.
use quetzaldex.Prelude.{ℕ, ◌≡◌, List, some, if◌then◌else◌, inl, inr, Option-cases, subst}
use quetzaldex.Prelude.Result.{ok, err, Error, >>=-eq-ok}
use quetzaldex.Router.{PathLen, two, three, hops_of}
use quetzaldex.Router.Registry.{PoolRegistryEntry, resolve_pool_id, resolve_hop}
use quetzaldex.Routes.{
  low, Tokens, RoutedRevealPath, resolve_pool_id_u128, resolve_hop_u128, path_hops, routing,
  resolve_reveal_path, is_omitted, length_of,
}

-- One hop, by the low words.
hop-agrees :
    (reg : List PoolRegistryEntry) (a b : ℕ) {pid : ℕ}
    → resolve_hop_u128 reg a b ≡ ok pid
    → resolve_hop reg (low a) (low b) ≡ ok pid
unfolding resolve_hop_u128 resolve_pool_id_u128 resolve_hop resolve_pool_id
hop-agrees reg a b {pid} h = elim (Option-cases (resolve_pool_id_u128 reg a b)) [
  | inl e ↦ let n : err Error.unregistered_hop ≡ ok pid = rw (resolve_hop_u128, e) at h in cc
  | inr (p, e) ↦
      let n : ok p ≡ ok pid = rw (resolve_hop_u128, e) at h in
      let same : resolve_pool_id reg (low a) (low b) ≡ some p = e in rw (resolve_hop, same) n
]

path_hops-agrees :
    (reg : List PoolRegistryEntry) (n : PathLen) (p : Tokens) {hops : List ℕ}
    → path_hops reg n p ≡ ok hops
    → hops_of reg n (low p.token_0) (low p.token_1) (low p.token_2) ≡ ok hops
unfolding path_hops hops_of
path_hops-agrees reg two p h =
    let (x, e, k) = >>=-eq-ok (resolve_hop_u128 reg p.token_0 p.token_1) _ h in
    rw (hop-agrees reg p.token_0 p.token_1 e) k
path_hops-agrees reg three p h =
    let (x, e, k) = >>=-eq-ok (resolve_hop_u128 reg p.token_0 p.token_1) _ h in
    let (y, f, l) = >>=-eq-ok (resolve_hop_u128 reg p.token_1 p.token_2) _ k in
    rw (hop-agrees reg p.token_0 p.token_1 e, hop-agrees reg p.token_1 p.token_2 f) l

-- A reveal's path that resolves has the hops that the multi-pair clearing finds for the routing
-- path in the same registry, so the clearing does not throw for want of a pool.
pub resolve_reveal_path-agrees :
    (reg : List PoolRegistryEntry) (path_len : ℕ) (revealed fallback : Tokens)
    {r : RoutedRevealPath}
    → resolve_reveal_path reg path_len revealed fallback ≡ ok r
    → hops_of reg r.path_len r.routing_path.token_0 r.routing_path.token_1 r.routing_path.token_2
      ≡ ok r.hops
unfolding resolve_reveal_path
resolve_reveal_path-agrees reg path_len revealed fallback {r} h =
    let path : Tokens = if is_omitted revealed then fallback else revealed in
    let n : PathLen = if is_omitted revealed then two else length_of path_len in
    let (hops, e, k) = >>=-eq-ok (path_hops reg n path) _ h in
    let shape : record {
      path_len = n;
      path = path;
      routing_path = routing path;
      hops = hops;
      used_fallback = is_omitted revealed;
    }
        ≡ r =
      cc in
    subst
      (λ x.
        hops_of reg x.path_len x.routing_path.token_0 x.routing_path.token_1 x.routing_path.token_2
        ≡ ok x.hops)
      shape (path_hops-agrees reg n path e)
