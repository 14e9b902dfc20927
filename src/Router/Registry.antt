-- ===== src/Router/Registry.antt =====
-- The pool registry: aggregator/src/path.ts.
use quetzaldex.Prelude.{
  ℕ, ◌&&◌, ◌||◌, List, [], ◌∷◌, Option, none, some, ltb, ◌==◌, if◌then◌else◌, length,
}
use quetzaldex.Prelude.Result.{Result, ok, err, ◌>>=◌, ◌>>◌, Error, throw_if}

pub record PoolRegistryEntry : Type 0 where
  pub pool_id : ℕ
  pub token_a : ℕ
  pub token_b : ℕ
  pub token_a_full : Option ℕ
  pub token_b_full : Option ℕ

unfoldable pub find_pair : List PoolRegistryEntry → ℕ → ℕ → Option ℕ
find_pair [] lo hi = none
find_pair (p ∷ ps) lo hi =
    if (p.token_a == lo) && (p.token_b == hi) then some p.pool_id else find_pair ps lo hi

-- -1 is `none`.
unfoldable pub resolve_pool_id : List PoolRegistryEntry → ℕ → ℕ → Option ℕ
unfolding find_pair
resolve_pool_id reg a b = if ltb a b then find_pair reg a b else find_pair reg b a

unfoldable pub resolve_hop : List PoolRegistryEntry → ℕ → ℕ → Result ℕ
resolve_hop reg a b = elim (resolve_pool_id reg a b) [
  | none ↦ err Error.no_pool
  | some pid ↦ ok pid
]

resolve_hops : List PoolRegistryEntry → List ℕ → Result (List ℕ)
unfolding resolve_hop
resolve_hops reg [] = ok []
resolve_hops reg (a ∷ []) = ok []
resolve_hops reg (a ∷ b ∷ path) = do
  pid ← resolve_hop reg a b
  rest ← resolve_hops reg (b ∷ path)
  ok (pid ∷ rest)

pub resolve_hop_pools : List PoolRegistryEntry → List ℕ → Result (List ℕ)
unfolding resolve_hops
resolve_hop_pools reg path = do
  throw_if (ltb (length path) 2 || ltb 3 (length path)) Error.bad_path_length
  resolve_hops reg path
