-- ===== src/Routes.antt =====
-- The routes of an epoch: the registry, the path of a reveal and the slots of the active pools, of
-- aggregator/src/clearing-cycle.ts. The reading of a token's address, `BigInt(s)`, is a parameter.
pub mod Engine
pub mod Slots
mod Tests
use quetzaldex.Prelude.{
  ℕ, suc, ◌%◌, Bool, true, false, ◌&&◌, List, [], ◌∷◌, Option, none, some, ltb, ◌==◌, if◌then◌else◌,
  String, map,
}
use quetzaldex.Prelude.Result.{Result, ok, err, Error, ◌>>=◌, map_result}
use quetzaldex.Prelude.Sort.{sort_by}
use quetzaldex.Prelude.Map.{lookup, insert}
use quetzaldex.Router.{PathLen, two, three, HopFill, PoolClearing}
use quetzaldex.Router.Registry.{PoolRegistryEntry, find_pair}

-- `n & U128_MASK`.
abbrev pub low : ℕ → ℕ
low n = n % 340_282_366_920_938_463_463_374_607_431_768_211_456

pub record PoolConfig : Type 0 where
  pub pool_id : ℕ
  pub token_a : String
  pub token_b : String
  pub address : String

-- The three tokens of a path.
pub record Tokens : Type 0 where
  pub token_0 : ℕ
  pub token_1 : ℕ
  pub token_2 : ℕ

pub record RoutedRevealPath : Type 0 where
  pub path_len : PathLen
  pub path : Tokens
  pub routing_path : Tokens
  pub hops : List ℕ
  pub used_fallback : Bool

-- An entry whose tokens, and their full values, stand in the order of the low words.
pub registry_entry : ℕ → ℕ → ℕ → PoolRegistryEntry
registry_entry pool_id a b =
    if ltb (low a) (low b)
    then record {
      pool_id = pool_id;
      token_a = low a;
      token_b = low b;
      token_a_full = some a;
      token_b_full = some b;
    }
    else record {
      pool_id = pool_id;
      token_a = low b;
      token_b = low a;
      token_a_full = some b;
      token_b_full = some a;
    }

module _ (big_int : String → Option ℕ) where
  number : String → Result ℕ
  number s = elim (big_int s) [ none ↦ err Error.syntax_error | some n ↦ ok n ]

  config_entry : PoolConfig → Result PoolRegistryEntry
  unfolding number registry_entry
  config_entry p = do a ← number p.token_a; b ← number p.token_b; ok (registry_entry p.pool_id a b)

  pub build_u128_pool_registry : List PoolConfig → Result (List PoolRegistryEntry)
  unfolding config_entry
  build_u128_pool_registry pools = map_result config_entry pools

-- -1 is `none`.
pub resolve_pool_id_u128 : List PoolRegistryEntry → ℕ → ℕ → Option ℕ
resolve_pool_id_u128 reg a b =
    if ltb (low a) (low b) then find_pair reg (low a) (low b) else find_pair reg (low b) (low a)

pub resolve_hop_u128 : List PoolRegistryEntry → ℕ → ℕ → Result ℕ
unfolding resolve_pool_id_u128
resolve_hop_u128 reg a b = elim (resolve_pool_id_u128 reg a b) [
  | none ↦ err Error.unregistered_hop
  | some pid ↦ ok pid
]

pub path_hops : List PoolRegistryEntry → PathLen → Tokens → Result (List ℕ)
unfolding resolve_hop_u128
path_hops reg two p = do h ← resolve_hop_u128 reg p.token_0 p.token_1; ok (h ∷ [])
path_hops reg three p = do
  h ← resolve_hop_u128 reg p.token_0 p.token_1
  k ← resolve_hop_u128 reg p.token_1 p.token_2
  ok (h ∷ k ∷ [])

abbrev pub routing : Tokens → Tokens
routing p = record { token_0 = low p.token_0; token_1 = low p.token_1; token_2 = low p.token_2 }

abbrev pub is_omitted : Tokens → Bool
is_omitted p = (p.token_0 == 0) && (p.token_1 == 0)

-- Any length but 3 is read as 2.
abbrev pub length_of : ℕ → PathLen
length_of n = if n == 3 then three else two

pub resolve_reveal_path : List PoolRegistryEntry → ℕ → Tokens → Tokens → Result RoutedRevealPath
unfolding path_hops
resolve_reveal_path reg path_len revealed fallback = do
  let omitted = is_omitted revealed
  let path = if omitted then fallback else revealed
  let n = if omitted then two else length_of path_len
  hops ← path_hops reg n path
  ok (record {
    path_len = n;
    path = path;
    routing_path = routing path;
    hops = hops;
    used_fallback = omitted;
  })

abbrev le_id : ℕ → ℕ → Bool
le_id a b = if ltb b a then false else true

-- The active pools' ids, in the order of their slots.
abbrev pub active_ids : List PoolClearing → List ℕ
active_ids clearings = sort_by le_id (map (λ c. c.pool_id) clearings)

pub slots_by_id : List ℕ → ℕ → List (ℕ × ℕ) → List (ℕ × ℕ)
slots_by_id [] slot m = m
slots_by_id (id ∷ ids) slot m = slots_by_id ids (suc slot) (insert id slot m)

-- A fill's pool, as a slot.
abbrev pub at_slot : HopFill → ℕ → HopFill
at_slot f slot = record {
  order_nonce = f.order_nonce;
  hop_index = f.hop_index;
  amount_out = f.amount_out;
  pool_id = slot;
  owner = f.owner;
}

pub remap_fill : List (ℕ × ℕ) → HopFill → Result HopFill
remap_fill slots f = elim (lookup f.pool_id slots) [
  | none ↦ err Error.inactive_pool
  | some slot ↦ ok (at_slot f slot)
]

pub remap_fill_pool_ids_to_slots : List HopFill → List PoolClearing → Result (List HopFill)
unfolding slots_by_id remap_fill
remap_fill_pool_ids_to_slots fills clearings =
    map_result (remap_fill (slots_by_id (active_ids clearings) 0 [])) fills
