-- ===== src/Merkle.antt =====
-- The settlement trees: aggregator/src/merkle.ts. The hash is a parameter: it is the proof system's
-- library. A `Map` is an association list in insertion order; the key of a hop's path,
-- `${order_nonce}:${hop_index}`, is the pair of its numbers.
pub mod Levels
pub mod Inclusion
pub mod Powers
pub mod Hops
mod Tests
use quetzaldex.Prelude.{
  ℕ, zero, suc, ◌+◌, ◌-◌, ◌*◌, ◌/◌, ◌%◌, Bool, true, false, not, ◌||◌, ◌&&◌, List, [], ◌∷◌, ◌++◌,
  Option, none, some, ltb, leb, ◌==◌, if◌then◌else◌, get_elem?, length, map,
}
use quetzaldex.Prelude.Int.{ℤ, pos}
use quetzaldex.Prelude.Result.{Result, ok, err, Error, ◌>>=◌, ◌>>◌, throw_if, or_fault}
use quetzaldex.Prelude.Map.{insert, has}

abbrev pub tree_leaves : ℕ
tree_leaves = 32

abbrev pub tree_depth : ℕ
tree_depth = 5

pub record JsFillEntry : Type 0 where
  pub order_nonce : ℕ
  pub amount_out : ℕ

pub record InclusionPath : Type 0 where
  pub siblings : List ℕ
  pub leaf_index : ℕ

pub record MerkleTreeOutput : Type 0 where
  pub root : ℕ
  pub leaves : List ℕ
  pub paths : List (ℕ × InclusionPath)

pub record HopFillLeaf : Type 0 where
  pub owner : ℕ
  pub order_nonce : ℕ
  pub hop_index : ℕ
  pub amount_out : ℕ
  pub pool_id : ℕ

-- Of no leaves there is no root.
pub record HopTreeOutput : Type 0 where
  pub leaves : List ℕ
  pub root : Option ℕ
  pub paths : List ((ℕ × ℕ) × InclusionPath)

-- `idx ^ 1`.
abbrev pub flip : ℕ → ℕ
flip i = if i % 2 == 0 then suc i else i - 1

abbrev pub replicate {ℓ} : {A : Type ℓ} → ℕ → A → List A
replicate zero x = []
replicate (suc n) x = x ∷ replicate n x

-- The guards on the nonces, `seen` the nonces before.
pub check_nonces : List JsFillEntry → List ℕ → Result (Unit {0})
check_nonces [] seen = ok tt
check_nonces (f ∷ fs) seen =
    if f.order_nonce == 0
    then err Error.zero_nonce
    else if has f.order_nonce seen
    then err Error.duplicate_key
    else check_nonces fs (f.order_nonce ∷ seen)

-- The siblings of index `idx`, one at each of `rounds` levels. A sibling is there whenever the first
-- level has two to the `rounds` nodes.
pub harvest : ℕ → ℕ → List (List ℕ) → Result (List ℕ)
harvest zero idx levels = ok []
harvest (suc rounds) idx [] = err Error.type_error
harvest (suc rounds) idx (level ∷ levels) = do
  s ← or_fault (get_elem? level (flip idx))
  rest ← harvest rounds (idx / 2) levels
  ok (s ∷ rest)

-- `levels[n][0]`.
pub top_of : ℕ → List (List ℕ) → Option ℕ
top_of n levels = elim (get_elem? levels n) [ none ↦ none | some level ↦ get_elem? level 0 ]

root_at : ℕ → List (List ℕ) → Result ℕ
unfolding top_of
root_at n levels = or_fault (top_of n levels)

pub harvest_fills :
    List JsFillEntry
    → ℕ
    → List (List ℕ)
    → List (ℕ × InclusionPath)
    → Result (List (ℕ × InclusionPath))
unfolding harvest
harvest_fills [] i levels paths = ok paths
harvest_fills (f ∷ fs) i levels paths = do
  siblings ← harvest tree_depth i levels
  harvest_fills fs (suc i) levels
      (insert f.order_nonce (record { siblings = siblings; leaf_index = i }) paths)

-- The keys of two hops.
abbrev pub same_key : ℕ × ℕ → ℕ × ℕ → Bool
same_key a b = (a.0 == b.0) && (a.1 == b.1)

abbrev pub has_key : ℕ × ℕ → List (ℕ × ℕ) → Bool
has_key k [] = false
has_key k (j ∷ js) = same_key j k || has_key k js

abbrev pub insert_key :
    ℕ × ℕ → InclusionPath → List ((ℕ × ℕ) × InclusionPath) → List ((ℕ × ℕ) × InclusionPath)
insert_key k p [] = (k, p) ∷ []
insert_key k p ((j, q) ∷ m) = if same_key j k then (k, p) ∷ m else (j, q) ∷ insert_key k p m

abbrev pub hop_key : HopFillLeaf → ℕ × ℕ
hop_key f = (f.order_nonce, f.hop_index)

pub check_keys : List HopFillLeaf → List (ℕ × ℕ) → Result (Unit {0})
check_keys [] seen = ok tt
check_keys (f ∷ fs) seen =
    if has_key (hop_key f) seen then err Error.duplicate_key else check_keys fs (hop_key f ∷ seen)

pub harvest_hops :
    List HopFillLeaf
    → ℕ
    → ℕ
    → List (List ℕ)
    → List ((ℕ × ℕ) × InclusionPath)
    → Result (List ((ℕ × ℕ) × InclusionPath))
unfolding harvest
harvest_hops [] depth i levels paths = ok paths
harvest_hops (f ∷ fs) depth i levels paths = do
  siblings ← harvest depth i levels
  harvest_hops fs depth (suc i) levels
      (insert_key (hop_key f) (record { siblings = siblings; leaf_index = i }) paths)

-- `a & b` on 32 bits.
land_bits : ℕ → ℕ → ℕ → ℕ
land_bits zero a b = 0
land_bits (suc n) a b = (a % 2) * (b % 2) + 2 * land_bits n (a / 2) (b / 2)

pub is_power_of_two : ℕ → Bool
unfolding land_bits
is_power_of_two depth = land_bits 32 depth (depth - 1) == 0

module _ (poseidon2 : List ℤ → ℕ) where
  abbrev pub node : ℕ → ℕ → ℕ
  node a b = poseidon2 (pos a ∷ pos b ∷ [])

  abbrev pub fill_leaf : ℕ → ℕ → ℕ
  fill_leaf order_nonce amount_out = poseidon2 (pos order_nonce ∷ pos amount_out ∷ [])

  abbrev pub hop_fill_leaf : HopFillLeaf → ℕ
  hop_fill_leaf f =
      poseidon2
        (pos f.owner ∷ pos f.order_nonce ∷ pos f.hop_index ∷ pos f.amount_out ∷ pos f.pool_id ∷ [])

  -- One level up; a node without its pair faults.
  pub next_level : List ℕ → Result (List ℕ)
  next_level [] = ok []
  next_level (a ∷ []) = err Error.type_error
  next_level (a ∷ b ∷ rest) = do next ← next_level rest; ok (node a b ∷ next)

  pub climb_rounds : ℕ → List ℕ → Result (List ℕ)
  unfolding next_level
  climb_rounds zero level = ok level
  climb_rounds (suc n) level = do next ← next_level level; climb_rounds n next

  pub merkle_root_32 : List ℕ → Result ℕ
  unfolding climb_rounds
  merkle_root_32 leaves = do
    throw_if (not (length leaves == tree_leaves)) Error.bad_leaf_count
    level ← climb_rounds tree_depth leaves
    or_fault (get_elem? level 0)

  -- The retained levels, from the leaves up.
  pub levels_of : ℕ → List ℕ → Result (List (List ℕ))
  unfolding next_level
  levels_of zero level = ok (level ∷ [])
  levels_of (suc n) level = do next ← next_level level; rest ← levels_of n next; ok (level ∷ rest)

  pub fill_leaves : List JsFillEntry → List ℕ
  fill_leaves fills =
      map (λ f. fill_leaf f.order_nonce f.amount_out) fills
      ++ replicate (tree_leaves - length fills) (fill_leaf 0 0)

  pub build_fills_tree : List JsFillEntry → Result MerkleTreeOutput
  unfolding check_nonces fill_leaves levels_of root_at harvest_fills
  build_fills_tree fills = do
    throw_if (ltb tree_leaves (length fills)) Error.too_many_fills
    check_nonces fills []
    levels ← levels_of tree_depth (fill_leaves fills)
    root ← root_at tree_depth levels
    paths ← harvest_fills fills 0 levels []
    ok (record { root = root; leaves = fill_leaves fills; paths = paths })

  -- The levels until one node is left; the fuel is the number of leaves.
  pub levels_while : ℕ → List ℕ → Result (List (List ℕ))
  unfolding next_level
  levels_while zero level = if leb (length level) 1 then ok (level ∷ []) else err Error.out_of_fuel
  levels_while (suc n) level = elim (leb (length level) 1) [
    | true ↦ ok (level ∷ [])
    | false ↦ do next ← next_level level; rest ← levels_while n next; ok (level ∷ rest)
  ]

  pub hop_leaves : List HopFillLeaf → ℕ → List ℕ
  hop_leaves fills depth =
      map hop_fill_leaf fills
      ++ replicate (depth - length fills) (poseidon2 (pos 0 ∷ pos 0 ∷ pos 0 ∷ pos 0 ∷ pos 0 ∷ []))

  pub build_hop_fills_tree : List HopFillLeaf → ℕ → Result HopTreeOutput
  unfolding is_power_of_two check_keys hop_leaves levels_while top_of harvest_hops
  build_hop_fills_tree fills depth = do
    throw_if (not (is_power_of_two depth)) Error.not_power_of_two
    throw_if (ltb depth (length fills)) Error.too_many_fills
    check_keys fills []
    levels ← levels_while depth (hop_leaves fills depth)
    paths ← harvest_hops fills (length levels - 1) 0 levels []
    ok (record {
      leaves = hop_leaves fills depth;
      root = top_of (length levels - 1) levels;
      paths = paths;
    })
