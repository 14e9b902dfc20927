-- ===== src/Witness/Multi.antt =====
-- buildClearingWitnessMultiPair of aggregator/src/witness.ts: the inputs of the circuit for several
-- pools.
pub mod Index
pub mod Returns
use quetzaldex.Prelude.{
  ℕ, zero, suc, ◌*◌, ◌-◌, Bool, not, List, [], ◌∷◌, Option, none, some, ltb, leb, ◌==◌,
  if◌then◌else◌, length, map, get_elem?,
}
use quetzaldex.Prelude.Int.{ℤ}
use quetzaldex.Prelude.Result.{Error, Result, ok, err, ◌>>=◌, ◌>>◌, throw_if, or_fault, map_result}
use quetzaldex.Prelude.Sort.{sort_by}
use quetzaldex.Buckets.{BucketState}
use quetzaldex.Clearing.Types.{BucketDelta}
use quetzaldex.Clearing.Aggregate.{AggregateFlows, derive_aggregate_flows}
use quetzaldex.Router.{HopFill, PoolClearing}
use quetzaldex.Merkle.{HopFillLeaf, HopTreeOutput, build_hop_fills_tree, replicate}
use quetzaldex.Witness.{
  EpochState, OrderNotePreimage, empty_order, sentinel_delta, sentinel_state, pad, find_index,
  max_active_buckets_per_epoch,
}

abbrev pub max_active_pools_per_epoch : ℕ
max_active_pools_per_epoch = 3

abbrev pub invalid_pool_id : ℕ
invalid_pool_id = 0xffffffff

pub record Args : Type 0 where
  pub epoch : EpochState
  pub orders : List OrderNotePreimage
  pub cancellation_indices : List ℕ
  pub per_pool_clearings : List PoolClearing
  pub fills : List HopFill
  pub max_orders : ℕ
  pub pool_sqrt_p_before : List ℕ
  pub pool_token_pairs : List (ℕ × ℕ)
  pub pool_state_commitments : List ℕ

abbrev pub guards : Args → Result (Unit {0})
guards a =
    throw_if (ltb max_active_pools_per_epoch (length a.per_pool_clearings)) Error.too_many_pools
    >> throw_if (ltb (2 * a.max_orders) (length a.fills)) Error.too_many_fills
    >> throw_if (not (length a.orders == a.epoch.order_count)) Error.order_count_mismatch
    >> throw_if (ltb a.max_orders (length a.orders)) Error.too_many_orders
    >> throw_if (not (length a.cancellation_indices == a.epoch.cancel_count))
        Error.cancel_count_mismatch

abbrev pub leaf_of : HopFill → HopFillLeaf
leaf_of f = record {
  owner = f.owner;
  order_nonce = f.order_nonce;
  hop_index = f.hop_index;
  amount_out = f.amount_out;
  pool_id = f.pool_id;
}

abbrev pub sentinel_pool : PoolClearing
sentinel_pool = record {
  pool_id = invalid_pool_id;
  clearing_price = 0;
  bucket_deltas = [];
  current_sqrt_price_after = 0;
  bucket_states_before = [];
  bucket_states_after = [];
  fills = [];
}

abbrev pub by_pool_id : PoolClearing → PoolClearing → Bool
by_pool_id p q = leb p.pool_id q.pool_id

pub sorted_pools : List PoolClearing → List PoolClearing
unfolding pad
sorted_pools pools = pad max_active_pools_per_epoch sentinel_pool (sort_by by_pool_id pools)

-- `xs[i] ?? d`
abbrev pub get_or {ℓ} : {A : Type ℓ} → A → Option A → A
get_or d none = d
get_or d (some x) = x

-- One element of active_pool_clearings.
pub record ActivePool : Type 0 where
  pub pool_id : ℕ
  pub clearing_price : ℕ
  pub token_lo : ℕ
  pub token_hi : ℕ
  pub flows : AggregateFlows
  pub current_sqrt_price_after : ℕ
  pub pool_state_commitment : ℕ
  pub active_bucket_count : ℕ
  pub active_bucket_deltas : List BucketDelta

pub pool_row : Args → ℕ → PoolClearing → AggregateFlows → ActivePool
unfolding pad
pool_row a i pc flows =
    let pair = get_or (0, 0) (get_elem? a.pool_token_pairs i) in
    record {
      pool_id = pc.pool_id;
      clearing_price = pc.clearing_price;
      token_lo = pair.0;
      token_hi = pair.1;
      flows = flows;
      current_sqrt_price_after = pc.current_sqrt_price_after;
      pool_state_commitment = get_or 0 (get_elem? a.pool_state_commitments i);
      active_bucket_count = length pc.bucket_deltas;
      active_bucket_deltas = pad max_active_buckets_per_epoch sentinel_delta pc.bucket_deltas;
    }

pub active_pool : Args → ℕ → PoolClearing → Result ActivePool
unfolding pool_row
active_pool a i pc = do
  flows ← derive_aggregate_flows pc.bucket_deltas (map (λ s. s.liquidity) pc.bucket_states_before)
  ok (pool_row a i pc flows)

pub active_pools : Args → ℕ → List PoolClearing → Result (List ActivePool)
unfolding active_pool
active_pools a i [] = ok []
active_pools a i (pc ∷ pools) = do
  one ← active_pool a i pc
  rest ← active_pools a (suc i) pools
  ok (one ∷ rest)

-- An order of the private inputs, its route by default two hops over zeros.
pub record OrderRow : Type 0 where
  pub order : OrderNotePreimage
  pub path_len : ℕ
  pub path_0 : ℕ
  pub path_1 : ℕ
  pub path_2 : ℕ

abbrev pub row_of : OrderNotePreimage → OrderRow
row_of o = record {
  order = o;
  path_len = get_or 2 o.path_len;
  path_0 = get_or 0 (get_elem? (get_or (0 ∷ 0 ∷ 0 ∷ []) o.path) 0);
  path_1 = get_or 0 (get_elem? (get_or (0 ∷ 0 ∷ 0 ∷ []) o.path) 1);
  path_2 = get_or 0 (get_elem? (get_or (0 ∷ 0 ∷ 0 ∷ []) o.path) 2);
}

abbrev pub empty_fill : HopFill
empty_fill = record { order_nonce = 0; hop_index = 0; amount_out = 0; pool_id = 0; owner = 0 }

abbrev pub known_index : Option ℕ → Result ℕ
known_index none = err Error.unknown_fill
known_index (some i) = ok i

-- The order of each fill; a fill of no order throws.
pub indices : List OrderNotePreimage → List HopFill → Result (List ℕ)
unfolding find_index
indices orders fills = map_result (λ f. known_index (find_index f.order_nonce 0 orders)) fills

abbrev pub four : List BucketState → List BucketState
unfolding pad
four states = pad max_active_buckets_per_epoch sentinel_state states

-- The first three of a list, missing ones by a default.
abbrev pub three {ℓ} : {A : Type ℓ} → A → List A → List A
three d xs = get_or d (get_elem? xs 0) ∷ get_or d (get_elem? xs 1) ∷ get_or d (get_elem? xs 2) ∷ []

pub record ProverToml : Type 0 where
  pub order_acc : ℕ
  pub cancel_acc : ℕ
  pub order_count : ℕ
  pub cancel_count : ℕ
  pub fills_root : ℕ
  pub active_pool_count : ℕ
  pub active_pool_clearings : List ActivePool
  pub orders : List OrderRow
  pub cancelled_indices : List ℕ
  pub fills : List HopFill
  pub fills_len : ℕ
  pub fill_to_order_index : List ℕ
  pub pool_bucket_states_before : List (List BucketState)
  pub pool_bucket_states_after : List (List BucketState)
  pub pool_sqrt_p_before : List ℕ
  pub pool_token_pairs : List (ℕ × ℕ)

pub record ClearingWitness : Type 0 where
  pub prover_toml : ProverToml
  pub fills_root : ℕ
  pub leaves : List ℕ
  pub max_orders_per_epoch : ℕ

pub witness_of : Args → List ℕ → ℕ → List ActivePool → List ℕ → ClearingWitness
unfolding pad sorted_pools four
witness_of a leaves root active index =
    let pools = sorted_pools a.per_pool_clearings in
    record {
      prover_toml = record {
        order_acc = a.epoch.order_acc;
        cancel_acc = a.epoch.cancel_acc;
        order_count = a.epoch.order_count;
        cancel_count = a.epoch.cancel_count;
        fills_root = root;
        active_pool_count = length a.per_pool_clearings;
        active_pool_clearings = active;
        orders = map row_of (pad a.max_orders empty_order a.orders);
        cancelled_indices = pad a.max_orders 0 a.cancellation_indices;
        fills = pad (2 * a.max_orders) empty_fill a.fills;
        fills_len = length a.fills;
        fill_to_order_index = pad (2 * a.max_orders) 0 index;
        pool_bucket_states_before = map (λ p. four p.bucket_states_before) pools;
        pool_bucket_states_after = map (λ p. four p.bucket_states_after) pools;
        pool_sqrt_p_before = three 0 a.pool_sqrt_p_before;
        pool_token_pairs = three (0, 0) a.pool_token_pairs;
      };
      fills_root = root;
      leaves = leaves;
      max_orders_per_epoch = a.max_orders;
    }

module _ (poseidon2 : List ℤ → ℕ) where
  unfoldable pub build_clearing_witness_multi_pair : Args → Result ClearingWitness
  unfolding sorted_pools active_pools indices witness_of
  build_clearing_witness_multi_pair a = guards a >> do
    tree ← build_hop_fills_tree poseidon2 (map leaf_of a.fills) (2 * a.max_orders)
    root ← or_fault tree.root
    active ← active_pools a 0 (sorted_pools a.per_pool_clearings)
    index ← indices a.orders a.fills
    ok (witness_of a tree.leaves root active index)
