-- ===== src/Router/Types.antt =====
-- The orders, fills and results of computeClearingMultiPair in aggregator/src/clearing.ts, and its
-- constants.
use quetzaldex.Prelude.{ℕ, Bool, List}
use quetzaldex.Clearing.Types.{ClearingOrder, OrderFill, BucketDelta}
use quetzaldex.Buckets.{BucketState}

abbrev pub min_fill_amount_in : ℕ
min_fill_amount_in = 100_000

abbrev pub multi_pair_max_iters : ℕ
multi_pair_max_iters = 8

abbrev pub hop_fee_num : ℕ
hop_fee_num = 30

abbrev pub hop_fee_den : ℕ
hop_fee_den = 10_000

-- `path_len` is 2 or 3.
pub data PathLen : Type 0 where
  two three : PathLen

pub record MultiPairOrder : Type 0 where
  pub order : ClearingOrder
  pub open order use *
  pub path_0 : ℕ
  pub path_1 : ℕ
  pub path_2 : ℕ
  pub path_len : PathLen

pub record HopFill : Type 0 where
  pub order_nonce : ℕ
  pub hop_index : ℕ
  pub amount_out : ℕ
  pub pool_id : ℕ
  pub owner : ℕ

pub record PoolClearing : Type 0 where
  pub pool_id : ℕ
  pub clearing_price : ℕ
  pub bucket_deltas : List BucketDelta
  pub current_sqrt_price_after : ℕ
  pub bucket_states_before : List BucketState
  pub bucket_states_after : List BucketState
  pub fills : List OrderFill

pub record MultiPairResult : Type 0 where
  pub cleared : Bool
  pub active_pool_count : ℕ
  pub per_pool_clearings : List PoolClearing
  pub fills : List HopFill

pub record Routed : Type 0 where
  pub source : MultiPairOrder
  pub hops : List ℕ
