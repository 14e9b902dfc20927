-- ===== src/Clearing/Types.antt =====
-- The data of the clearing: the interfaces of aggregator/src/clearing.ts. Amounts, prices and nonces
-- are naturals; reserves and net flows, which the code subtracts freely, are integers.
use quetzaldex.Prelude.{ℕ, Bool, List, Option}
use quetzaldex.Prelude.Int.{ℤ}
use quetzaldex.Buckets.{BucketBounds, BucketState}

-- side: false is a buy (pays token A, wants token B), true is a sell.
pub record ClearingOrder : Type 0 where
  pub side : Bool
  pub amount_in : ℕ
  pub limit_price : ℕ
  pub submitted_at_block : ℕ
  pub order_nonce : ℕ
  pub owner : ℕ

pub record OrderFill : Type 0 where
  pub order_nonce : ℕ
  pub filled_in : ℕ
  pub amount_out : ℕ

pub record PoolWithBuckets : Type 0 where
  pub reserve_a : ℤ
  pub reserve_b : ℤ
  pub lp_supply : ℕ
  pub current_sqrt_price : ℕ
  pub bucket_bounds : List BucketBounds
  pub bucket_states : List BucketState

pub record BucketDelta : Type 0 where
  pub bucket_id : ℕ
  pub reserve_a_add : ℕ
  pub reserve_a_sub : ℕ
  pub reserve_b_add : ℕ
  pub reserve_b_sub : ℕ
  pub cum_fee_a_inc : ℕ
  pub cum_fee_b_inc : ℕ

pub record BucketTrace : Type 0 where
  pub new_sqrt_price : ℕ
  pub bucket_deltas : List BucketDelta
  pub new_reserve_a : ℤ
  pub new_reserve_b : ℤ

pub record NetSwap : Type 0 where
  pub new_reserve_a : ℤ
  pub new_reserve_b : ℤ
  pub realized_p : ℕ
  pub fee_amount_a : ℕ
  pub fee_amount_b : ℕ
  pub amm_a_in : ℕ
  pub amm_a_out : ℕ
  pub amm_b_in : ℕ
  pub amm_b_out : ℕ
  -- the optional `saturated` flag
  pub saturated : Bool
  pub trace : Option BucketTrace

pub record PriceEval : Type 0 where
  pub net_a : ℤ
  pub swap : NetSwap
  pub eligible_buys : List ClearingOrder
  pub eligible_sells : List ClearingOrder

pub record ClearingResult : Type 0 where
  pub cleared : Bool
  pub clearing_price : ℕ
  pub fills : List OrderFill
  pub new_reserve_a : ℤ
  pub new_reserve_b : ℤ
  pub fee_a_per_share_increment : ℕ
  pub fee_b_per_share_increment : ℕ
  pub bucket_trace : Option BucketTrace
