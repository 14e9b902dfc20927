-- ===== src/Witness.antt =====
-- The circuit's inputs: aggregator/src/witness.ts. The text of `Prover.toml` is the record of its
-- fields, in their order.
pub mod Padding
pub mod Single
pub mod Multi
mod Tests
use quetzaldex.Prelude.{
  ℕ, zero, suc, ◌-◌, Bool, false, List, [], ◌∷◌, ◌++◌, Option, none, some, ◌==◌, if◌then◌else◌,
  length,
}
use quetzaldex.Prelude.Int.{ℤ, pos}
use quetzaldex.Prelude.Result.{Error, Result, ok, err}
use quetzaldex.Buckets.{BucketState}
use quetzaldex.Clearing.Types.{BucketDelta}
use quetzaldex.Merkle.{replicate}

abbrev pub max_orders_per_epoch : ℕ
max_orders_per_epoch = 32

abbrev pub max_active_buckets_per_epoch : ℕ
max_active_buckets_per_epoch = 4

abbrev pub invalid_bucket_id : ℕ
invalid_bucket_id = 0xffff

pub record EpochState : Type 0 where
  pub order_acc : ℕ
  pub cancel_acc : ℕ
  pub order_count : ℕ
  pub cancel_count : ℕ

-- An order's preimage, with the optional route that later orders carry.
pub record OrderNotePreimage : Type 0 where
  pub side : Bool
  pub amount_in : ℕ
  pub limit_price : ℕ
  pub order_nonce : ℕ
  pub submitted_at_block : ℕ
  pub owner : ℕ
  pub path_len : Option ℕ
  pub path : Option (List ℕ)

abbrev pub empty_order : OrderNotePreimage
empty_order = record {
  side = false;
  amount_in = 0;
  limit_price = 0;
  order_nonce = 0;
  submitted_at_block = 0;
  owner = 0;
  path_len = none;
  path = none;
}

abbrev pub sentinel_delta : BucketDelta
sentinel_delta = record {
  bucket_id = invalid_bucket_id;
  reserve_a_add = 0;
  reserve_a_sub = 0;
  reserve_b_add = 0;
  reserve_b_sub = 0;
  cum_fee_a_inc = 0;
  cum_fee_b_inc = 0;
}

abbrev pub sentinel_state : BucketState
sentinel_state = record {
  reserve_a = pos 0;
  reserve_b = pos 0;
  liquidity = 0;
  cum_fee_a_per_share = 0;
  cum_fee_b_per_share = 0;
}

-- `while (xs.length < n) xs.push(blank)`
unfoldable pub pad {ℓ} : {A : Type ℓ} → ℕ → A → List A → List A
pad n blank xs = xs ++ replicate (n - length xs) blank

-- `findIndex`, counted from `i`.
unfoldable pub find_index : ℕ → ℕ → List OrderNotePreimage → Option ℕ
find_index nonce i [] = none
find_index nonce i (o ∷ orders) =
    if o.order_nonce == nonce then some i else find_index nonce (suc i) orders
