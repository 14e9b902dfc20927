-- ===== src/Witness/Tests.antt =====
-- A witness for an epoch of two orders, one of them over two pools, under a stand-in hash.
use quetzaldex.Prelude.{ℕ, ◌≡◌, refl, true, [], ◌∷◌, some, arith, inl, inr}
use quetzaldex.Prelude.StandIn.{mix}
use quetzaldex.Prelude.Result.{ok}
use quetzaldex.Clearing.Types.{BucketDelta}
use quetzaldex.Router.{HopFill, PoolClearing}
use quetzaldex.Witness.{OrderNotePreimage, sentinel_state}
use quetzaldex.Witness.Multi.{Args, ClearingWitness, build_clearing_witness_multi_pair}
use quetzaldex.Witness.Multi.Index.{Pointed}
use quetzaldex.Witness.Multi.Returns.{Shaped, build_clearing_witness_multi_pair-returns}

abbrev order : ℕ → OrderNotePreimage
order order_nonce = record {
  side = true;
  amount_in = 1000;
  limit_price = 10;
  order_nonce = order_nonce;
  submitted_at_block = 40;
  owner = 77;
  path_len = some 3;
  path = some (5 ∷ 6 ∷ 7 ∷ []);
}

abbrev fill : ℕ → ℕ → HopFill
fill order_nonce hop_index = record {
  order_nonce = order_nonce;
  hop_index = hop_index;
  amount_out = 500;
  pool_id = hop_index;
  owner = 77;
}

abbrev delta : BucketDelta
delta = record {
  bucket_id = 3;
  reserve_a_add = 900;
  reserve_a_sub = 0;
  reserve_b_add = 0;
  reserve_b_sub = 500;
  cum_fee_a_inc = 0;
  cum_fee_b_inc = 0;
}

abbrev pool : ℕ → PoolClearing
pool pool_id = record {
  pool_id = pool_id;
  clearing_price = 2;
  bucket_deltas = delta ∷ [];
  current_sqrt_price_after = 9;
  bucket_states_before = sentinel_state ∷ [];
  bucket_states_after = sentinel_state ∷ [];
  fills = [];
}

abbrev two_orders : Args
two_orders = record {
  epoch = record { order_acc = 1; cancel_acc = 2; order_count = 2; cancel_count = 0 };
  orders = order 11 ∷ order 12 ∷ [];
  cancellation_indices = [];
  per_pool_clearings = pool 1 ∷ pool 0 ∷ [];
  fills = fill 11 0 ∷ fill 11 1 ∷ fill 12 0 ∷ [];
  max_orders = 32;
  pool_sqrt_p_before = 8 ∷ 8 ∷ [];
  pool_token_pairs = (5, 6) ∷ (6, 7) ∷ [];
  pool_state_commitments = [];
}

build_clearing_witness_multi_pair-returns_example :
    (w : ClearingWitness) × (build_clearing_witness_multi_pair mix two_orders ≡ ok w)
    × Shaped two_orders w
    × Pointed 2 w.prover_toml.orders two_orders.fills w.prover_toml.fill_to_order_index
build_clearing_witness_multi_pair-returns_example =
    build_clearing_witness_multi_pair-returns mix two_orders 6
      (omega arith, omega arith, refl, omega arith, refl) (omega arith) (refl, (refl, tt))
      ((refl, (refl, tt)), ((refl, tt), (tt, tt))) (inl refl, (inl refl, (inr (inl refl), tt)))
