-- ===== src/Witness/Single/Tests.antt =====
-- A witness for a seller and a buyer, under a stand-in hash: the buyer's payout is larger.
use quetzaldex.Prelude.{ℕ, ◌≡◌, refl, Bool, true, false, [], ◌∷◌, none, arith, inl, inr}
use quetzaldex.Prelude.StandIn.{mix}
use quetzaldex.Prelude.Int.{pos}
use quetzaldex.Prelude.Result.{ok}
use quetzaldex.Witness.{OrderNotePreimage}
use quetzaldex.Witness.Single.{Args, ClearingWitness, build_clearing_witness}
use quetzaldex.Witness.Single.Balance.{Balanced, Pays, build_clearing_witness-Balanced}

abbrev order : Bool → ℕ → OrderNotePreimage
order side order_nonce = record {
  side = side;
  amount_in = 1000000;
  limit_price = 2000000000000000000;
  order_nonce = order_nonce;
  submitted_at_block = 40;
  owner = 77;
  path_len = none;
  path = none;
}

-- A third order is left unfilled.
abbrev one_pool : Args
one_pool = record {
  epoch = record { order_acc = 1; cancel_acc = 2; order_count = 3; cancel_count = 0 };
  pool = record { reserve_a = 10; reserve_b = 20; current_sqrt_price_before = 9 };
  orders = order true 11 ∷ order false 12 ∷ order false 13 ∷ [];
  cancellation_indices = [];
  clearing = record {
    cleared = true;
    clearing_price = 2000000000000000000;
    fills =
        record { order_nonce = 12; filled_in = 1000000; amount_out = 1 }
        ∷ record { order_nonce = 11; filled_in = 1000000; amount_out = 1 }
        ∷ [];
    new_reserve_a = pos 10;
    new_reserve_b = pos 20;
    fee_a_per_share_increment = 0;
    fee_b_per_share_increment = 0;
    bucket_trace = none;
  };
  bucket_states_before = [];
  bucket_states_after = [];
  bucket_deltas = [];
  current_sqrt_price_after = 9;
  max_orders = 32;
}

build_clearing_witness-Balanced_example :
    (w : ClearingWitness) × (build_clearing_witness mix one_pool ≡ ok w)
    × Balanced one_pool w
    × Pays one_pool w
build_clearing_witness-Balanced_example =
    build_clearing_witness-Balanced mix one_pool (refl, refl, omega arith, refl, refl) (omega arith)
      (omega arith) (omega arith)
      (
        omega arith,
        (omega arith, (omega arith, tt)),
        (omega arith, (omega arith, tt), (omega arith, tt, tt)),
      )
      (inr (inl refl), (inl refl, tt))
