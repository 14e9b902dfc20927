-- ===== src/Witness/Single.antt =====
-- buildClearingWitness of aggregator/src/witness.ts: the inputs of the circuit for one pool.
pub mod Sums
pub mod Index
pub mod Balance
mod Tests
use quetzaldex.Prelude.{
  ℕ, zero, suc, ◌+◌, ◌*◌, ◌-◌, ◌/◌, Bool, true, false, not, List, [], ◌∷◌, Option, none, some, ltb,
  ◌==◌, if◌then◌else◌, length, map, any, find,
}
use quetzaldex.Prelude.Int.{ℤ}
use quetzaldex.Prelude.Result.{Error, Result, ok, err, ◌>>=◌, ◌>>◌, throw_if}
use quetzaldex.FixedPoint.{div}
use quetzaldex.Buckets.{BucketState}
use quetzaldex.Clearing.Types.{BucketDelta, ClearingResult, OrderFill}
use quetzaldex.Merkle.{JsFillEntry, MerkleTreeOutput, build_fills_tree}
use quetzaldex.Witness.{
  EpochState, OrderNotePreimage, empty_order, sentinel_delta, sentinel_state, pad,
  max_active_buckets_per_epoch,
}

pub record PoolSnapshot : Type 0 where
  pub reserve_a : ℕ
  pub reserve_b : ℕ
  pub current_sqrt_price_before : ℕ

pub record Args : Type 0 where
  pub epoch : EpochState
  pub pool : PoolSnapshot
  pub orders : List OrderNotePreimage
  pub cancellation_indices : List ℕ
  pub clearing : ClearingResult
  pub bucket_states_before : List BucketState
  pub bucket_states_after : List BucketState
  pub bucket_deltas : List BucketDelta
  pub current_sqrt_price_after : ℕ
  pub max_orders : ℕ

abbrev pub guards : Args → Result (Unit {0})
guards a =
    throw_if (not (length a.orders == a.epoch.order_count)) Error.order_count_mismatch
    >> throw_if (not (length a.cancellation_indices == a.epoch.cancel_count))
        Error.cancel_count_mismatch
    >> throw_if (ltb max_active_buckets_per_epoch (length a.bucket_deltas)) Error.too_many_deltas
    >> throw_if (not (length a.bucket_states_before == length a.bucket_deltas))
        Error.states_mismatch
    >> throw_if (not (length a.bucket_states_after == length a.bucket_deltas)) Error.states_mismatch

abbrev pub scale_fe : ℕ
scale_fe = 1000000000000000000

-- The circuit's fee: thirty in ten thousand.
abbrev pub less_fee : ℕ → ℕ
less_fee gross = gross * (10000 - 30) / 10000

-- A buyer's payout divides by the price.
abbrev pub circuit_payout : OrderNotePreimage → ℕ → Result ℕ
circuit_payout o p = do
  gross ← if o.side then ok (o.amount_in * p / scale_fe) else div (o.amount_in * scale_fe) p
  ok (less_fee gross)

abbrev pub has_nonce : ℕ → List OrderNotePreimage → Bool
has_nonce nonce orders = any (λ o. o.order_nonce == nonce) orders

abbrev pub check_fills : List OrderNotePreimage → List OrderFill → Result (Unit {0})
check_fills orders [] = ok tt
check_fills orders (f ∷ fs) =
    throw_if (not (has_nonce f.order_nonce orders)) Error.unknown_fill >> check_fills orders fs

abbrev pub is_filled : List OrderFill → OrderNotePreimage → Bool
is_filled fills o = any (λ f. f.order_nonce == o.order_nonce) fills

-- The fills in the order of the orders, each with the order's index.
pub canonical_fills :
    List OrderFill → ℕ → ℕ → List OrderNotePreimage → Result (List (JsFillEntry × ℕ))
canonical_fills fills p i [] = ok []
canonical_fills fills p i (o ∷ orders) = elim (is_filled fills o) [
  | true ↦ do
    amount_out ← circuit_payout o p
    rest ← canonical_fills fills p (suc i) orders
    ok ((record { order_nonce = o.order_nonce; amount_out = amount_out }, i) ∷ rest)
  | false ↦ canonical_fills fills p (suc i) orders
]

pub record Totals : Type 0 where
  pub gross_buy_in_a : ℕ
  pub gross_sell_in_b : ℕ
  pub buyer_payouts_b : ℕ
  pub seller_payouts_a : ℕ

abbrev pub add_fill : OrderNotePreimage → ℕ → Totals → Totals
add_fill o amount_out t =
    if o.side
    then record {
      gross_buy_in_a = t.gross_buy_in_a;
      gross_sell_in_b = t.gross_sell_in_b + o.amount_in;
      buyer_payouts_b = t.buyer_payouts_b;
      seller_payouts_a = t.seller_payouts_a + amount_out;
    }
    else record {
      gross_buy_in_a = t.gross_buy_in_a + o.amount_in;
      gross_sell_in_b = t.gross_sell_in_b;
      buyer_payouts_b = t.buyer_payouts_b + amount_out;
      seller_payouts_a = t.seller_payouts_a;
    }

-- A fill whose order is not found is passed over.
abbrev pub add_found : Option OrderNotePreimage → ℕ → Totals → Totals
add_found none amount_out t = t
add_found (some o) amount_out t = add_fill o amount_out t

pub totals : List OrderNotePreimage → List JsFillEntry → Totals → Totals
totals orders [] t = t
totals orders (c ∷ cs) t =
    totals orders cs (add_found (find (λ o. o.order_nonce == c.order_nonce) orders) c.amount_out t)

abbrev pub no_totals : Totals
no_totals = record {
  gross_buy_in_a = 0;
  gross_sell_in_b = 0;
  buyer_payouts_b = 0;
  seller_payouts_a = 0;
}

-- `sat`: the subtraction that stops at zero.
abbrev pub sat : ℕ → ℕ → ℕ
sat x y = if ltb y x then x - y else 0

pub record ProverToml : Type 0 where
  pub order_acc : ℕ
  pub cancel_acc : ℕ
  pub order_count : ℕ
  pub cancel_count : ℕ
  pub reserve_a : ℕ
  pub reserve_b : ℕ
  pub clearing_price : ℕ
  pub fills_root : ℕ
  pub a_to_pool : ℕ
  pub b_to_pool : ℕ
  pub a_from_pool : ℕ
  pub b_from_pool : ℕ
  pub current_sqrt_price_after : ℕ
  pub active_bucket_count : ℕ
  pub active_bucket_deltas : List BucketDelta
  pub orders : List OrderNotePreimage
  pub cancelled_indices : List ℕ
  pub fills : List JsFillEntry
  pub fills_len : ℕ
  pub fill_to_order_index : List ℕ
  pub bucket_states_before : List BucketState
  pub bucket_states_after : List BucketState
  pub pool_sqrt_p_before : ℕ

pub record ClearingWitness : Type 0 where
  pub prover_toml : ProverToml
  pub fills_root : ℕ
  pub leaves : List ℕ
  pub max_orders_per_epoch : ℕ

abbrev pub empty_entry : JsFillEntry
empty_entry = record { order_nonce = 0; amount_out = 0 }

abbrev pub sums : Args → List (JsFillEntry × ℕ) → Totals
unfolding totals
sums a canonical = totals a.orders (map (λ c. c.0) canonical) no_totals

-- The first `n` of the fills, missing ones blank.
pub first_fills : ℕ → List JsFillEntry → List JsFillEntry
first_fills zero fills = []
first_fills (suc n) [] = empty_entry ∷ first_fills n []
first_fills (suc n) (f ∷ fills) = f ∷ first_fills n fills

pub witness_of : Args → List (JsFillEntry × ℕ) → MerkleTreeOutput → ClearingWitness
unfolding pad totals first_fills
witness_of a canonical tree =
    let t = sums a canonical in
    record {
      prover_toml = record {
        order_acc = a.epoch.order_acc;
        cancel_acc = a.epoch.cancel_acc;
        order_count = a.epoch.order_count;
        cancel_count = a.epoch.cancel_count;
        reserve_a = a.pool.reserve_a;
        reserve_b = a.pool.reserve_b;
        clearing_price = a.clearing.clearing_price;
        fills_root = tree.root;
        a_to_pool = sat t.gross_buy_in_a t.seller_payouts_a;
        b_to_pool = sat t.gross_sell_in_b t.buyer_payouts_b;
        a_from_pool = sat t.seller_payouts_a t.gross_buy_in_a;
        b_from_pool = sat t.buyer_payouts_b t.gross_sell_in_b;
        current_sqrt_price_after = a.current_sqrt_price_after;
        active_bucket_count = length a.bucket_deltas;
        active_bucket_deltas = pad max_active_buckets_per_epoch sentinel_delta a.bucket_deltas;
        orders = pad a.max_orders empty_order a.orders;
        cancelled_indices = pad a.max_orders 0 a.cancellation_indices;
        fills = first_fills a.max_orders (map (λ c. c.0) canonical);
        fills_len = length canonical;
        fill_to_order_index = pad a.max_orders 0 (map (λ c. c.1) canonical);
        bucket_states_before =
            pad max_active_buckets_per_epoch sentinel_state a.bucket_states_before;
        bucket_states_after = pad max_active_buckets_per_epoch sentinel_state a.bucket_states_after;
        pool_sqrt_p_before = a.pool.current_sqrt_price_before;
      };
      fills_root = tree.root;
      leaves = tree.leaves;
      max_orders_per_epoch = a.max_orders;
    }

module _ (poseidon2 : List ℤ → ℕ) where
  unfoldable pub build_clearing_witness : Args → Result ClearingWitness
  unfolding canonical_fills witness_of
  build_clearing_witness a = guards a >> do
    check_fills a.orders a.clearing.fills
    canonical ← canonical_fills a.clearing.fills a.clearing.clearing_price 0 a.orders
    tree ← build_fills_tree poseidon2 (map (λ c. c.0) canonical)
    ok (witness_of a canonical tree)
