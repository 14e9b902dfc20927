-- ===== src/Sdk/Place.antt =====
-- Placing and claiming an order: placeOrder, claimFill and their helpers of sdk/src/orders.ts. What
-- the chain, the wallet and the aggregator answer is a parameter, one answer for each attempt.
pub mod Witness
use quetzaldex.Prelude.{
  ℕ, zero, suc, Bool, true, false, not, ◌&&◌, List, [], ◌∷◌, ◌++◌, Option, none, some, ◌==◌,
  if◌then◌else◌, length, String,
}
use quetzaldex.Prelude.Result.{Error, Result, ok, err, ◌>>=◌, throw_if, or_fault, map_result}
use quetzaldex.Sdk.Paths.{
  Contracts, require_contracts, OrderSide, PlaceOrderInput, validate_place_order_input,
  resolve_aliases_to_hex, canonicalize_path, path_hex_to_fields, PathTriple, is_sell, input_token,
  number,
}
use quetzaldex.Sdk.Escrow.{
  Wallet, Sent, mined, invalid_proof, refused, submit_error, ensure_private_balance, with_wallet,
}

-- What the i-th attempt and those after it find first, of `left`.
unfoldable pub first_answer {ℓ} : {A : Type ℓ} → (ℕ → Option A) → ℕ → ℕ → Option A
first_answer f i zero = none
first_answer f i (suc left) =
    let rest = first_answer f (suc i) left in elim (f i) [ none ↦ rest | some a ↦ some a ]

abbrev pub or_default : ℕ → Option ℕ → ℕ
or_default d none = d
or_default d (some n) = n

-- Four reads of the epoch, and 0 where all fail.
unfoldable pub read_epoch : (ℕ → Option ℕ) → ℕ
unfolding first_answer
read_epoch f = or_default 0 (first_answer f 0 4)

-- readAnchorBlock: six looks for the order's note, and the mined block where none finds it.
unfoldable pub read_anchor_block : (ℕ → Option ℕ) → ℕ → ℕ
unfolding first_answer
read_anchor_block f mined_block = or_default mined_block (first_answer f 0 6)

pub record Chain : Type 0 where
  pub contracts : Option Contracts
  pub shield : Sent
  pub send : Sent
  pub other : Error
  pub epochs : ℕ → Option ℕ
  pub tx_hash : Option String
  pub block_number : Option ℕ
  pub anchors : ℕ → ℕ → Option ℕ
  pub rng : ℕ → ℕ

-- The arguments of submit_order, and of the token's transfer that its witness authorises.
pub record SubmitOrder : Type 0 where
  pub side : Bool
  pub amount : ℕ
  pub limit_price : ℕ
  pub nonce : ℕ
  pub order_nonce : ℕ
  pub path : PathTriple

pub record EscrowAuthWit : Type 0 where
  pub token : String
  pub amount : ℕ
  pub nonce : ℕ

pub record PlaceOrderResult : Type 0 where
  pub tx_hash : String
  pub nonce : ℕ
  pub order_nonce : ℕ
  pub epoch : ℕ
  pub block_number : ℕ
  pub submitted_at_block : ℕ
  pub side : Bool
  pub path : PathTriple

pub record Placed : Type 0 where
  pub submitted : SubmitOrder
  pub witness : EscrowAuthWit
  pub result : PlaceOrderResult

-- The order as it will be submitted, with the token it escrows.
pub record Prepared : Type 0 where
  pub side : OrderSide
  pub path : PathTriple
  pub token : String

abbrev pub text_of : Option String → String
text_of none = ""
text_of (some s) = s

module _ (big_int fr_from_string : String → Option ℕ) where
  unfoldable pub prepare : Option Contracts → PlaceOrderInput → Result Prepared
  unfolding validate_place_order_input resolve_aliases_to_hex canonicalize_path path_hex_to_fields
  prepare contracts input = do
    valid ← validate_place_order_input input
    c ← require_contracts contracts
    resolved ← resolve_aliases_to_hex contracts input.path
    canonical ← canonicalize_path big_int input.side resolved
    fields ← path_hex_to_fields fr_from_string canonical.1
    token ← or_fault (input_token canonical.0 canonical.1)
    ok (record { side = canonical.0; path = fields; token = token })

-- The order's nonce is drawn first.
unfoldable pub placed : Chain → PlaceOrderInput → Prepared → Placed
unfolding read_epoch read_anchor_block
placed ch input p = record {
  submitted = record {
    side = is_sell p.side;
    amount = input.amount;
    limit_price = input.limit_price;
    nonce = ch.rng 1;
    order_nonce = ch.rng 0;
    path = p.path;
  };
  witness = record { token = p.token; amount = input.amount; nonce = ch.rng 1 };
  result = record {
    tx_hash = text_of ch.tx_hash;
    nonce = ch.rng 1;
    order_nonce = ch.rng 0;
    epoch = read_epoch ch.epochs;
    block_number = or_default 0 ch.block_number;
    submitted_at_block = read_anchor_block (ch.anchors (ch.rng 0)) (or_default 0 ch.block_number);
    side = is_sell p.side;
    path = p.path;
  };
}

unfoldable pub submit : Chain → PlaceOrderInput → Prepared → Result (List ℕ) → Result Placed
unfolding placed
submit ch input p (err e) = err e
submit ch input p (ok cs) = elim (submit_error ch.send ch.other) [
  | some e ↦ err e
  | none ↦ ok (placed ch input p)
]

module _ (big_int fr_from_string : String → Option ℕ) (ch : Chain) (input : PlaceOrderInput) where
  abbrev pub after_prepare : Result Prepared → (String → Wallet) → Result Placed × (String → Wallet)
  unfolding ensure_private_balance submit
  after_prepare (err e) wallets = (err e, wallets)
  after_prepare (ok p) wallets =
      let (funded, w) =
        ensure_private_balance ch.shield ch.other input.amount 1 (wallets p.token) in
      (submit ch input p funded, with_wallet p.token w wallets)

  -- The shield comes before the submit, and stays if the submit fails.
  unfoldable pub place_order : (String → Wallet) → Result Placed × (String → Wallet)
  unfolding prepare after_prepare
  place_order wallets = after_prepare (prepare big_int fr_from_string ch.contracts input) wallets
