-- ===== src/Sdk/Paths.antt =====
-- The inputs of an order and its path: sdk/src/orders.ts. `big_int` is the language's `BigInt(s)`,
-- of addresses, which are not negative, and `fr_from_string` the field library's `Fr.fromString`;
-- `none` is a thrown error. The `u128` cast keeps the lower 128 bits.
pub mod Canonical
use mathlib.Core.List.{reverse}
use quetzaldex.Prelude.{
  ℕ, zero, suc, ◌-◌, ◌*◌, ◌%◌, ◌^◌, Bool, true, false, not, ◌&&◌, ◌||◌, List, [], ◌∷◌, Option, none,
  some, ltb, leb, ◌==◌, if◌then◌else◌, length, get_elem?, any, String,
}
use quetzaldex.Prelude.Result.{Error, Result, ok, err, ◌>>=◌, ◌>>◌, throw_if, or_fault, map_result}
use text.Mathlib.Text

abbrev pub max_orders_per_bulk : ℕ
max_orders_per_bulk = 5

abbrev pub max_decoys : ℕ
max_decoys = max_orders_per_bulk - 1

pub data OrderSide : Type 0 where
  buy sell : OrderSide

pub record PlaceOrderInput : Type 0 where
  pub side : OrderSide
  pub amount : ℕ
  pub limit_price : ℕ
  pub path : List String

abbrev pub bad_length : List String → Bool
bad_length path = ltb (length path) 2 || ltb 3 (length path)

unfoldable pub validate_place_order_input : PlaceOrderInput → Result (Unit {0})
validate_place_order_input input =
    throw_if (input.amount == 0) Error.invalid_path
    >> throw_if (input.limit_price == 0) Error.invalid_path
    >> throw_if (bad_length input.path) Error.invalid_path

unfoldable pub validate_bulk_input : PlaceOrderInput → ℕ → Result (Unit {0})
unfolding validate_place_order_input
validate_bulk_input input decoy_count =
    validate_place_order_input input >> throw_if (ltb max_decoys decoy_count) Error.invalid_path

abbrev pub flip : OrderSide → OrderSide
flip buy = sell
flip sell = buy

abbrev pub number : Option ℕ → Result ℕ
number none = err Error.syntax_error
number (some n) = ok n

abbrev pub first_of : List String → Option String
first_of path = get_elem? path 0

abbrev pub last_of : List String → Option String
last_of path = get_elem? path (length path - 1)

module _ (big_int : String → Option ℕ) where
  -- The lower 128 bits of an end of the path.
  abbrev pub low_bits : Option String → Result ℕ
  low_bits end = do s ← or_fault end; n ← number (big_int s); ok (n % 2 ^ 128)

  -- Equal ends throw; the lower end comes first.
  abbrev pub ordered : OrderSide → List String → ℕ → ℕ → Result (OrderSide × List String)
  ordered side path lo hi =
      if lo == hi
      then err Error.invalid_path
      else if ltb lo hi
      then ok (side, path)
      else ok (flip side, reverse path)

  unfoldable pub canonicalize_path : OrderSide → List String → Result (OrderSide × List String)
  canonicalize_path side path =
      throw_if (bad_length path) Error.invalid_path
      >> do lo ← low_bits (first_of path); hi ← low_bits (last_of path); ordered side path lo hi

-- The configured token addresses.
pub record Contracts : Type 0 where
  pub t_usdc : Option String
  pub t_eth : Option String
  pub t_btc : Option String

abbrev pub require_contracts : Option Contracts → Result Contracts
require_contracts none = err Error.missing_env
require_contracts (some c) = ok c

abbrev pub known : Option String → Result String
known none = err Error.invalid_path
known (some a) = if Text.◌==◌ a "" then err Error.invalid_path else ok a

unfoldable pub alias_of : Contracts → String → Option String
alias_of c p =
    if Text.◌==◌ p "tUSDC"
    then c.t_usdc
    else if Text.◌==◌ p "tETH"
    then c.t_eth
    else if Text.◌==◌ p "tBTC"
    then c.t_btc
    else none

unfoldable pub resolve_one : Contracts → String → Result String
unfolding alias_of
resolve_one c p = if Text.starts_with p "0x" then ok p else known (alias_of c p)

unfoldable pub resolve_aliases_to_hex : Option Contracts → List String → Result (List String)
unfolding resolve_one
resolve_aliases_to_hex contracts path = do
  c ← require_contracts contracts
  checked ← throw_if (bad_length path) Error.invalid_path
  map_result (resolve_one c) path

abbrev pub repeats : List String → Bool
repeats [] = false
repeats (x ∷ xs) = any (λ y. Text.◌==◌ x y) xs || repeats xs

pub record PathTriple : Type 0 where
  pub path_len : ℕ
  pub field_0 : ℕ
  pub field_1 : ℕ
  pub field_2 : ℕ

module _ (fr_from_string : String → Option ℕ) where
  -- The third entry, where there is one and it is not empty.
  abbrev pub third_field : Option String → Result ℕ
  third_field none = ok 0
  third_field (some s) = if Text.◌==◌ s "" then ok 0 else number (fr_from_string s)

  unfoldable pub path_hex_to_fields : List String → Result PathTriple
  path_hex_to_fields hexes = do
    sized ← throw_if (bad_length hexes) Error.invalid_path
    distinct ← throw_if (repeats hexes) Error.invalid_path
    first ← or_fault (get_elem? hexes 0)
    f0 ← number (fr_from_string first)
    second ← or_fault (get_elem? hexes 1)
    f1 ← number (fr_from_string second)
    f2 ← third_field (get_elem? hexes 2)
    ok (record { path_len = length hexes; field_0 = f0; field_1 = f1; field_2 = f2 })

abbrev pub is_sell : OrderSide → Bool
is_sell buy = false
is_sell sell = true

-- A bid escrows the first token of the canonical path, an ask the last.
abbrev pub input_token : OrderSide → List String → Option String
input_token buy path = first_of path
input_token sell path = last_of path

abbrev pub output_token : OrderSide → List String → Option String
output_token side path = input_token (flip side) path

pub record EscrowParams : Type 0 where
  pub input_token_hex : String
  pub total_amount : ℕ
  pub slots : ℕ

module _ (big_int : String → Option ℕ) where
  unfoldable pub escrow_params_for : Option Contracts → PlaceOrderInput → ℕ → Result EscrowParams
  unfolding canonicalize_path resolve_aliases_to_hex
  escrow_params_for contracts input decoy_count = do
    resolved ← resolve_aliases_to_hex contracts input.path
    canonical ← canonicalize_path big_int input.side resolved
    token ← or_fault (input_token canonical.0 canonical.1)
    ok (record {
      input_token_hex = token;
      total_amount = input.amount * suc decoy_count;
      slots = suc decoy_count;
    })
