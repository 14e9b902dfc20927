-- ===== src/Sdk/Tests.antt =====
-- Orders of a maker on two tokens, the second the lower: a sale that is turned into a purchase.
use mathlib.Core.List.Permᴰ
use quetzaldex.Prelude.{
  ℕ, ◌+◌, ◌-◌, ◌≡◌, refl, false, List, [], ◌∷◌, Option, none, some, String, arith, inl,
  if◌then◌else◌, map, take, ◌==◌,
}
use quetzaldex.Prelude.Result.{Error, Result, ok}
use quetzaldex.Prelude.Sort.{sort_by, insert_by}
use quetzaldex.Validate.{sort_reveals}
use quetzaldex.Sdk.Paths.{
  buy, sell, PlaceOrderInput, PathTriple, canonicalize_path, validate_place_order_input,
  resolve_aliases_to_hex, path_hex_to_fields, resolve_one, alias_of,
}
use quetzaldex.Sdk.Paths.Canonical.{Kept, canonicalize_path-Kept}
use quetzaldex.Sdk.Bulk.{decoys, build_bulk_slots, BulkSlotsResult}
use quetzaldex.Sdk.Bulk.Reveals.{validated, replay_of, sort_reveals-build_bulk_slots}
use quetzaldex.Sdk.Escrow.{Wallet, mined, notes, ensure_private_balance}
use quetzaldex.Sdk.Place.{Chain, Placed, place_order, first_answer, prepare, submit}
use quetzaldex.Sdk.Place.Witness.{Consistent, place_order-Consistent}
use text.Mathlib.Text

abbrev usdc : String
usdc = "0x0b"

abbrev eth : String
eth = "0x0a"

abbrev read : String → Option ℕ
read s = if Text.◌==◌ s usdc then some 11 else if Text.◌==◌ s eth then some 10 else none

abbrev pair : List String
pair = usdc ∷ eth ∷ []

sale_turns : canonicalize_path read sell pair ≡ ok (buy, eth ∷ usdc ∷ [])
unfolding canonicalize_path
sale_turns = refl

canonicalize_path-Kept_example : Kept read sell buy pair (eth ∷ usdc ∷ [])
canonicalize_path-Kept_example =
    canonicalize_path-Kept read sell buy pair (eth ∷ usdc ∷ []) sale_turns

abbrev triple : PathTriple
triple = record { path_len = 2; field_0 = 10; field_1 = 11; field_2 = 0 }

-- A generator of falling nonces.
abbrev falling : ℕ → ℕ
falling n = 100 - n

abbrev two : BulkSlotsResult
two = build_bulk_slots false 50 7 triple falling 1

sort_reveals-build_bulk_slots_example :
    sort_reveals (map (validated 40 9) two.reveals) ≡ map (replay_of 40 9) (take 2 two.slots)
unfolding build_bulk_slots sort_by insert_by decoys
sort_reveals-build_bulk_slots_example =
    sort_reveals-build_bulk_slots 40 9 false 50 7 triple falling 1 (omega arith)
      ((inl (refl, refl), tt), (tt, tt)) (map (validated 40 9) two.reveals)
      (Permᴰ.refl (map (validated 40 9) two.reveals))

abbrev purse : Wallet
purse = record { private = 8; public = 50 }

-- Eight are private of the twenty for two slots: the notes of the rest are too small for one each.
small_notes : notes (20 - 8) 2 ≡ 6 ∷ 6 ∷ []
unfolding notes
small_notes = refl

abbrev sale : PlaceOrderInput
sale = record { side = sell; amount = 20; limit_price = 3; path = "tUSDC" ∷ eth ∷ [] }

abbrev chain : Chain
chain = record {
  contracts = some (record { t_usdc = some usdc; t_eth = some eth; t_btc = none });
  shield = mined;
  send = mined;
  other = Error.type_error;
  epochs = λ i. if i == 2 then some 5 else none;
  tx_hash = some "0xff";
  block_number = some 41;
  anchors = λ nonce i. some 40;
  rng = λ n. 70 + n;
}

abbrev wallets : String → Wallet
wallets token = purse

abbrev outcome : Result Placed × (String → Wallet)
outcome = place_order read read chain sale wallets

abbrev sold : Placed
sold = record {
  submitted = record {
    side = false;
    amount = 20;
    limit_price = 3;
    nonce = 71;
    order_nonce = 70;
    path = triple;
  };
  witness = record { token = eth; amount = 20; nonce = 71 };
  result = record {
    tx_hash = "0xff";
    nonce = 71;
    order_nonce = 70;
    epoch = 5;
    block_number = 41;
    submitted_at_block = 40;
    side = false;
    path = triple;
  };
}

sale_is_placed : place_order read read chain sale wallets ≡ (ok sold, outcome.1)
unfolding place_order prepare submit validate_place_order_input resolve_aliases_to_hex resolve_one
    alias_of first_answer canonicalize_path path_hex_to_fields ensure_private_balance
sale_is_placed = refl

place_order-Consistent_example : Consistent chain.contracts sale sold wallets outcome.1
place_order-Consistent_example =
    place_order-Consistent read read chain sale wallets outcome.1 sold sale_is_placed
