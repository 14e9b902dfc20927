-- ===== src/Validate/Tests.antt =====
-- Two reveals replayed, and one with a late anchor repaired, under a stand-in hash and parsers.
use mathlib.Core.List.{Perm, Permᴰ}
use quetzaldex.Prelude.{
  ℕ, ◌+◌, ◌*◌, ◌%◌, ◌<◌, ◌≤◌, All, ltb, ◌≡◌, ◌≢◌, refl, true, List, [], ◌∷◌, Option, none, some,
  arith, length, String, inr,
}
use quetzaldex.Prelude.StandIn.{field, mix_field}
use quetzaldex.Prelude.Int.{ℤ, pos, negsuc, ◌-ℤ◌}
use quetzaldex.Prelude.Sort.{Sorted, sort_by, insert_by}
use quetzaldex.Queue.{RevealPayload}
use quetzaldex.Validate.{
  Repaired, earlier, sort_reveals, parse_reveal, parse_all, replayed, replay_order_acc, compute_ci,
  validate_reveals, repair_reveals,
}
use quetzaldex.Prelude.Reorder.{Apart}
use quetzaldex.Validate.Arrival.{validate_reveals_any_order}
use quetzaldex.Validate.Fold.{validate_reveals-Replayed}
use quetzaldex.Validate.Repair.{IsRepair, repair_reveals-IsRepair}
use quetzaldex.Validate.Hashing.{InField, IsHashable}
use quetzaldex.Validate.Search.{apply, repair_reveals-finds}
use quetzaldex.Prelude.Result.{Result, ok, err, Error}
use quetzaldex.Validate.{fold_acc, lower, search_combos, correct}

abbrev as_five : String → Option ℤ
as_five s = some (pos 5)

abbrev as_seven : String → Option ℕ
as_seven s = some 7

abbrev reveal : ℕ → RevealPayload
reveal block = record {
  epoch_id = 5;
  order_nonce = "0x07";
  side = true;
  amount_in = "5";
  limit_price = "5";
  submitted_at_block = block;
  owner = "0x07";
  path_len = none;
  path = none;
  submission_tx_hash = none;
}

abbrev reveals : List RevealPayload
reveals = reveal 42 ∷ reveal 40 ∷ []

-- The accumulator of reveals.
abbrev value : Result ℕ → ℕ
value (ok acc) = acc
value (err e) = 0

-- The accumulator of the two in their order, and that of the first anchored two blocks before.
abbrev on_chain : ℕ
on_chain = value (replayed mix_field (sort_reveals (parse_all as_five as_seven reveals)))

abbrev drifted : ℕ
drifted =
    value
      (replayed mix_field (sort_reveals (apply (2 ∷ 0 ∷ []) (parse_all as_five as_seven reveals))))

accepted :
    validate_reveals mix_field as_five as_seven reveals on_chain
    ≡ ok (sort_reveals (parse_all as_five as_seven reveals))
unfolding validate_reveals sort_reveals parse_all parse_reveal replayed replay_order_acc compute_ci
    sort_by insert_by mix_field fold_acc
accepted = refl

not_empty : sort_reveals (parse_all as_five as_seven reveals) ≢ []
unfolding sort_reveals parse_all parse_reveal sort_by insert_by
not_empty = λ q. cc

validate_reveals-Replayed_example :
    (replayed mix_field (sort_reveals (parse_all as_five as_seven reveals)) ≡ ok on_chain)
    × Perm (sort_reveals (parse_all as_five as_seven reveals)) (parse_all as_five as_seven reveals)
    × Sorted earlier (sort_reveals (parse_all as_five as_seven reveals))
validate_reveals-Replayed_example =
    validate_reveals-Replayed mix_field as_five as_seven reveals on_chain
      (sort_reveals (parse_all as_five as_seven reveals)) accepted not_empty

both-Apart : Apart earlier (parse_all as_five as_seven reveals)
unfolding parse_all parse_reveal
both-Apart = ((inr (refl, refl), tt), (tt, tt))

validate_reveals_any_order_example :
    validate_reveals mix_field as_five as_seven reveals on_chain
    ≡ validate_reveals mix_field as_five as_seven (reveal 40 ∷ reveal 42 ∷ []) on_chain
validate_reveals_any_order_example =
    validate_reveals_any_order as_five as_seven mix_field on_chain (Permᴰ.swap refl refl) both-Apart

parsed_two : 2 ≡ length (parse_all as_five as_seven reveals)
unfolding parse_all parse_reveal
parsed_two = refl

mix_field-hashes :
    (ws : List ℤ) → All (InField field) ws → (h : ℕ) × (mix_field ws ≡ ok h) × (h < field)
unfolding mix_field
mix_field-hashes [] f = (1, refl, omega arith)
mix_field-hashes (pos n ∷ ws) f =
    let (h, e, small) = mix_field-hashes ws f.1 in
    let (m, same, below) = f.0 in
    let room : ltb n field ≡ true = ground arith in
    ((n + 31 * h) % field, rw (mix_field, room, e) refl, omega arith)
mix_field-hashes (negsuc n ∷ ws) f = let (m, same, below) = f.0 in cc

five-InField : InField field (pos 5)
five-InField = (5, refl, omega arith)

-- A reveal at a block that is late enough.
parsed-IsHashable :
    (block : ℕ)
    → 3 ≤ block
    → block < field
    → IsHashable field 3 (record {
      order_nonce = 7;
      side = true;
      amount_in = pos 5;
      limit_price = pos 5;
      submitted_at_block = pos block;
      owner = 7;
      path_len = 2;
      path_0 = pos 5;
      path_1 = pos 5;
      path_2 = pos 5;
    })
parsed-IsHashable block late small = record {
  owner = omega arith;
  amount_in = five-InField;
  limit_price = five-InField;
  order_nonce = omega arith;
  anchor = (block, refl, late, small);
  path_len = omega arith;
  path_0 = five-InField;
  path_1 = five-InField;
  path_2 = five-InField;
}

both-IsHashable : All (IsHashable field 3) (parse_all as_five as_seven reveals)
unfolding parse_all parse_reveal
both-IsHashable = (
  parsed-IsHashable 42 (omega arith) (omega arith),
  (parsed-IsHashable 40 (omega arith) (omega arith), tt),
)

explained :
    replayed mix_field (sort_reveals (apply (2 ∷ 0 ∷ []) (parse_all as_five as_seven reveals)))
    ≡ ok drifted
unfolding replayed replay_order_acc compute_ci sort_reveals parse_all parse_reveal sort_by insert_by
    mix_field fold_acc lower ◌-ℤ◌
explained = refl

repair_reveals-finds_example :
    (r : Repaired) × (repair_reveals mix_field as_five as_seven reveals drifted 3 6 ≡ ok (some r))
repair_reveals-finds_example =
    repair_reveals-finds mix_field as_five as_seven field mix_field-hashes (omega arith) reveals
      drifted 3 6 (2 ∷ 0 ∷ []) (omega arith) (omega arith) both-IsHashable
      (omega arith, (omega arith, tt)) parsed_two explained

abbrev repaired :
    (r : Repaired) × (repair_reveals mix_field as_five as_seven reveals drifted 3 6 ≡ ok (some r))
repaired =
    repair_reveals-finds mix_field as_five as_seven field mix_field-hashes (omega arith) reveals
      drifted 3 6 (2 ∷ 0 ∷ []) (omega arith) (omega arith) both-IsHashable
      (omega arith, (omega arith, tt)) parsed_two explained

repair_reveals-IsRepair_example :
    IsRepair mix_field 3 (parse_all as_five as_seven reveals) drifted repaired.0.validated
repair_reveals-IsRepair_example =
    repair_reveals-IsRepair mix_field as_five as_seven reveals drifted 3 6 repaired.0 repaired.1

-- A first anchor that is too early: the second order three blocks earlier is not reached.
abbrev early : List RevealPayload
early = reveal 2 ∷ reveal 100 ∷ []

abbrev early_acc : ℕ
early_acc =
    value
      (replayed mix_field (sort_reveals (apply (0 ∷ 3 ∷ []) (parse_all as_five as_seven early))))

too_early : repair_reveals mix_field as_five as_seven early early_acc 3 6 ≡ err Error.outside_field
unfolding replayed replay_order_acc compute_ci sort_reveals parse_all parse_reveal sort_by insert_by
    mix_field fold_acc lower ◌-ℤ◌ repair_reveals search_combos correct
too_early = refl
