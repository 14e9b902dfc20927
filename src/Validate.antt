-- ===== src/Validate.antt =====
-- The reveals against the on-chain order accumulator: aggregator/src/validate.ts. The hash and the
-- two text parsers are parameters: `poseidon2Hash`, which may throw, and `Fr.fromString` are the
-- proof system's library, and `big_int` is the language's `BigInt(s)`; a parser's `none` is a thrown
-- error.
pub mod Fold
pub mod Arrival
pub mod Repair
pub mod Hashing
pub mod Search
mod Tests
use quetzaldex.Prelude.{
  ℕ, zero, suc, ◌+◌, ◌-◌, ◌*◌, ◌/◌, ◌%◌, ◌^◌, Bool, true, false, not, ◌||◌, List, [], ◌∷◌, Option,
  none, some, ltb, leb, ◌==◌, if◌then◌else◌, get_elem?, length, filter, map, String,
}
use quetzaldex.Prelude.Int.{ℤ, pos, ◌-ℤ◌, ltb_ℤ}
use quetzaldex.Prelude.Result.{Result, ok, ◌>>=◌, map_result}
use quetzaldex.Prelude.Sort.{sort_by}
use quetzaldex.Prelude.Map.{lookup, insert}
use quetzaldex.Queue.{RevealPayload}

pub record ValidatedReveal : Type 0 where
  pub order_nonce : ℕ
  pub side : Bool
  pub amount_in : ℤ
  pub limit_price : ℤ
  pub submitted_at_block : ℤ
  pub owner : ℕ
  pub path_len : ℕ
  pub path_0 : ℤ
  pub path_1 : ℤ
  pub path_2 : ℤ

pub record Correction : Type 0 where
  pub order_nonce : ℕ
  pub from : Option ℤ
  pub to : ℤ

pub record Repaired : Type 0 where
  pub validated : List ValidatedReveal
  pub corrections : List Correction

-- The comparator is not positive at x y: by block, then by nonce.
abbrev pub earlier : ValidatedReveal → ValidatedReveal → Bool
earlier x y =
    if ltb_ℤ x.submitted_at_block y.submitted_at_block
    then true
    else if ltb_ℤ y.submitted_at_block x.submitted_at_block
    then false
    else leb x.order_nonce y.order_nonce

unfoldable pub sort_reveals : List ValidatedReveal → List ValidatedReveal
sort_reveals rs = sort_by earlier rs

and_then {ℓ κ} : {A : Type ℓ} {B : Type κ} → Option A → (A → Option B) → Option B
and_then none f = none
and_then (some a) f = f a

or_else : ℕ → Option ℕ → ℕ
or_else d none = d
or_else d (some n) = n

word : List ℤ → ℕ → ℤ
word ws i = elim (get_elem? ws i) [ none ↦ pos 0 | some w ↦ w ]

-- `Number(side)` of the commitment.
abbrev pub side_word : Bool → ℤ
side_word true = pos 1
side_word false = pos 0

module _ (big_int : String → Option ℤ) (fr_from_string : String → Option ℕ) where
  big_ints : List String → Option (List ℤ)
  unfolding and_then
  big_ints [] = some []
  big_ints (s ∷ ss) = and_then (big_int s) λ w. and_then (big_ints ss) λ ws. some (w ∷ ws)

  raw_path : Option (List String) → Option (List ℤ)
  unfolding big_ints
  raw_path none = big_ints ("0x0" ∷ "0x0" ∷ "0x0" ∷ [])
  raw_path (some ss) = big_ints ss

  -- A field that does not parse drops the reveal.
  pub parse_reveal : RevealPayload → Option ValidatedReveal
  unfolding raw_path and_then word or_else
  parse_reveal r = and_then (raw_path r.path) λ path.
      and_then (fr_from_string r.order_nonce) λ nonce. and_then (big_int r.amount_in) λ amount.
        and_then (big_int r.limit_price) λ limit. and_then (fr_from_string r.owner) λ owner.
          some (record {
            order_nonce = nonce;
            side = r.side;
            amount_in = amount;
            limit_price = limit;
            submitted_at_block = pos r.submitted_at_block;
            owner = owner;
            path_len = or_else 2 r.path_len;
            path_0 = word path 0;
            path_1 = word path 1;
            path_2 = word path 2;
          })

  pub parse_all : List RevealPayload → List ValidatedReveal
  unfolding parse_reveal
  parse_all [] = []
  parse_all (r ∷ rs) =
      let rest = parse_all rs in elim (parse_reveal r) [ none ↦ rest | some p ↦ p ∷ rest ]

-- What the commitment hashes.
abbrev pub words : ValidatedReveal → List ℤ
words p =
    pos p.owner
    ∷ side_word p.side
    ∷ p.amount_in
    ∷ p.limit_price
    ∷ pos p.order_nonce
    ∷ p.submitted_at_block
    ∷ pos p.path_len
    ∷ p.path_0
    ∷ p.path_1
    ∷ p.path_2
    ∷ []

module _ (poseidon2 : List ℤ → Result ℕ) where
  -- The order's commitment: ten words.
  pub compute_ci : ValidatedReveal → Result ℕ
  compute_ci p = poseidon2 (words p)

  fold_acc : ℕ → List ℕ → Result ℕ
  fold_acc acc [] = ok acc
  fold_acc acc (ci ∷ cis) = do next ← poseidon2 (pos acc ∷ pos ci ∷ []); fold_acc next cis

  pub replay_order_acc : List ℕ → Result ℕ
  unfolding fold_acc
  replay_order_acc cis = fold_acc 0 cis

  -- The accumulator that reveals in this order produce.
  pub replayed : List ValidatedReveal → Result ℕ
  unfolding compute_ci replay_order_acc
  replayed rs = do cis ← map_result compute_ci rs; replay_order_acc cis

-- One anchor lowered.
pub lower : ℕ → ValidatedReveal → ValidatedReveal
lower off p = record {
  order_nonce = p.order_nonce;
  side = p.side;
  amount_in = p.amount_in;
  limit_price = p.limit_price;
  submitted_at_block = p.submitted_at_block -ℤ pos off;
  owner = p.owner;
  path_len = p.path_len;
  path_0 = p.path_0;
  path_1 = p.path_1;
  path_2 = p.path_2;
}

-- The combination `rem`, read as digits of base `base`, the first reveal's digit first.
pub correct : ℕ → ℕ → List ValidatedReveal → List ValidatedReveal
unfolding lower
correct base rem [] = []
correct base rem (p ∷ ps) = lower (rem % base) p ∷ correct base (rem / base) ps

-- `byNonce`: a later reveal of a nonce replaces an earlier one.
blocks_by_nonce : List ValidatedReveal → List (ℕ × ℤ) → List (ℕ × ℤ)
blocks_by_nonce [] m = m
blocks_by_nonce (p ∷ ps) m = blocks_by_nonce ps (insert p.order_nonce p.submitted_at_block m)

eqb_ℤ : ℤ → ℤ → Bool
eqb_ℤ a b = not (ltb_ℤ a b || ltb_ℤ b a)

same_block : Option ℤ → ℤ → Bool
unfolding eqb_ℤ
same_block none b = false
same_block (some a) b = eqb_ℤ a b

pub corrections_of : List (ℕ × ℤ) → List ValidatedReveal → List Correction
unfolding same_block
corrections_of by_nonce [] = []
corrections_of by_nonce (c ∷ cs) =
    let rest = corrections_of by_nonce cs in
    let from = lookup c.order_nonce by_nonce in
    if same_block from c.submitted_at_block
    then rest
    else record { order_nonce = c.order_nonce; from = from; to = c.submitted_at_block } ∷ rest

module _ (poseidon2 : List ℤ → Result ℕ) (big_int : String → Option ℤ)
    (fr_from_string : String → Option ℕ) where
  -- All of the reveals, or none.
  pub validate_reveals : List RevealPayload → ℕ → Result (List ValidatedReveal)
  unfolding sort_reveals parse_all replayed
  validate_reveals reveals expected = do
    let parsed = sort_reveals (parse_all big_int fr_from_string reveals)
    acc ← replayed poseidon2 parsed
    ok (if acc == expected then parsed else [])

  -- The combinations from `combo` on, `n` of them. A hash that throws ends the search.
  pub search_combos : List ValidatedReveal → ℕ → ℕ → ℕ → ℕ → Result (Option Repaired)
  unfolding correct sort_reveals replayed blocks_by_nonce corrections_of
  search_combos parsed expected base zero combo = ok none
  search_combos parsed expected base (suc n) combo =
      let rest = search_combos parsed expected base n (suc combo) in
      let corrected = sort_reveals (correct base combo parsed) in
      replayed poseidon2 corrected >>= λ acc.
      if acc == expected
      then ok (
          some (record {
            validated = corrected;
            corrections = corrections_of (blocks_by_nonce parsed []) corrected;
          }))
      else rest

  pub repair_reveals : List RevealPayload → ℕ → ℕ → ℕ → Result (Option Repaired)
  unfolding parse_all search_combos
  repair_reveals reveals expected max_offset max_orders =
      if (length reveals == 0) || ltb max_orders (length reveals)
      then ok none
      else (let parsed = parse_all big_int fr_from_string reveals in
          search_combos parsed expected (suc max_offset) (suc max_offset ^ length parsed) 0)
