-- ===== src/Validate/Repair.antt =====
-- The search over anchor corrections: what it returns.
use mathlib.Core.List.{Perm}
use native.Mathlib.Nat.{mod-lt}
use quetzaldex.Prelude.{
  ℕ, zero, suc, ◌/◌, ◌%◌, ◌^◌, ◌≤◌, ◌≡◌, refl, ◌||◌, List, [], ◌∷◌, Option, none, some, ltb, ◌==◌,
  ==_iff, arith, inl, inr, length, Bool-cases, String,
}
use quetzaldex.Prelude.Int.{ℤ}
use quetzaldex.Prelude.Result.{Result, ok, >>=-eq-ok}
use quetzaldex.Prelude.Sort.{Sorted}
use quetzaldex.Queue.{RevealPayload}
use quetzaldex.Validate.Fold.{sort_reveals-Sorted, sort_reveals-perm}
use quetzaldex.Validate.{
  ValidatedReveal, Repaired, earlier, sort_reveals, parse_all, replayed, lower, correct,
  search_combos, repair_reveals, corrections_of, blocks_by_nonce,
}

-- The second list is the first with every anchor lowered by at most `m` blocks.
abbrev pub Lowered : ℕ → List ValidatedReveal → List ValidatedReveal → Type 0
Lowered m [] [] = Unit
Lowered m [] (q ∷ qs) = ⊥
Lowered m (p ∷ ps) [] = ⊥
Lowered m (p ∷ ps) (q ∷ qs) = ((off : ℕ) × (off ≤ m) × (q ≡ lower off p)) × Lowered m ps qs

correct-Lowered : (m rem : ℕ) (ps : List ValidatedReveal) → Lowered m ps (correct (suc m) rem ps)
unfolding correct
correct-Lowered m rem [] = tt
correct-Lowered m rem (p ∷ ps) = (
  (rem % suc m, omega (arith, mod-lt rem {m = suc m} (omega arith)), refl),
  correct-Lowered m (rem / suc m) ps,
)

-- What a repair returns: reveals that replay to the accumulator in the canonical order, and that are
-- the given ones with anchors lowered by at most `m`.
pub record IsRepair (poseidon2 : List ℤ → Result ℕ) (m : ℕ) (parsed : List ValidatedReveal)
    (expected : ℕ) (rs : List ValidatedReveal) : Type 0 where
  pub replays : replayed poseidon2 rs ≡ ok expected
  pub sorted : Sorted earlier rs
  pub lowered : (qs : List ValidatedReveal) × Lowered m parsed qs × Perm rs qs

module _ (poseidon2 : List ℤ → Result ℕ) (big_int : String → Option ℤ)
    (fr_from_string : String → Option ℕ) where
  search_combos-IsRepair :
      (parsed : List ValidatedReveal) (expected m n combo : ℕ) (r : Repaired)
      → search_combos poseidon2 big_int fr_from_string parsed expected (suc m) n combo ≡ ok (some r)
      → IsRepair poseidon2 m parsed expected r.validated
  unfolding search_combos
  search_combos-IsRepair parsed expected m zero combo r h = cc
  search_combos-IsRepair parsed expected m (suc n) combo r h =
      let found = sort_reveals (correct (suc m) combo parsed) in
      let (acc, hashed, shown) = >>=-eq-ok (replayed poseidon2 found) _ h in
      elim (Bool-cases (acc == expected)) [
        | inr e ↦ search_combos-IsRepair parsed expected m n (suc combo) r (rw e at shown)
        | inl e ↦
            let here : ok (
                  some (record {
                    validated = found;
                    corrections = corrections_of (blocks_by_nonce parsed []) found;
                  }))
                ≡ ok (some r) =
              rw e at shown in
            let q : found ≡ r.validated = ground arith in
            rw (← q) (record {
              replays = rw (← (==_iff acc expected).0 e) hashed;
              sorted = sort_reveals-Sorted (correct (suc m) combo parsed);
              lowered = (
                correct (suc m) combo parsed,
                correct-Lowered m combo parsed,
                sort_reveals-perm (correct (suc m) combo parsed),
              );
            })
      ]

  -- A repair that is returned replays to the accumulator, is in the canonical order, and holds
  -- the parsed reveals, none lost or added, each with its anchor lowered by at most the maximal
  -- offset.
  pub repair_reveals-IsRepair :
      (reveals : List RevealPayload) (expected max_offset max_orders : ℕ) (r : Repaired)
      → repair_reveals poseidon2 big_int fr_from_string reveals expected max_offset max_orders
        ≡ ok (some r)
      → IsRepair poseidon2 max_offset
          (parse_all big_int fr_from_string reveals)
          expected
          r.validated
  unfolding repair_reveals
  repair_reveals-IsRepair reveals expected max_offset max_orders r h =
      elim (Bool-cases ((length reveals == 0) || ltb max_orders (length reveals))) [
        | inl e ↦ let n : ok none ≡ ok (some r) = rw (e, repair_reveals) at h in cc
        | inr e ↦
            let parsed = parse_all big_int fr_from_string reveals in
            search_combos-IsRepair parsed expected max_offset (suc max_offset ^ length parsed) 0 r
              (rw (e, repair_reveals) at h)
      ]
