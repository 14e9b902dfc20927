-- ===== src/Validate/Search.antt =====
-- The search over anchor corrections finds what is there, where the hash takes the reveals' words.
use native.Mathlib.Nat.{
  add-mul-mod_self_left, add-mul-div_left, mod-eq_of_lt, div-eq_of_lt, mul-le-mul_left, pow-zero,
  pow-succ',
}
use quetzaldex.Prelude.{
  ℕ, zero, suc, ◌+◌, ◌*◌, ◌/◌, ◌%◌, ◌^◌, ◌≤◌, ◌<◌, ◌≡◌, ◌≢◌, refl, false, ◌||◌, List, [], ◌∷◌,
  Option, some, ltb, ◌==◌, ==_iff, arith, inl, inr, length, All, Bool-cases, String, sym, subst,
  ◌∙◌,
}
use quetzaldex.Prelude.Int.{ℤ}
use quetzaldex.Prelude.Result.{Result, ok}
use quetzaldex.Queue.{RevealPayload}
use quetzaldex.Validate.{
  ValidatedReveal, Repaired, sort_reveals, parse_all, replayed, lower, correct, search_combos,
  repair_reveals, corrections_of, blocks_by_nonce,
}
use quetzaldex.Validate.Hashing.{InField, IsHashable, combo-hashes}

-- The offsets of a combination, applied, and their number.
abbrev pub apply : List ℕ → List ValidatedReveal → List ValidatedReveal
apply [] ps = []
apply (o ∷ os) [] = []
apply (o ∷ os) (p ∷ ps) = lower o p ∷ apply os ps

encode : ℕ → List ℕ → ℕ
encode base [] = 0
encode base (o ∷ os) = o + base * encode base os

correct-encode :
    (m : ℕ) (os : List ℕ) (ps : List ValidatedReveal)
    → All (λ o. o ≤ m) os
    → length os ≡ length ps
    → correct (suc m) (encode (suc m) os) ps ≡ apply os ps
unfolding correct encode
correct-encode m [] [] h e = refl
correct-encode m [] (p ∷ ps) h e = absurd (omega arith)
correct-encode m (o ∷ os) [] h e = absurd (omega arith)
correct-encode m (o ∷ os) (p ∷ ps) h e =
    let small : o < suc m = omega (arith, h.0) in
    let digit : (o + suc m * encode (suc m) os) % suc m ≡ o =
      add-mul-mod_self_left o (suc m) (encode (suc m) os) ∙ mod-eq_of_lt small in
    let rest : (o + suc m * encode (suc m) os) / suc m ≡ encode (suc m) os = omega (
      arith,
      add-mul-div_left o (encode (suc m) os) {y = suc m} (omega arith),
      div-eq_of_lt small,
    ) in
    rw (correct, encode, digit, rest, correct-encode m os ps h.1 (omega arith)) refl

encode-lt : (m : ℕ) (os : List ℕ) → All (λ o. o ≤ m) os → encode (suc m) os < suc m ^ length os
unfolding encode
encode-lt m [] h = omega (arith, pow-zero (suc m))
encode-lt m (o ∷ os) h =
    let below = mul-le-mul_left (suc m) (encode-lt m os h.1) in
    omega (arith, h.0, below, pow-succ' (suc m) (length os))

abbrev Hit : (List ℤ → Result ℕ) → List ValidatedReveal → ℕ → ℕ → ℕ → Type 0
Hit poseidon2 parsed expected base k =
    replayed poseidon2 (sort_reveals (correct base k parsed)) ≡ ok expected

module _ (poseidon2 : List ℤ → Result ℕ) (big_int : String → Option ℤ)
    (fr_from_string : String → Option ℕ) where
  search_combos-finds :
      (parsed : List ValidatedReveal) (expected base n combo k : ℕ)
      → ((c : ℕ) → (acc : ℕ) × (replayed poseidon2 (sort_reveals (correct base c parsed)) ≡ ok acc))
      → combo ≤ k
      → k < combo + n
      → Hit poseidon2 parsed expected base k
      → (r : Repaired) × (search_combos poseidon2 big_int fr_from_string parsed expected base n
            combo
          ≡ ok (some r))
  unfolding search_combos
  search_combos-finds parsed expected base zero combo k total low high hit = absurd (omega arith)
  search_combos-finds parsed expected base (suc n) combo k total low high hit =
      let found = sort_reveals (correct base combo parsed) in
      let (acc, hashed) = total combo in
      elim (Bool-cases (acc == expected)) [
        | inl e ↦ (
          record {
            validated = found;
            corrections = corrections_of (blocks_by_nonce parsed []) found;
          },
          rw (search_combos, hashed, e) refl,
        )
        | inr e ↦
            let later : combo ≢ k = λ same.
              let here : replayed poseidon2 found ≡ ok expected =
                subst (λ x. Hit poseidon2 parsed expected base x) (sym same) hit in
              let matched : acc ≡ expected = cc in
              ground (arith, (==_iff acc expected).1 matched) in
            let (r, f) =
              search_combos-finds parsed expected base n (suc combo) k total (omega arith)
                (omega arith) hit in
            (r, rw (search_combos, hashed, e) f)
      ]

  -- Where the hash takes any field elements to a field element, a batch is repaired that is
  -- neither empty nor over the limit, whose parsed reveals have their words in the field and
  -- their anchors no earlier than the maximal offset, and for which some offsets of at most the
  -- maximal one, one for each parsed reveal, explain the accumulator.
  pub repair_reveals-finds :
      (modulus : ℕ)
      (hashes : (ws : List ℤ)
        → All (InField modulus) ws
        → (h : ℕ) × (poseidon2 ws ≡ ok h) × (h < modulus))
      → 1 < modulus
      → (reveals : List RevealPayload) (expected max_offset max_orders : ℕ) (offsets : List ℕ)
      → 0 < length reveals
      → length reveals ≤ max_orders
      → All (IsHashable modulus max_offset) (parse_all big_int fr_from_string reveals)
      → All (λ o. o ≤ max_offset) offsets
      → length offsets ≡ length (parse_all big_int fr_from_string reveals)
      → replayed poseidon2 (sort_reveals (apply offsets (parse_all big_int fr_from_string reveals)))
        ≡ ok expected
      → (r : Repaired) × (repair_reveals poseidon2 big_int fr_from_string reveals expected
            max_offset max_orders
          ≡ ok (some r))
  unfolding repair_reveals
  repair_reveals-finds modulus hashes bits reveals expected max_offset max_orders offsets
        some_reveal few hashable small fit hit =
      let parsed = parse_all big_int fr_from_string reveals in
      let k = encode (suc max_offset) offsets in
      let guard : ((length reveals == 0) || ltb max_orders (length reveals)) ≡ false =
        ground arith in
      let below : k < suc max_offset ^ length parsed =
        rw (← fit) (encode-lt max_offset offsets small) in
      let here : Hit poseidon2 parsed expected (suc max_offset) k =
        rw (correct-encode max_offset offsets parsed small fit) hit in
      rw (repair_reveals, guard)
        (search_combos-finds parsed expected (suc max_offset) (suc max_offset ^ length parsed) 0 k
          (combo-hashes modulus poseidon2 hashes bits max_offset parsed hashable) (omega arith)
          (omega arith) here)
