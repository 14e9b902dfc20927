-- ===== src/Merkle/Levels.antt =====
-- The levels of a full tree, and the path from a leaf to the root.
use native.Mathlib.Nat.{pow-zero, pow-succ'}
use quetzaldex.Prelude.{
  ℕ, zero, suc, ◌*◌, ◌/◌, ◌%◌, ◌^◌, ◌≡◌, refl, List, [], ◌∷◌, some, ◌==◌, if◌then◌else◌, arith,
  get_elem?, length, sym, ◌∙◌,
}
use quetzaldex.Prelude.Int.{ℤ}
use quetzaldex.Prelude.Result.{ok, >>=-eq-ok}
use quetzaldex.Merkle.{flip, node, next_level, climb_rounds, levels_of, harvest, top_of}

flip_step : (i : ℕ) → flip (suc (suc i)) ≡ suc (suc (flip i))
flip_step i = ground arith

half_step : (i : ℕ) → suc (suc i) / 2 ≡ suc (i / 2)
half_step i = omega arith

parity_step : (i : ℕ) → (suc (suc i) % 2 == 0) ≡ (i % 2 == 0)
parity_step i = ground arith

module _ (poseidon2 : List ℤ → ℕ) where
  -- One step of a verifier: the node above `x`, whose sibling is `s`.
  abbrev pub above : ℕ → ℕ → ℕ → ℕ
  above i x s = if i % 2 == 0 then node poseidon2 x s else node poseidon2 s x

  -- What a verifier recomputes from a leaf, its index and its siblings.
  abbrev pub climb : ℕ → ℕ → List ℕ → ℕ
  climb x i [] = x
  climb x i (s ∷ ss) = climb (above i x s) (i / 2) ss

  -- A level of an even number of nodes has one above, half as long.
  pub next_level-total :
      (k : ℕ) (level : List ℕ)
      → length level ≡ 2 * k
      → (next : List ℕ) × (next_level poseidon2 level ≡ ok next) × (length next ≡ k)
  unfolding next_level
  next_level-total zero [] e = ([], refl, omega arith)
  next_level-total zero (a ∷ level) e = absurd (omega arith)
  next_level-total (suc k) [] e = absurd (omega arith)
  next_level-total (suc k) (a ∷ []) e = absurd (omega arith)
  next_level-total (suc k) (a ∷ b ∷ level) e =
      let (next, f, l) = next_level-total k level (omega arith) in
      rw f (node poseidon2 a b ∷ next, refl, omega (arith, l))

  -- Every node of an even level has its sibling, and above both stands their hash.
  pub next_level-above :
      (level next : List ℕ) (i x : ℕ)
      → next_level poseidon2 level ≡ ok next
      → get_elem? level i ≡ some x
      → (s : ℕ) × (get_elem? level (flip i) ≡ some s)
        × (get_elem? next (i / 2) ≡ some (above i x s))
  unfolding next_level
  next_level-above [] next i x h e = cc
  next_level-above (a ∷ []) next i x h e = cc
  next_level-above (a ∷ b ∷ level) next zero x h e =
      let (rest, f, l) = >>=-eq-ok (next_level poseidon2 level) _ h in
      let q : node poseidon2 a b ∷ rest ≡ next = ground arith in
      let p : a ≡ x = ground arith in rw (← q, ← p) (b, refl, refl)
  next_level-above (a ∷ b ∷ level) next (suc zero) x h e =
      let (rest, f, l) = >>=-eq-ok (next_level poseidon2 level) _ h in
      let q : node poseidon2 a b ∷ rest ≡ next = ground arith in
      let p : b ≡ x = ground arith in rw (← q, ← p) (a, refl, refl)
  next_level-above (a ∷ b ∷ level) next (suc (suc i)) x h e =
      let (rest, f, l) = >>=-eq-ok (next_level poseidon2 level) _ h in
      let q : node poseidon2 a b ∷ rest ≡ next = ground arith in
      let (s, g, k) = next_level-above level rest i x f e in
      rw (← q, flip_step i, half_step i, parity_step i) (s, g, k)

  -- A full tree: its levels, its one root, and the way from every leaf to it.
  pub record Tree (n : ℕ) (level : List ℕ) (levels : List (List ℕ)) (root : ℕ) : Type 0 where
    pub built : levels_of poseidon2 n level ≡ ok levels
    pub top : top_of n levels ≡ some root
    pub rounds : climb_rounds poseidon2 n level ≡ ok (root ∷ [])
    pub climbs :
        (i x : ℕ)
        → get_elem? level i ≡ some x
        → (ss : List ℕ) × (harvest n i levels ≡ ok ss) × (climb x i ss ≡ root)

  single : (level : List ℕ) → length level ≡ 1 → (a : ℕ) × (level ≡ a ∷ [])
  single [] e = absurd (omega arith)
  single (a ∷ []) e = (a, refl)
  single (a ∷ b ∷ level) e = absurd (omega arith)

  single-get : (a i x : ℕ) → get_elem? (a ∷ []) i ≡ some x → a ≡ x
  single-get a zero x e = ground arith
  single-get a (suc i) x e = cc

  pub full-Tree :
      (n : ℕ) (level : List ℕ)
      → length level ≡ 2 ^ n
      → (levels : List (List ℕ)) × (root : ℕ) × Tree n level levels root
  unfolding levels_of climb_rounds harvest top_of
  full-Tree zero level e =
      let (a, q) = single level (e ∙ pow-zero 2) in
      (
        level ∷ [],
        a,
        record {
          built = refl;
          top = rw q refl;
          rounds = rw q refl;
          climbs = λ i x h. ([], refl, sym (single-get a i x (rw q at h)));
        },
      )
  full-Tree (suc n) level e =
      let (next, f, l) = next_level-total (2 ^ n) level (e ∙ pow-succ' 2 n) in
      let (levels, root, t) = full-Tree n next l in
      (
        level ∷ levels,
        root,
        record {
          built = rw (levels_of, f, t.built) refl;
          top = t.top;
          rounds = rw (climb_rounds, f, t.rounds) refl;
          climbs = λ i x h.
              let (s, g, k) = next_level-above level next i x f h in
              let (ss, a, b) = t.climbs (i / 2) (above i x s) k in
              (s ∷ ss, rw (harvest, g, a) refl, b);
        },
      )
