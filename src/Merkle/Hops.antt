-- ===== src/Merkle/Hops.antt =====
-- The tree of the hops' fills: its levels are those of a full tree, and its paths lead to the root.
use native.Mathlib.Nat.{pow-zero, pow-succ'}
use quetzaldex.Prelude.{
  ℕ, zero, suc, ◌-◌, ◌^◌, ◌≤◌, ◌≡◌, refl, true, false, List, [], ◌∷◌, ◌++◌, Option, none, some, ltb,
  leb, if◌then◌else◌, arith, get_elem?, length, length-append, map, All, ap, sym, subst, ◌∙◌,
}
use quetzaldex.Prelude.Int.{ℤ, pos}
use quetzaldex.Prelude.Result.{ok, >>=-eq-ok}
use quetzaldex.Merkle.Levels.{climb, Tree, full-Tree, next_level-total}
use quetzaldex.Merkle.Inclusion.{length-replicate, length-map, get_elem?-middle, append_one}
use quetzaldex.Merkle.{
  HopFillLeaf, InclusionPath, HopTreeOutput, replicate, same_key, has_key, insert_key, hop_key,
  check_keys, harvest_hops, hop_fill_leaf, next_level, levels_of, levels_while, hop_leaves,
  build_hop_fills_tree,
}
use quetzaldex.Merkle.Powers.{is_power_of_two-power, power-ge}

-- The key of a fill is the key of no other.
abbrev pub KeysApart : List HopFillLeaf → Type 0
KeysApart [] = Unit
KeysApart (f ∷ fs) = All (λ g. same_key (hop_key f) (hop_key g) ≡ false) fs × KeysApart fs

check_keys-apart :
    (fs : List HopFillLeaf) (seen : List (ℕ × ℕ))
    → KeysApart fs
    → All (λ g. has_key (hop_key g) seen ≡ false) fs
    → check_keys fs seen ≡ ok tt
unfolding check_keys
check_keys-apart [] seen a h = refl
check_keys-apart (f ∷ fs) seen a h =
    rw (check_keys, h.0) (check_keys-apart fs (hop_key f ∷ seen) a.1 (extend fs a.0 h.1))
  where
    extend :
        (gs : List HopFillLeaf)
        → All (λ g. same_key (hop_key f) (hop_key g) ≡ false) gs
        → All (λ g. has_key (hop_key g) seen ≡ false) gs
        → All (λ g. has_key (hop_key g) (hop_key f ∷ seen) ≡ false) gs
    extend [] u v = tt
    extend (g ∷ gs) u v = (rw (u.0, v.0) refl, extend gs u.1 v.1)

abbrev pub lookup_key : ℕ × ℕ → List ((ℕ × ℕ) × InclusionPath) → Option InclusionPath
lookup_key k [] = none
lookup_key k ((j, p) ∷ m) = if same_key j k then some p else lookup_key k m

lookup_key-insert_key :
    (k j : ℕ × ℕ) (p : InclusionPath) (m : List ((ℕ × ℕ) × InclusionPath))
    → lookup_key j (insert_key k p m) ≡ (if same_key k j then some p else lookup_key j m)
lookup_key-insert_key k j p [] = refl
lookup_key-insert_key k j p ((i, q) ∷ m) = ground (arith, lookup_key-insert_key k j p m)

same_key_self : (k : ℕ × ℕ) → same_key k k ≡ true
same_key_self k = ground arith

module _ (poseidon2 : List ℤ → ℕ) where
  levels_of-length :
      (n : ℕ) (level : List ℕ) {levels : List (List ℕ)}
      → levels_of poseidon2 n level ≡ ok levels
      → length levels ≡ suc n
  unfolding levels_of
  levels_of-length zero level {levels} h =
      let shape : level ∷ [] ≡ levels = ground arith in rw (← shape) refl
  levels_of-length (suc n) level {levels} h =
      let (next, f, l) = >>=-eq-ok (next_level poseidon2 level) _ h in
      let (rest, g, k) = >>=-eq-ok (levels_of poseidon2 n next) _ l in
      let shape : level ∷ rest ≡ levels = ground arith in
      rw (← shape) (ap suc (levels_of-length n next g))

  levels_while-levels_of :
      (n fuel : ℕ) (level : List ℕ)
      → length level ≡ 2 ^ n
      → n ≤ fuel
      → levels_while poseidon2 fuel level ≡ levels_of poseidon2 n level
  unfolding levels_while levels_of
  levels_while-levels_of zero zero level e h =
      let one : leb (length level) 1 ≡ true = ground (arith, pow-zero 2) in
      rw (levels_while, one) refl
  levels_while-levels_of zero (suc fuel) level e h =
      let one : leb (length level) 1 ≡ true = ground (arith, pow-zero 2) in
      rw (levels_while, one) refl
  levels_while-levels_of (suc n) zero level e h = absurd (omega arith)
  levels_while-levels_of (suc n) (suc fuel) level e h =
      let two_more : leb (length level) 1 ≡ false = ground (arith, pow-succ' 2 n, power-ge n) in
      let (next, f, l) = next_level-total poseidon2 (2 ^ n) level (e ∙ pow-succ' 2 n) in
      rw (levels_while, two_more, levels_of, f, levels_while-levels_of n fuel next l (omega arith))
        refl

  -- The leaves of the fills stand at their places, from place `i` on.
  abbrev HopsAt : List ℕ → ℕ → List HopFillLeaf → Type 0
  HopsAt leaves i [] = Unit
  HopsAt leaves i (f ∷ fs) =
      (get_elem? leaves i ≡ some (hop_fill_leaf poseidon2 f)) × HopsAt leaves (suc i) fs

  map-HopsAt :
      (fs : List HopFillLeaf) (pre post : List ℕ)
      → HopsAt (pre ++ (map (hop_fill_leaf poseidon2) fs ++ post)) (length pre) fs
  map-HopsAt [] pre post = tt
  map-HopsAt (f ∷ fs) pre post =
      let leaf = hop_fill_leaf poseidon2 f in
      let later = map (hop_fill_leaf poseidon2) fs ++ post in
      let rest = map-HopsAt fs (pre ++ leaf ∷ []) post in
      let next : length (pre ++ leaf ∷ []) ≡ suc (length pre) =
        omega (arith, length-append pre (leaf ∷ [])) in
      (
        get_elem?-middle pre leaf later,
        subst (λ i. HopsAt (pre ++ leaf ∷ later) i fs) next
            (subst (λ ls. HopsAt ls (length (pre ++ leaf ∷ [])) fs)
              (sym (append_one pre leaf later)) rest),
      )

  -- A fill's path in the tree, from its own leaf to the root.
  abbrev pub HopIncluded : List ℕ → Option ℕ → List ((ℕ × ℕ) × InclusionPath) → HopFillLeaf → Type 0
  HopIncluded leaves root paths f =
      (p : InclusionPath) × (lookup_key (hop_key f) paths ≡ some p)
      × (get_elem? leaves p.leaf_index ≡ some (hop_fill_leaf poseidon2 f))
      × (root ≡ some (climb poseidon2 (hop_fill_leaf poseidon2 f) p.leaf_index p.siblings))

  module _ (n : ℕ) (leaves : List ℕ) (levels : List (List ℕ)) (root : ℕ)
      (t : Tree poseidon2 n leaves levels root) where
    harvest_hops-total :
        (fs : List HopFillLeaf) (i : ℕ) (paths : List ((ℕ × ℕ) × InclusionPath))
        → KeysApart fs
        → HopsAt leaves i fs
        → (out : List ((ℕ × ℕ) × InclusionPath)) × (harvest_hops fs n i levels paths ≡ ok out)
          × ((k : ℕ × ℕ)
              → All (λ g. same_key k (hop_key g) ≡ false) fs
              → lookup_key k out ≡ lookup_key k paths)
          × All (HopIncluded leaves (some root) out) fs
    unfolding harvest_hops
    harvest_hops-total [] i paths a h = (paths, refl, (λ k u. refl), tt)
    harvest_hops-total (f ∷ fs) i paths a h =
        let (ss, e, c) = t.climbs i (hop_fill_leaf poseidon2 f) h.0 in
        let p : InclusionPath = record { siblings = ss; leaf_index = i } in
        let (out, g, same, rest) =
          harvest_hops-total fs (suc i) (insert_key (hop_key f) p paths) a.1 h.1 in
        let mine : lookup_key (hop_key f) out ≡ some p =
          same (hop_key f) a.0
          ∙ lookup_key-insert_key (hop_key f) (hop_key f) p paths
          ∙ rw (same_key_self (hop_key f)) refl in
        (
          out,
          rw (harvest_hops, e, g) refl,
          (λ k u.
              let apart : same_key (hop_key f) k ≡ false = ground (arith, u.0) in
              same k u.1 ∙ lookup_key-insert_key (hop_key f) k p paths ∙ rw apart refl),
          ((p, mine, h.0, ap some (sym c)), rest),
        )

  -- As many hop fills as two to the n or fewer, no two with one nonce and hop index, have a tree
  -- of that many leaves and a root. For every fill it holds a path under the fill's key, from the
  -- fill's own leaf, and a verifier climbs it to the tree's root.
  pub build_hop_fills_tree-Included :
      (fills : List HopFillLeaf) (n : ℕ)
      → length fills ≤ 2 ^ n
      → KeysApart fills
      → (t : HopTreeOutput) × (r : ℕ) × (build_hop_fills_tree poseidon2 fills (2 ^ n) ≡ ok t)
        × (t.root ≡ some r)
        × (length t.leaves ≡ 2 ^ n)
        × All (HopIncluded t.leaves t.root t.paths) fills
  unfolding build_hop_fills_tree hop_leaves
  build_hop_fills_tree-Included fills n few apart =
      let leaves = hop_leaves poseidon2 fills (2 ^ n) in
      let padding = poseidon2 (pos 0 ∷ pos 0 ∷ pos 0 ∷ pos 0 ∷ pos 0 ∷ []) in
      let full : length leaves ≡ 2 ^ n = omega (
        arith,
        length-append (map (hop_fill_leaf poseidon2) fills)
            (replicate (2 ^ n - length fills) padding),
        length-map (hop_fill_leaf poseidon2) fills,
        length-replicate (2 ^ n - length fills) padding,
      ) in
      let (levels, root, t) = full-Tree poseidon2 n leaves full in
      let (out, h, _, included) =
        harvest_hops-total n leaves levels root t fills 0 [] apart
          (map-HopsAt fills [] (replicate (2 ^ n - length fills) padding)) in
      let built =
        levels_while-levels_of n (2 ^ n) leaves full (omega (arith, power-ge n)) ∙ t.built in
      let deep : length levels - 1 ≡ n = omega (arith, levels_of-length n leaves t.built) in
      let room : ltb (2 ^ n) (length fills) ≡ false = ground arith in
      let keys = check_keys-apart fills [] apart (unseen fills) in
      (
        record { leaves = leaves; root = some root; paths = out },
        root,
        rw (build_hop_fills_tree, is_power_of_two-power n, room, keys, built, deep, h, t.top) refl,
        refl,
        full,
        included,
      )
    where
      unseen : (gs : List HopFillLeaf) → All (λ g. has_key (hop_key g) [] ≡ false) gs
      unseen [] = tt
      unseen (g ∷ gs) = (refl, unseen gs)
