-- ===== src/Merkle/Inclusion.antt =====
-- The paths of a built tree lead from every fill to the root.
use quetzaldex.Prelude.{
  ℕ, zero, suc, ◌-◌, ◌≤◌, ◌≡◌, ◌≢◌, refl, true, false, List, [], ◌∷◌, ◌++◌, some, ltb, ◌==◌, ==_iff,
  arith, get_elem?, length, length-append, map, All, ap, sym, subst, ◌∙◌,
}
use quetzaldex.Prelude.Int.{ℤ}
use quetzaldex.Prelude.Map.{lookup, insert, has, lookup-insert}
use quetzaldex.Prelude.Result.{ok}
use quetzaldex.Merkle.Levels.{climb, Tree, full-Tree}
use quetzaldex.Merkle.{
  JsFillEntry, InclusionPath, MerkleTreeOutput, replicate, check_nonces, harvest_fills, root_at,
  fill_leaf, fill_leaves, merkle_root_32, build_fills_tree, tree_leaves, tree_depth,
}

-- Every nonce is a real one, and no two are the same.
abbrev pub Apart : List JsFillEntry → Type 0
Apart [] = Unit
Apart (f ∷ fs) = (f.order_nonce ≢ 0) × All (λ g. f.order_nonce ≢ g.order_nonce) fs × Apart fs

check_nonces-Apart :
    (fs : List JsFillEntry) (seen : List ℕ)
    → Apart fs
    → All (λ g. has g.order_nonce seen ≡ false) fs
    → check_nonces fs seen ≡ ok tt
unfolding check_nonces
check_nonces-Apart [] seen a h = refl
check_nonces-Apart (f ∷ fs) seen a h =
    let nonzero : (f.order_nonce == 0) ≡ false = ground (arith, a.0) in
    rw (check_nonces, nonzero, h.0)
      (check_nonces-Apart fs (f.order_nonce ∷ seen) a.2 (extend fs a.1 h.1))
  where
    extend :
        (gs : List JsFillEntry)
        → All (λ g. f.order_nonce ≢ g.order_nonce) gs
        → All (λ g. has g.order_nonce seen ≡ false) gs
        → All (λ g. has g.order_nonce (f.order_nonce ∷ seen) ≡ false) gs
    extend [] u v = tt
    extend (g ∷ gs) u v = (ground (arith, u.0, v.0), extend gs u.1 v.1)

pub get_elem?-middle :
    {A : Type 0} (pre : List A) (x : A) (post : List A)
    → get_elem? (pre ++ x ∷ post) (length pre) ≡ some x
get_elem?-middle [] x post = refl
get_elem?-middle (y ∷ pre) x post = get_elem?-middle pre x post

pub length-replicate {ℓ} : {A : Type ℓ} (n : ℕ) (x : A) → length (replicate n x) ≡ n
length-replicate zero x = refl
length-replicate (suc n) x = ap suc (length-replicate n x)

pub length-map {ℓ κ} :
    {A : Type ℓ} {B : Type κ} (f : A → B) (xs : List A) → length (map f xs) ≡ length xs
length-map f [] = refl
length-map f (x ∷ xs) = ap suc (length-map f xs)

pub append_one :
    {A : Type 0} (pre : List A) (x : A) (post : List A) → pre ++ x ∷ post ≡ (pre ++ x ∷ []) ++ post
append_one [] x post = refl
append_one (y ∷ pre) x post = ap (λ ys. y ∷ ys) (append_one pre x post)

module _ (poseidon2 : List ℤ → ℕ) where
  abbrev leaf : JsFillEntry → ℕ
  leaf f = fill_leaf poseidon2 f.order_nonce f.amount_out

  -- The leaves of the fills stand at their places, from place `i` on.
  abbrev At : List ℕ → ℕ → List JsFillEntry → Type 0
  At leaves i [] = Unit
  At leaves i (f ∷ fs) = (get_elem? leaves i ≡ some (leaf f)) × At leaves (suc i) fs

  map-At :
      (fs : List JsFillEntry) (pre post : List ℕ)
      → At (pre ++ (map leaf fs ++ post)) (length pre) fs
  map-At [] pre post = tt
  map-At (f ∷ fs) pre post =
      let rest = map-At fs (pre ++ leaf f ∷ []) post in
      let next : length (pre ++ leaf f ∷ []) ≡ suc (length pre) =
        omega (arith, length-append pre (leaf f ∷ [])) in
      let moved = append_one pre (leaf f) (map leaf fs ++ post) in
      (
        get_elem?-middle pre (leaf f) (map leaf fs ++ post),
        subst (λ i. At (pre ++ leaf f ∷ (map leaf fs ++ post)) i fs) next
            (subst (λ ls. At ls (length (pre ++ leaf f ∷ [])) fs) (sym moved) rest),
      )

  fill_leaves-length :
      (fills : List JsFillEntry) → length fills ≤ 32 → length (fill_leaves poseidon2 fills) ≡ 32
  unfolding fill_leaves
  fill_leaves-length fills h = omega (
    arith,
    length-append (map leaf fills)
        (replicate (tree_leaves - length fills) (fill_leaf poseidon2 0 0)),
    length-map leaf fills,
    length-replicate (tree_leaves - length fills) (fill_leaf poseidon2 0 0),
  )

  fill_leaves-At : (fills : List JsFillEntry) → At (fill_leaves poseidon2 fills) 0 fills
  unfolding fill_leaves
  fill_leaves-At fills =
      map-At fills [] (replicate (tree_leaves - length fills) (fill_leaf poseidon2 0 0))

  -- A fill's path in the tree, from its own leaf to the root.
  abbrev pub Included : List ℕ → ℕ → List (ℕ × InclusionPath) → JsFillEntry → Type 0
  Included leaves root paths f =
      (p : InclusionPath) × (lookup f.order_nonce paths ≡ some p)
      × (get_elem? leaves p.leaf_index ≡ some (leaf f))
      × (climb poseidon2 (leaf f) p.leaf_index p.siblings ≡ root)

  module _ (leaves : List ℕ) (levels : List (List ℕ)) (root : ℕ)
      (t : Tree poseidon2 tree_depth leaves levels root) where
    -- Of fills with other nonces a nonce keeps its path.
    harvest_fills-total :
        (fs : List JsFillEntry) (i : ℕ) (paths : List (ℕ × InclusionPath))
        → Apart fs
        → At leaves i fs
        → (out : List (ℕ × InclusionPath)) × (harvest_fills fs i levels paths ≡ ok out)
          × ((k : ℕ) → All (λ g. k ≢ g.order_nonce) fs → lookup k out ≡ lookup k paths)
          × All (Included leaves root out) fs
    unfolding harvest_fills
    harvest_fills-total [] i paths a h = (paths, refl, (λ k u. refl), tt)
    harvest_fills-total (f ∷ fs) i paths a h =
        let (ss, e, c) = t.climbs i (leaf f) h.0 in
        let p : InclusionPath = record { siblings = ss; leaf_index = i } in
        let (out, g, same, rest) =
          harvest_fills-total fs (suc i) (insert f.order_nonce p paths) a.2 h.1 in
        let mine : lookup f.order_nonce out ≡ some p =
          same f.order_nonce a.1
          ∙ lookup-insert f.order_nonce f.order_nonce p paths
          ∙ rw ((==_iff f.order_nonce f.order_nonce).1 refl) refl in
        (
          out,
          rw (harvest_fills, e, g) refl,
          (λ k u.
              let apart : (f.order_nonce == k) ≡ false = ground (arith, u.0) in
              same k u.1 ∙ lookup-insert f.order_nonce k p paths ∙ rw apart refl),
          ((p, mine, h.0, c), rest),
        )

  -- At most 32 fills, with nonces not zero and all different, have a tree. Its root is the
  -- 32-leaf root of its leaves; and for every fill it holds a path, from the fill's own leaf,
  -- that a verifier climbs to that root.
  pub build_fills_tree-Included :
      (fills : List JsFillEntry)
      → length fills ≤ 32
      → Apart fills
      → (t : MerkleTreeOutput) × (build_fills_tree poseidon2 fills ≡ ok t)
        × (merkle_root_32 poseidon2 t.leaves ≡ ok t.root)
        × All (Included t.leaves t.root t.paths) fills
  unfolding build_fills_tree merkle_root_32 root_at
  build_fills_tree-Included fills few apart =
      let leaves = fill_leaves poseidon2 fills in
      let full = fill_leaves-length fills few in
      let (levels, root, t) = full-Tree poseidon2 5 leaves full in
      let (out, h, _, included) =
        harvest_fills-total leaves levels root t fills 0 [] apart (fill_leaves-At fills) in
      let guard : ltb tree_leaves (length fills) ≡ false = ground arith in
      let none_seen = check_nonces-Apart fills [] apart (unseen fills) in
      let count : (length leaves == tree_leaves) ≡ true = (==_iff (length leaves) 32).1 full in
      (
        record { root = root; leaves = leaves; paths = out },
        rw (build_fills_tree, guard, none_seen, t.built, t.top, h) refl,
        rw (merkle_root_32, count, t.rounds) refl,
        included,
      )
    where
      unseen : (gs : List JsFillEntry) → All (λ g. has g.order_nonce [] ≡ false) gs
      unseen [] = tt
      unseen (g ∷ gs) = (refl, unseen gs)
