-- ===== src/Routes/Slots.antt =====
-- The slots that the fills of an epoch are given.
use quetzaldex.Prelude.{
  ℕ, suc, ◌+◌, ◌≡◌, refl, List, [], ◌∷◌, some, inl, inr, Option-cases, arith, get_elem?, All, subst,
}
use quetzaldex.Prelude.Result.{ok, err, Error, >>=-eq-ok, map_result}
use quetzaldex.Prelude.Map.{lookup, insert}
use quetzaldex.Prelude.Keys.{insert-All, lookup-All}
use quetzaldex.Router.{HopFill, PoolClearing}
use quetzaldex.Routes.{active_ids, slots_by_id, at_slot, remap_fill, remap_fill_pool_ids_to_slots}

-- The slot of an id is a place where the id stands.
abbrev Stands : List ℕ → ℕ × ℕ → Type 0
Stands ids e = get_elem? ids e.1 ≡ some e.0

slots_by_id-Stands :
    (all ids : List ℕ) (slot : ℕ) (m : List (ℕ × ℕ))
    → ((j k x : ℕ) → k ≡ slot + j → get_elem? ids j ≡ some x → get_elem? all k ≡ some x)
    → All (Stands all) m
    → All (Stands all) (slots_by_id ids slot m)
unfolding slots_by_id
slots_by_id-Stands all [] slot m f h = h
slots_by_id-Stands all (id ∷ ids) slot m f h =
    slots_by_id-Stands all ids (suc slot) (insert id slot m)
      (λ j k x e g. f (suc j) k x (omega (arith, e)) g)
      (insert-All (Stands all) id slot m (f 0 slot id (omega arith) refl) h)

-- The fills, pair by pair: the same but for the pool, which is the slot where its id stands.
abbrev pub Remapped : List ℕ → List HopFill → List HopFill → Type 0
Remapped ids [] [] = Unit
Remapped ids [] (g ∷ gs) = ⊥
Remapped ids (f ∷ fs) [] = ⊥
Remapped ids (f ∷ fs) (g ∷ gs) =
    (get_elem? ids g.pool_id ≡ some f.pool_id) × (g ≡ at_slot f g.pool_id) × Remapped ids fs gs

remaps :
    (ids : List ℕ) (slots : List (ℕ × ℕ)) (fs : List HopFill) {gs : List HopFill}
    → All (Stands ids) slots
    → map_result (remap_fill slots) fs ≡ ok gs
    → Remapped ids fs gs
unfolding remap_fill
remaps ids slots [] {gs} a h =
    let shape : ◌≡◌ {A = List HopFill} [] gs = cc in subst (Remapped ids []) shape tt
remaps ids slots (f ∷ fs) {gs} a h =
    let (g, e, k) = >>=-eq-ok (remap_fill slots f) _ h in
    let (rest, e', l) = >>=-eq-ok (map_result (remap_fill slots) fs) _ k in
    let shape : g ∷ rest ≡ gs = cc in
    elim (Option-cases (lookup f.pool_id slots)) [
      | inl c ↦ let n : err Error.inactive_pool ≡ ok g = rw (remap_fill, c) at e in cc
      | inr (slot, c) ↦
          let n : ok (at_slot f slot) ≡ ok g = rw (remap_fill, c) at e in
          let same : at_slot f slot ≡ g = cc in
          subst (Remapped ids (f ∷ fs)) shape (
            subst (λ x. Remapped ids (f ∷ fs) (x ∷ rest)) same
              (lookup-All (Stands ids) f.pool_id slots slot c a, refl, remaps ids slots fs a e'))
    ]

-- Fills that are remapped are the given ones in their order, each unchanged but for its pool,
-- which is now a slot at which its former pool id stands among the sorted ids of the active
-- pools.
pub remap_fill_pool_ids_to_slots-Remapped :
    (fills : List HopFill) (clearings : List PoolClearing) {out : List HopFill}
    → remap_fill_pool_ids_to_slots fills clearings ≡ ok out
    → Remapped (active_ids clearings) fills out
unfolding remap_fill_pool_ids_to_slots
remap_fill_pool_ids_to_slots-Remapped fills clearings h =
    remaps (active_ids clearings) (slots_by_id (active_ids clearings) 0 []) fills
      (slots_by_id-Stands (active_ids clearings) (active_ids clearings) 0 []
        (λ j k x e g. let q : k ≡ j = omega (arith, e) in rw q g) tt)
      h
