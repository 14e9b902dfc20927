-- ===== src/Sdk/Bulk/Reveals.antt =====
-- The reveals of a bulk order, as the aggregator replays them: sdk/src/orders.ts with
-- aggregator/src/validate.ts.
use mathlib.Core.List.{Permᴰ}
use quetzaldex.Prelude.{
  ℕ, suc, ◌≤◌, ◌≡◌, refl, sym, ap, ◌∙◌, subst, Bool, true, false, List, [], ◌∷◌, map, take, arith,
  All,
}
use quetzaldex.Prelude.Int.{pos, ltb_ℤ}
use quetzaldex.Prelude.Reorder.{Apart, Decided, sort_by-Permᴰ, sort_by_same}
use quetzaldex.Prelude.Sort.{Sorted}
use quetzaldex.Validate.{ValidatedReveal, earlier, sort_reveals}
use quetzaldex.Validate.Fold.{earlier_trans}
use quetzaldex.Sdk.Paths.{PathTriple, max_orders_per_bulk}
use quetzaldex.Sdk.Bulk.{Slot, BulkOrderReveal, reveal_of, by_nonce, build_bulk_slots}
use quetzaldex.Sdk.Bulk.Slots.{build_bulk_slots-Built, take-slots}

module _ (block owner : ℕ) where
  -- The reveal as the aggregator parses it; the whole batch has one anchor block and one owner.
  abbrev pub validated : BulkOrderReveal → ValidatedReveal
  validated r = record {
    order_nonce = r.order_nonce;
    side = r.side;
    amount_in = pos r.amount_in;
    limit_price = pos r.limit_price;
    submitted_at_block = pos block;
    owner = owner;
    path_len = r.path.path_len;
    path_0 = pos r.path.field_0;
    path_1 = pos r.path.field_1;
    path_2 = pos r.path.field_2;
  }

  abbrev pub replay_of : Slot → ValidatedReveal
  replay_of s = validated (reveal_of s)

  ltb_same : ltb_ℤ (pos block) (pos block) ≡ false
  ltb_same = ground arith

  earlier-replay_of : (x y : Slot) → earlier (replay_of x) (replay_of y) ≡ by_nonce x y
  earlier-replay_of x y = rw ltb_same refl

  Decided-replay_of :
      (x y : Slot) → Decided by_nonce x y → Decided earlier (replay_of x) (replay_of y)
  Decided-replay_of x y h = rw (earlier-replay_of x y, earlier-replay_of y x) h

  All-replay_of :
      (P : Slot → Type 0) (Q : ValidatedReveal → Type 0) (xs : List Slot)
      → ((x : Slot) → P x → Q (replay_of x))
      → All P xs
      → All Q (map replay_of xs)
  All-replay_of P Q [] f h = tt
  All-replay_of P Q (x ∷ xs) f h = (f x h.0, All-replay_of P Q xs f h.1)

  Apart-replay_of : (xs : List Slot) → Apart by_nonce xs → Apart earlier (map replay_of xs)
  Apart-replay_of [] h = tt
  Apart-replay_of (x ∷ xs) h = (
    All-replay_of (Decided by_nonce x) (Decided earlier (replay_of x)) xs (Decided-replay_of x) h.0,
    Apart-replay_of xs h.1,
  )

  Sorted-replay_of : (xs : List Slot) → Sorted by_nonce xs → Sorted earlier (map replay_of xs)
  Sorted-replay_of [] h = tt
  Sorted-replay_of (x ∷ xs) h = (
    All-replay_of (λ y. by_nonce x y ≡ true) (λ y. earlier (replay_of x) y ≡ true) xs
        (λ y k. earlier-replay_of x y ∙ k) h.0,
    Sorted-replay_of xs h.1,
  )

  map-validated : (xs : List Slot) → map validated (map reveal_of xs) ≡ map replay_of xs
  map-validated [] = refl
  map-validated (x ∷ xs) = ap (λ l. replay_of x ∷ l) (map-validated xs)

  -- The reveals of a bulk order of up to five slots whose nonces differ, parsed with one anchor
  -- block, are sorted by the aggregator into the order of the slots, in whatever order they
  -- arrive.
  pub sort_reveals-build_bulk_slots :
      (real_side : Bool) (amount limit_price : ℕ) (path : PathTriple) (rng : ℕ → ℕ) (n : ℕ)
      → suc n ≤ max_orders_per_bulk
      → Apart by_nonce
          (take (suc n) (build_bulk_slots real_side amount limit_price path rng n).slots)
      → (arrived : List ValidatedReveal)
      → Permᴰ
          (map validated (build_bulk_slots real_side amount limit_price path rng n).reveals)
          arrived
      → sort_reveals arrived
        ≡ map replay_of
            (take (suc n) (build_bulk_slots real_side amount limit_price path rng n).slots)
  unfolding sort_reveals
  sort_reveals-build_bulk_slots real_side amount limit_price path rng n h apart arrived d =
      let b = build_bulk_slots-Built real_side amount limit_price path rng n h in
      let first = take-slots real_side amount limit_price path rng n b in
      let all =
        subst (λ l. Permᴰ l arrived) (ap (map validated) b.revealed ∙ map-validated b.used) d in
      sym (
        sort_by-Permᴰ earlier earlier_trans all
          (Apart-replay_of b.used (subst (Apart by_nonce) first apart)))
      ∙ sort_by_same earlier (map replay_of b.used) (Sorted-replay_of b.used b.in_order)
      ∙ ap (map replay_of) (sym first)
