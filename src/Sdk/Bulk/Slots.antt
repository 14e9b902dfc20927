-- ===== src/Sdk/Bulk/Slots.antt =====
-- The slots of a bulk order, and what stays private in the registry.
use mathlib.Core.List.{Perm}
use quetzaldex.Prelude.{
  ℕ, zero, suc, ◌-◌, ◌*◌, ◌≤◌, ◌≡◌, refl, ap, ◌∙◌, Bool, true, false, List, [], ◌∷◌, ◌++◌, some,
  ◌==◌, ==_iff, if◌then◌else◌, map, take, length, sum_by, arith, inl, inr, ◌⊎◌, Bool-cases, All,
  length-append, sum_by-append,
}
use quetzaldex.Prelude.Sort.{
  sort_by, Sorted, sort_by-perm, sort_by-length, sort_by-Sorted, sort_by-sum, sort_by-All,
}
use quetzaldex.Prelude.Map.{lookup, insert, lookup-insert, has}
use quetzaldex.Sdk.Paths.{PathTriple, max_orders_per_bulk}
use quetzaldex.Sdk.Bulk.{
  Slot, unfillable, by_nonce, empties, reveal_of, BulkSlotsResult, real_slot, decoys, unsorted,
  build_bulk_slots, Registry, other_than, record_decoy_batch, is_decoy, registered,
}

by_nonce_total : (x y : Slot) → by_nonce x y ≡ false → by_nonce y x ≡ true
by_nonce_total x y h = ground arith

by_nonce_trans : (x y z : Slot) → by_nonce x y ≡ true → by_nonce y z ≡ true → by_nonce x z ≡ true
by_nonce_trans x y z h k = ground arith

length-empties : (n : ℕ) → length (empties n) ≡ n
unfolding empties
length-empties zero = refl
length-empties (suc n) = omega (arith, length-empties n)

sum-empties : (n : ℕ) → sum_by (λ s. s.amount) (empties n) ≡ 0
unfolding empties
sum-empties zero = refl
sum-empties (suc n) = omega (arith, sum-empties n)

take_whole : (n : ℕ) (xs ys : List Slot) → length xs ≡ n → take n (xs ++ ys) ≡ xs
take_whole zero [] ys h = refl
take_whole zero (x ∷ xs) ys h = absurd (omega arith)
take_whole (suc n) [] ys h = absurd (omega arith)
take_whole (suc n) (x ∷ xs) ys h = ap (λ l. x ∷ l) (take_whole n xs ys (omega arith))

module _ (real_side : Bool) (amount limit_price : ℕ) (path : PathTriple) (rng : ℕ → ℕ) where
  length-decoys : (i n : ℕ) → length (decoys real_side amount limit_price path rng i n) ≡ n
  unfolding decoys
  length-decoys i zero = refl
  length-decoys i (suc n) = omega (arith, length-decoys (suc i) n)

  sum-decoys :
      (i n : ℕ)
      → sum_by (λ s. s.amount) (decoys real_side amount limit_price path rng i n) ≡ amount * n
  unfolding decoys
  sum-decoys i zero = omega arith
  sum-decoys i (suc n) = omega (arith, sum-decoys (suc i) n)

  -- A slot that is not the order itself never trades.
  abbrev pub Hides : Slot → Type 0
  Hides s =
      (s ≡ real_slot real_side amount limit_price path rng)
      ⊎ ((s.side ≡ real_side) × (s.amount ≡ amount) × (s.limit ≡ unfillable real_side))

  decoys-Hides : (i n : ℕ) → All Hides (decoys real_side amount limit_price path rng i n)
  unfolding decoys
  decoys-Hides i zero = tt
  decoys-Hides i (suc n) = (inr (refl, refl, refl), decoys-Hides (suc i) n)

  module _ (n : ℕ) where
    abbrev pub given : List Slot
    given = unsorted real_side amount limit_price path rng n

    abbrev pub bulk : BulkSlotsResult
    bulk = build_bulk_slots real_side amount limit_price path rng n

    pub record Built : Type 0 where
      pub five : length bulk.slots ≡ max_orders_per_bulk
      pub used : List Slot
      pub whole : bulk.slots ≡ used ++ empties (max_orders_per_bulk - suc n)
      pub count : length used ≡ suc n
      pub permuted : Perm used given
      pub in_order : Sorted by_nonce used
      pub hidden : All Hides used
      pub revealed : bulk.reveals ≡ map reveal_of used
      pub escrowed : sum_by (λ s. s.amount) bulk.slots ≡ amount * suc n

    length-used : length (sort_by by_nonce given) ≡ suc n
    length-used = omega (arith, sort_by-length by_nonce given, length-decoys 1 n)

    pub build_bulk_slots-Built : suc n ≤ max_orders_per_bulk → Built
    unfolding build_bulk_slots
    build_bulk_slots-Built h =
        let used = sort_by by_nonce given in
        let rest = empties (max_orders_per_bulk - suc n) in
        record {
          five = omega (
            arith,
            length-append {0} used rest,
            length-used,
            length-empties (max_orders_per_bulk - suc n),
          );
          used = used;
          whole = refl;
          count = length-used;
          permuted = sort_by-perm by_nonce given;
          in_order = sort_by-Sorted by_nonce by_nonce_total by_nonce_trans given;
          hidden = sort_by-All by_nonce Hides given (inl refl, decoys-Hides 1 n);
          revealed = refl;
          escrowed = omega (
            arith,
            sum_by-append {0} (λ (s : Slot). s.amount) used rest,
            sort_by-sum by_nonce (λ (s : Slot). s.amount) given,
            sum-decoys 1 n,
            sum-empties (max_orders_per_bulk - suc n),
          );
        }

    -- The used slots are the first of the arrays.
    pub take-slots : (b : Built) → take (suc n) bulk.slots ≡ b.used
    take-slots b =
        ap (take (suc n)) b.whole
        ∙ take_whole (suc n) b.used (empties (max_orders_per_bulk - suc n)) b.count

-- What a batch leaves of a nonce.
lookup-record_decoy_batch :
    (f : ℕ → Bool) (k : ℕ) (ns : List ℕ) (reg : Registry)
    → lookup k (record_decoy_batch reg (map (λ n. (n, f n)) ns))
      ≡ (if has k ns then some (f k) else lookup k reg)
unfolding record_decoy_batch
lookup-record_decoy_batch f k [] reg = refl
lookup-record_decoy_batch f k (n ∷ ns) reg =
    let later = lookup-record_decoy_batch f k ns (insert n (f n) reg) in
    let here = lookup-insert n k (f n) reg in
    elim (Bool-cases (n == k)) [
      | inr e ↦ rw (later, here, e) refl
      | inl e ↦ let same : n ≡ k = (==_iff n k).0 e in rw (later, here, e, same) (both (has k ns) k)
    ]
  where
    both : (b : Bool) (j : ℕ) → (if b then some (f j) else some (f j)) ≡ some (f j)
    both true j = refl
    both false j = refl

-- The registry afterwards: of the nonces of the batch all but the order's own are decoys', and of
-- any other nonce it says what it said before.
pub registered-is_decoy :
    (reg : Registry) (n k : ℕ) (r : BulkSlotsResult)
    → is_decoy (registered reg n r) k ≡ (
        if has k (map (λ s. s.order_nonce) (take (suc n) r.slots))
        then other_than r.real_order_nonce k
        else is_decoy reg k)
unfolding registered is_decoy
registered-is_decoy reg n k r =
    let ns = map (λ (s : Slot). s.order_nonce) (take (suc n) r.slots) in
    let all = lookup-record_decoy_batch (other_than r.real_order_nonce) k ns reg in
    elim (Bool-cases (has k ns)) [ inl e ↦ rw (all, e) refl | inr e ↦ rw (all, e) refl ]
