-- ===== src/Validate/Hashing.antt =====
-- The words of a reveal that the hash takes, and the replays that do not throw.
use native.Mathlib.Nat.{mod-lt}
use quetzaldex.Prelude.{
  ℕ, suc, ◌/◌, ◌%◌, ◌≤◌, ◌<◌, ◌≡◌, refl, true, false, List, [], ◌∷◌, arith, All, leb, ◌-◌, Bool,
}
use quetzaldex.Prelude.Int.{ℤ}
use quetzaldex.Prelude.Result.{Result, ok}
use quetzaldex.Prelude.Sort.{sort_by-All}
use quetzaldex.Validate.{ValidatedReveal, earlier, sort_reveals, replayed, lower, correct}
use quetzaldex.Prelude.Int.{pos, ◌-ℤ◌}
use quetzaldex.Prelude.Result.{map_result}
use quetzaldex.Validate.{words, side_word, compute_ci, replay_order_acc, fold_acc}

-- A number of the proof system's field.
abbrev pub InField : ℕ → ℤ → Type 0
InField modulus w = (n : ℕ) × (w ≡ pos n) × (n < modulus)

-- A reveal whose words are in the field, also with its anchor up to `m` blocks earlier.
pub record IsHashable (modulus m : ℕ) (p : ValidatedReveal) : Type 0 where
  pub owner : p.owner < modulus
  pub amount_in : InField modulus p.amount_in
  pub limit_price : InField modulus p.limit_price
  pub order_nonce : p.order_nonce < modulus
  pub anchor : (b : ℕ) × (p.submitted_at_block ≡ pos b) × (m ≤ b) × (b < modulus)
  pub path_len : p.path_len < modulus
  pub path_0 : InField modulus p.path_0
  pub path_1 : InField modulus p.path_1
  pub path_2 : InField modulus p.path_2

module _ (modulus : ℕ) (poseidon2 : List ℤ → Result ℕ)
    (hashes : (ws : List ℤ)
      → All (InField modulus) ws
      → (h : ℕ) × (poseidon2 ws ≡ ok h) × (h < modulus))
    (bits : 1 < modulus) where
  side-InField : (side : Bool) → InField modulus (side_word side)
  side-InField true = (1, refl, bits)
  side-InField false = (0, refl, omega (arith, bits))

  lowered-InField :
      (m off : ℕ) (b : ℤ)
      → ((n : ℕ) × (b ≡ pos n) × (m ≤ n) × (n < modulus))
      → off ≤ m
      → InField modulus (b -ℤ pos off)
  unfolding ◌-ℤ◌
  lowered-InField m off b (n, e, room, small) h =
      let fits : leb (off) (n) ≡ true = ground arith in (n - off, rw e (ground arith), omega arith)

  lower-hashes :
      (m off : ℕ) (p : ValidatedReveal)
      → IsHashable modulus m p
      → off ≤ m
      → All (InField modulus) (words (lower off p))
  unfolding lower
  lower-hashes m off p v h = (
    (p.owner, refl, v.owner),
    (
      side-InField p.side,
      (
        v.amount_in,
        (
          v.limit_price,
          (
            (p.order_nonce, refl, v.order_nonce),
            (
              lowered-InField m off p.submitted_at_block v.anchor h,
              ((p.path_len, refl, v.path_len), (v.path_0, (v.path_1, (v.path_2, tt)))),
            ),
          ),
        ),
      ),
    ),
  )

  fold_acc-hashes :
      (acc : ℕ) (cis : List ℕ)
      → acc < modulus
      → All (λ c. c < modulus) cis
      → (h : ℕ) × (fold_acc poseidon2 acc cis ≡ ok h)
  unfolding fold_acc
  fold_acc-hashes acc [] a h = (acc, refl)
  fold_acc-hashes acc (c ∷ cis) a h =
      let (next, e, small) = hashes (pos acc ∷ pos c ∷ []) ((acc, refl, a), ((c, refl, h.0), tt)) in
      let (out, f) = fold_acc-hashes next cis small h.1 in (out, rw (fold_acc, e) f)

  commitments :
      (rs : List ValidatedReveal)
      → All (λ p. All (InField modulus) (words p)) rs
      → (cis : List ℕ) × (map_result (compute_ci poseidon2) rs ≡ ok cis)
        × All (λ c. c < modulus) cis
  unfolding compute_ci
  commitments [] h = ([], refl, tt)
  commitments (p ∷ rs) h =
      let (c, e, small) = hashes (words p) h.0 in
      let (cis, f, rest) = commitments rs h.1 in
      (c ∷ cis, rw (compute_ci, e, f) refl, (small, rest))

  replayed-hashes :
      (rs : List ValidatedReveal)
      → All (λ p. All (InField modulus) (words p)) rs
      → (acc : ℕ) × (replayed poseidon2 rs ≡ ok acc)
  unfolding replayed replay_order_acc
  replayed-hashes rs h =
      let (cis, e, small) = commitments rs h in
      let (acc, f) = fold_acc-hashes 0 cis (omega (arith, bits)) small in
      (acc, rw (replayed, replay_order_acc, e) f)

  correct-hashes :
      (m rem : ℕ) (ps : List ValidatedReveal)
      → All (IsHashable modulus m) ps
      → All (λ p. All (InField modulus) (words p)) (correct (suc m) rem ps)
  unfolding correct
  correct-hashes m rem [] h = tt
  correct-hashes m rem (p ∷ ps) h = (
    lower-hashes m (rem % suc m) p h.0 (omega (arith, mod-lt rem {m = suc m} (omega arith))),
    correct-hashes m (rem / suc m) ps h.1,
  )

  -- No combination of a batch of hashable reveals throws.
  pub combo-hashes :
      (m : ℕ) (parsed : List ValidatedReveal)
      → All (IsHashable modulus m) parsed
      → (k : ℕ)
      → (acc : ℕ) × (replayed poseidon2 (sort_reveals (correct (suc m) k parsed)) ≡ ok acc)
  unfolding sort_reveals
  combo-hashes m parsed h k = replayed-hashes (sort_reveals (correct (suc m) k parsed)) (
      sort_by-All earlier (λ p. All (InField modulus) (words p)) (correct (suc m) k parsed)
        (correct-hashes m k parsed h))
