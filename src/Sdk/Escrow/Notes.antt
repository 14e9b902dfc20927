-- ===== src/Sdk/Escrow/Notes.antt =====
-- What shielding leaves.
use quetzaldex.Prelude.{
  ℕ, zero, suc, ◌+◌, ◌-◌, ◌*◌, ◌/◌, ◌%◌, ◌≤◌, ◌<◌, ◌≡◌, refl, Bool, true, false, List, [], ◌∷◌,
  none, some, ltb, leb, ◌==◌, ==_iff, ◌||◌, ◌&&◌, filter, length, arith, inl, inr, Bool-cases, All,
}
use quetzaldex.Prelude.Result.{Error, Result, ok, err}
use quetzaldex.Sdk.Escrow.{
  Wallet, Sent, mined, invalid_proof, refused, submit_error, sizes, notes, total, shielded,
  ensure_private_balance,
}
use native.Mathlib.Nat.{mod-lt, div-add-mod', mul-div_cancel, mul-mod_left}

total-filter : (cs : List ℕ) → total (filter (λ c. ltb 0 c) cs) ≡ total cs
total-filter [] = refl
total-filter (c ∷ cs) = ground (arith, total-filter cs)

-- Each note is the base, and one more while `i` is below the remainder.
total-sizes :
    (base rem i left : ℕ) → rem ≤ i + left → total (sizes base rem i left) ≡ base * left + (rem - i)
unfolding sizes
total-sizes base rem i zero h = omega arith
total-sizes base rem i (suc left) h = elim (Bool-cases (ltb i rem)) [
  | inl e ↦ rw e (ground (arith, total-sizes base rem (suc i) left (omega arith)))
  | inr e ↦ rw e (ground (arith, total-sizes base rem (suc i) left (omega arith)))
]

total-notes : (need slots : ℕ) → total (notes need slots) ≡ need
unfolding notes
total-notes need slots = elim (Bool-cases (ltb slots 1)) [
  | inl e ↦ rw (notes, e) (omega arith)
  | inr e ↦ elim (Bool-cases (slots == 1)) [
    | inl k ↦ rw (notes, e, k) (omega arith)
    | inr k ↦
        let pos : 0 < slots = ground arith in
        let small = mod-lt need {m = slots} pos in
        let parts = total-sizes (need / slots) (need % slots) 0 slots (omega (arith, small)) in
        let whole = div-add-mod' need slots in
        rw (notes, e, k)
          (omega (arith, total-filter (sizes (need / slots) (need % slots) 0 slots), parts, whole))
  ]
]

sizes-even :
    (a i n : ℕ)
    → 0 < a
    → (All (λ c. c ≡ a) (filter (λ c. ltb 0 c) (sizes a 0 i n)))
      × (length (filter (λ c. ltb 0 c) (sizes a 0 i n)) ≡ n)
unfolding sizes
sizes-even a i zero pos = (tt, refl)
sizes-even a i (suc n) pos =
    let (all, count) = sizes-even a (suc i) n pos in
    let low : ltb i 0 ≡ false = ground arith in
    let same : a + 0 ≡ a = omega arith in
    let up : ltb 0 a ≡ true = ground arith in rw (low, same, up) ((refl, all), omega (arith, count))

-- With nothing private yet, a bulk order's shield is one note of the order's amount for each slot.
pub notes-own :
    (a slots : ℕ)
    → 0 < a
    → 0 < slots
    → All (λ c. c ≡ a) (notes (a * slots) slots) × (length (notes (a * slots) slots) ≡ slots)
unfolding notes
notes-own a slots pos some_slot =
    let e : ltb slots 1 ≡ false = ground arith in
    elim (Bool-cases (slots == 1)) [
      | inl k ↦
          let one : slots ≡ 1 = (==_iff slots 1).0 k in
          rw (notes, e, k, one) ((omega arith, tt), refl)
      | inr k ↦
          let q : a * slots / slots ≡ a = mul-div_cancel a some_slot in
          let r : a * slots % slots ≡ 0 = mul-mod_left a slots in
          rw (notes, e, k, q, r) (sizes-even a 0 slots pos)
    ]

-- What a call returns, and the wallet it leaves.
abbrev pub is_mined : Sent → Bool
is_mined mined = true
is_mined invalid_proof = false
is_mined refused = false

abbrev pub Funds : ℕ → Wallet → Bool → Result (List ℕ) × Wallet → Type 0
Funds amount w can (ok cs, w') =
    (can ≡ true)
    × (amount ≤ w'.private)
    × (total cs ≡ amount - w.private)
    × (w'.private ≡ w.private + total cs)
    × (w'.private + w'.public ≡ w.private + w.public)
Funds amount w can (err e, w') = (can ≡ false) × (w' ≡ w)

pub ensure_private_balance-Funds :
    (sent : Sent) (other : Error) (amount slots : ℕ) (w : Wallet)
    → Funds amount w
        (leb amount w.private || (leb amount (w.private + w.public) && is_mined sent))
        (ensure_private_balance sent other amount slots w)
unfolding ensure_private_balance
ensure_private_balance-Funds sent other amount slots w = elim (Bool-cases (leb amount w.private)) [
  | inl e ↦ rw (ensure_private_balance, e) (refl, ground arith, ground arith, omega arith, refl)
  | inr e ↦ elim (Bool-cases (ltb w.public (amount - w.private))) [
    | inl k ↦
        let short : leb amount (w.private + w.public) ≡ false = ground arith in
        rw (ensure_private_balance, e, k, short) (refl, refl)
    | inr k ↦
        let enough : leb amount (w.private + w.public) ≡ true = ground arith in
        rw (ensure_private_balance, e, k, enough) (go e k sent)
  ]
]
  where
    go :
        leb amount w.private ≡ false
        → ltb w.public (amount - w.private) ≡ false
        → (s : Sent)
        → Funds amount w (is_mined s) (elim (submit_error s other) [
          | some e ↦ (err e, w)
          | none ↦ let cs = notes (amount - w.private) slots in (ok cs, shielded cs w)
        ])
    go e k mined =
        let all = total-notes (amount - w.private) slots in
        (refl, ground arith, all, refl, ground arith)
    go e k invalid_proof = (refl, refl)
    go e k refused = (refl, refl)
