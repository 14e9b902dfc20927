-- ===== src/Validate/Arrival.antt =====
-- The result does not depend on the order in which reveals arrive.
use mathlib.Core.List.{Permᴰ}
use mathlib.Core.List.Permᴰ
use quetzaldex.Prelude.{
  ℕ, ◌≡◌, refl, ap, subst, List, [], ◌∷◌, Option, none, some, ◌==◌, if◌then◌else◌, String,
  Option-cases, inl, inr,
}
use quetzaldex.Prelude.Int.{ℤ}
use quetzaldex.Prelude.Result.{Result, ok, ◌>>=◌}
use quetzaldex.Prelude.Reorder.{Apart, sort_by-Permᴰ}
use quetzaldex.Queue.{RevealPayload}
use quetzaldex.Validate.{
  ValidatedReveal, earlier, sort_reveals, parse_reveal, parse_all, replayed, validate_reveals,
}
use quetzaldex.Validate.Fold.{earlier_trans}

-- The reveal first, where it parses.
abbrev kept : Option ValidatedReveal → List ValidatedReveal → List ValidatedReveal
kept none rest = rest
kept (some p) rest = p ∷ rest

kept-Permᴰ :
    (o : Option ValidatedReveal) {xs ys : List ValidatedReveal}
    → Permᴰ xs ys
    → Permᴰ (kept o xs) (kept o ys)
kept-Permᴰ none d = d
kept-Permᴰ (some p) d = Permᴰ.cons refl d

kept_swap :
    (o q : Option ValidatedReveal) (rest : List ValidatedReveal)
    → Permᴰ (kept o (kept q rest)) (kept q (kept o rest))
kept_swap none q rest = Permᴰ.refl (kept q rest)
kept_swap (some p) none rest = Permᴰ.refl (p ∷ rest)
kept_swap (some p) (some r) rest = Permᴰ.swap refl refl

module _ (big_int : String → Option ℤ) (fr_from_string : String → Option ℕ) where
  parse_all-cons :
      (r : RevealPayload) (rs : List RevealPayload)
      → parse_all big_int fr_from_string (r ∷ rs)
        ≡ kept (parse_reveal big_int fr_from_string r) (parse_all big_int fr_from_string rs)
  unfolding parse_all
  parse_all-cons r rs = elim (Option-cases (parse_reveal big_int fr_from_string r)) [
    | inl e ↦ rw (parse_all, e) refl
    | inr (p, e) ↦ rw (parse_all, e) refl
  ]

  parse_all-Permᴰ :
      {rs ss : List RevealPayload}
      → Permᴰ rs ss
      → Permᴰ (parse_all big_int fr_from_string rs) (parse_all big_int fr_from_string ss)
  parse_all-Permᴰ Permᴰ.nil = Permᴰ.refl (parse_all big_int fr_from_string [])
  parse_all-Permᴰ (Permᴰ.cons {a = a} {l₁ = l} {l₂ = k} e d) =
      subst
        (λ x.
          Permᴰ (parse_all big_int fr_from_string (a ∷ l))
            (parse_all big_int fr_from_string (x ∷ k)))
        e
        (rw (parse_all-cons a l, parse_all-cons a k)
          (kept-Permᴰ (parse_reveal big_int fr_from_string a) (parse_all-Permᴰ d)))
  parse_all-Permᴰ (Permᴰ.swap {a = a} {b = b} {b' = b'} {l = l} e f) =
      subst
        (λ x.
          Permᴰ (parse_all big_int fr_from_string (a ∷ b ∷ l))
            (parse_all big_int fr_from_string (x ∷ b' ∷ l)))
        f
        (subst
          (λ x.
            Permᴰ (parse_all big_int fr_from_string (a ∷ b ∷ l))
              (parse_all big_int fr_from_string (b ∷ x ∷ l)))
          e
          (rw
            (
              parse_all-cons a (b ∷ l),
              parse_all-cons b l,
              parse_all-cons b (a ∷ l),
              parse_all-cons a l,
            )
            (kept_swap (parse_reveal big_int fr_from_string a)
              (parse_reveal big_int fr_from_string b) (parse_all big_int fr_from_string l))))
  parse_all-Permᴰ (Permᴰ.trans d f) = Permᴰ.trans (parse_all-Permᴰ d) (parse_all-Permᴰ f)

  module _ (poseidon2 : List ℤ → Result ℕ) where
    -- Reveals that arrive in another order are validated to the same result, where any two that
    -- parse differ in their block or nonce.
    pub validate_reveals_any_order :
        {rs ss : List RevealPayload} (expected : ℕ)
        → Permᴰ rs ss
        → Apart earlier (parse_all big_int fr_from_string rs)
        → validate_reveals poseidon2 big_int fr_from_string rs expected
          ≡ validate_reveals poseidon2 big_int fr_from_string ss expected
    unfolding validate_reveals sort_reveals
    validate_reveals_any_order expected d h =
        let same = sort_by-Permᴰ earlier earlier_trans (parse_all-Permᴰ d) h in
        ap
          (λ parsed.
            replayed poseidon2 parsed >>= λ acc. ok (if acc == expected then parsed else []))
          same
