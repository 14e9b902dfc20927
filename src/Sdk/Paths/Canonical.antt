-- ===== src/Sdk/Paths/Canonical.antt =====
-- What canonicalisation keeps and what it hides.
use mathlib.Core.List.{reverse}
use quetzaldex.Prelude.{
  ℕ, suc, ◌<◌, ◌≡◌, refl, subst, true, false, List, [], ◌∷◌, Option, ltb, ◌||◌, ◌==◌, length, arith,
  inl, inr, ◌⊎◌, Bool-cases, String,
}
use quetzaldex.Prelude.Result.{Result, ok, ◌>>=◌, >>=-eq-ok}
use quetzaldex.Sdk.Paths.{
  OrderSide, buy, sell, bad_length, flip, first_of, last_of, low_bits, ordered, canonicalize_path,
  input_token, output_token,
}

-- The reverse of a path of two or three entries.
record Turned (path : List String) : Type 0 where
  first : first_of (reverse path) ≡ last_of path
  last : last_of (reverse path) ≡ first_of path
  back : reverse (reverse path) ≡ path
  sized : bad_length (reverse path) ≡ false

turned : (path : List String) → bad_length path ≡ false → Turned path
turned [] h = cc
turned (a ∷ []) h = cc
turned (a ∷ b ∷ []) h = record { first = refl; last = refl; back = refl; sized = refl }
turned (a ∷ b ∷ c ∷ []) h = record { first = refl; last = refl; back = refl; sized = refl }
turned (a ∷ b ∷ c ∷ d ∷ path) h = absurd (long (length path) h)
  where
    long :
        (n : ℕ) → (ltb (suc (suc (suc (suc n)))) 2 || ltb 3 (suc (suc (suc (suc n))))) ≡ false → ⊥
    long n e = ground arith

module _ (big_int : String → Option ℕ) where
  -- A path whose first end is the lower.
  pub record Canonical (path : List String) : Type 0 where
    pub lo : ℕ
    pub hi : ℕ
    pub first : low_bits big_int (first_of path) ≡ ok lo
    pub last : low_bits big_int (last_of path) ≡ ok hi
    pub lt : lo < hi
    pub sized : bad_length path ≡ false

  Canonical-stays :
      (side : OrderSide) (path : List String)
      → Canonical path
      → canonicalize_path big_int side path ≡ ok (side, path)
  unfolding canonicalize_path
  Canonical-stays side path c =
      let a : (c.lo == c.hi) ≡ false = ground (arith, c.lt) in
      let b : ltb c.lo c.hi ≡ true = ground (arith, c.lt) in
      rw (canonicalize_path, c.sized, c.first, c.last, a, b) refl

  Canonical-turns :
      (side : OrderSide) (path : List String)
      → Canonical path
      → canonicalize_path big_int side (reverse path) ≡ ok (flip side, path)
  unfolding canonicalize_path
  Canonical-turns side path c =
      let t = turned path c.sized in
      let a : (c.hi == c.lo) ≡ false = ground (arith, c.lt) in
      let b : ltb c.hi c.lo ≡ false = ground (arith, c.lt) in
      rw (canonicalize_path, t.sized, t.first, t.last, c.first, c.last, a, b, t.back) refl

  -- A call that returns: the path as it was, or turned.
  abbrev Returned : OrderSide → List String → OrderSide → List String → Type 0
  Returned side path side' path' =
      Canonical path'
      × (((side' ≡ side) × (path' ≡ path))
          ⊎ ((side' ≡ flip side) × (path' ≡ reverse path) × Turned path))

  canonicalize_path-Returned :
      (side side' : OrderSide) (path path' : List String)
      → canonicalize_path big_int side path ≡ ok (side', path')
      → Returned side path side' path'
  unfolding canonicalize_path
  canonicalize_path-Returned side side' path path' h = elim (Bool-cases (bad_length path)) [
    | inl e ↦ let k = rw (canonicalize_path, e) at h in cc
    | inr e ↦
        let (lo, first, g) =
          >>=-eq-ok (low_bits big_int (first_of path))
            (λ (lo : ℕ). low_bits big_int (last_of path) >>= λ hi. ordered big_int side path lo hi)
            (rw (canonicalize_path, e) at h) in
        let (hi, last, k) =
          >>=-eq-ok (low_bits big_int (last_of path)) (λ (hi : ℕ). ordered big_int side path lo hi)
            g in
        split lo hi e first last k
  ]
    where
      split :
          (lo hi : ℕ)
          → bad_length path ≡ false
          → low_bits big_int (first_of path) ≡ ok lo
          → low_bits big_int (last_of path) ≡ ok hi
          → ordered big_int side path lo hi ≡ ok (side', path')
          → Returned side path side' path'
      split lo hi e first last k = elim (Bool-cases (lo == hi)) [
        | inl q ↦ let z = rw q at k in cc
        | inr q ↦ elim (Bool-cases (ltb lo hi)) [
          | inl l ↦
              let z : ◌≡◌ {A = Result (OrderSide × List String)} (ok (side, path))
                  (ok (side', path')) =
                rw (q, l) at k in
              let s : side' ≡ side = cc in
              let p : path' ≡ path = cc in
              (
                rw p (record {
                  lo = lo;
                  hi = hi;
                  first = first;
                  last = last;
                  lt = ground arith;
                  sized = e;
                }),
                inl (s, p),
              )
          | inr l ↦
              let z : ◌≡◌ {A = Result (OrderSide × List String)} (ok (flip side, reverse path))
                  (ok (side', path')) =
                rw (q, l) at k in
              let s : side' ≡ flip side = cc in
              let p : path' ≡ reverse path = cc in
              let t = turned path e in
              (
                rw p (record {
                  lo = hi;
                  hi = lo;
                  first = rw t.first last;
                  last = rw t.last first;
                  lt = ground arith;
                  sized = t.sized;
                }),
                inr (s, p, t),
              )
        ]
      ]

  input_token-Turned :
      (side : OrderSide) (path : List String)
      → Turned path
      → input_token (flip side) (reverse path) ≡ input_token side path
  input_token-Turned buy path t = t.last
  input_token-Turned sell path t = t.first

  canonicalize_path-reverse :
      (side other side' : OrderSide) (path path' : List String)
      → canonicalize_path big_int side path ≡ ok (side', path')
      → (side'' : OrderSide) × (canonicalize_path big_int other (reverse path) ≡ ok (side'', path'))
  canonicalize_path-reverse side other side' path path' h =
      let (c, which) = canonicalize_path-Returned side side' path path' h in
      elim which [
        | inl (s, p) ↦ (
          flip other,
          subst (λ q. canonicalize_path big_int other (reverse q) ≡ ok (flip other, path')) p
              (Canonical-turns other path' c),
        )
        | inr (s, p, t) ↦ (
          other,
          subst (λ q. canonicalize_path big_int other q ≡ ok (other, path')) p
              (Canonical-stays other path' c),
        )
      ]

  -- What a canonical order keeps of the one given.
  pub record Kept (side side' : OrderSide) (path path' : List String) : Type 0 where
    pub canonical : Canonical path'
    pub pays : input_token side' path' ≡ input_token side path
    pub receives : output_token side' path' ≡ output_token side path
    pub again : canonicalize_path big_int side' path' ≡ ok (side', path')
    pub either_way :
        (other : OrderSide)
        → (side'' : OrderSide) × (canonicalize_path big_int other (reverse path)
            ≡ ok (side'', path'))

  -- A path that is made canonical has its lower end first, by the lower 128 bits; under its new
  -- side the order pays and receives the same tokens as before; making it canonical again changes
  -- nothing; and the reversed path, under either side, gives the same canonical path.
  pub canonicalize_path-Kept :
      (side side' : OrderSide) (path path' : List String)
      → canonicalize_path big_int side path ≡ ok (side', path')
      → Kept side side' path path'
  canonicalize_path-Kept side side' path path' h =
      let (c, which) = canonicalize_path-Returned side side' path path' h in
      let same = Canonical-stays side' path' c in
      let turn = λ (other : OrderSide). canonicalize_path-reverse side other side' path path' h in
      elim which [
        | inl (s, p) ↦ record {
          canonical = c;
          pays = cc;
          receives = cc;
          again = same;
          either_way = turn;
        }
        | inr (s, p, t) ↦ record {
          canonical = c;
          pays = rw (s, p) (input_token-Turned side path t);
          receives = rw (s, p) (input_token-Turned (flip side) path t);
          again = same;
          either_way = turn;
        }
      ]
