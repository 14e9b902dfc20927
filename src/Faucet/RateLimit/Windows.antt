-- ===== src/Faucet/RateLimit/Windows.antt =====
-- Rows counted in a window of time, as rows are added, released and dropped.
use quetzaldex.Prelude.{
  ℕ, ◌+◌, ◌-◌, ◌≤◌, ◌≡◌, refl, ap, Bool, true, false, List, [], ◌∷◌, ◌++◌, leb, leb→le,
  if◌then◌else◌, filter, length, map, ◌&&◌, arith, inl, inr, Bool-cases,
}
use quetzaldex.Prelude.Filters.{Implies, length-filter_mono}
use quetzaldex.Faucet.RateLimit.{Hit, since, unallow}

-- How many rows of a kind stand in the closed window of `w` seconds from `s` on.
abbrev pub in_window : (Hit → Bool) → ℕ → ℕ → Hit → Bool
in_window cond w s r = cond r && (leb s r.ts && leb r.ts (s + w))

pub count : (Hit → Bool) → ℕ → ℕ → List Hit → ℕ
count cond w s rows = length (filter (in_window cond w s) rows)

length-filter-filter :
    (p q : Hit → Bool) (rows : List Hit)
    → length (filter p (filter q rows)) ≡ length (filter (λ r. q r && p r) rows)
length-filter-filter p q [] = refl
length-filter-filter p q (r ∷ rows) = ground (arith, length-filter-filter p q rows)

length-filter_snoc :
    (p : Hit → Bool) (rows : List Hit) (r : Hit)
    → length (filter p (rows ++ r ∷ [])) ≡ length (filter p rows) + (if p r then 1 else 0)
length-filter_snoc p [] r = ground arith
length-filter_snoc p (x ∷ rows) r = ground (arith, length-filter_snoc p rows r)

pub filter_snoc :
    (p : Hit → Bool) (rows : List Hit) (r : Hit)
    → p r ≡ true
    → filter p (rows ++ r ∷ []) ≡ filter p rows ++ r ∷ []
filter_snoc p [] r h = rw h refl
filter_snoc p (x ∷ rows) r h = ground (arith, filter_snoc p rows r h)

-- A row whose kind or time is outside adds nothing.
pub count_skip :
    (cond : Hit → Bool) (w s : ℕ) (rows : List Hit) (r : Hit)
    → cond r ≡ false
    → count cond w s (rows ++ r ∷ []) ≡ count cond w s rows
unfolding count
count_skip cond w s rows r h = ground (arith, length-filter_snoc (in_window cond w s) rows r)

later_Implies :
    (cond : Hit → Bool) (w s b now : ℕ)
    → b ≤ now - w
    → now ≤ s + w
    → Implies (in_window cond w s) (λ r. leb b r.ts && since (now - w) cond r)
later_Implies cond w s b now h k r e = ground arith

-- The code's query, over the table with the rows before `b` dropped, counts all the rows of a
-- window that reaches up to now.
pub count-since :
    (cond : Hit → Bool) (w s b now : ℕ) (h : List Hit)
    → b ≤ now - w
    → now ≤ s + w
    → count cond w s h ≤ length (filter (since (now - w) cond) (filter (λ r. leb b r.ts) h))
unfolding count
count-since cond w s b now h p q =
    let two = length-filter-filter (since (now - w) cond) (λ r. leb b r.ts) h in
    omega (
      arith,
      two,
      length-filter_mono (in_window cond w s) (λ r. leb b r.ts && since (now - w) cond r) h
          (later_Implies cond w s b now p q),
    )

-- A row that is let in while the query counts fewer than `most` keeps every window within it.
pub count_admit :
    (cond : Hit → Bool) (w b most : ℕ) (h : List Hit) (r : Hit)
    → b ≤ r.ts - w
    → leb most (length (filter (since (r.ts - w) cond) (filter (λ x. leb b x.ts) h))) ≡ false
    → ((s : ℕ) → count cond w s h ≤ most)
    → (s : ℕ) → count cond w s (h ++ r ∷ []) ≤ most
unfolding count
count_admit cond w b most h r early few all s = elim (Bool-cases (leb r.ts (s + w))) [
  | inr e ↦ ground (arith, length-filter_snoc (in_window cond w s) h r, all s)
  | inl e ↦ ground (
    arith,
    length-filter_snoc (in_window cond w s) h r,
    count-since cond w s b r.ts h early (leb→le r.ts (s + w) e),
  )
]

-- A release only takes away, for a kind that asks for allowed rows.
abbrev pub AsksAllowed : (Hit → Bool) → Type 0
AsksAllowed cond = (id : ℕ) (r : Hit) → cond (unallow id r) ≡ true → cond r ≡ true

unallow-in_window :
    (cond : Hit → Bool) (w s id : ℕ) (r : Hit)
    → AsksAllowed cond
    → in_window cond w s (unallow id r) ≡ true
    → in_window cond w s r ≡ true
unallow-in_window cond w s id r h e = ground (arith, h id r)

pub count-release :
    (cond : Hit → Bool) (w s id : ℕ) (rows : List Hit)
    → AsksAllowed cond
    → count cond w s (map (unallow id) rows) ≤ count cond w s rows
unfolding count
count-release cond w s id [] h = omega arith
count-release cond w s id (r ∷ rows) h = elim (Bool-cases (in_window cond w s (unallow id r))) [
  | inl e ↦
      rw (e, unallow-in_window cond w s id r h e) (omega (arith, count-release cond w s id rows h))
  | inr e ↦ elim (Bool-cases (in_window cond w s r)) [
    | inl k ↦ rw (e, k) (omega (arith, count-release cond w s id rows h))
    | inr k ↦ rw (e, k) (omega (arith, count-release cond w s id rows h))
  ]
]

pub filter-release :
    (b id : ℕ) (rows : List Hit)
    → map (unallow id) (filter (λ r. leb b r.ts) rows)
      ≡ filter (λ r. leb b r.ts) (map (unallow id) rows)
filter-release b id [] = refl
filter-release b id (r ∷ rows) =
    let same : (unallow id r).ts ≡ r.ts = ground arith in
    elim (Bool-cases (leb b r.ts)) [
      | inl e ↦ rw (same, e) (ap (λ x. unallow id r ∷ x) (filter-release b id rows))
      | inr e ↦ rw (same, e) (filter-release b id rows)
    ]

pub filter-filter_later :
    (b d : ℕ) (rows : List Hit)
    → b ≤ d
    → filter (λ r. leb d r.ts) (filter (λ r. leb b r.ts) rows) ≡ filter (λ r. leb d r.ts) rows
filter-filter_later b d [] h = refl
filter-filter_later b d (r ∷ rows) h = ground (arith, filter-filter_later b d rows h)

pub count_empty : (cond : Hit → Bool) (w s : ℕ) → count cond w s [] ≡ 0
unfolding count
count_empty cond w s = refl
