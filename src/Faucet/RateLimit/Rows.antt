-- ===== src/Faucet/RateLimit/Rows.antt =====
-- What each operation writes to the table, and that ids stay fresh.
use quetzaldex.Prelude.{
  ℕ, suc, ◌<◌, ◌-◌, ◌≡◌, refl, ap, Bool, true, false, List, [], ◌∷◌, ◌++◌, Option, none, some, leb,
  if◌then◌else◌, filter, length, map, All, All-append, All-map, All-filter_keep, arith, inl, inr,
  Bool-cases, String,
}
use quetzaldex.Prelude.Result.{Result, ok, err}
use quetzaldex.Faucet.RateLimit.{
  Hit, Limiter, RateLimiterOpts, RateLimitResult, day, granted, since, hit, record_hit, ip_hits,
  throttled, check_and_record, unallow, release, evict_stale,
}

-- The ids given so far are below the next one.
abbrev pub Fresh : Limiter → Type 0
Fresh l = All (λ r. r.id < l.next_id) l.rows

abbrev pub is_granted : Result RateLimitResult → Bool
is_granted (ok r) = r.allowed
is_granted (err e) = false

abbrev pub limited : RateLimiterOpts → String → ℕ → Limiter → Bool
limited c ip now l =
    leb c.per_ip_max_drips_per_window (length (ip_hits ip (now - c.per_ip_window_seconds) l.rows))

abbrev pub capped : RateLimiterOpts → ℕ → Limiter → Bool
capped c now l = leb c.daily_cap (length (filter (since (now - day) granted) l.rows))

throttled-is_granted :
    (c : RateLimiterOpts) (now : ℕ) (hits : List Hit) → is_granted (throttled c now hits) ≡ false
throttled-is_granted c now [] = refl
throttled-is_granted c now (r ∷ hits) = refl

module _ (c : RateLimiterOpts) (ip : String) (now : ℕ) (l : Limiter) where
  -- The three outcomes of a check.
  pub check_and_record-capped :
      capped c now l ≡ true
      → (is_granted (check_and_record c ip now l).0 ≡ false)
        × ((check_and_record c ip now l).1 ≡ (record_hit ip now false l).1)
  unfolding check_and_record
  check_and_record-capped h = rw (check_and_record, h) (refl, refl)

  pub check_and_record-limited :
      capped c now l ≡ false
      → limited c ip now l ≡ true
      → (is_granted (check_and_record c ip now l).0 ≡ false)
        × ((check_and_record c ip now l).1 ≡ (record_hit ip now false l).1)
  unfolding check_and_record
  check_and_record-limited h k =
      rw (check_and_record, h, k)
        (throttled-is_granted c now (ip_hits ip (now - c.per_ip_window_seconds) l.rows), refl)

  pub check_and_record-granted :
      capped c now l ≡ false
      → limited c ip now l ≡ false
      → (is_granted (check_and_record c ip now l).0 ≡ true)
        × ((check_and_record c ip now l).1 ≡ (record_hit ip now true l).1)
  unfolding check_and_record
  check_and_record-granted h k = rw (check_and_record, h, k) (refl, refl)

  -- Whatever its outcome, a check writes one row, allowed exactly when it grants.
  pub check_and_record-rows :
      (check_and_record c ip now l).1
      ≡ (record_hit ip now (is_granted (check_and_record c ip now l).0) l).1
  check_and_record-rows = elim (Bool-cases (capped c now l)) [
    | inl h ↦ let (a, b) = check_and_record-capped h in rw a b
    | inr h ↦ elim (Bool-cases (limited c ip now l)) [
      | inl k ↦ let (a, b) = check_and_record-limited h k in rw a b
      | inr k ↦ let (a, b) = check_and_record-granted h k in rw a b
    ]
  ]

record_hit-Fresh :
    (ip : String) (now : ℕ) (b : Bool) (l : Limiter) → Fresh l → Fresh (record_hit ip now b l).1
unfolding record_hit
record_hit-Fresh ip now b l h =
    All-append (λ r. r.id < suc l.next_id) l.rows (hit l.next_id ip now b ∷ [])
      (All-map l.rows (λ r k. omega arith) h) (omega arith, tt)

pub check_and_record-Fresh :
    (c : RateLimiterOpts) (ip : String) (now : ℕ) (l : Limiter)
    → Fresh l
    → Fresh (check_and_record c ip now l).1
check_and_record-Fresh c ip now l h =
    rw (check_and_record-rows c ip now l)
      (record_hit-Fresh ip now (is_granted (check_and_record c ip now l).0) l h)

unallow-Fresh :
    (n id : ℕ) (rows : List Hit)
    → All (λ r. r.id < n) rows
    → All (λ r. r.id < n) (map (unallow id) rows)
unallow-Fresh n id [] h = tt
unallow-Fresh n id (r ∷ rows) h = (ground (arith, h.0), unallow-Fresh n id rows h.1)

pub release-Fresh : (id : ℕ) (l : Limiter) → Fresh l → Fresh (release id l)
unfolding release
release-Fresh id l h = unallow-Fresh l.next_id id l.rows h

pub evict_stale-Fresh : (now : ℕ) (l : Limiter) → Fresh l → Fresh (evict_stale now l)
unfolding evict_stale
evict_stale-Fresh now l h =
    All-filter_keep (λ r. r.id < l.next_id) (λ r. leb (now - day) r.ts) l.rows h

-- An id above all others is no row's.
unallow-above :
    (id : ℕ) (rows : List Hit) (last : Hit)
    → All (λ r. r.id < id) rows
    → map (unallow id) (rows ++ last ∷ []) ≡ rows ++ unallow id last ∷ []
unallow-above id [] last h = refl
unallow-above id (r ∷ rows) last h =
    let same : unallow id r ≡ r = ground (arith, h.0) in
    rw (same, unallow-above id rows last h.1) refl

-- The id that a granted check reserves.
abbrev pub reserved : Result RateLimitResult → Option ℕ
reserved (ok r) = r.id
reserved (err e) = none

throttled-reserved :
    (c : RateLimiterOpts) (now : ℕ) (hits : List Hit) → reserved (throttled c now hits) ≡ none
throttled-reserved c now [] = refl
throttled-reserved c now (r ∷ hits) = refl

pub check_and_record-reserved :
    (c : RateLimiterOpts) (ip : String) (now : ℕ) (l : Limiter)
    → reserved (check_and_record c ip now l).0
      ≡ (if is_granted (check_and_record c ip now l).0 then some l.next_id else none)
unfolding check_and_record record_hit
check_and_record-reserved c ip now l = elim (Bool-cases (capped c now l)) [
  | inl h ↦ rw (check_and_record, h) refl
  | inr h ↦ elim (Bool-cases (limited c ip now l)) [
    | inr k ↦ rw (check_and_record, h, k) refl
    | inl k ↦
        let hits = ip_hits ip (now - c.per_ip_window_seconds) l.rows in
        rw (check_and_record, h, k, throttled-is_granted c now hits) (throttled-reserved c now hits)
  ]
]

pub release-record_hit :
    (ip : String) (now : ℕ) (l : Limiter)
    → Fresh l
    → release l.next_id (record_hit ip now true l).1 ≡ (record_hit ip now false l).1
unfolding release record_hit
release-record_hit ip now l h =
    let same = unallow-above l.next_id l.rows (hit l.next_id ip now true) h in
    let own : unallow l.next_id (hit l.next_id ip now true) ≡ hit l.next_id ip now false =
      ground arith in
    ap (λ rows. record { rows = rows; next_id = suc l.next_id }) (rw (same, own) refl)

-- A reservation that is released leaves the table as a refusal would have: wherever a check
-- reserves an id, and the ids of the table are below the next one.
pub release-check_and_record :
    (c : RateLimiterOpts) (ip : String) (now : ℕ) (l : Limiter) (id : ℕ)
    → Fresh l
    → reserved (check_and_record c ip now l).0 ≡ some id
    → release id (check_and_record c ip now l).1 ≡ (record_hit ip now false l).1
release-check_and_record c ip now l id h e =
    elim (Bool-cases (is_granted (check_and_record c ip now l).0)) [
      | inr g ↦ let a = check_and_record-reserved c ip now l in let b : none ≡ some id = cc in cc
      | inl g ↦
          let a = check_and_record-reserved c ip now l in
          let q : l.next_id ≡ id = ground arith in
          let rows = check_and_record-rows c ip now l in
          rw (rows, g, ← q) (release-record_hit ip now l h)
    ]
