-- ===== src/Faucet/RateLimit/Waiting.antt =====
-- How long a refused client has to wait, against the `retryAfterSeconds` it is told.
use quetzaldex.Prelude.{
  ℕ, suc, ◌+◌, ◌-◌, ◌≤◌, ◌≡◌, refl, Bool, true, false, [], ◌∷◌, ◌++◌, Option, none, some, filter,
  length, arith, inl, inr, Bool-cases, String, All, All-filter_keep,
}
use quetzaldex.Prelude.Result.{Result, ok}
use quetzaldex.Prelude.Sort.{sort_by-length, sort_by-All}
use quetzaldex.Faucet.RateLimit.{
  Hit, Limiter, RateLimiterOpts, RateLimitResult, Reason, of_ip, since, by_ts, hit, record_hit,
  ip_hits, check_and_record,
}
use quetzaldex.Faucet.RateLimit.Rows.{
  is_granted, limited, capped, check_and_record-capped, check_and_record-limited,
}
use quetzaldex.Faucet.RateLimit.Oldest.{
  Oldest, head-All, Oldest-All, Oldest-Some, Oldest-le, length-since_oldest, length-since_after,
  throttled-oldest,
}

-- A check that tells a time was refused for its address.
record Refused (c : RateLimiterOpts) (ip : String) (now r : ℕ) (l : Limiter) : Type 0 where
  open_cap : capped c now l ≡ false
  full : limited c ip now l ≡ true
  oldest : Hit
  first : Oldest ip (now - c.per_ip_window_seconds) l.rows oldest
  told : c.per_ip_window_seconds + oldest.ts - now ≡ r

abbrev pub Tells : RateLimiterOpts → String → ℕ → ℕ → Limiter → Type 0
Tells c ip now r l =
    (res : RateLimitResult) × ((check_and_record c ip now l).0 ≡ ok res)
    × (res.retry_after_seconds ≡ some r)

Tells-Refused :
    (c : RateLimiterOpts) (ip : String) (now r : ℕ) (l : Limiter)
    → Tells c ip now r l
    → Refused c ip now r l
unfolding check_and_record
Tells-Refused c ip now r l (res, h, e) = elim (Bool-cases (capped c now l)) [
  | inl k ↦ let q = rw (check_and_record, k) at h in absurd (clash res r q e)
  | inr k ↦ elim (Bool-cases (limited c ip now l)) [
    | inr j ↦ let q = rw (check_and_record, k, j) at h in absurd (clash res r q e)
    | inl j ↦
        let q = rw (check_and_record, k, j) at h in
        let (o, first, told) =
          throttled-oldest c now r (ip_hits ip (now - c.per_ip_window_seconds) l.rows) res q e in
        record { open_cap = k; full = j; oldest = o; first = first; told = told }
  ]
]
  where
    clash :
        {allowed : Bool} {reason : Option Reason} {id : Option ℕ} (res : RateLimitResult) (r : ℕ)
        → ◌≡◌ {A = Result RateLimitResult}
            (ok
              (record { allowed = allowed; retry_after_seconds = none; reason = reason; id = id }))
            (ok res)
        → res.retry_after_seconds ≡ some r
        → ⊥
    clash res r q e = cc

module _ (c : RateLimiterOpts) (ip : String) (now r : ℕ) (l : Limiter) where
  abbrev window : ℕ
  window = c.per_ip_window_seconds

  -- The limiter after the refusal.
  abbrev pub refused : Limiter
  refused = (check_and_record c ip now l).1

  Refused-rows : Refused c ip now r l → refused.rows ≡ l.rows ++ hit l.next_id ip now false ∷ []
  unfolding record_hit
  Refused-rows f = rw (check_and_record-limited c ip now l f.open_cap f.full).1 refl

  -- The time that is told lies between 0 and the window, for a table without rows of the future.
  retry_after-le : Tells c ip now r l → All (λ x. x.ts ≤ now) l.rows → r ≤ window
  unfolding ip_hits
  retry_after-le h past =
      let f = Tells-Refused c ip now r l h in
      let le =
        head-All (λ x. x.ts ≤ now) (ip_hits ip (now - window) l.rows) f.oldest f.first
          (sort_by-All by_ts (λ x. x.ts ≤ now) (filter (since (now - window) (of_ip ip)) l.rows)
            (All-filter_keep (λ x. x.ts ≤ now) (since (now - window) (of_ip ip)) l.rows past)) in
      omega (arith, f.told)

  still_limited : Refused c ip now r l → limited c ip (now + r) refused ≡ true
  unfolding ip_hits
  still_limited f =
      let cond = of_ip ip in
      let from = Oldest-le ip (now - window) l.rows f.oldest f.first in
      let back : now + r - window ≡ f.oldest.ts = omega (arith, f.told) in
      let more =
        length-since_oldest cond (now - window) f.oldest.ts l.rows (hit l.next_id ip now false)
          (Oldest-All ip (now - window) l.rows f.oldest f.first) in
      let before = sort_by-length by_ts (filter (since (now - window) cond) l.rows) in
      let full = f.full in
      let after =
        sort_by-length by_ts
          (filter (since f.oldest.ts cond) (l.rows ++ hit l.next_id ip now false ∷ [])) in
      rw (back, Refused-rows f) (ground arith)

  -- A client that comes back after just the time it was told is refused again.
  retry_after_early :
      Tells c ip now r l → is_granted (check_and_record c ip (now + r) refused).0 ≡ false
  retry_after_early h =
      let f = Tells-Refused c ip now r l h in
      elim (Bool-cases (capped c (now + r) refused)) [
        | inl k ↦ (check_and_record-capped c ip (now + r) refused k).0
        | inr k ↦ (check_and_record-limited c ip (now + r) refused k (still_limited f)).0
      ]

  -- One second later its address no longer stands in the way.
  retry_after_next :
      Tells c ip now r l
      → length (ip_hits ip (now - window) l.rows) ≤ c.per_ip_max_drips_per_window
      → limited c ip (suc (now + r)) refused ≡ false
  unfolding ip_hits
  retry_after_next h few =
      let f = Tells-Refused c ip now r l h in
      let cond = of_ip ip in
      let from = Oldest-le ip (now - window) l.rows f.oldest f.first in
      let back : suc (now + r) - window ≡ suc f.oldest.ts = omega (arith, f.told) in
      let less =
        length-since_after cond (now - window) (suc f.oldest.ts) l.rows (hit l.next_id ip now false)
          f.oldest (ground arith) (omega arith) (omega arith)
          (Oldest-Some ip (now - window) l.rows f.oldest f.first) in
      let before = sort_by-length by_ts (filter (since (now - window) cond) l.rows) in
      let after =
        sort_by-length by_ts
          (filter (since (suc f.oldest.ts) cond) (l.rows ++ hit l.next_id ip now false ∷ [])) in
      rw (back, Refused-rows f) (ground arith)

  -- A client refused with a time to wait, where no row lies in the future and no more than the
  -- maximum count for it, is told at most the window; coming back after just that time it is
  -- refused again, and one second later its own limit no longer stands in the way.
  pub retry_after-exact :
      Tells c ip now r l
      → All (λ x. x.ts ≤ now) l.rows
      → length (ip_hits ip (now - window) l.rows) ≤ c.per_ip_max_drips_per_window
      → (r ≤ window)
        × (is_granted (check_and_record c ip (now + r) refused).0 ≡ false)
        × (limited c ip (suc (now + r)) refused ≡ false)
  retry_after-exact h past few =
      (retry_after-le h past, retry_after_early h, retry_after_next h few)
