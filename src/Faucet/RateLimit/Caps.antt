-- ===== src/Faucet/RateLimit/Caps.antt =====
-- What the limiter promises over a whole history of requests, releases and evictions.
use quetzaldex.Prelude.{
  ℕ, ◌-◌, ◌≤◌, ◌≡◌, refl, subst, Bool, true, false, List, [], ◌∷◌, ◌++◌, leb, length, filter, map,
  arith, inl, inr, Bool-cases, String,
}
use quetzaldex.Prelude.Sort.{sort_by-length}
use quetzaldex.Faucet.RateLimit.{
  Hit, Limiter, RateLimiterOpts, day, new_limiter, granted, of_ip, since, by_ts, hit, record_hit,
  ip_hits, check_and_record, unallow, release, evict_stale,
}
use quetzaldex.Faucet.RateLimit.Rows.{
  limited, capped, check_and_record-capped, check_and_record-limited, check_and_record-granted,
}
use quetzaldex.Faucet.RateLimit.Windows.{
  count, count_empty, filter_snoc, count_skip, count_admit, AsksAllowed, count-release,
  filter-release, filter-filter_later,
}
use text.Mathlib.Text
use text.Mathlib.TextEquality.{eq_iff}
use quetzaldex.Faucet.RateLimit.Runs.{written, Run, opened, checked, released, evicted, Holds}

granted-AsksAllowed : AsksAllowed granted
granted-AsksAllowed id r e = ground arith

of_ip-AsksAllowed : (ip : String) → AsksAllowed (of_ip ip)
of_ip-AsksAllowed ip id r e = ground arith

opened-Holds : (c : RateLimiterOpts) → Holds c [] new_limiter 0
opened-Holds c = record {
  bound = 0;
  early = omega arith;
  kept = refl;
  daily = λ s. omega (arith, count_empty granted day s);
  per_ip = λ w ip s. omega (arith, count_empty (of_ip ip) c.per_ip_window_seconds s);
}

refused_of_ip : (id : ℕ) (ip who : String) (ts : ℕ) → of_ip who (hit id ip ts false) ≡ false
refused_of_ip id ip who ts = ground arith

other_of_ip :
    (id : ℕ) (ip who : String) (ts : ℕ) (b : Bool)
    → (Text.◌==◌ ip who) ≡ false
    → of_ip who (hit id ip ts b) ≡ false
other_of_ip id ip who ts b e = rw e refl

module _ (c : RateLimiterOpts) {h : List Hit} {l : Limiter} {t : ℕ} (i : Holds c h l t) where
  released-Holds : (id : ℕ) → Holds c (map (unallow id) h) (release id l) t
  unfolding release
  released-Holds id = record {
    bound = i.bound;
    early = i.early;
    kept = rw i.kept (filter-release i.bound id h);
    daily = λ s. omega (arith, count-release granted day s id h granted-AsksAllowed, i.daily s);
    per_ip = λ w ip s. omega (
      arith,
      count-release (of_ip ip) c.per_ip_window_seconds s id h (of_ip-AsksAllowed ip),
      i.per_ip w ip s,
    );
  }

  evicted-Holds : (now : ℕ) → t ≤ now → Holds c h (evict_stale now l) now
  unfolding evict_stale
  evicted-Holds now later = record {
    bound = now - day;
    early = omega arith;
    kept = rw i.kept (filter-filter_later i.bound (now - day) h (omega (arith, i.early)));
    daily = i.daily;
    per_ip = i.per_ip;
  }

  -- A refused check adds a row that no cap counts.
  module _ (ip : String) (now : ℕ) (later : t ≤ now) where
    kept-record_hit :
        (b : Bool)
        → (record_hit ip now b l).1.rows
          ≡ filter (λ r. leb i.bound r.ts) (h ++ hit l.next_id ip now b ∷ [])
    unfolding record_hit
    kept-record_hit b =
        let now_in : leb i.bound now ≡ true = ground (arith, i.early) in
        rw (filter_snoc (λ r. leb i.bound r.ts) h (hit l.next_id ip now b) now_in, ← i.kept) refl

    refused-Holds : Holds c (h ++ hit l.next_id ip now false ∷ []) (record_hit ip now false l).1 now
    refused-Holds = record {
      bound = i.bound;
      early = omega (arith, i.early);
      kept = kept-record_hit false;
      daily = λ s.
          omega (arith, i.daily s, count_skip granted day s h (hit l.next_id ip now false) refl);
      per_ip = λ w who s. omega (
        arith,
        i.per_ip w who s,
        count_skip (of_ip who) c.per_ip_window_seconds s h (hit l.next_id ip now false)
            (refused_of_ip l.next_id ip who now),
      );
    }

    -- A granted one finds room under both caps.
    granted_per_ip :
        limited c ip now l ≡ false
        → c.per_ip_window_seconds ≤ day
        → (who : String) (s : ℕ)
        → count (of_ip who) c.per_ip_window_seconds s (h ++ hit l.next_id ip now true ∷ [])
          ≤ c.per_ip_max_drips_per_window
    unfolding ip_hits
    granted_per_ip few w who s = elim (Bool-cases (Text.◌==◌ ip who)) [
      | inr e ↦ omega (
        arith,
        i.per_ip w who s,
        count_skip (of_ip who) c.per_ip_window_seconds s h (hit l.next_id ip now true)
            (other_of_ip l.next_id ip who now true e),
      )
      | inl e ↦
          let from = now - c.per_ip_window_seconds in
          let room =
            subst (λ n. leb c.per_ip_max_drips_per_window n ≡ false)
              (sort_by-length by_ts (filter (since from (of_ip ip)) l.rows)) few in
          let same : ip ≡ who = (eq_iff ip who).0 e in
          subst
            (λ k.
              count (of_ip k) c.per_ip_window_seconds s (h ++ hit l.next_id ip now true ∷ [])
              ≤ c.per_ip_max_drips_per_window)
            same
            (count_admit (of_ip ip) c.per_ip_window_seconds i.bound c.per_ip_max_drips_per_window h
              (hit l.next_id ip now true) (omega (arith, i.early))
              (subst
                (λ rows.
                  leb c.per_ip_max_drips_per_window (length (filter (since from (of_ip ip)) rows))
                  ≡ false)
                i.kept room)
              (i.per_ip w ip) s)
    ]

    granted-Holds :
        capped c now l ≡ false
        → limited c ip now l ≡ false
        → Holds c (h ++ hit l.next_id ip now true ∷ []) (record_hit ip now true l).1 now
    granted-Holds room few = record {
      bound = i.bound;
      early = omega (arith, i.early);
      kept = kept-record_hit true;
      daily =
          count_admit granted day i.bound c.daily_cap h (hit l.next_id ip now true)
            (omega (arith, i.early))
            (subst
              (λ rows. leb c.daily_cap (length (filter (since (now - day) granted) rows)) ≡ false)
              i.kept room)
            i.daily;
      per_ip = granted_per_ip few;
    }

    -- The check that was run.
    abbrev After : Bool → Limiter → Type 0
    After b after = Holds c (h ++ hit l.next_id ip now b ∷ []) after now

    checked-Holds : Holds c (h ++ written c ip now l ∷ []) (check_and_record c ip now l).1 now
    checked-Holds = elim (Bool-cases (capped c now l)) [
      | inl e ↦ let (a, b) = check_and_record-capped c ip now l e in rw (a, b) refused-Holds
      | inr e ↦ elim (Bool-cases (limited c ip now l)) [
        | inl k ↦ let (a, b) = check_and_record-limited c ip now l e k in rw (a, b) refused-Holds
        | inr k ↦
            let (a, b) = check_and_record-granted c ip now l e k in rw (a, b) (granted-Holds e k)
      ]
    ]

Run-Holds : (c : RateLimiterOpts) {h : List Hit} {l : Limiter} {t : ℕ} → Run c h l t → Holds c h l t
Run-Holds c opened = opened-Holds c
Run-Holds c (checked r ip now later) = checked-Holds c (Run-Holds c r) ip now later
Run-Holds c (released r id) = released-Holds c (Run-Holds c r) id
Run-Holds c (evicted r now later) = evicted-Holds c (Run-Holds c r) now later

-- Over any run of checks, releases and evictions whose clock does not go back, counting every row
-- ever granted and not released: in any 24 hours at most the daily cap are granted; and for
-- windows of up to 24 hours no address is granted more than its maximum in any window.
pub Run-caps :
    (c : RateLimiterOpts) {h : List Hit} {l : Limiter} {t : ℕ}
    → Run c h l t
    → ((s : ℕ) → count granted day s h ≤ c.daily_cap)
      × (c.per_ip_window_seconds ≤ day
          → (ip : String) (s : ℕ)
          → count (of_ip ip) c.per_ip_window_seconds s h ≤ c.per_ip_max_drips_per_window)
Run-caps c r = ((Run-Holds c r).daily, (Run-Holds c r).per_ip)
