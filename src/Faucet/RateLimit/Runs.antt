-- ===== src/Faucet/RateLimit/Runs.antt =====
-- The runs of the faucet's process, and what the limiter's table holds over them.
use quetzaldex.Prelude.{ℕ, ◌-◌, ◌≤◌, ◌≡◌, List, [], ◌∷◌, ◌++◌, leb, filter, map, String}
use quetzaldex.Faucet.RateLimit.{
  Hit, Limiter, RateLimiterOpts, day, new_limiter, granted, of_ip, hit, check_and_record, unallow,
  release, evict_stale,
}
use quetzaldex.Faucet.RateLimit.Rows.{is_granted}
use quetzaldex.Faucet.RateLimit.Windows.{count}

-- The row that a check writes.
abbrev pub written : RateLimiterOpts → String → ℕ → Limiter → Hit
written c ip now l = hit l.next_id ip now (is_granted (check_and_record c ip now l).0)

-- A run of the faucet's process: all the rows ever written, with the releases made since, beside
-- the limiter they leave and the last time read. The clock does not go back.
pub data Run (c : RateLimiterOpts) : List Hit → Limiter → ℕ → Type 0 where
  opened : Run c [] new_limiter 0
  checked :
      {h : List Hit} {l : Limiter} {t : ℕ}
      → Run c h l t
      → (ip : String) (now : ℕ) → t ≤ now
      → Run c (h ++ written c ip now l ∷ []) (check_and_record c ip now l).1 now
  released :
      {h : List Hit} {l : Limiter} {t : ℕ}
      → Run c h l t
      → (id : ℕ) → Run c (map (unallow id) h) (release id l) t
  evicted :
      {h : List Hit} {l : Limiter} {t : ℕ}
      → Run c h l t
      → (now : ℕ) → t ≤ now
      → Run c h (evict_stale now l) now

-- The table is the history less the rows before some time `b`, which eviction moves.
pub record Holds (c : RateLimiterOpts) (h : List Hit) (l : Limiter) (t : ℕ) : Type 0 where
  pub bound : ℕ
  pub early : bound ≤ t - day
  pub kept : l.rows ≡ filter (λ r. leb bound r.ts) h
  pub daily : (s : ℕ) → count granted day s h ≤ c.daily_cap
  pub per_ip :
      c.per_ip_window_seconds ≤ day
      → (ip : String) (s : ℕ)
      → count (of_ip ip) c.per_ip_window_seconds s h ≤ c.per_ip_max_drips_per_window
