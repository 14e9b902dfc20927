-- ===== src/Faucet/RateLimit.antt =====
-- The rate limiter: faucet/src/lib/rate-limit.ts. The table `hits` is a list of rows in the order
-- of insertion, beside the next id that AUTOINCREMENT gives. Times are seconds since 1970, so a
-- window that would start before that starts at 0.
pub mod Rows
pub mod Windows
pub mod Runs
pub mod Caps
pub mod Oldest
pub mod Waiting
use quetzaldex.Prelude.{
  ℕ, suc, ◌+◌, ◌-◌, Bool, true, false, not, List, [], ◌∷◌, ◌++◌, Option, none, some, leb, ◌==◌,
  if◌then◌else◌, filter, length, map, get_elem?, ◌&&◌, String,
}
use quetzaldex.Prelude.Result.{Result, ok, ◌>>=◌, or_fault}
use quetzaldex.Prelude.Sort.{sort_by}
use text.Mathlib.Text

pub record Hit : Type 0 where
  pub id : ℕ
  pub ip : String
  pub ts : ℕ
  pub allowed : Bool

pub record Limiter : Type 0 where
  pub rows : List Hit
  pub next_id : ℕ

-- `RateLimiterOpts`, less the path of the database.
pub record RateLimiterOpts : Type 0 where
  pub per_ip_max_drips_per_window : ℕ
  pub per_ip_window_seconds : ℕ
  pub daily_cap : ℕ

pub data Reason : Type 0 where
  per_ip global_cap : Reason

pub record RateLimitResult : Type 0 where
  pub allowed : Bool
  pub retry_after_seconds : Option ℕ
  pub reason : Option Reason
  pub id : Option ℕ

abbrev pub day : ℕ
day = 86_400

abbrev pub new_limiter : Limiter
new_limiter = record { rows = []; next_id = 1 }

-- The conditions of the queries.
abbrev pub granted : Hit → Bool
granted r = r.allowed

abbrev pub of_ip : String → Hit → Bool
of_ip ip r = (Text.◌==◌ r.ip ip) && r.allowed

abbrev pub since : ℕ → (Hit → Bool) → Hit → Bool
since from cond r = cond r && leb from r.ts

abbrev pub by_ts : Hit → Hit → Bool
by_ts r s = leb r.ts s.ts

abbrev pub hit : ℕ → String → ℕ → Bool → Hit
hit id ip ts allowed = record { id = id; ip = ip; ts = ts; allowed = allowed }

unfoldable pub record_hit : String → ℕ → Bool → Limiter → ℕ × Limiter
record_hit ip ts allowed l = (
  l.next_id,
  record { rows = l.rows ++ hit l.next_id ip ts allowed ∷ []; next_id = suc l.next_id },
)

-- `ORDER BY ts ASC`
unfoldable pub ip_hits : String → ℕ → List Hit → List Hit
ip_hits ip from rows = sort_by by_ts (filter (since from (of_ip ip)) rows)

-- The row's time is no less than `now - window`, so this difference is the code's.
abbrev pub throttled : RateLimiterOpts → ℕ → List Hit → Result RateLimitResult
throttled c now hits = do
  oldest ← or_fault (get_elem? hits 0)
  ok (record {
    allowed = false;
    retry_after_seconds = some (c.per_ip_window_seconds + oldest.ts - now);
    reason = some per_ip;
    id = none;
  })

-- The row is written before the oldest hit is read, so a fault there leaves it.
unfoldable pub check_and_record :
    RateLimiterOpts → String → ℕ → Limiter → Result RateLimitResult × Limiter
unfolding record_hit
check_and_record c ip now l =
    if leb c.daily_cap (length (filter (since (now - day) granted) l.rows))
    then (
      ok (record {
        allowed = false;
        retry_after_seconds = none;
        reason = some global_cap;
        id = none;
      }),
      (record_hit ip now false l).1,
    )
    else let hits = ip_hits ip (now - c.per_ip_window_seconds) l.rows in
      if leb c.per_ip_max_drips_per_window (length hits)
      then (throttled c now hits, (record_hit ip now false l).1)
      else let (id, after) = record_hit ip now true l in
        (
          ok (record { allowed = true; retry_after_seconds = none; reason = none; id = some id }),
          after,
        )

abbrev pub unallow : ℕ → Hit → Hit
unallow id r = if r.id == id then hit r.id r.ip r.ts false else r

unfoldable pub release : ℕ → Limiter → Limiter
release id l = record { rows = map (unallow id) l.rows; next_id = l.next_id }

-- The total of the last day, and how many of it were throttled.
unfoldable pub stats : ℕ → Limiter → ℕ × ℕ
stats now l = (
  length (filter (λ r. leb (now - day) r.ts) l.rows),
  length (filter (λ r. leb (now - day) r.ts && not r.allowed) l.rows),
)

unfoldable pub evict_stale : ℕ → Limiter → Limiter
evict_stale now l = record { rows = filter (λ r. leb (now - day) r.ts) l.rows; next_id = l.next_id }
