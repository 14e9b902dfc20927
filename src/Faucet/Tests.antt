-- ===== src/Faucet/Tests.antt =====
-- A faucet of two drips a day, one for an address in an hour: a grant, a refusal, a release.
use quetzaldex.Prelude.{
  ℕ, suc, ◌+◌, ◌-◌, ◌≡◌, ◌≤◌, ◌<◌, refl, true, false, [], ◌∷◌, ◌++◌, none, some, String, arith,
  length, ◌⊎◌, leb, if◌then◌else◌, All,
}
use quetzaldex.Prelude.Result.{ok}
use quetzaldex.Prelude.Sort.{sort_by}
use quetzaldex.Faucet.RateLimit.{
  Limiter, RateLimiterOpts, RateLimitResult, per_ip, day, granted, of_ip, new_limiter, record_hit,
  check_and_record, ip_hits, evict_stale,
}
use quetzaldex.Faucet.RateLimit.Rows.{is_granted, limited}
use quetzaldex.Faucet.RateLimit.Windows.{count}
use quetzaldex.Faucet.RateLimit.Caps.{Run-caps}
use quetzaldex.Faucet.RateLimit.Runs.{Run, opened, checked, evicted, written}
use quetzaldex.Faucet.RateLimit.Waiting.{Tells, retry_after-exact}
use quetzaldex.Faucet.Mutex.{
  Mutex, waiting, running, new_mutex, run_exclusive, start, called, resumed, Reach, fresh, later,
}
use quetzaldex.Faucet.Mutex.Queueing.{serial, is_finished, countdown, progress}
use quetzaldex.Faucet.Address.{validate_l2_address}
use quetzaldex.Faucet.Upstream.{Outcome, thrown, returned, send_with_retry}
use quetzaldex.Faucet.Upstream.Retries.{Tried, send_with_retry-Tried}
use quetzaldex.Faucet.Drip.{BridgeFeeJuiceResult, DripDeps, Shared, run_drip_pipeline}
use quetzaldex.Faucet.Drip.Ends.{own, run_drip_pipeline-Says, run_drip_pipeline-Logs}
use quetzaldex.Faucet.Drip.Served.{Says, Logs, serves}
use quetzaldex.Faucet.Drip.Quota.{Spares, run_drip_pipeline-Spares}

abbrev small : RateLimiterOpts
small = record { per_ip_max_drips_per_window = 1; per_ip_window_seconds = 3600; daily_cap = 2 }

abbrev once : Limiter
once = (check_and_record small "10.0.0.1" 100_000 new_limiter).1

-- An address is granted once, refused half an hour later, and told to wait the rest.
first_is_granted :
    (check_and_record small "10.0.0.1" 100_000 new_limiter).0
    ≡ ok (record { allowed = true; retry_after_seconds = none; reason = none; id = some 1 })
unfolding check_and_record record_hit ip_hits sort_by
first_is_granted = refl

abbrev refused_result : RateLimitResult
refused_result = record {
  allowed = false;
  retry_after_seconds = some 1800;
  reason = some per_ip;
  id = none;
}

second_is_refused : (check_and_record small "10.0.0.1" 101_800 once).0 ≡ ok refused_result
unfolding check_and_record record_hit ip_hits sort_by
second_is_refused = refl

once-Tells : Tells small "10.0.0.1" 101_800 1800 once
once-Tells = (refused_result, second_is_refused, refl)

abbrev once-Run : Run small ([] ++ written small "10.0.0.1" 100_000 new_limiter ∷ []) once 100_000
once-Run = checked opened "10.0.0.1" 100_000 (omega arith)

abbrev all_steps :
    Run small
      ([] ++ written small "10.0.0.1" 100_000 new_limiter ∷ [])
      (evict_stale 200_000 once)
      200_000
all_steps = evicted once-Run 200_000 (omega arith)

Run-caps_example :
    ((s : ℕ) → count granted day s ([] ++ written small "10.0.0.1" 100_000 new_limiter ∷ []) ≤ 2)
    × (3600 ≤ day
        → (ip : String) (s : ℕ)
        → count (of_ip ip) 3600 s ([] ++ written small "10.0.0.1" 100_000 new_limiter ∷ []) ≤ 1)
Run-caps_example = Run-caps small all_steps

one_hit : length (ip_hits "10.0.0.1" (101_800 - 3600) once.rows) ≤ 1
unfolding check_and_record record_hit ip_hits sort_by
one_hit = omega arith

no_future : All (λ x. x.ts ≤ 101_800) once.rows
unfolding check_and_record record_hit ip_hits sort_by
no_future = omega arith

retry_after-exact_example :
    (1800 ≤ 3600)
    × (is_granted
          (check_and_record small "10.0.0.1"
            (101_800 + 1800)
            (check_and_record small "10.0.0.1" 101_800 once).1).0
        ≡ false)
    × (limited small "10.0.0.1"
          (suc (101_800 + 1800))
          (check_and_record small "10.0.0.1" 101_800 once).1
        ≡ false)
retry_after-exact_example =
    retry_after-exact small "10.0.0.1" 101_800 1800 once once-Tells no_future one_hit

-- Two calls of the lock: the first runs, the second waits for it.
abbrev held : Mutex
held = start 1 (run_exclusive (run_exclusive new_mutex))

abbrev held-Reach : Reach held
unfolding run_exclusive
held-Reach = later (later (later fresh called) called) (resumed 1 refl refl)

serial_example :
    (n : ℕ) × (held.started ≡ countdown n)
    × (n ≤ held.made)
    × ((i : ℕ) → held.phase i ≡ running → i ≡ n)
    × ((i : ℕ) → 0 < i → i < n → is_finished (held.phase i) ≡ true)
    × ((i : ℕ) → n < i → i ≤ held.made → held.phase i ≡ waiting)
serial_example = serial held-Reach

progress_example :
    (j : ℕ) × ((held.phase j ≡ running)
      ⊎ ((held.phase j ≡ waiting) × (held.resolved (held.prev j) ≡ true)))
unfolding run_exclusive start
progress_example = progress held-Reach 2 refl

-- A node that answers at the third call.
abbrev third : ℕ → Outcome ℕ
third n = if leb n 2 then thrown "timeout" else returned n

send_with_retry-Tried_example : Tried (λ s. true) third 1 4 (send_with_retry (λ s. true) third 4)
send_with_retry-Tried_example = send_with_retry-Tried (λ s. true) third 3

abbrev home : String
home = "0x00000000000000000000000000000000000000000000000000000000000000ab"

abbrev bridged : BridgeFeeJuiceResult
bridged = record {
  claim_secret_hex = "0x1";
  claim_secret_hash_hex = "0x2";
  message_hash_hex = "0x3";
  message_leaf_index = 7;
  l1_tx_hash = some "0xaa";
}

-- A faucet whose mint fails or not.
abbrev faucet : Outcome String → DripDeps
faucet mint = record {
  verify_captcha = λ token. returned true;
  limits = small;
  ts = 100_000;
  now = 100_000;
  bridge_fee_juice = λ to amount. returned bridged;
  mint_tokens = λ to a b. mint;
  check_drained = returned false;
  fee_juice_amount = 5;
  t_usdc_amount = 6;
  t_eth_amount = 7;
  before = λ s. s;
  meanwhile = λ s. s;
}

abbrev empty : Shared
empty = record { limiter = new_limiter; audit = [] }

home_is_valid : validate_l2_address home ≡ true
unfolding validate_l2_address
home_is_valid = refl

abbrev same : String → String
same s = s

run_drip_pipeline-Says_example :
    Says
      (serves (faucet (returned "0xbb")) home "token" "10.0.0.1" empty)
      (run_drip_pipeline same same same (faucet (returned "0xbb")) home "token" "10.0.0.1" empty).0
run_drip_pipeline-Says_example =
    run_drip_pipeline-Says same same same (faucet (returned "0xbb")) home "10.0.0.1" "token" empty

run_drip_pipeline-Logs_example :
    Logs
      (own same same same (faucet (thrown "timeout")) home "10.0.0.1")
      []
      (run_drip_pipeline same same same (faucet (thrown "timeout")) home "token" "10.0.0.1" empty)
run_drip_pipeline-Logs_example =
    run_drip_pipeline-Logs same same same (faucet (thrown "timeout")) home "10.0.0.1"
      (λ x. (refl, refl)) "token" empty

run_drip_pipeline-Spares_example :
    Spares 1
      (run_drip_pipeline same same same (faucet (thrown "timeout")) home "token" "10.0.0.1" empty)
run_drip_pipeline-Spares_example =
    run_drip_pipeline-Spares same same same (faucet (thrown "timeout")) home "10.0.0.1" "token"
      empty home_is_valid tt
