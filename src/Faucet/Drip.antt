-- ===== src/Faucet/Drip.antt =====
-- The drip: faucet/src/lib/drip-pipeline.ts over the rate limiter and the audit log. `BigInt`s
-- stand for the texts that `toString` makes of them.
pub mod Served
pub mod Ends
pub mod Quota
use quetzaldex.Prelude.{
  ℕ, Bool, true, false, not, List, [], ◌∷◌, ◌++◌, Option, none, some, if◌then◌else◌, String,
}
use quetzaldex.Prelude.Result.{Result, ok, err}
use quetzaldex.Faucet.Address.{validate_l2_address}
use quetzaldex.Faucet.RateLimit.{
  Limiter, RateLimiterOpts, RateLimitResult, Reason, per_ip, global_cap, check_and_record, release,
}
use quetzaldex.Faucet.Upstream.{Outcome, thrown, returned, ◌>>=◌, safe_reason}
use Prim.Native.String as Str
use text.Mathlib.Text

pub record BridgeFeeJuiceResult : Type 0 where
  pub claim_secret_hex : String
  pub claim_secret_hash_hex : String
  pub message_hash_hex : String
  pub message_leaf_index : ℕ
  pub l1_tx_hash : Option String

pub record AuditRecord : Type 0 where
  pub ts : ℕ
  pub ip_hash : String
  pub address : String
  pub success : Bool
  pub claim_amount : Option ℕ
  pub mint_tx : Option String
  pub error : Option String

pub record ClaimData : Type 0 where
  pub claim_amount : ℕ
  pub claim_secret_hex : String
  pub claim_secret_hash_hex : String
  pub message_hash_hex : String
  pub message_leaf_index : ℕ
  pub l1_tx_hash : String

pub record MintReceipt : Type 0 where
  pub tx_hash : String
  pub amount : ℕ

pub data Code : Type 0 where
  bad_request rate_limited drained transient : Code

pub data DripResponse : Type 0 where
  dripped : ClaimData → MintReceipt → MintReceipt → DripResponse
  failure : String → Code → Option ℕ → DripResponse

pub record DripPipelineOutput : Type 0 where
  pub status : ℕ
  pub body : DripResponse

-- What concurrent requests share: the rate limiter's table and the audit log.
pub record Shared : Type 0 where
  pub limiter : Limiter
  pub audit : List AuditRecord

-- `DripDeps`: the dependencies as the outcomes they have for this request, with the readings of
-- the clock. While it awaits, other requests change what is shared: `before` while the captcha is
-- verified, `meanwhile` while the drain is checked and the lock is held.
pub record DripDeps : Type 0 where
  pub verify_captcha : String → Outcome Bool
  pub limits : RateLimiterOpts
  pub ts : ℕ
  pub now : ℕ
  pub bridge_fee_juice : String → ℕ → Outcome BridgeFeeJuiceResult
  pub mint_tokens : String → ℕ → ℕ → Outcome String
  pub check_drained : Outcome Bool
  pub fee_juice_amount : ℕ
  pub t_usdc_amount : ℕ
  pub t_eth_amount : ℕ
  pub before : Shared → Shared
  pub meanwhile : Shared → Shared

abbrev pub truthy : Option String → Outcome String
truthy none = thrown "L1 tx hash unavailable from bridge result"
truthy (some s) =
    if Text.◌==◌ s "" then thrown "L1 tx hash unavailable from bridge result" else returned s

-- The section under the lock: bridge first, then mint.
pub record OnChain : Type 0 where
  pub bridged : BridgeFeeJuiceResult
  pub mint : String
  pub l1_tx_hash : String

unfoldable pub on_chain : DripDeps → String → Outcome OnChain
on_chain d address = do
  bridged ← d.bridge_fee_juice address d.fee_juice_amount
  hash ← truthy bridged.l1_tx_hash
  mint ← d.mint_tokens address d.t_usdc_amount d.t_eth_amount
  returned (record { bridged = bridged; mint = mint; l1_tx_hash = hash })

-- The `try` block; `none` where the faucet is drained.
unfoldable pub dispense : DripDeps → String → Outcome (Option OnChain)
unfolding on_chain
dispense d address = do
  is_drained ← d.check_drained
  if is_drained then returned none else on_chain d address >>= λ sent. returned (some sent)

abbrev pub success_body : DripDeps → OnChain → DripResponse
success_body d sent =
    dripped
      (record {
        claim_amount = d.fee_juice_amount;
        claim_secret_hex = sent.bridged.claim_secret_hex;
        claim_secret_hash_hex = sent.bridged.claim_secret_hash_hex;
        message_hash_hex = sent.bridged.message_hash_hex;
        message_leaf_index = sent.bridged.message_leaf_index;
        l1_tx_hash = sent.l1_tx_hash;
      })
      (record { tx_hash = sent.mint; amount = d.t_usdc_amount })
      (record { tx_hash = sent.mint; amount = d.t_eth_amount })

abbrev pub append : AuditRecord → Shared → Shared
append r s = record { limiter = s.limiter; audit = s.audit ++ r ∷ [] }

abbrev pub fail : ℕ → String → Code → DripPipelineOutput
fail status error code = record { status = status; body = failure error code none }

abbrev pub release_some : Option ℕ → Shared → Shared
release_some none s = s
release_some (some id) s = record { limiter = release id s.limiter; audit = s.audit }

abbrev pub reason_text : Option Reason → String
reason_text none = "rate-limit:undefined"
reason_text (some per_ip) = "rate-limit:per-ip"
reason_text (some global_cap) = "rate-limit:global-cap"

abbrev pub throttled_output : RateLimitResult → DripPipelineOutput
throttled_output rl = elim rl.reason [
  | some r ↦ elim r [
    | global_cap ↦ fail 503 "faucet drained (global cap)" drained
    | per_ip ↦ record {
      status = 429;
      body = failure "rate-limited" rate_limited rl.retry_after_seconds;
    }
  ]
  | none ↦ record {
    status = 429;
    body = failure "rate-limited" rate_limited rl.retry_after_seconds;
  }
]

-- `sha256`, `toLowerCase` and `slice(0, 200)`.
module _ (sha256 lower clip : String → String) where
  abbrev pub refusal : ℕ → String → String → String → AuditRecord
  refusal ts ip address error = record {
    ts = ts;
    ip_hash = sha256 ip;
    address = address;
    success = false;
    claim_amount = none;
    mint_tx = none;
    error = some error;
  }

  abbrev pub dispensed : DripDeps → String → String → String → AuditRecord
  dispensed d ip address tx = record {
    ts = d.ts;
    ip_hash = sha256 ip;
    address = address;
    success = true;
    claim_amount = some d.fee_juice_amount;
    mint_tx = some tx;
    error = none;
  }

  -- How the `try` block ends, its `catch` included.
  unfoldable pub conclude :
      DripDeps
      → String
      → String
      → Option ℕ
      → Outcome (Option OnChain)
      → Shared
      → DripPipelineOutput × Shared
  conclude d ip address id (returned none) s = (
    fail 503 "faucet drained" drained,
    append (refusal d.ts ip address "drained") (release_some id s),
  )
  conclude d ip address id (returned (some sent)) s = (
    record { status = 200; body = success_body d sent },
    append (dispensed d ip address sent.mint) s,
  )
  conclude d ip address id (thrown msg) s = (
    fail 503 (Str.◌++◌ "transient failure (" (Str.◌++◌ (safe_reason (lower msg)) ")")) transient,
    append (refusal d.ts ip address (Str.◌++◌ "pipeline:" (clip msg))) (release_some id s),
  )

  -- From the answer of the rate limiter on; a throw of its escapes.
  unfoldable pub after_limit :
      DripDeps
      → String
      → String
      → Result RateLimitResult
      → Shared
      → Outcome DripPipelineOutput × Shared
  unfolding conclude dispense on_chain
  after_limit d ip address (err e) s = (thrown "TypeError", s)
  after_limit d ip address (ok rl) s =
      if not rl.allowed
      then (
        returned (throttled_output rl),
        append (refusal d.ts ip address (reason_text rl.reason)) s,
      )
      else let (out, t) = conclude d ip address rl.id (dispense d address) (d.meanwhile s) in
        (returned out, t)

  unfoldable pub after_captcha :
      DripDeps → String → String → Shared → Outcome DripPipelineOutput × Shared
  unfolding after_limit
  after_captcha d ip address s =
      let (rl, limiter) = check_and_record d.limits ip d.now s.limiter in
      after_limit d ip address rl (record { limiter = limiter; audit = s.audit })

  unfoldable pub on_captcha :
      DripDeps → String → String → Outcome Bool → Shared → Outcome DripPipelineOutput × Shared
  unfolding after_captcha
  on_captcha d ip address (thrown msg) s = (thrown msg, s)
  on_captcha d ip address (returned verified) s =
      if not verified
      then (
        returned (fail 400 "invalid captcha" bad_request),
        append (refusal d.ts ip address "invalid-captcha") s,
      )
      else after_captcha d ip address s

  unfoldable pub run_drip_pipeline :
      DripDeps → String → String → String → Shared → Outcome DripPipelineOutput × Shared
  unfolding on_captcha
  run_drip_pipeline d address captcha_token ip s =
      if not (validate_l2_address address)
      then (
        returned (fail 400 "invalid address" bad_request),
        append (refusal d.ts ip address "invalid-address") s,
      )
      else on_captcha d ip address (d.verify_captcha captcha_token) (d.before s)
