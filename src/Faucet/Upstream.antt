-- ===== src/Faucet/Upstream.antt =====
-- What the faucet asks of others, each time with an outcome: retries and mints of
-- faucet/src/lib/l2-mint.ts, the drain check of runtime.ts, captcha.ts and safe-error.ts. A call
-- that leaves the program is a parameter.
pub mod Retries
use quetzaldex.Prelude.{
  ℕ, zero, suc, ◌+◌, ◌*◌, Bool, true, false, not, List, [], ◌∷◌, Option, none, some, ltb, leb, ◌==◌,
  if◌then◌else◌, any, ◌&&◌, ◌||◌, String,
}
use Prim.Native.String.{len, find}
use text.Mathlib.Text

-- A promise's end; of an error its message counts.
pub data Outcome {ℓ} (A : Type ℓ) : Type ℓ where
  thrown : String → Outcome A
  returned : A → Outcome A

infixl 5 ◌>>=◌
abbrev pub ◌>>=◌ {ℓ κ} : {A : Type ℓ} {B : Type κ} → Outcome A → (A → Outcome B) → Outcome B
thrown message >>= next = thrown message
returned value >>= next = next value

-- sendWithRetry, with the number of calls made and of sleeps. `attempt n` is what the n-th call of
-- `fn` does; `left` counts the attempts that may follow.
pub record Retried {ℓ} (A : Type ℓ) : Type ℓ where
  pub outcome : Outcome A
  pub calls : ℕ
  pub sleeps : ℕ

module _ {ℓ} {A : Type ℓ} (is_transient_error : String → Bool) (attempt : ℕ → Outcome A) where
  abbrev pub once_more : ℕ → Outcome A → Retried A → Retried A
  once_more n (returned a) rest = record { outcome = returned a; calls = n; sleeps = 0 }
  once_more n (thrown message) rest =
      if is_transient_error message
      then record { outcome = rest.outcome; calls = rest.calls; sleeps = suc rest.sleeps }
      else record { outcome = thrown message; calls = n; sleeps = 0 }

  unfoldable pub retry_loop : ℕ → ℕ → Retried A
  retry_loop n zero = record { outcome = attempt n; calls = n; sleeps = 0 }
  retry_loop n (suc left) = let rest = retry_loop (suc n) left in once_more n (attempt n) rest

  -- With no attempt allowed, `lastErr` is thrown while it is still undefined.
  unfoldable pub send_with_retry : ℕ → Retried A
  unfolding retry_loop
  send_with_retry zero = record { outcome = thrown "undefined"; calls = 0; sleeps = 0 }
  send_with_retry (suc left) = retry_loop 1 left

-- mintBatchToPublic, up to the send: the tokens' amounts.
unfoldable pub mint_batch_to_public {ℓ} : {A : Type ℓ} → Outcome A → List ℕ → Outcome A
mint_batch_to_public send [] = thrown "[l2-mint] mintBatchToPublic: no tokens to mint"
mint_batch_to_public send (x ∷ amounts) =
    if any (λ a. a == 0) (x ∷ amounts)
    then thrown "[l2-mint] amount must be positive (got 0)"
    else send

abbrev pub eth_drain_floor_wei : ℕ
eth_drain_floor_wei = 10_000_000_000_000_000

-- checkDrained: three balances, each read only while the ones before suffice.
module _ (eth t_usdc t_eth : Outcome ℕ) (t_usdc_amount t_eth_amount multiplier : ℕ) where
  unfoldable pub check_drained : Outcome Bool
  check_drained = do
    eth_bal ← eth
    if ltb eth_bal eth_drain_floor_wei
        then returned true
        else t_usdc >>= λ t_usdc_bal.
            if ltb t_usdc_bal (t_usdc_amount * multiplier)
            then returned true
            else t_eth >>= λ t_eth_bal. returned (ltb t_eth_bal (t_eth_amount * multiplier))

-- The answer of siteverify, with a score of any kind that can be compared.
pub record SiteverifyResponse (S : Type 0) : Type 0 where
  pub success : Bool
  pub score : Option S
  pub action : Option String

pub record VerifyCaptchaOpts (S : Type 0) : Type 0 where
  pub secret_key : String
  pub require_captcha : Bool
  pub min_score : S
  pub expected_action : String

-- `fetch` throws, answers with a status that is not ok, or with a body that parses or not.
pub data Fetched (S : Type 0) : Type 0 where
  failed : Fetched S
  not_ok : Fetched S
  answered : SiteverifyResponse S → Fetched S

module _ {S : Type 0} (below : S → S → Bool) where
  abbrev pub score_ok : S → Option S → Bool
  score_ok least none = false
  score_ok least (some s) = not (below s least)

  abbrev pub is_action : String → Option String → Bool
  is_action expected none = false
  is_action expected (some a) = Text.◌==◌ a expected

  abbrev pub accepts : VerifyCaptchaOpts S → Fetched S → Bool
  accepts opts failed = false
  accepts opts not_ok = false
  accepts opts (answered body) =
      body.success
      && (score_ok opts.min_score body.score && is_action opts.expected_action body.action)

  unfoldable pub verify_captcha : VerifyCaptchaOpts S → Fetched S → Bool
  verify_captcha opts res =
      if not opts.require_captcha
      then true
      else if Text.◌==◌ opts.secret_key ""
      then false
      else accepts opts res

-- `s.includes(t)`
abbrev pub includes : String → String → Bool
includes s t = leb (find s t) (len s)

-- safeReason, of the message in lower case.
unfoldable pub safe_reason : String → String
safe_reason msg =
    if includes msg "timeout" || includes msg "etimedout" || includes msg "timed out"
    then "timeout"
    else if includes msg "econnrefused"
        || includes msg "enotfound"
        || includes msg "eai_again"
        || includes msg "fetch failed"
        || includes msg "network"
        || includes msg "socket hang up"
    then "upstream-unreachable"
    else if includes msg "429" || includes msg "rate" || includes msg "throttl"
    then "upstream-throttled"
    else "unavailable"
