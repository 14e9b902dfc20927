-- ===== src/Faucet/Drip/Served.antt =====
-- What a drip needs to be served, and what its end says and logs.
use quetzaldex.Prelude.{
  ℕ, ◌≡◌, refl, Bool, true, false, List, [], ◌∷◌, ◌++◌, Option, none, some, ◌==◌, not, String,
  Bool-cases, ◌&&◌, inl, inr, ◌⊎◌, Option-cases,
}
use quetzaldex.Faucet.Address.{validate_l2_address}
use quetzaldex.Faucet.RateLimit.{RateLimitResult, Reason, per_ip, global_cap, check_and_record}
use quetzaldex.Faucet.RateLimit.Rows.{is_granted}
use quetzaldex.Faucet.Upstream.{Outcome, thrown, returned, ◌>>=◌}
use quetzaldex.Faucet.Drip.{
  DripResponse, dripped, failure, release_some, AuditRecord, DripPipelineOutput, Shared, DripDeps,
  OnChain, on_chain, BridgeFeeJuiceResult, dispense, throttled_output,
}
use text.Mathlib.Text

pub Outcome-cases {ℓ} :
    {A : Type ℓ} (o : Outcome A) → ((a : A) × (o ≡ returned a)) ⊎ ((m : String) × (o ≡ thrown m))
Outcome-cases (returned a) = inl (a, refl)
Outcome-cases (thrown m) = inr (m, refl)

abbrev pub is_sent : Outcome (Option OnChain) → Bool
is_sent (returned (some sent)) = true
is_sent (returned none) = false
is_sent (thrown m) = false

abbrev pub is_verified : Outcome Bool → Bool
is_verified (returned b) = b
is_verified (thrown m) = false

abbrev pub is_dripped : DripResponse → Bool
is_dripped (dripped claim t_usdc t_eth) = true
is_dripped (failure error code retry) = false

abbrev pub is_clear : Outcome Bool → Bool
is_clear (returned is_drained) = not is_drained
is_clear (thrown m) = false

-- A bridge that succeeds, with a transaction hash that is not empty.
abbrev pub is_hash : Option String → Bool
is_hash none = false
is_hash (some hash) = not (Text.◌==◌ hash "")

abbrev pub is_bridged : Outcome BridgeFeeJuiceResult → Bool
is_bridged (returned bridged) = is_hash bridged.l1_tx_hash
is_bridged (thrown m) = false

abbrev pub is_minted : Outcome String → Bool
is_minted (returned tx) = true
is_minted (thrown m) = false

-- What the chain has to answer: a faucet that is not drained, a bridge that succeeds with its hash,
-- and a mint that succeeds, each for the configured amounts.
abbrev pub is_available : DripDeps → String → Bool
is_available d address =
    is_clear d.check_drained
    && (is_bridged (d.bridge_fee_juice address d.fee_juice_amount)
        && is_minted (d.mint_tokens address d.t_usdc_amount d.t_eth_amount))

on_chain-is_sent :
    (d : DripDeps) (address : String)
    → is_sent (on_chain d address >>= λ sent. returned (some sent)) ≡ (
        is_bridged (d.bridge_fee_juice address d.fee_juice_amount)
        && is_minted (d.mint_tokens address d.t_usdc_amount d.t_eth_amount))
unfolding on_chain
on_chain-is_sent d address = elim (Outcome-cases (d.bridge_fee_juice address d.fee_juice_amount)) [
  | inr (m, e) ↦ rw (on_chain, e) refl
  | inl (bridged, e) ↦ elim (Option-cases bridged.l1_tx_hash) [
    | inl f ↦ rw (on_chain, e, f) refl
    | inr (hash, f) ↦ elim (Bool-cases (Text.◌==◌ hash "")) [
      | inl g ↦ rw (on_chain, e, f, g) refl
      | inr g ↦ elim (Outcome-cases (d.mint_tokens address d.t_usdc_amount d.t_eth_amount)) [
        | inl (tx, k) ↦ rw (on_chain, e, f, g, k) refl
        | inr (m, k) ↦ rw (on_chain, e, f, g, k) refl
      ]
    ]
  ]
]

pub dispense-is_sent :
    (d : DripDeps) (address : String) → is_sent (dispense d address) ≡ is_available d address
unfolding dispense
dispense-is_sent d address = elim (Outcome-cases d.check_drained) [
  | inr (m, e) ↦ rw (dispense, e) refl
  | inl (true, e) ↦ rw (dispense, e) refl
  | inl (false, e) ↦ rw (dispense, e) (on_chain-is_sent d address)
]

-- All that a dispensing drip needs: a valid address, a captcha that verifies, room under the caps, and
-- the chain's answers.
abbrev pub serves : DripDeps → String → String → String → Shared → Bool
serves d address captcha_token ip s =
    validate_l2_address address
    && (is_verified (d.verify_captcha captcha_token)
        && (is_granted (check_and_record d.limits ip d.now (d.before s).limiter).0
            && is_available d address))

-- The answer is the status 200 with a dispensed body, or neither.
abbrev pub Says : Bool → Outcome DripPipelineOutput → Type 0
Says b (thrown m) = b ≡ false
Says b (returned out) = ((out.status == 200) ≡ b) × (is_dripped out.body ≡ b)

pub throttled_output-Says : (rl : RateLimitResult) → Says false (returned (throttled_output rl))
throttled_output-Says rl = go (Option-cases rl.reason)
  where
    go :
        ((rl.reason ≡ none) ⊎ ((a : Reason) × (rl.reason ≡ some a)))
        → Says false (returned (throttled_output rl))
    go (inl e) = rw e (refl, refl)
    go (inr (per_ip, e)) = rw e (refl, refl)
    go (inr (global_cap, e)) = rw e (refl, refl)

-- One entry more, of this request, that says whether it was served.
abbrev pub Logs : AuditRecord → List AuditRecord → Outcome DripPipelineOutput × Shared → Type 0
Logs like was (thrown m, t) = t.audit ≡ was
Logs like was (returned out, t) =
    (r : AuditRecord) × (t.audit ≡ was ++ r ∷ [])
    × (r.success ≡ (out.status == 200))
    × (r.ts ≡ like.ts)
    × (r.ip_hash ≡ like.ip_hash)
    × (r.address ≡ like.address)

pub release_some-audit : (id : Option ℕ) (s : Shared) → (release_some id s).audit ≡ s.audit
release_some-audit none s = refl
release_some-audit (some id) s = refl
