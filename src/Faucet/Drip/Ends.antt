-- ===== src/Faucet/Drip/Ends.antt =====
-- How a drip ends: when it dispenses, and what the audit log keeps.
use quetzaldex.Prelude.{
  ℕ, ◌≡◌, refl, sym, ap, ◌∙◌, subst, Bool, true, false, List, [], ◌∷◌, ◌++◌, Option, none, some,
  String, ◌&&◌, inl, inr, Bool-cases,
}
use quetzaldex.Prelude.Result.{Result, ok, err}
use quetzaldex.Faucet.Address.{validate_l2_address}
use quetzaldex.Faucet.RateLimit.{RateLimitResult, check_and_record}
use quetzaldex.Faucet.RateLimit.Rows.{is_granted}
use quetzaldex.Faucet.Upstream.{Outcome, thrown, returned}
use Prim.Native.String as Str
use quetzaldex.Faucet.Drip.{
  dispensed, reason_text, AuditRecord, Shared, DripDeps, OnChain, dispense, refusal, conclude,
  after_limit, after_captcha, on_captcha, run_drip_pipeline,
}
use quetzaldex.Faucet.Drip.Served.{
  is_sent, is_verified, is_available, dispense-is_sent, serves, Says, throttled_output-Says, Logs,
  release_some-audit,
}

module _ (sha256 lower clip : String → String) (d : DripDeps) (address ip : String) where
  conclude-Says :
      (id : Option ℕ) (o : Outcome (Option OnChain)) (s : Shared)
      → Says (is_sent o) (returned (conclude sha256 lower clip d ip address id o s).0)
  unfolding conclude
  conclude-Says id (returned none) s = (refl, refl)
  conclude-Says id (returned (some sent)) s = (refl, refl)
  conclude-Says id (thrown msg) s = (refl, refl)

  after_limit-Says :
      (r : Result RateLimitResult) (s : Shared)
      → Says
          (is_granted r && is_available d address)
          (after_limit sha256 lower clip d ip address r s).0
  unfolding after_limit
  after_limit-Says (err e) s = refl
  after_limit-Says (ok rl) s = elim (Bool-cases rl.allowed) [
    | inl e ↦
        rw (e, ← dispense-is_sent d address)
          (conclude-Says rl.id (dispense d address) (d.meanwhile s))
    | inr e ↦ rw e (throttled_output-Says rl)
  ]

  after_captcha-Says :
      (s : Shared)
      → Says
          (is_granted (check_and_record d.limits ip d.now s.limiter).0 && is_available d address)
          (after_captcha sha256 lower clip d ip address s).0
  unfolding after_captcha
  after_captcha-Says s =
      let (rl, limiter) = check_and_record d.limits ip d.now s.limiter in
      after_limit-Says rl (record { limiter = limiter; audit = s.audit })

  on_captcha-Says :
      (o : Outcome Bool) (s : Shared)
      → Says
          (is_verified o
            && (is_granted (check_and_record d.limits ip d.now s.limiter).0
                && is_available d address))
          (on_captcha sha256 lower clip d ip address o s).0
  unfolding on_captcha
  on_captcha-Says (thrown m) s = refl
  on_captcha-Says (returned true) s = after_captcha-Says s
  on_captcha-Says (returned false) s = (refl, refl)

  -- A drip answers 200, and then with a dispensed body, exactly where the address is valid, the
  -- captcha verifies, the rate limiter grants, the faucet is not drained, and the bridge, its
  -- transaction hash and the mint are all there; else it answers another status with a failure,
  -- or throws.
  pub run_drip_pipeline-Says :
      (captcha_token : String) (s : Shared)
      → Says
          (serves d address captcha_token ip s)
          (run_drip_pipeline sha256 lower clip d address captcha_token ip s).0
  unfolding run_drip_pipeline
  run_drip_pipeline-Says captcha_token s = elim (Bool-cases (validate_l2_address address)) [
    | inl e ↦ rw e (on_captcha-Says (d.verify_captcha captcha_token) (d.before s))
    | inr e ↦ rw e (refl, refl)
  ]

  -- An entry of this request.
  abbrev pub own : AuditRecord
  own = refusal sha256 lower clip d.ts ip address ""

  conclude-Logs :
      (id : Option ℕ) (o : Outcome (Option OnChain)) (s : Shared) (was : List AuditRecord)
      → s.audit ≡ was
      → Logs own was (
        returned (conclude sha256 lower clip d ip address id o s).0,
        (conclude sha256 lower clip d ip address id o s).1,
      )
  unfolding conclude
  conclude-Logs id (returned none) s was e = (
    refusal sha256 lower clip d.ts ip address "drained",
    ap (λ l. l ++ refusal sha256 lower clip d.ts ip address "drained" ∷ [])
        (release_some-audit id s ∙ e),
    refl,
    refl,
    refl,
    refl,
  )
  conclude-Logs id (returned (some sent)) s was e = (
    dispensed sha256 lower clip d ip address sent.mint,
    ap (λ l. l ++ dispensed sha256 lower clip d ip address sent.mint ∷ []) e,
    refl,
    refl,
    refl,
    refl,
  )
  conclude-Logs id (thrown msg) s was e = (
    refusal sha256 lower clip d.ts ip address (Str.◌++◌ "pipeline:" (clip msg)),
    ap (λ l. l ++ refusal sha256 lower clip d.ts ip address (Str.◌++◌ "pipeline:" (clip msg)) ∷ [])
        (release_some-audit id s ∙ e),
    refl,
    refl,
    refl,
    refl,
  )

  module _ (alone : (x : Shared) → (d.before x ≡ x) × (d.meanwhile x ≡ x)) where
    after_limit-Logs :
        (r : Result RateLimitResult) (s : Shared)
        → Logs own s.audit (after_limit sha256 lower clip d ip address r s)
    unfolding after_limit
    after_limit-Logs (err e) s = refl
    after_limit-Logs (ok rl) s = elim (Bool-cases rl.allowed) [
      | inl e ↦ rw e (
          conclude-Logs rl.id (dispense d address) (d.meanwhile s) s.audit
            (ap (λ x. x.audit) (alone s).1))
      | inr e ↦ rw e (
        refusal sha256 lower clip d.ts ip address (reason_text rl.reason),
        refl,
        sym (throttled_output-Says rl).0,
        refl,
        refl,
        refl,
      )
    ]

    after_captcha-Logs :
        (s : Shared) → Logs own s.audit (after_captcha sha256 lower clip d ip address s)
    unfolding after_captcha
    after_captcha-Logs s =
        let (rl, limiter) = check_and_record d.limits ip d.now s.limiter in
        after_limit-Logs rl (record { limiter = limiter; audit = s.audit })

    on_captcha-Logs :
        (o : Outcome Bool) (s : Shared)
        → Logs own s.audit (on_captcha sha256 lower clip d ip address o s)
    unfolding on_captcha
    on_captcha-Logs (thrown m) s = refl
    on_captcha-Logs (returned true) s = after_captcha-Logs s
    on_captcha-Logs (returned false) s =
        (refusal sha256 lower clip d.ts ip address "invalid-captcha", refl, refl, refl, refl, refl)

    -- While no other request changes what is shared, a drip that answers appends one entry to the
    -- audit log, with its time, address and the hash of its client, and success exactly where it
    -- answers 200; one that throws appends none.
    pub run_drip_pipeline-Logs :
        (captcha_token : String) (s : Shared)
        → Logs own s.audit (run_drip_pipeline sha256 lower clip d address captcha_token ip s)
    unfolding run_drip_pipeline
    run_drip_pipeline-Logs captcha_token s = elim (Bool-cases (validate_l2_address address)) [
      | inl e ↦ rw e (
          subst
            (λ x. Logs own x.audit (
              on_captcha sha256 lower clip d ip address (d.verify_captcha captcha_token)
                (d.before s)))
            (alone s).0 (on_captcha-Logs (d.verify_captcha captcha_token) (d.before s)))
      | inr e ↦ rw e (
        refusal sha256 lower clip d.ts ip address "invalid-address",
        refl,
        refl,
        refl,
        refl,
        refl,
      )
    ]
