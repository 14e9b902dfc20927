-- ===== src/Faucet/Drip/Quota.antt =====
-- A drip that does not dispense gives its place under the caps back.
use quetzaldex.Prelude.{
  ℕ, ◌≡◌, ◌≢◌, refl, sym, subst, Bool, true, false, List, [], ◌∷◌, Option, none, some,
  if◌then◌else◌, map, String, arith, inl, inr, Bool-cases, All, All-append, All-map,
}
use quetzaldex.Prelude.Result.{Result, ok, err}
use quetzaldex.Faucet.Address.{validate_l2_address}
use quetzaldex.Faucet.RateLimit.{
  Hit, Limiter, RateLimitResult, hit, record_hit, check_and_record, unallow, release,
}
use quetzaldex.Faucet.RateLimit.Rows.{
  Fresh, is_granted, reserved, check_and_record-rows, check_and_record-reserved,
}
use quetzaldex.Faucet.Upstream.{Outcome, thrown, returned}
use quetzaldex.Faucet.Drip.{
  DripPipelineOutput, Shared, DripDeps, OnChain, dispense, conclude, after_limit, after_captcha,
  on_captcha, run_drip_pipeline,
}

-- No row of this id counts under a cap.
abbrev pub Unallowed : ℕ → List Hit → Type 0
Unallowed id rows = All (λ r. r.id ≡ id → r.allowed ≡ false) rows

unallow-Unallowed : (id : ℕ) (rows : List Hit) → Unallowed id (map (unallow id) rows)
unallow-Unallowed id [] = tt
unallow-Unallowed id (r ∷ rows) = ((λ e. ground arith), unallow-Unallowed id rows)

Fresh-Unallowed : (l : Limiter) → Fresh l → Unallowed l.next_id l.rows
Fresh-Unallowed l h = All-map l.rows (λ r k e. absurd (omega arith)) h

refused-Unallowed :
    (l : Limiter) (ip : String) (now : ℕ)
    → Fresh l
    → Unallowed l.next_id (record_hit ip now false l).1.rows
unfolding record_hit
refused-Unallowed l ip now h =
    All-append (λ r. r.id ≡ l.next_id → r.allowed ≡ false) l.rows (hit l.next_id ip now false ∷ [])
      (Fresh-Unallowed l h) ((λ e. refl), tt)

-- What is left behind unless the answer is 200; of a throw nothing is said.
abbrev pub Spares : ℕ → Outcome DripPipelineOutput × Shared → Type 0
Spares id (thrown m, t) = Unit
Spares id (returned out, t) = out.status ≢ 200 → Unallowed id t.limiter.rows

module _ (sha256 lower clip : String → String) (d : DripDeps) (address ip : String) where
  conclude-Spares :
      (id : ℕ) (o : Outcome (Option OnChain)) (s : Shared)
      → Spares id (
        returned (conclude sha256 lower clip d ip address (some id) o s).0,
        (conclude sha256 lower clip d ip address (some id) o s).1,
      )
  unfolding conclude release
  conclude-Spares id (returned none) s h = unallow-Unallowed id s.limiter.rows
  conclude-Spares id (returned (some sent)) s h = absurd (h refl)
  conclude-Spares id (thrown msg) s h = unallow-Unallowed id s.limiter.rows

  -- Of a refusal the rows are those given; a grant reserves the id.
  after_limit-Spares :
      (id : ℕ) (r : Result RateLimitResult) (s : Shared)
      → (is_granted r ≡ false → Unallowed id s.limiter.rows)
      → (is_granted r ≡ true → reserved r ≡ some id)
      → Spares id (after_limit sha256 lower clip d ip address r s)
  unfolding after_limit
  after_limit-Spares id (err e) s h k = tt
  after_limit-Spares id (ok rl) s h k = elim (Bool-cases rl.allowed) [
    | inr e ↦ rw e (λ q. h e)
    | inl e ↦ rw (e, k e) (conclude-Spares id (dispense d address) (d.meanwhile s))
  ]

  after_captcha-Spares :
      (s : Shared)
      → Fresh s.limiter
      → Spares s.limiter.next_id (after_captcha sha256 lower clip d ip address s)
  unfolding after_captcha
  after_captcha-Spares s h =
      let call = check_and_record d.limits ip d.now s.limiter in
      let rows = check_and_record-rows d.limits ip d.now s.limiter in
      after_limit-Spares s.limiter.next_id call.0 (record { limiter = call.1; audit = s.audit })
        (λ (e : is_granted call.0 ≡ false).
          subst (λ l. Unallowed s.limiter.next_id l.rows) (sym rows)
            (subst (λ b. Unallowed s.limiter.next_id (record_hit ip d.now b s.limiter).1.rows)
              (sym e) (refused-Unallowed s.limiter ip d.now h)))
        (λ (e : is_granted call.0 ≡ true).
          subst (λ b. reserved call.0 ≡ (if b then some s.limiter.next_id else none)) e
            (check_and_record-reserved d.limits ip d.now s.limiter))

  on_captcha-Spares :
      (o : Outcome Bool) (s : Shared)
      → Fresh s.limiter
      → Spares s.limiter.next_id (on_captcha sha256 lower clip d ip address o s)
  unfolding on_captcha
  on_captcha-Spares (thrown m) s h = tt
  on_captcha-Spares (returned true) s h = after_captcha-Spares s h
  on_captcha-Spares (returned false) s h = λ q. Fresh-Unallowed s.limiter h

  -- A drip for a valid address that answers anything but 200 leaves no allowed row under the next
  -- id that the rate limiter had after the captcha, where the ids of the table were below that
  -- one; whatever other requests do while the drip waits.
  pub run_drip_pipeline-Spares :
      (captcha_token : String) (s : Shared)
      → validate_l2_address address ≡ true
      → Fresh (d.before s).limiter
      → Spares
          (d.before s).limiter.next_id
          (run_drip_pipeline sha256 lower clip d address captcha_token ip s)
  unfolding run_drip_pipeline
  run_drip_pipeline-Spares captcha_token s valid h =
      rw valid (on_captcha-Spares (d.verify_captcha captcha_token) (d.before s) h)
