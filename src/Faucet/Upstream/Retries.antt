-- ===== src/Faucet/Upstream/Retries.antt =====
-- When retries stop, and what they return.
use quetzaldex.Prelude.{
  ℕ, zero, suc, ◌+◌, ◌≤◌, ◌<◌, ◌≡◌, refl, sym, subst, ◌==◌, ==_iff, Bool, true, false, arith, inl,
  inr, ◌⊎◌, Bool-cases, String,
}
use quetzaldex.Faucet.Upstream.{
  Outcome, thrown, returned, Retried, once_more, retry_loop, send_with_retry,
}

module _ {A : Type 0} (is_transient_error : String → Bool) (attempt : ℕ → Outcome A) where
  -- A throw that is worth another try.
  abbrev pub Transient : Outcome A → Type 0
  Transient (returned a) = ⊥
  Transient (thrown message) = is_transient_error message ≡ true

  abbrev pub Final : Outcome A → Type 0
  Final (returned a) = Unit
  Final (thrown message) = is_transient_error message ≡ false

  -- Calls `n` up to `r.calls`, of at most `most`.
  pub record Tried (n most : ℕ) (r : Retried A) : Type 0 where
    pub first : n ≤ r.calls
    pub last : r.calls ≤ most
    pub own : r.outcome ≡ attempt r.calls
    pub slept : r.sleeps + n ≡ r.calls
    pub before : (i : ℕ) → n ≤ i → i < r.calls → Transient (attempt i)
    pub stop : Final (attempt r.calls) ⊎ (r.calls ≡ most)

  retry_loop-Tried :
      (n left : ℕ) → Tried n (n + left) (retry_loop is_transient_error attempt n left)
  unfolding retry_loop
  retry_loop-Tried n zero = record {
    first = omega arith;
    last = omega arith;
    own = refl;
    slept = omega arith;
    before = λ i h k. absurd (omega arith);
    stop = inr (omega arith);
  }
  retry_loop-Tried n (suc left) =
      go (attempt n) refl (retry_loop is_transient_error attempt (suc n) left)
        (retry_loop-Tried (suc n) left)
    where
      go :
          (o : Outcome A)
          → attempt n ≡ o
          → (rest : Retried A) → Tried (suc n) (suc n + left) rest
          → Tried n (n + suc left) (once_more is_transient_error attempt n o rest)
      go (returned a) e rest t = record {
        first = omega arith;
        last = omega arith;
        own = sym e;
        slept = omega arith;
        before = λ i h k. absurd (omega arith);
        stop = inl (rw e tt);
      }
      go (thrown message) e rest t = elim (Bool-cases (is_transient_error message)) [
        | inr h ↦ rw h (record {
          first = omega arith;
          last = omega arith;
          own = sym e;
          slept = omega arith;
          before = λ i p k. absurd (omega arith);
          stop = inl (rw e h);
        })
        | inl h ↦ rw h (record {
          first = omega (arith, t.first);
          last = omega (arith, t.last);
          own = t.own;
          slept = omega (arith, t.slept);
          before = λ i p k. elim (Bool-cases (i == n)) [
            | inl q ↦ let w : i ≡ n = (==_iff i n).0 q in rw (w, e) h
            | inr q ↦ t.before i (ground arith) k
          ];
          stop = elim t.stop [ inl f ↦ inl f | inr q ↦ inr (omega (arith, q)) ];
        })
      ]

  -- With at least one attempt allowed, a send makes between one and that many calls; its outcome
  -- is that of the last call; each call before it threw a transient error, with one sleep after
  -- each; and the last one returned, threw another error, or was the last allowed.
  pub send_with_retry-Tried :
      (left : ℕ) → Tried 1 (suc left) (send_with_retry is_transient_error attempt (suc left))
  unfolding send_with_retry
  send_with_retry-Tried left =
      let q : 1 + left ≡ suc left = omega arith in
      subst (λ n. Tried 1 n (retry_loop is_transient_error attempt 1 left)) q
        (retry_loop-Tried 1 left)
