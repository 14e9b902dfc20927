-- ===== src/Faucet/Mutex/Queueing.antt =====
-- Exclusion, order and progress of the lock.
use quetzaldex.Prelude.{
  ℕ, zero, suc, ◌≤◌, ◌<◌, ◌≡◌, refl, sym, subst, Bool, true, false, List, [], ◌∷◌, arith, inl, inr,
  ◌⊎◌,
}
use quetzaldex.Faucet.Mutex.{
  Phase, idle, waiting, running, finished, Mutex, new_mutex, run_exclusive, start, settle, Step,
  called, resumed, left, Reach, fresh, later,
}

abbrev pub countdown : ℕ → List ℕ
countdown zero = []
countdown (suc n) = suc n ∷ countdown n

abbrev pub is_finished : Phase → Bool
is_finished (finished b) = true
is_finished _ = false

abbrev pub has_started : Phase → Bool
has_started idle = false
has_started waiting = false
has_started _ = true

-- `n` calls have started: those before the last of them are over, those after it wait.
pub record Lined (n : ℕ) (m : Mutex) : Type 0 where
  pub tail_last : m.tail ≡ m.made
  pub log : m.started ≡ countdown n
  pub few : n ≤ m.made
  pub chain : (i : ℕ) → i < m.made → m.prev (suc i) ≡ i
  pub origin : m.resolved 0 ≡ true
  pub zeroth : m.phase 0 ≡ idle
  pub settled : (i : ℕ) → 0 < i → m.resolved i ≡ is_finished (m.phase i)
  pub before : (i : ℕ) → 0 < i → i < n → is_finished (m.phase i) ≡ true
  pub current : (i : ℕ) → 0 < i → i ≡ n → has_started (m.phase i) ≡ true
  pub behind : (i : ℕ) → n < i → i ≤ m.made → m.phase i ≡ waiting
  pub beyond : (i : ℕ) → m.made < i → m.phase i ≡ idle

new_mutex-Lined : Lined 0 new_mutex
new_mutex-Lined = record {
  tail_last = refl;
  log = refl;
  few = omega arith;
  chain = λ i h. absurd (omega arith);
  origin = refl;
  zeroth = refl;
  settled = λ i h. ground arith;
  before = λ i h k. absurd (omega arith);
  current = λ i h k. absurd (omega arith);
  behind = λ i h k. absurd (omega arith);
  beyond = λ i h. refl;
}

module _ {n : ℕ} {m : Mutex} (v : Lined n m) where
  run_exclusive-Lined : Lined n (run_exclusive m)
  unfolding run_exclusive
  run_exclusive-Lined = record {
    tail_last = refl;
    log = v.log;
    few = omega (arith, v.few);
    chain = λ i h. ground (arith, v.chain i, v.tail_last);
    origin = v.origin;
    zeroth = ground (arith, v.zeroth);
    settled = λ i h. ground (arith, v.settled i, v.beyond i);
    before = λ i h k. ground (arith, v.before i, v.few);
    current = λ i h k. ground (arith, v.current i, v.few);
    behind = λ i h k. ground (arith, v.behind i);
    beyond = λ i h. ground (arith, v.beyond i);
  }

  resumed-over :
      (i : ℕ) → m.phase i ≡ waiting → m.resolved (m.prev i) ≡ true → i ≡ suc n → m.resolved n ≡ true
  resumed-over i w r e =
      let made : n < m.made = ground (arith, v.beyond i) in
      subst (λ k. m.resolved k ≡ true) (v.chain n made)
        (subst (λ k. m.resolved (m.prev k) ≡ true) e r)

  -- Only the first call that waits can start.
  resumed-next : (i : ℕ) → m.phase i ≡ waiting → m.resolved (m.prev i) ≡ true → i ≡ suc n
  resumed-next zero w r = let z = v.zeroth in cc
  resumed-next (suc i) w r = ground (
    arith,
    v.beyond (suc i),
    v.chain i,
    v.settled i,
    v.behind i,
    v.before (suc i),
    v.current (suc i),
  )

  start-Lined :
      (i : ℕ) → m.phase i ≡ waiting → i ≡ suc n → m.resolved n ≡ true → Lined (suc n) (start i m)
  unfolding start
  start-Lined i w e over = record {
    tail_last = v.tail_last;
    log = ground (arith, v.log);
    few = ground (arith, v.beyond i);
    chain = v.chain;
    origin = v.origin;
    zeroth = ground (arith, v.zeroth);
    settled = λ j h. ground (arith, v.settled j);
    before = λ j h k. ground (arith, v.before j, v.settled j, over_at j);
    current = λ j h k. ground arith;
    behind = λ j h k. ground (arith, v.behind j);
    beyond = λ j h. ground (arith, v.beyond j);
  }
    where
      over_at : (j : ℕ) → j ≡ n → m.resolved j ≡ true
      over_at j q = subst (λ k. m.resolved k ≡ true) (sym q) over

  running-last : (i : ℕ) → m.phase i ≡ running → (i ≡ n) × (0 < i)
  running-last zero r = let z = v.zeroth in cc
  running-last (suc i) r =
      (ground (arith, v.before (suc i), v.behind (suc i), v.beyond (suc i)), omega arith)

  settle-Lined : (i : ℕ) (b : Bool) → m.phase i ≡ running → Lined n (settle i b m)
  unfolding settle
  settle-Lined i b r =
      let (e, pos) = running-last i r in
      record {
        tail_last = v.tail_last;
        log = v.log;
        few = v.few;
        chain = v.chain;
        origin = ground (arith, v.origin);
        zeroth = ground (arith, v.zeroth);
        settled = λ j h. ground (arith, v.settled j);
        before = λ j h k. ground (arith, v.before j);
        current = λ j h k. ground (arith, v.current j);
        behind = λ j h k. ground (arith, v.behind j);
        beyond = λ j h. ground (arith, v.beyond j, v.few);
      }

Step-Lined : {n : ℕ} {m k : Mutex} → Lined n m → Step m k → (p : ℕ) × Lined p k
Step-Lined {n = n} v called = (n, run_exclusive-Lined v)
Step-Lined {n = n} v (resumed i w r) =
    let e = resumed-next v i w r in (suc n, start-Lined v i w e (resumed-over v i w r e))
Step-Lined {n = n} v (left i b r) = (n, settle-Lined v i b r)

Reach-Lined : {m : Mutex} → Reach m → (n : ℕ) × Lined n m
Reach-Lined fresh = (0, new_mutex-Lined)
Reach-Lined (later r s) = let (n, v) = Reach-Lined r in Step-Lined v s

-- However calls of the lock interleave, they start in the order in which they were made: the
-- calls started are the first n; only the last of them can be running, those before it are over,
-- and all later ones wait.
pub serial :
    {m : Mutex}
    → Reach m
    → (n : ℕ) × (m.started ≡ countdown n)
      × (n ≤ m.made)
      × ((i : ℕ) → m.phase i ≡ running → i ≡ n)
      × ((i : ℕ) → 0 < i → i < n → is_finished (m.phase i) ≡ true)
      × ((i : ℕ) → n < i → i ≤ m.made → m.phase i ≡ waiting)
serial r =
    let (n, v) = Reach-Lined r in
    (n, v.log, v.few, (λ i h. (running-last v i h).0), v.before, v.behind)

running_or_over : {p : Phase} → has_started p ≡ true → (p ≡ running) ⊎ (is_finished p ≡ true)
running_or_over {p = idle} h = cc
running_or_over {p = waiting} h = cc
running_or_over {p = running} h = inl refl
running_or_over {p = finished b} h = inr refl

behind_waiting :
    {n : ℕ} {m : Mutex}
    → Lined (suc n) m
    → (i : ℕ) → m.phase i ≡ waiting
    → is_finished (m.phase (suc n)) ≡ true
    → suc n < m.made
behind_waiting {n} v zero w a = let z = v.zeroth in cc
behind_waiting {n} {m} v (suc i) w a =
    let q : (suc i ≡ suc n) → is_finished waiting ≡ true = λ e.
      subst (λ p. is_finished p ≡ true) w (subst (λ k. is_finished (m.phase k) ≡ true) (sym e) a) in
    ground (arith, v.before (suc i), v.beyond (suc i), q)

-- While a call of the lock waits, some call is running or some waiting call may start, also after
-- a section that threw.
pub progress :
    {m : Mutex}
    → Reach m
    → (i : ℕ) → m.phase i ≡ waiting
    → (j : ℕ) × ((m.phase j ≡ running) ⊎ ((m.phase j ≡ waiting) × (m.resolved (m.prev j) ≡ true)))
progress r i w = let (n, v) = Reach-Lined r in next v i w
  where
    next :
        {n : ℕ} {m : Mutex}
        → Lined n m
        → (i : ℕ) → m.phase i ≡ waiting
        → (j : ℕ) × ((m.phase j ≡ running)
            ⊎ ((m.phase j ≡ waiting) × (m.resolved (m.prev j) ≡ true)))
    next {n = zero} {m = m} v i w =
        let e = v.zeroth in
        let some_call : 0 < m.made = ground (arith, v.beyond i) in
        (1, inr (v.behind 1 (omega arith) (omega arith), rw (v.chain 0 some_call) v.origin))
    next {n = suc n} v i w = elim (running_or_over (v.current (suc n) (omega arith) refl)) [
      | inl a ↦ (suc n, inl a)
      | inr a ↦
          let more = behind_waiting v i w a in
          (
            suc (suc n),
            inr (
              v.behind (suc (suc n)) (omega arith) more,
              rw (v.chain (suc n) more, v.settled (suc n) (omega arith)) a,
            ),
          )
    ]
