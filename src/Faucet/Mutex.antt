-- ===== src/Faucet/Mutex.antt =====
-- The faucet's lock: faucet/src/lib/mutex.ts, and `onChainMutex` of faucet/src/lib/runtime.ts.
-- A call of `runExclusive` is a number, which also names the promise it installs as the tail;
-- 0 names the resolved promise of the constructor.
pub mod Queueing
use quetzaldex.Prelude.{ℕ, suc, Bool, true, false, List, [], ◌∷◌, ◌≡◌, ◌==◌, if◌then◌else◌}

-- Where a call stands; `finished false` is one whose `fn` threw.
pub data Phase : Type 0 where
  idle waiting running : Phase
  finished : Bool → Phase

pub record Mutex : Type 0 where
  pub tail : ℕ
  pub made : ℕ
  pub resolved : ℕ → Bool
  pub prev : ℕ → ℕ
  pub phase : ℕ → Phase
  -- The calls whose `fn` was started, the last one first.
  pub started : List ℕ

abbrev pub update : {A : Type 0} → (ℕ → A) → ℕ → A → ℕ → A
update f i x j = if j == i then x else f j

abbrev pub new_mutex : Mutex
new_mutex = record {
  tail = 0;
  made = 0;
  resolved = λ i. i == 0;
  prev = λ i. 0;
  phase = λ i. idle;
  started = [];
}

-- The part of `runExclusive` before its `await`: it runs at once.
unfoldable pub run_exclusive : Mutex → Mutex
run_exclusive m =
    let i = suc m.made in
    record {
      tail = i;
      made = i;
      resolved = m.resolved;
      prev = update m.prev i m.tail;
      phase = update m.phase i waiting;
      started = m.started;
    }

-- The `await` returns, and `fn` starts.
unfoldable pub start : ℕ → Mutex → Mutex
start i m = record m { phase = update m.phase i running; started = i ∷ m.started }

-- `fn` returns or throws, and `finally` releases.
unfoldable pub settle : ℕ → Bool → Mutex → Mutex
settle i returned m = record m {
  resolved = update m.resolved i true;
  phase = update m.phase i (finished returned);
}

-- Calls interleave in any order: an `await` goes on once its promise is resolved.
pub data Step (m : Mutex) : Mutex → Type 0 where
  called : Step m (run_exclusive m)
  resumed : (i : ℕ) → m.phase i ≡ waiting → m.resolved (m.prev i) ≡ true → Step m (start i m)
  left : (i : ℕ) (returned : Bool) → m.phase i ≡ running → Step m (settle i returned m)

pub data Reach : Mutex → Type 0 where
  fresh : Reach new_mutex
  later : {m n : Mutex} → Reach m → Step m n → Reach n
