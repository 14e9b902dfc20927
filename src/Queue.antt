-- ===== src/Queue.antt =====
-- The in-memory reveal queue: aggregator/src/queue.ts. `Map` is an association list in insertion
-- order; the optional fields of a reveal are options.
pub mod Invariant
pub mod Steps
pub mod Drain
mod Tests
use quetzaldex.Prelude.{
  ℕ, ◌+◌, ◌-◌, Bool, true, false, not, List, [], ◌∷◌, ◌++◌, Option, none, some, ltb, leb,
  if◌then◌else◌, filter, length, sum_by, map, ◌||◌, String,
}
use quetzaldex.Prelude.Map.{lookup, insert, erase}
use text.Mathlib.Text

pub record RevealPayload : Type 0 where
  pub epoch_id : ℕ
  pub order_nonce : String
  pub side : Bool
  pub amount_in : String
  pub limit_price : String
  pub submitted_at_block : ℕ
  pub owner : String
  pub path_len : Option ℕ
  pub path : Option (List String)
  pub submission_tx_hash : Option String

abbrev pub max_per_epoch : ℕ
max_per_epoch = 512

abbrev pub epoch_window : ℕ
epoch_window = 2

-- The reveals of one epoch, by nonce.
abbrev pub Inner : Type 0
Inner = List (String × RevealPayload)

pub record RevealQueue : Type 0 where
  pub by_epoch : List (ℕ × Inner)
  pub current_epoch : Option ℕ

-- `Math.abs(a - b)`.
abbrev pub distance : ℕ → ℕ → ℕ
distance a b = (a - b) + (b - a)

abbrev pub near : ℕ → ℕ → Bool
near c e = leb (distance e c) epoch_window

pub set_current_epoch : ℕ → RevealQueue → RevealQueue
set_current_epoch epoch_id q = record {
  by_epoch = filter (λ e. near epoch_id e.0) q.by_epoch;
  current_epoch = some epoch_id;
}

abbrev pub has_nonce : String → Inner → Bool
has_nonce k [] = false
has_nonce k ((j, p) ∷ inner) = (Text.◌==◌ j k) || has_nonce k inner

abbrev pub is_far : Option ℕ → ℕ → Bool
is_far none e = false
is_far (some c) e = not (near c e)

pub open_epoch : ℕ → List (ℕ × Inner) → List (ℕ × Inner)
open_epoch e m = elim (lookup e m) [ none ↦ insert e [] m | some inner ↦ m ]

pub inner_of : ℕ → List (ℕ × Inner) → Inner
inner_of e m = elim (lookup e m) [ none ↦ [] | some inner ↦ inner ]

-- The first reveal of a nonce stays; an epoch takes no more than its cap.
pub put : RevealPayload → Inner → List (ℕ × Inner) → List (ℕ × Inner)
put p inner m =
    if has_nonce p.order_nonce inner
    then m
    else if leb max_per_epoch (length inner)
    then m
    else insert p.epoch_id (inner ++ (p.order_nonce, p) ∷ []) m

pub enqueue : RevealPayload → RevealQueue → RevealQueue
unfolding open_epoch inner_of put
enqueue p q = if is_far q.current_epoch p.epoch_id then q else record {
  by_epoch = (let m = open_epoch p.epoch_id q.by_epoch in put p (inner_of p.epoch_id m) m);
  current_epoch = q.current_epoch;
}

abbrev pub payloads : Inner → List RevealPayload
payloads inner = map (λ e. e.1) inner

pub drain_epoch : ℕ → RevealQueue → List RevealPayload × RevealQueue
drain_epoch epoch_id q = elim (lookup epoch_id q.by_epoch) [
  | none ↦ ([], q)
  | some inner ↦ (
    payloads inner,
    record { by_epoch = erase epoch_id q.by_epoch; current_epoch = q.current_epoch },
  )
]

pub size : RevealQueue → ℕ
size q = sum_by (λ e. length e.1) q.by_epoch

pub size_for_epoch : ℕ → RevealQueue → ℕ
size_for_epoch epoch_id q = elim (lookup epoch_id q.by_epoch) [
  | none ↦ 0
  | some inner ↦ length inner
]
