-- ===== src/Queue/Steps.antt =====
-- Every operation keeps the queue valid, from the empty queue on, and the bounds that follow.
use quetzaldex.Prelude.{
  ℕ, suc, ◌+◌, ◌-◌, ◌*◌, ◌≤◌, ◌≡◌, refl, true, false, List, [], ◌∷◌, ◌++◌, Option, none, some, leb,
  leb→le, ◌==◌, ==_iff, if◌then◌else◌, length, sum_by, arith, inl, inr, All, All-filter,
  All-filter_keep, Bool-cases, Option-cases, subst,
}
use quetzaldex.Prelude.Map.{lookup, insert, erase}
use quetzaldex.Prelude.Keys.{
  Keys, insert-All, erase-All, lookup-All, filter-Keys, insert-Keys, erase-Keys,
}
use quetzaldex.Queue.{
  RevealPayload, RevealQueue, Inner, max_per_epoch, epoch_window, distance, near, set_current_epoch,
  has_nonce, is_far, open_epoch, inner_of, put, enqueue, drain_epoch, size,
}
use quetzaldex.Queue.Invariant.{Filed, Within, IsValid, add-Filed}

-- An empty queue, as the constructor leaves it.
abbrev pub new_queue : RevealQueue
new_queue = record { by_epoch = []; current_epoch = none }

new_queue-IsValid : IsValid new_queue
new_queue-IsValid = record { filed = tt; keys = tt; window = tt }

-- The window admits an epoch.
abbrev Admits : Option ℕ → ℕ → Type 0
Admits none e = Unit
Admits (some c) e = near c e ≡ true

insert-Within :
    (c : Option ℕ) (e : ℕ) (inner : Inner) (m : List (ℕ × Inner))
    → Admits c e
    → Within c m
    → Within c (insert e inner m)
insert-Within none e inner m h w = tt
insert-Within (some c) e inner m h w = insert-All (λ x. near c x.0 ≡ true) e inner m h w

is_far-Admits : (c : Option ℕ) (e : ℕ) → is_far c e ≡ false → Admits c e
is_far-Admits none e h = tt
is_far-Admits (some c) e h = elim (Bool-cases (near c e)) [
  | inl k ↦ k
  | inr k ↦ let f : true ≡ false = rw k at h in cc
]

module _ (c : Option ℕ) where
  -- The three parts of validity, of a map beside the current epoch.
  abbrev Kept : List (ℕ × Inner) → Type 0
  Kept m = All Filed m × Keys m × Within c m

  insert-Kept :
      (e : ℕ) (inner : Inner) (m : List (ℕ × Inner))
      → Admits c e
      → Filed (e, inner)
      → Kept m
      → Kept (insert e inner m)
  insert-Kept e inner m a f h =
      (insert-All Filed e inner m f h.0, insert-Keys e inner m h.1, insert-Within c e inner m a h.2)

  open_epoch-Kept : (e : ℕ) (m : List (ℕ × Inner)) → Admits c e → Kept m → Kept (open_epoch e m)
  unfolding open_epoch
  open_epoch-Kept e m a h = elim (Option-cases (lookup e m)) [
    | inl k ↦
        rw (open_epoch, k)
          (insert-Kept e [] m a (record { capped = omega arith; once = tt; epoch = tt }) h)
    | inr (inner, k) ↦ rw (open_epoch, k) h
  ]

  inner_of-Filed : (e : ℕ) (m : List (ℕ × Inner)) → Kept m → Filed (e, inner_of e m)
  unfolding inner_of
  inner_of-Filed e m h = elim (Option-cases (lookup e m)) [
    | inl k ↦ rw (inner_of, k) (record { capped = omega arith; once = tt; epoch = tt })
    | inr (inner, k) ↦ rw (inner_of, k) (lookup-All Filed e m inner k h.0)
  ]

  put-Kept :
      (p : RevealPayload) (inner : Inner) (m : List (ℕ × Inner))
      → Admits c p.epoch_id
      → Filed (p.epoch_id, inner)
      → Kept m
      → Kept (put p inner m)
  unfolding put
  put-Kept p inner m a f h = elim (Bool-cases (has_nonce p.order_nonce inner)) [
    | inl e ↦ rw (put, e) h
    | inr e ↦ elim (Bool-cases (leb max_per_epoch (length inner))) [
      | inl k ↦ rw (put, e, k) h
      | inr k ↦
          rw (put, e, k)
            (insert-Kept p.epoch_id (inner ++ (p.order_nonce, p) ∷ []) m a (add-Filed p inner f e k)
              h)
    ]
  ]

enqueue-IsValid : (p : RevealPayload) (q : RevealQueue) → IsValid q → IsValid (enqueue p q)
unfolding enqueue
enqueue-IsValid p q h = elim (Bool-cases (is_far q.current_epoch p.epoch_id)) [
  | inl e ↦ rw (enqueue, e) h
  | inr e ↦
      let a = is_far-Admits q.current_epoch p.epoch_id e in
      let m = open_epoch p.epoch_id q.by_epoch in
      let opened =
        open_epoch-Kept q.current_epoch p.epoch_id q.by_epoch a (h.filed, h.keys, h.window) in
      let filed = inner_of-Filed q.current_epoch p.epoch_id m opened in
      let (x, y, z) = put-Kept q.current_epoch p (inner_of p.epoch_id m) m a filed opened in
      rw (enqueue, e) (record { filed = x; keys = y; window = z })
]

set_current_epoch-IsValid : (e : ℕ) (q : RevealQueue) → IsValid q → IsValid (set_current_epoch e q)
unfolding set_current_epoch
set_current_epoch-IsValid e q h = record {
  filed = All-filter_keep Filed (λ x. near e x.0) q.by_epoch h.filed;
  keys = filter-Keys (λ x. near e x.0) q.by_epoch h.keys;
  window = All-filter (λ x. near e x.0) q.by_epoch;
}

erase-Within : (c : Option ℕ) (e : ℕ) (m : List (ℕ × Inner)) → Within c m → Within c (erase e m)
erase-Within none e m w = tt
erase-Within (some c) e m w = erase-All (λ x. near c x.0 ≡ true) e m w

drain_epoch-IsValid : (e : ℕ) (q : RevealQueue) → IsValid q → IsValid (drain_epoch e q).1
unfolding drain_epoch
drain_epoch-IsValid e q h = elim (Option-cases (lookup e q.by_epoch)) [
  | inl k ↦ rw (drain_epoch, k) h
  | inr (inner, k) ↦
      rw (drain_epoch, k)
        (record {
          filed = erase-All Filed e q.by_epoch h.filed;
          keys = erase-Keys e q.by_epoch h.keys;
          window = erase-Within q.current_epoch e q.by_epoch h.window;
        })
]

-- The states a queue can reach: from the empty one, by any calls in any order.
pub data Reach : RevealQueue → Type 0 where
  fresh : Reach new_queue
  revealed : {q : RevealQueue} → Reach q → (p : RevealPayload) → Reach (enqueue p q)
  moved : {q : RevealQueue} → Reach q → (e : ℕ) → Reach (set_current_epoch e q)
  drained : {q : RevealQueue} → Reach q → (e : ℕ) → Reach (drain_epoch e q).1

-- Whatever calls were made, an epoch holds at most 512 reveals, each nonce once and at its own
-- epoch; an epoch stands once; and all lie within two of the current epoch once one is set.
pub Reach-IsValid : {q : RevealQueue} → Reach q → IsValid q
Reach-IsValid fresh = new_queue-IsValid
Reach-IsValid (revealed {q = q} r p) = enqueue-IsValid p q (Reach-IsValid r)
Reach-IsValid (moved {q = q} r e) = set_current_epoch-IsValid e q (Reach-IsValid r)
Reach-IsValid (drained {q = q} r e) = drain_epoch-IsValid e q (Reach-IsValid r)

-- How many epochs of the map are `v`.
count : ℕ → List (ℕ × Inner) → ℕ
count v [] = 0
count v ((k, i) ∷ m) = if k == v then suc (count v m) else count v m

count-none : (v : ℕ) (m : List (ℕ × Inner)) → lookup v m ≡ none → count v m ≡ 0
unfolding count
count-none v [] h = refl
count-none v ((k, i) ∷ m) h = ground (arith, count-none v m)

count-le : (v : ℕ) (m : List (ℕ × Inner)) → Keys m → count v m ≤ 1
unfolding count
count-le v [] h = omega arith
count-le v ((k, i) ∷ m) h = elim (Bool-cases (k == v)) [
  | inr e ↦ rw e (count-le v m h.1)
  | inl e ↦
      let z = count-none v m (subst (λ x. lookup x m ≡ none) ((==_iff k v).0 e) h.0) in
      rw (e, z) (omega arith)
]

-- Epochs within two of the current one are counted by its five neighbours.
length-count :
    (c : ℕ) (m : List (ℕ × Inner))
    → Within (some c) m
    → length m ≤ count c m + count (c + 1) m + count (c + 2) m + count (c - 1) m + count (c - 2) m
unfolding count
length-count c [] w = omega arith
length-count c ((k, i) ∷ m) w =
    let d = leb→le (distance k c) epoch_window w.0 in ground (arith, length-count c m w.1, d)

size-le :
    (m : List (ℕ × Inner)) → All Filed m → sum_by (λ e. length e.1) m ≤ max_per_epoch * length m
size-le [] h = omega arith
size-le (e ∷ m) h = omega (arith, size-le m h.1, h.0.capped)

-- Whatever calls were made, once the watcher has set an epoch the queue holds at most 2,560
-- reveals.
pub size-Reach : {q : RevealQueue} (c : ℕ) → Reach q → q.current_epoch ≡ some c → size q ≤ 2_560
unfolding size
size-Reach {q = q} c r e =
    let valid = Reach-IsValid r in
    let near_five = length-count c q.by_epoch (subst (λ x. Within x q.by_epoch) e valid.window) in
    let keys = valid.keys in
    omega (
      arith,
      size-le q.by_epoch valid.filed,
      near_five,
      count-le c q.by_epoch keys,
      count-le (c + 1) q.by_epoch keys,
      count-le (c + 2) q.by_epoch keys,
      count-le (c - 1) q.by_epoch keys,
      count-le (c - 2) q.by_epoch keys,
    )
