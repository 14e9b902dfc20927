-- ===== src/Queue/Drain.antt =====
-- What a drain returns, before and after the other operations.
use quetzaldex.Prelude.{
  ℕ, ◌≡◌, refl, Bool, true, false, not, ◌&&◌, List, [], ◌∷◌, ◌++◌, none, leb, ◌==◌, ==_iff,
  if◌then◌else◌, length, inl, inr, ◌⊎◌, String, Bool-cases, Option-cases, ap, subst, ◌∙◌,
}
use quetzaldex.Prelude.Map.{lookup, insert, lookup-insert}
use quetzaldex.Queue.{
  RevealPayload, RevealQueue, Inner, max_per_epoch, has_nonce, is_far, open_epoch, inner_of, put,
  enqueue, payloads, drain_epoch, size_for_epoch,
}

-- May the reveal enter: its epoch is near, its nonce new there, and there is room.
pub is_accepted : RevealPayload → RevealQueue → Bool
is_accepted p q =
    not (is_far q.current_epoch p.epoch_id)
    && (not (has_nonce p.order_nonce (inner_of p.epoch_id q.by_epoch))
        && not (leb max_per_epoch (size_for_epoch p.epoch_id q)))

drained-inner_of :
    (e : ℕ) (q : RevealQueue) → (drain_epoch e q).0 ≡ payloads (inner_of e q.by_epoch)
unfolding drain_epoch inner_of
drained-inner_of e q = elim (Option-cases (lookup e q.by_epoch)) [
  | inl k ↦ rw (drain_epoch, inner_of, k) refl
  | inr (inner, k) ↦ rw (drain_epoch, inner_of, k) refl
]

size-inner_of : (e : ℕ) (q : RevealQueue) → size_for_epoch e q ≡ length (inner_of e q.by_epoch)
unfolding size_for_epoch inner_of
size-inner_of e q = elim (Option-cases (lookup e q.by_epoch)) [
  | inl k ↦ rw (size_for_epoch, inner_of, k) refl
  | inr (inner, k) ↦ rw (size_for_epoch, inner_of, k) refl
]

inner_of-insert :
    (e k : ℕ) (inner : Inner) (m : List (ℕ × Inner))
    → inner_of e (insert k inner m) ≡ (if k == e then inner else inner_of e m)
unfolding inner_of
inner_of-insert e k inner m = elim (Bool-cases (k == e)) [
  | inl b ↦ rw (inner_of, lookup-insert k e inner m, b) refl
  | inr b ↦ rw (inner_of, lookup-insert k e inner m, b) refl
]

inner_of-open : (e k : ℕ) (m : List (ℕ × Inner)) → inner_of e (open_epoch k m) ≡ inner_of e m
unfolding open_epoch inner_of
inner_of-open e k m = elim (Option-cases (lookup k m)) [
  | inr (inner, h) ↦ rw (open_epoch, h) refl
  | inl h ↦ rw (open_epoch, h, inner_of-insert e k [] m) (empty h (Bool-cases (k == e)))
]
  where
    empty :
        lookup k m ≡ none
        → ((k == e) ≡ true) ⊎ ((k == e) ≡ false)
        → (if k == e then [] else inner_of e m) ≡ inner_of e m
    empty h (inl b) =
        let j : lookup e m ≡ none = subst (λ x. lookup x m ≡ none) ((==_iff k e).0 b) h in
        rw (b, inner_of, j) refl
    empty h (inr b) = rw b refl

payloads-append :
    (inner : Inner) (k : String) (p : RevealPayload)
    → payloads (inner ++ (k, p) ∷ []) ≡ payloads inner ++ p ∷ []
payloads-append [] k p = refl
payloads-append (e ∷ inner) k p = ap (λ xs. e.1 ∷ xs) (payloads-append inner k p)

inner_of-put :
    (e : ℕ) (p : RevealPayload) (m : List (ℕ × Inner))
    → payloads (inner_of e (put p (inner_of p.epoch_id m) m)) ≡ (
        if (p.epoch_id == e)
          && (not (has_nonce p.order_nonce (inner_of p.epoch_id m))
              && not (leb max_per_epoch (length (inner_of p.epoch_id m))))
        then payloads (inner_of e m) ++ p ∷ []
        else payloads (inner_of e m))
unfolding put
inner_of-put e p m = elim (Bool-cases (has_nonce p.order_nonce (inner_of p.epoch_id m))) [
  | inl a ↦ rw (put, a) (unchanged (p.epoch_id == e))
  | inr a ↦ elim (Bool-cases (leb max_per_epoch (length (inner_of p.epoch_id m)))) [
    | inl b ↦ rw (put, a, b) (unchanged (p.epoch_id == e))
    | inr b ↦ elim (Bool-cases (p.epoch_id == e)) [
      | inr c ↦
          rw
            (
              put,
              a,
              b,
              inner_of-insert e p.epoch_id (inner_of p.epoch_id m ++ (p.order_nonce, p) ∷ []) m,
              c,
            )
            refl
      | inl c ↦
          let same : p.epoch_id ≡ e = (==_iff p.epoch_id e).0 c in
          rw
            (
              put,
              a,
              b,
              inner_of-insert e p.epoch_id (inner_of p.epoch_id m ++ (p.order_nonce, p) ∷ []) m,
              c,
            )
            (payloads-append (inner_of p.epoch_id m) p.order_nonce p
              ∙ ap (λ x. payloads (inner_of x m) ++ p ∷ []) same)
    ]
  ]
]
  where
    unchanged :
        (b : Bool)
        → payloads (inner_of e m)
          ≡ (if b && false then payloads (inner_of e m) ++ p ∷ [] else payloads (inner_of e m))
    unchanged true = refl
    unchanged false = refl

-- A reveal changes what a drain of its own epoch alone returns, and only if it is accepted: its
-- epoch is near the current one, its nonce is new there and the epoch has room. Then it comes
-- last.
pub drain_epoch-enqueue :
    (e : ℕ) (p : RevealPayload) (q : RevealQueue)
    → (drain_epoch e (enqueue p q)).0 ≡ (
        if (p.epoch_id == e) && is_accepted p q
        then (drain_epoch e q).0 ++ p ∷ []
        else (drain_epoch e q).0)
unfolding enqueue is_accepted
drain_epoch-enqueue e p q = elim (Bool-cases (is_far q.current_epoch p.epoch_id)) [
  | inl a ↦ rw (enqueue, is_accepted, a) (unchanged (p.epoch_id == e))
  | inr a ↦
      let m = open_epoch p.epoch_id q.by_epoch in
      rw
        (
          drained-inner_of e (enqueue p q),
          drained-inner_of e q,
          enqueue,
          is_accepted,
          a,
          size-inner_of p.epoch_id q,
        )
        (inner_of-put e p m
          ∙ rw
              (
                inner_of-open e p.epoch_id q.by_epoch,
                inner_of-open p.epoch_id p.epoch_id q.by_epoch,
              )
              refl)
]
  where
    unchanged :
        (b : Bool)
        → (drain_epoch e q).0
          ≡ (if b && false then (drain_epoch e q).0 ++ p ∷ [] else (drain_epoch e q).0)
    unchanged true = refl
    unchanged false = refl
