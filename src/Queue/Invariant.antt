-- ===== src/Queue/Invariant.antt =====
-- The bounds of the queue, kept by every operation.
use quetzaldex.Prelude.{
  ℕ, ◌≤◌, ◌≡◌, refl, true, false, List, [], ◌∷◌, ◌++◌, Option, none, some, leb, leb→gt, length,
  length-append, arith, inl, inr, ◌⊎◌, All, All-append, Bool-cases, String, sym,
}
use quetzaldex.Prelude.Keys.{Keys}
use quetzaldex.Queue.{RevealPayload, RevealQueue, Inner, max_per_epoch, near, has_nonce}
use text.Mathlib.Text
use text.Mathlib.TextEquality.{eq_iff}

-- No nonce stands twice, and every reveal stands at its own nonce.
abbrev pub Once : Inner → Type 0
Once [] = Unit
Once ((k, p) ∷ inner) = (k ≡ p.order_nonce) × (has_nonce k inner ≡ false) × Once inner

-- What the queue promises of an epoch's reveals: at most 512, each nonce once, all of that epoch.
pub record Filed (e : ℕ × Inner) : Type 0 where
  pub capped : length e.1 ≤ max_per_epoch
  pub once : Once e.1
  pub epoch : All (λ r. r.1.epoch_id ≡ e.0) e.1

abbrev pub Within : Option ℕ → List (ℕ × Inner) → Type 0
Within none m = Unit
Within (some c) m = All (λ e. near c e.0 ≡ true) m

pub record IsValid (q : RevealQueue) : Type 0 where
  pub filed : All Filed q.by_epoch
  pub keys : Keys q.by_epoch
  pub window : Within q.current_epoch q.by_epoch

has_nonce-append :
    (j k : String) (p : RevealPayload) (inner : Inner)
    → has_nonce j inner ≡ false
    → Text.◌==◌ k j ≡ false
    → has_nonce j (inner ++ (k, p) ∷ []) ≡ false
has_nonce-append j k p [] h e = rw e refl
has_nonce-append j k p ((i, r) ∷ inner) h e = ground (arith, has_nonce-append j k p inner)

Once-append :
    (p : RevealPayload) (inner : Inner)
    → Once inner
    → has_nonce p.order_nonce inner ≡ false
    → Once (inner ++ (p.order_nonce, p) ∷ [])
Once-append p [] h e = (refl, refl, tt)
Once-append p ((j, r) ∷ inner) h e = (
  h.0,
  has_nonce-append j p.order_nonce p inner h.1
      (differ j (Bool-cases (Text.◌==◌ p.order_nonce j)) (ground arith)),
  Once-append p inner h.2 (ground arith),
)
  where
    differ :
        (j : String)
        → ((Text.◌==◌ p.order_nonce j ≡ true) ⊎ (Text.◌==◌ p.order_nonce j ≡ false))
        → Text.◌==◌ j p.order_nonce ≡ false
        → Text.◌==◌ p.order_nonce j ≡ false
    differ j (inr k) f = k
    differ j (inl k) f =
        let same : Text.◌==◌ j p.order_nonce ≡ true =
          (eq_iff j p.order_nonce).1 (sym ((eq_iff p.order_nonce j).0 k)) in
        cc

-- The room left, and a nonce that is not there, keep an epoch filed when a reveal is added.
pub add-Filed :
    (p : RevealPayload) (inner : Inner)
    → Filed (p.epoch_id, inner)
    → has_nonce p.order_nonce inner ≡ false
    → leb max_per_epoch (length inner) ≡ false
    → Filed (p.epoch_id, inner ++ (p.order_nonce, p) ∷ [])
add-Filed p inner h e f = record {
  capped =
      let room = leb→gt max_per_epoch (length inner) f in
      omega (arith, room, length-append inner ((p.order_nonce, p) ∷ []));
  once = Once-append p inner h.once e;
  epoch = All-append (λ r. r.1.epoch_id ≡ p.epoch_id) inner _ h.epoch (refl, tt);
}
