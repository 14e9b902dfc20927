-- ===== src/Sdk/Place/Witness.antt =====
-- A placed order: its witness authorises what the order escrows, and its reveal says what was
-- submitted.
use quetzaldex.Prelude.{
  ℕ, ◌+◌, ◌≤◌, ◌≡◌, refl, sym, ap, ◌∙◌, subst, ◌||◌, ◌&&◌, List, Option, none, some, leb, String,
  inl, inr,
}
use quetzaldex.Prelude.Result.{Result, ok, err, or_fault, >>=-eq-ok, Result-cases}
use quetzaldex.Sdk.Paths.{
  Contracts, require_contracts, PlaceOrderInput, validate_place_order_input, resolve_aliases_to_hex,
  canonicalize_path, path_hex_to_fields, input_token,
}
use quetzaldex.Sdk.Paths.Canonical.{canonicalize_path-Kept}
use quetzaldex.Sdk.Escrow.{
  Wallet, Sent, mined, invalid_proof, refused, submit_error, ensure_private_balance, with_wallet,
}
use quetzaldex.Sdk.Escrow.Notes.{Funds, is_mined, ensure_private_balance-Funds}
use quetzaldex.Sdk.Place.{
  Chain, Placed, Prepared, prepare, placed, submit, after_prepare, place_order,
}
use text.Mathlib.TextPositions.{eq_refl}

module _ (big_int fr_from_string : String → Option ℕ) where
  -- The token of a prepared order is the one that the caller's side pays.
  abbrev Prepares : Option Contracts → PlaceOrderInput → Prepared → Type 0
  Prepares contracts input p =
      (resolved : List String) × (resolve_aliases_to_hex contracts input.path ≡ ok resolved)
      × (input_token input.side resolved ≡ some p.token)

  or_fault-eq : (o : Option String) (t : String) → or_fault o ≡ ok t → o ≡ some t
  or_fault-eq none t h = cc
  or_fault-eq (some s) t h = cc

  prepare-Prepares :
      (contracts : Option Contracts) (input : PlaceOrderInput) (p : Prepared)
      → prepare big_int fr_from_string contracts input ≡ ok p
      → Prepares contracts input p
  unfolding prepare
  prepare-Prepares contracts input p h =
      let (valid, e1, h1) = >>=-eq-ok (validate_place_order_input input) _ h in
      let (c, e2, h2) = >>=-eq-ok (require_contracts contracts) _ h1 in
      let (resolved, e3, h3) = >>=-eq-ok (resolve_aliases_to_hex contracts input.path) _ h2 in
      let (canonical, e4, h4) = >>=-eq-ok (canonicalize_path big_int input.side resolved) _ h3 in
      let (fields, e5, h5) = >>=-eq-ok (path_hex_to_fields fr_from_string canonical.1) _ h4 in
      let (token, e6, h6) = >>=-eq-ok (or_fault (input_token canonical.0 canonical.1)) _ h5 in
      let kept = canonicalize_path-Kept big_int input.side canonical.0 resolved canonical.1 e4 in
      let q : token ≡ p.token = cc in
      let found = or_fault-eq (input_token canonical.0 canonical.1) token e6 in
      (resolved, e3, sym kept.pays ∙ found ∙ ap some q)

-- What holds of a placed order and of the wallets it leaves.
pub record Consistent (contracts : Option Contracts) (input : PlaceOrderInput) (p : Placed)
    (wallets after : String → Wallet) : Type 0 where
  pub resolved : List String
  pub resolves : resolve_aliases_to_hex contracts input.path ≡ ok resolved
  pub pays : input_token input.side resolved ≡ some p.witness.token
  pub amount : (p.witness.amount ≡ input.amount) × (p.submitted.amount ≡ input.amount)
  pub nonce : (p.witness.nonce ≡ p.submitted.nonce) × (p.result.nonce ≡ p.submitted.nonce)
  pub order_nonce : p.result.order_nonce ≡ p.submitted.order_nonce
  pub side : p.result.side ≡ p.submitted.side
  pub path : p.result.path ≡ p.submitted.path
  pub funded : input.amount ≤ (after p.witness.token).private
  pub whole :
      (after p.witness.token).private + (after p.witness.token).public
      ≡ (wallets p.witness.token).private + (wallets p.witness.token).public

with_wallet_same :
    (token : String) (w : Wallet) (wallets : String → Wallet)
    → with_wallet token w wallets token ≡ w
with_wallet_same token w wallets = rw (eq_refl token) refl

placed-Consistent :
    (ch : Chain) (input : PlaceOrderInput) (q : Prepared) (w : Wallet) (wallets : String → Wallet)
    (resolved : List String)
    → resolve_aliases_to_hex ch.contracts input.path ≡ ok resolved
    → input_token input.side resolved ≡ some q.token
    → input.amount ≤ w.private
    → w.private + w.public ≡ (wallets q.token).private + (wallets q.token).public
    → Consistent ch.contracts input (placed ch input q) wallets (with_wallet q.token w wallets)
unfolding placed
placed-Consistent ch input q w wallets resolved resolves pays enough whole =
    let own = with_wallet_same q.token w wallets in
    record {
      resolved = resolved;
      resolves = resolves;
      pays = pays;
      amount = (refl, refl);
      nonce = (refl, refl);
      order_nonce = refl;
      side = refl;
      path = refl;
      funded = subst (λ x. input.amount ≤ x.private) (sym own) enough;
      whole =
          subst (λ x. x.private + x.public ≡ (wallets q.token).private + (wallets q.token).public)
            (sym own) whole;
    }

-- A submit that returns was funded, and submitted what it was given.
submit-ok :
    (ch : Chain) (input : PlaceOrderInput) (q : Prepared) (funded : Result (List ℕ)) (p : Placed)
    → submit ch input q funded ≡ ok p
    → ((cs : List ℕ) × (funded ≡ ok cs)) × (placed ch input q ≡ p)
unfolding submit
submit-ok ch input q (err e) p h = cc
submit-ok ch input q (ok cs) p h = go ch.send h
  where
    go :
        (how : Sent)
        → (elim (submit_error how ch.other) [ some e ↦ err e | none ↦ ok (placed ch input q) ])
          ≡ ok p
        → ((ds : List ℕ) × (ok cs ≡ ok ds)) × (placed ch input q ≡ p)
    go mined k = ((cs, refl), cc)
    go invalid_proof k = cc
    go refused k = cc

module _ (big_int fr_from_string : String → Option ℕ) (ch : Chain) (input : PlaceOrderInput) where
  -- An order that is placed authorises the token that the caller's side pays on the resolved
  -- path, for the order's amount and under the nonce that is submitted; its result, from which
  -- the reveal is made, has the nonces, the side and the path that were submitted; and its
  -- token's private balance was funded to the amount, private and public together unchanged.
  pub place_order-Consistent :
      (wallets after : String → Wallet) (p : Placed)
      → place_order big_int fr_from_string ch input wallets ≡ (ok p, after)
      → Consistent ch.contracts input p wallets after
  unfolding place_order
  place_order-Consistent wallets after p h =
      elim (Result-cases (prepare big_int fr_from_string ch.contracts input)) [
        | inr (e, q) ↦ let k = rw (place_order, q) at h in cc
        | inl (prep, q) ↦
            finish prep (prepare-Prepares big_int fr_from_string ch.contracts input prep q)
              (rw (place_order, q) at h)
      ]
    where
      finish :
          (prep : Prepared)
          → Prepares big_int fr_from_string ch.contracts input prep
          → after_prepare big_int fr_from_string ch input (ok prep) wallets ≡ (ok p, after)
          → Consistent ch.contracts input p wallets after
      finish prep (resolved, resolves, pays) k =
          let call =
            ensure_private_balance ch.shield ch.other input.amount 1 (wallets prep.token) in
          let ((cs, funded), same) = submit-ok ch input prep call.0 p (ap (λ x. x.0) k) in
          let can =
            leb input.amount (wallets prep.token).private
            || (leb input.amount ((wallets prep.token).private + (wallets prep.token).public)
                && is_mined ch.shield) in
          let (can_pay, enough, notes, gained, whole) =
            subst (λ r. Funds input.amount (wallets prep.token) can (r, call.1)) funded
              (ensure_private_balance-Funds ch.shield ch.other input.amount 1
                (wallets prep.token)) in
          subst (λ x. Consistent ch.contracts input x wallets after) same
            (subst (λ x. Consistent ch.contracts input (placed ch input prep) wallets x)
              (ap (λ x. x.1) k)
              (placed-Consistent ch input prep call.1 wallets resolved resolves pays enough whole))
