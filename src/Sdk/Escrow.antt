-- ===== src/Sdk/Escrow.antt =====
-- Funding an order from the private balance: ensurePrivateBalance, privateBalanceStatus and
-- fundPrivateForOrder of sdk/src/orders.ts. A maker's balances of one token are a wallet; how a
-- sent transaction ends is a parameter. The polls after a transfer change nothing but a warning.
pub mod Notes
use quetzaldex.Prelude.{
  ℕ, zero, suc, ◌+◌, ◌-◌, ◌*◌, ◌/◌, ◌%◌, Bool, true, false, List, [], ◌∷◌, Option, none, some, ltb,
  leb, ◌==◌, if◌then◌else◌, filter, sum_by, String,
}
use quetzaldex.Prelude.Result.{Error, Result, ok, err, ◌>>=◌}
use text.Mathlib.Text
use quetzaldex.Sdk.Paths.{
  Contracts, require_contracts, PlaceOrderInput, validate_place_order_input, EscrowParams,
  escrow_params_for,
}

pub record Wallet : Type 0 where
  pub private : ℕ
  pub public : ℕ

-- The end of a transaction: mined, or refused by the node, for its proof or another reason.
pub data Sent : Type 0 where
  mined invalid_proof refused : Sent

-- rethrowSubmitError
abbrev pub submit_error : Sent → Error → Option Error
submit_error mined other = none
submit_error invalid_proof other = some Error.escrow_failed
submit_error refused other = some other

-- The sizes of the i-th note and of the `left` after it, of which those above 0 are sent.
pub sizes : ℕ → ℕ → ℕ → ℕ → List ℕ
sizes base rem i zero = []
sizes base rem i (suc left) = (base + (if ltb i rem then 1 else 0)) ∷ sizes base rem (suc i) left

unfoldable pub notes : ℕ → ℕ → List ℕ
unfolding sizes
notes need slots =
    let n = if ltb slots 1 then 1 else slots in
    if n == 1 then need ∷ [] else filter (λ c. ltb 0 c) (sizes (need / n) (need % n) 0 n)

abbrev pub total : List ℕ → ℕ
total cs = sum_by (λ c. c) cs

-- What a mined transfer of these notes leaves.
abbrev pub shielded : List ℕ → Wallet → Wallet
shielded cs w = record { private = w.private + total cs; public = w.public - total cs }

unfoldable pub ensure_private_balance : Sent → Error → ℕ → ℕ → Wallet → Result (List ℕ) × Wallet
unfolding notes
ensure_private_balance sent other amount slots w =
    if leb amount w.private
    then (ok [], w)
    else if ltb w.public (amount - w.private)
    then (err Error.escrow_failed, w)
    else elim (submit_error sent other) [
      | some e ↦ (err e, w)
      | none ↦ let cs = notes (amount - w.private) slots in (ok cs, shielded cs w)
    ]

-- The wallets of all tokens, with one changed.
abbrev pub with_wallet : String → Wallet → (String → Wallet) → String → Wallet
with_wallet token w wallets t = if Text.◌==◌ t token then w else wallets t

pub record BalanceStatus : Type 0 where
  pub input_token : String
  pub needed : ℕ
  pub private_balance : ℕ
  pub shortfall : ℕ
  pub sufficient : Bool

-- Whether anything was shielded, and how much is needed; and the wallet afterwards.
unfoldable pub shield_now : Sent → Error → EscrowParams → Wallet → Result (Bool × ℕ) × Wallet
unfolding ensure_private_balance
shield_now sent other params w =
    if leb params.total_amount w.private
    then (ok (false, params.total_amount), w)
    else let (out, after) = ensure_private_balance sent other params.total_amount params.slots w in
      (out >>= λ cs. ok (true, params.total_amount), after)

module _ (big_int : String → Option ℕ) (contracts : Option Contracts) (input : PlaceOrderInput)
    (decoy_count : ℕ) where
  abbrev pub checked_params : Result EscrowParams
  checked_params = do
    valid ← validate_place_order_input input
    c ← require_contracts contracts
    escrow_params_for big_int contracts input decoy_count

  unfoldable pub private_balance_status : (String → Wallet) → Result BalanceStatus
  unfolding escrow_params_for validate_place_order_input
  private_balance_status wallets = do
    params ← checked_params
    let w = wallets params.input_token_hex
    let enough = leb params.total_amount w.private
    ok (record {
      input_token = params.input_token_hex;
      needed = params.total_amount;
      private_balance = w.private;
      shortfall = if enough then 0 else params.total_amount - w.private;
      sufficient = enough;
    })

  unfoldable pub fund_private_for_order :
      Sent → Error → (String → Wallet) → Result (Bool × ℕ) × (String → Wallet)
  unfolding escrow_params_for validate_place_order_input shield_now
  fund_private_for_order sent other wallets = elim checked_params [
    | err e ↦ (err e, wallets)
    | ok params ↦
        let (out, after) = shield_now sent other params (wallets params.input_token_hex) in
        (out, with_wallet params.input_token_hex after wallets)
  ]
