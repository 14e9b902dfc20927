-- ===== src/Sdk/Claim.antt =====
-- Claiming an order's fills: hopProofToClaimArgs and claimFill of sdk/src/orders.ts, over the
-- answers of the chain and the aggregator.
pub mod Claims
use quetzaldex.Prelude.{
  ℕ, zero, suc, Bool, true, false, not, ◌&&◌, List, [], ◌∷◌, ◌++◌, Option, none, some, ◌==◌,
  if◌then◌else◌, length, String,
}
use quetzaldex.Prelude.Result.{Error, Result, ok, err, ◌>>=◌, throw_if, or_fault, map_result}
use quetzaldex.Sdk.Paths.{
  Contracts, require_contracts, OrderSide, PlaceOrderInput, validate_place_order_input,
  resolve_aliases_to_hex, canonicalize_path, path_hex_to_fields, PathTriple, is_sell, input_token,
  number,
}
use quetzaldex.Sdk.Escrow.{
  Wallet, Sent, mined, invalid_proof, refused, submit_error, ensure_private_balance, with_wallet,
}

-- A leaf of the aggregator's proof, and the arguments of claim_fill.
pub record HopProofLeaf : Type 0 where
  pub order_nonce : String
  pub hop_index : ℕ
  pub amount_out : String
  pub pool_id : ℕ
  pub leaf_index : ℕ
  pub sibling_path : List String

pub record ClaimFillArgs : Type 0 where
  pub epoch_id : ℕ
  pub order_nonce : ℕ
  pub hop_index : ℕ
  pub amount_out : ℕ
  pub pool_id : ℕ
  pub leaf_index : ℕ
  pub sibling_path : List ℕ

-- What a send without `catch` throws is thrown on.
abbrev pub plain_error : Sent → Error → Option Error
plain_error mined other = none
plain_error invalid_proof other = some other
plain_error refused other = some other

-- A known decoy is skipped; a proof with no fill throws.
pub data Claim : Type 0 where
  skipped : Claim
  claimed : ℕ → Claim

module _ (big_int fr_from_string : String → Option ℕ) where
  unfoldable pub hop_proof_to_claim_args : HopProofLeaf → ℕ → Result ClaimFillArgs
  hop_proof_to_claim_args leaf epoch_id = do
    deep ← throw_if (not (length leaf.sibling_path == 6)) Error.invalid_path
    nonce ← number (fr_from_string leaf.order_nonce)
    amount ← number (big_int leaf.amount_out)
    siblings ← map_result (λ s. number (fr_from_string s)) leaf.sibling_path
    ok (record {
      epoch_id = epoch_id;
      order_nonce = nonce;
      hop_index = leaf.hop_index;
      amount_out = amount;
      pool_id = leaf.pool_id;
      leaf_index = leaf.leaf_index;
      sibling_path = siblings;
    })

  -- One transaction for each leaf in turn; an error stops the rest and leaves those sent.
  abbrev pub sent_then :
      Sent → Error → ClaimFillArgs → Result ℕ × List ClaimFillArgs → Result ℕ × List ClaimFillArgs
  sent_then how other a (r, later) = elim (plain_error how other) [
    | some e ↦ (err e, [])
    | none ↦ (r >>= λ n. ok (suc n), a ∷ later)
  ]

  abbrev pub claim_then :
      Sent
      → Error
      → Result ClaimFillArgs
      → Result ℕ × List ClaimFillArgs
      → Result ℕ × List ClaimFillArgs
  claim_then how other (err e) rest = (err e, [])
  claim_then how other (ok a) rest = sent_then how other a rest

  -- How many hops were claimed, and the transactions that were mined.
  unfoldable pub claim_hops :
      (ℕ → Sent) → Error → ℕ → ℕ → List HopProofLeaf → Result ℕ × List ClaimFillArgs
  unfolding hop_proof_to_claim_args
  claim_hops sends other epoch_id i [] = (ok 0, [])
  claim_hops sends other epoch_id i (leaf ∷ fills) =
      let rest = claim_hops sends other epoch_id (suc i) fills in
      claim_then (sends i) other (hop_proof_to_claim_args leaf epoch_id) rest

  abbrev pub claim_proof :
      (ℕ → Sent) → Error → Result (ℕ × List HopProofLeaf) → Result Claim × List ClaimFillArgs
  unfolding claim_hops
  claim_proof sends other (err e) = (err e, [])
  claim_proof sends other (ok (epoch_id, [])) = (err Error.invalid_path, [])
  claim_proof sends other (ok (epoch_id, leaf ∷ fills)) =
      let (r, done) = claim_hops sends other epoch_id 0 (leaf ∷ fills) in
      (r >>= λ n. ok (claimed n), done)

  unfoldable pub claim_fill :
      (ℕ → Sent)
      → Error
      → Option Contracts
      → Bool
      → Bool
      → Result (ℕ × List HopProofLeaf)
      → Result Claim × List ClaimFillArgs
  unfolding claim_proof
  claim_fill sends other contracts filter_decoys known_decoy proof =
      elim (require_contracts contracts) [
        | err e ↦ (err e, [])
        | ok c ↦
            if filter_decoys && known_decoy then (ok skipped, []) else claim_proof sends other proof
      ]
