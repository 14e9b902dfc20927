-- ===== src/Sdk/Claim/Claims.antt =====
-- What a claim sends.
use quetzaldex.Prelude.{
  ℕ, suc, ◌<◌, ◌≡◌, refl, ap, List, [], ◌∷◌, Option, length, take, String, arith, inl, inr,
}
use quetzaldex.Prelude.Result.{Error, Result, ok, err, ◌>>=◌, map_result, Result-cases}
use quetzaldex.Sdk.Escrow.{Sent, mined, invalid_proof, refused}
use quetzaldex.Sdk.Claim.{
  HopProofLeaf, ClaimFillArgs, hop_proof_to_claim_args, sent_then, claim_hops,
}

module _ (big_int fr_from_string : String → Option ℕ) (epoch_id : ℕ) where
  abbrev pub args_of : HopProofLeaf → Result ClaimFillArgs
  args_of leaf = hop_proof_to_claim_args big_int fr_from_string leaf epoch_id

  -- All the leaves in turn, or those before the one that failed.
  abbrev pub Claims : List HopProofLeaf → Result ℕ × List ClaimFillArgs → Type 0
  Claims fills (ok n, done) = (n ≡ length fills) × (map_result args_of fills ≡ ok done)
  Claims fills (err e, done) =
      (length done < length fills) × (map_result args_of (take (length done) fills) ≡ ok done)

  next-Claims :
      (leaf : HopProofLeaf) (fills : List HopProofLeaf) (a : ClaimFillArgs)
      → args_of leaf ≡ ok a
      → (rest : Result ℕ × List ClaimFillArgs) → Claims fills rest
      → Claims (leaf ∷ fills) (rest.0 >>= λ n. ok (suc n), a ∷ rest.1)
  next-Claims leaf fills a e (ok n, done) h = (ap suc h.0, rw (e, h.1) refl)
  next-Claims leaf fills a e (err thrown, done) h = (omega (arith, h.0), rw (e, h.1) refl)

  sent_then-Claims :
      (leaf : HopProofLeaf) (fills : List HopProofLeaf) (a : ClaimFillArgs)
      → args_of leaf ≡ ok a
      → (how : Sent) (other : Error) (rest : Result ℕ × List ClaimFillArgs) → Claims fills rest
      → Claims (leaf ∷ fills) (sent_then big_int fr_from_string how other a rest)
  sent_then-Claims leaf fills a e mined other rest h = next-Claims leaf fills a e rest h
  sent_then-Claims leaf fills a e invalid_proof other rest h = (omega arith, refl)
  sent_then-Claims leaf fills a e refused other rest h = (omega arith, refl)

  pub claim_hops-Claims :
      (sends : ℕ → Sent) (other : Error) (i : ℕ) (fills : List HopProofLeaf)
      → Claims fills (claim_hops big_int fr_from_string sends other epoch_id i fills)
  unfolding claim_hops
  claim_hops-Claims sends other i [] = (refl, refl)
  claim_hops-Claims sends other i (leaf ∷ fills) = elim (Result-cases (args_of leaf)) [
    | inr (e, q) ↦ rw (claim_hops, q) (omega arith, refl)
    | inl (a, q) ↦
        rw (claim_hops, q)
          (sent_then-Claims leaf fills a q (sends i) other
            (claim_hops big_int fr_from_string sends other epoch_id (suc i) fills)
            (claim_hops-Claims sends other (suc i) fills))
  ]
