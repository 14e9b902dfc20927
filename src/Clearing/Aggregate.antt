-- ===== src/Clearing/Aggregate.antt =====
-- The flows that are settled on chain: `recoverForwardedFee`, `deriveAggregateFlows` and
-- `computePoolStateCommitment` of aggregator/src/clearing.ts.
pub mod Solvent
pub mod Covered
pub mod Epoch
pub mod Settled
pub mod Total
use quetzaldex.Prelude.{
  ℕ, suc, zero, ◌+◌, ◌*◌, Bool, true, false, not, List, [], ◌∷◌, ◌++◌, Option, ltb, ◌==◌,
  if◌then◌else◌, length, sum_by, get_elem?,
}
use quetzaldex.Prelude.Int.{ℤ, pos}
use quetzaldex.Prelude.Result.{Result, ok, err, ◌>>=◌, ◌>>◌, Error, throw_if, or_fault}
use quetzaldex.FixedPoint.{scale, mul_div}
use quetzaldex.Buckets.{BucketState}
use quetzaldex.Clearing.Types.{BucketDelta}

-- The fees of token A and token B, bucket by bucket.
pub recover_loop : List BucketDelta → List ℕ → ℕ → ℕ → Result (ℕ × ℕ)
recover_loop (d ∷ ds) (l ∷ ls) fee_a fee_b = do
  a ← mul_div d.cum_fee_a_inc l scale
  b ← mul_div d.cum_fee_b_inc l scale
  recover_loop ds ls (fee_a + a) (fee_b + b)
recover_loop ds [] fee_a fee_b = ok (fee_a, fee_b)
recover_loop [] (l ∷ ls) fee_a fee_b = ok (fee_a, fee_b)

pub recover_forwarded_fee : List BucketDelta → List ℕ → Result (ℕ × ℕ)
unfolding recover_loop
recover_forwarded_fee deltas liquidity = do
  throw_if (not (length deltas == length liquidity)) Error.length_mismatch
  recover_loop deltas liquidity 0 0

pub record AggregateFlows : Type 0 where
  pub a_to_pool : ℕ
  pub b_to_pool : ℕ
  pub a_from_pool : ℕ
  pub b_from_pool : ℕ

pub derive_aggregate_flows : List BucketDelta → List ℕ → Result AggregateFlows
unfolding recover_forwarded_fee
derive_aggregate_flows deltas liquidity = do
  fees ← recover_forwarded_fee deltas liquidity
  ok (record {
    a_to_pool = sum_by (λ d. d.reserve_a_add) deltas + fees.0;
    b_to_pool = sum_by (λ d. d.reserve_b_add) deltas + fees.1;
    a_from_pool = sum_by (λ d. d.reserve_a_sub) deltas;
    b_from_pool = sum_by (λ d. d.reserve_b_sub) deltas;
  })

abbrev pub max_buckets : ℕ
max_buckets = 4

pub slot : BucketDelta → BucketState → List ℤ
slot d s =
    pos d.bucket_id
    ∷ s.reserve_a
    ∷ s.reserve_b
    ∷ pos s.liquidity
    ∷ pos s.cum_fee_a_per_share
    ∷ pos s.cum_fee_b_per_share
    ∷ []

pub empty_slot : List ℤ
empty_slot = pos 0 ∷ pos 0 ∷ pos 0 ∷ pos 0 ∷ pos 0 ∷ pos 0 ∷ []

pub active_slot : List BucketState → List BucketDelta → ℕ → Result (List ℤ)
unfolding slot
active_slot states deltas i = do
  d ← or_fault (get_elem? deltas i)
  s ← or_fault (get_elem? states i)
  ok (slot d s)

-- Slot `i`, of an active bucket or padded.
pub slot_at : ℕ → List BucketState → List BucketDelta → ℕ → Result (List ℤ)
unfolding active_slot empty_slot
slot_at active states deltas i = if ltb i active then active_slot states deltas i else ok empty_slot

-- The hashed words: the price, then `slots` slots from slot `i` on.
pub slots_from : ℕ → List BucketState → List BucketDelta → ℕ → ℕ → Result (List ℤ)
unfolding slot_at
slots_from active states deltas zero i = ok []
slots_from active states deltas (suc n) i = do
  s ← slot_at active states deltas i
  rest ← slots_from active states deltas n (suc i)
  ok (s ++ rest)

pub commitment_input : ℕ → List BucketState → List BucketDelta → ℕ → Result (List ℤ)
unfolding slots_from
commitment_input sqrt_p_before states deltas active = do
  slots ← slots_from active states deltas max_buckets 0
  ok (pos sqrt_p_before ∷ slots)

-- The digest, by the hash function of the proof system's library.
module _ (poseidon2 : List ℤ → ℕ) where
  pub pool_state_commitment : ℕ → List BucketState → List BucketDelta → ℕ → Result ℕ
  unfolding commitment_input
  pool_state_commitment sqrt_p_before states deltas active = do
    input ← commitment_input sqrt_p_before states deltas active
    ok (poseidon2 input)
