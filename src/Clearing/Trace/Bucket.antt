-- ===== src/Clearing/Trace/Bucket.antt =====
-- The steps of `traceBucketSwap` of aggregator/src/clearing.ts inside one bucket, with the deltas
-- that they add up.
use quetzaldex.Prelude.{
  ℕ, zero, suc, ◌+◌, ◌-◌, ◌*◌, ◌/◌, Bool, true, false, ◌&&◌, List, [], ◌∷◌, Option, none, some, ltb,
  leb, ◌==◌, if◌then◌else◌, length,
}
use quetzaldex.Prelude.Result.{Result, ok, ◌>>=◌}
use quetzaldex.FixedPoint.{scale, div}
use quetzaldex.Buckets.{
  BucketBounds, next_sqrt_p_up, next_sqrt_p_down, swap_step_out_a, swap_step_out_b,
}
use quetzaldex.Clearing.Types.{BucketDelta}

abbrev pub bucket_fee_bps : ℕ
bucket_fee_bps = 30

abbrev pub bucket_fee_scale : ℕ
bucket_fee_scale = 10_000

abbrev pub max_bucket_hops : ℕ
max_bucket_hops = 4

-- `findIndex`, by the position of the first bucket that holds the price.
unfoldable pub find_bucket : ℕ → List BucketBounds → Option ℕ
find_bucket price [] = none
find_bucket price (b ∷ bs) =
    if leb b.sqrt_lower price && ltb price b.sqrt_upper
    then some 0
    else elim (find_bucket price bs) [ none ↦ none | some i ↦ some (suc i) ]

-- The id -1 is `none`.
unfoldable pub last_id : List BucketBounds → Option ℕ
last_id [] = none
last_id (b ∷ bs) = some (length bs)

unfoldable pub first_lower : List BucketBounds → ℕ
first_lower [] = 0
first_lower (b ∷ bs) = b.sqrt_lower

unfoldable pub start_bucket : ℕ → List BucketBounds → Option ℕ
unfolding find_bucket last_id first_lower
start_bucket price bounds = elim (find_bucket price bounds) [
  | some i ↦ some i
  | none ↦ if ltb price (first_lower bounds) then some 0 else last_id bounds
]

unfoldable pub next_bucket : Bool → ℕ → Option ℕ
next_bucket true id = some (suc id)
next_bucket false zero = none
next_bucket false (suc id) = some id

-- The loop's variables.
pub record TraceState : Type 0 where
  pub in_after_fee : ℕ
  pub cursor : Option ℕ
  pub sqrt_p : ℕ
  pub fee_distributed : ℕ
  pub deltas : List BucketDelta

-- `Map.get` and `Map.set` on the deltas, in insertion order.
unfoldable pub get_delta : ℕ → List BucketDelta → Option BucketDelta
get_delta id [] = none
get_delta id (d ∷ ds) = if d.bucket_id == id then some d else get_delta id ds

unfoldable pub set_delta : BucketDelta → List BucketDelta → List BucketDelta
set_delta v [] = v ∷ []
set_delta v (d ∷ ds) = if d.bucket_id == v.bucket_id then v ∷ ds else d ∷ set_delta v ds

abbrev pub zero_delta : ℕ → BucketDelta
zero_delta id = record {
  bucket_id = id;
  reserve_a_add = 0;
  reserve_a_sub = 0;
  reserve_b_add = 0;
  reserve_b_sub = 0;
  cum_fee_a_inc = 0;
  cum_fee_b_inc = 0;
}

-- `prev?.field ?? 0n`
unfoldable pub prev_delta : ℕ → List BucketDelta → BucketDelta
unfolding get_delta
prev_delta id ds = elim (get_delta id ds) [ none ↦ zero_delta id | some d ↦ d ]

-- The input that moves the price to the bucket's edge.
unfoldable pub step_in_max : Bool → ℕ → BucketBounds → ℕ → Result ℕ
step_in_max true l bounds sqrt_p = div (l * (bounds.sqrt_upper - sqrt_p)) scale
step_in_max false l bounds sqrt_p =
    let denom = sqrt_p * bounds.sqrt_lower / scale in div (l * (sqrt_p - bounds.sqrt_lower)) denom

pub record SwapStep : Type 0 where
  pub step_in : ℕ
  pub step_out : ℕ
  pub sqrt_p_new : ℕ
  pub left : ℕ

unfoldable pub step_out : Bool → ℕ → ℕ → ℕ → Result ℕ
step_out true l p q = swap_step_out_a l p q
step_out false l p q = swap_step_out_b l p q

unfoldable pub next_sqrt_p : Bool → ℕ → ℕ → ℕ → Result ℕ
next_sqrt_p true l p d = next_sqrt_p_up l p d
next_sqrt_p false l p d = next_sqrt_p_down l p d

unfoldable pub far_edge : Bool → BucketBounds → ℕ
far_edge up bounds = if up then bounds.sqrt_upper else bounds.sqrt_lower

unfoldable pub partial_step : Bool → ℕ → ℕ → ℕ → Result SwapStep
partial_step up l sqrt_p input = do
  q ← next_sqrt_p up l sqrt_p input
  out ← step_out up l sqrt_p q
  ok (record { step_in = input; step_out = out; sqrt_p_new = q; left = 0 })

unfoldable pub full_step : Bool → ℕ → BucketBounds → ℕ → ℕ → ℕ → Result SwapStep
unfolding far_edge
full_step up l bounds sqrt_p input max = do
  out ← step_out up l sqrt_p (far_edge up bounds)
  ok (record { step_in = max; step_out = out; sqrt_p_new = far_edge up bounds; left = input - max })

unfoldable pub swap_step : Bool → ℕ → BucketBounds → ℕ → ℕ → Result SwapStep
swap_step up l bounds sqrt_p input = do
  max ← step_in_max up l bounds sqrt_p
  if leb input max then partial_step up l sqrt_p input else full_step up l bounds sqrt_p input max

-- The fee of the step, and its share per unit of liquidity.
unfoldable pub step_fee : ℕ → ℕ → ℕ → SwapStep → Result ℕ
step_fee fee_withheld total distributed s =
    if s.left == 0 then ok (fee_withheld - distributed) else div (fee_withheld * s.step_in) total

unfoldable pub add_step : Bool → BucketDelta → SwapStep → ℕ → BucketDelta
add_step up prev s inc = record {
  bucket_id = prev.bucket_id;
  reserve_a_add = prev.reserve_a_add + (if up then 0 else s.step_in);
  reserve_a_sub = prev.reserve_a_sub + (if up then s.step_out else 0);
  reserve_b_add = prev.reserve_b_add + (if up then s.step_in else 0);
  reserve_b_sub = prev.reserve_b_sub + (if up then 0 else s.step_out);
  cum_fee_a_inc = prev.cum_fee_a_inc + (if up then 0 else inc);
  cum_fee_b_inc = prev.cum_fee_b_inc + (if up then inc else 0);
}

-- The state after a funded bucket.
unfoldable pub after_step : Bool → ℕ → TraceState → SwapStep → ℕ → ℕ → TraceState
unfolding set_delta prev_delta add_step
after_step up id t s fee inc = record {
  in_after_fee = s.left;
  cursor = if s.left == 0 then some id else next_bucket up id;
  sqrt_p = s.sqrt_p_new;
  fee_distributed = t.fee_distributed + fee;
  deltas = set_delta (add_step up (prev_delta id t.deltas) s inc) t.deltas;
}

unfoldable pub skip_bucket : Bool → ℕ → BucketBounds → TraceState → TraceState
unfolding far_edge
skip_bucket up id bounds t = record t { sqrt_p = far_edge up bounds; cursor = next_bucket up id }

unfoldable pub funded_bucket : Bool → ℕ → ℕ → ℕ → ℕ → BucketBounds → TraceState → Result TraceState
unfolding swap_step after_step
funded_bucket up total fee_withheld id l bounds t = do
  s ← swap_step up l bounds t.sqrt_p t.in_after_fee
  fee ← step_fee fee_withheld total t.fee_distributed s
  inc ← div (fee * scale) l
  ok (after_step up id t s fee inc)
