-- ===== src/Clearing/Price.antt =====
-- The uniform clearing price: `clearingAt`, `findClearingPrice` and `oneSidedClearingPrice` of
-- aggregator/src/clearing.ts. `none` is the source's `null`.
pub mod Eligible
pub mod Search
use quetzaldex.Prelude.{
  ℕ, suc, zero, ◌+◌, ◌-◌, ◌*◌, ◌/◌, Bool, true, false, not, ◌&&◌, ◌||◌, List, [], ◌∷◌, Option, none,
  some, ltb, leb, ◌==◌, if◌then◌else◌, filter, any, length, sum_by,
}
use quetzaldex.Prelude.Int.{ℤ, pos, negsuc, sub_ℕ, ltb_ℤ}
use quetzaldex.Prelude.Result.{Result, ok, err, ◌>>=◌, Error}
use quetzaldex.Prelude.Sort.{sort_by}
use quetzaldex.FixedPoint.{scale, mul_div}
use quetzaldex.Buckets.{BucketBounds, BucketState}
use quetzaldex.Clearing.Types.{ClearingOrder, PoolWithBuckets, NetSwap, PriceEval}
use quetzaldex.Clearing.NetSwap.{bucket_net_swap}

abbrev pub price_band : ℕ
price_band = 100

abbrev pub tolerance : ℕ
tolerance = 1_000_000_000

abbrev pub max_iters : ℕ
max_iters = 128

-- A buy is eligible at `p` if it would pay that much, a sell if it would accept it.
abbrev pub buys_at : ℕ → ClearingOrder → Bool
buys_at p o = not o.side && leb p o.limit_price

abbrev pub sells_at : ℕ → ClearingOrder → Bool
sells_at p o = o.side && leb o.limit_price p

abbrev pub amount_in : ClearingOrder → ℕ
amount_in o = o.amount_in

unfoldable pub clearing_at : PoolWithBuckets → List ClearingOrder → ℕ → Result PriceEval
clearing_at pool batch p = do
  let buys = filter (buys_at p) batch
  let sells = filter (sells_at p) batch
  valued ← mul_div (sum_by amount_in sells) p scale
  let net_a = sub_ℕ (sum_by amount_in buys) valued
  swap ← bucket_net_swap pool net_a p
  ok (record { net_a = net_a; swap = swap; eligible_buys = buys; eligible_sells = sells })

-- `pool.bucketStates.filter(...)` is not empty.
unfoldable pub has_funded : List BucketState → List BucketBounds → Bool
has_funded [] bounds = false
has_funded (b ∷ bs) [] = false
has_funded (b ∷ bs) (c ∷ cs) = ltb 0 b.liquidity || has_funded bs cs

unfoldable pub price_at : ℕ → Result ℕ
price_at s = mul_div s s scale

-- The running minimum and maximum; -1, the unset value, is `none`.
unfoldable pub widen : Option (ℕ × ℕ) → ℕ → ℕ → ℕ × ℕ
widen none pl ph = (pl, ph)
widen (some (lo, hi)) pl ph = (if ltb pl lo then pl else lo, if ltb hi ph then ph else hi)

unfoldable pub price_bands :
    List BucketState → List BucketBounds → Option (ℕ × ℕ) → Result (Option (ℕ × ℕ))
unfolding price_at widen
price_bands [] bounds band = ok band
price_bands (b ∷ bs) [] band =
    if b.liquidity == 0 then price_bands bs [] band else err Error.type_error
price_bands (b ∷ bs) (c ∷ cs) band = elim (b.liquidity == 0) [
  | true ↦ price_bands bs cs band
  | false ↦ do
    pl ← price_at c.sqrt_lower
    ph ← price_at c.sqrt_upper
    price_bands bs cs (some (widen band pl ph))
]

pub data Probe : Type 0 where
  residual : ℤ → Probe
  too_high too_low gap : Probe

unfoldable pub has_buys : List ClearingOrder → Bool
has_buys = any (λ o. not o.side)

unfoldable pub has_sells : List ClearingOrder → Bool
has_sells = any (λ o. o.side)

abbrev is_empty : List ClearingOrder → Bool
is_empty [] = true
is_empty (o ∷ os) = false

-- What a probed price tells, where it evaluated to `ev`.
unfoldable pub judge : List ClearingOrder → ℕ → PriceEval → Probe
unfolding has_buys has_sells
judge batch p ev =
    if is_empty ev.eligible_buys && is_empty ev.eligible_sells
    then if has_buys batch && has_sells batch
      then gap
      else if has_buys batch
      then too_high
      else too_low
    else if ev.swap.saturated
    then if ltb_ℤ (pos 0) ev.net_a then too_low else too_high
    else residual (sub_ℕ ev.swap.realized_p p)

unfoldable pub probe : PoolWithBuckets → List ClearingOrder → ℕ → Result Probe
unfolding clearing_at judge
probe pool batch p = do ev ← clearing_at pool batch p; ok (judge batch p ev)

-- The lower end must sit at or below the root, the upper at or above.
abbrev lo_ok : Probe → Bool
lo_ok too_low = true
lo_ok (residual (pos n)) = true
lo_ok _ = false

abbrev hi_ok : Probe → Bool
hi_ok too_high = true
hi_ok (residual (pos zero)) = true
hi_ok (residual (negsuc n)) = true
hi_ok _ = false

abbrev is_gap : Probe → Bool
is_gap gap = true
is_gap _ = false

abbrev is_close : ℤ → Bool
is_close (pos n) = leb n tolerance
is_close (negsuc n) = leb (suc n) tolerance

abbrev is_positive : ℤ → Bool
is_positive r = ltb_ℤ (pos 0) r

abbrev is_residual : Probe → Bool
is_residual (residual r) = true
is_residual _ = false

-- At the end of the search: an endpoint that has eligible orders.
unfoldable pub endpoint : PoolWithBuckets → List ClearingOrder → ℕ → ℕ → Result (Option ℕ)
unfolding probe
endpoint pool batch lo hi = do
  l ← probe pool batch lo
  if is_residual l
      then ok (some lo)
      else do h ← probe pool batch hi; ok (if is_residual h then some hi else none)

-- A round narrows the interval, and goes on by `k` while it is wider than 1.
unfoldable pub narrow :
    PoolWithBuckets → List ClearingOrder → (ℕ → ℕ → Result (Option ℕ)) → ℕ → ℕ → Result (Option ℕ)
unfolding endpoint
narrow pool batch k lo hi = elim (leb (hi - lo) 1) [
  | true ↦ endpoint pool batch lo hi
  | false ↦ k lo hi
]

unfoldable pub steer :
    PoolWithBuckets
    → List ClearingOrder
    → (ℕ → ℕ → Result (Option ℕ))
    → ℕ
    → ℕ
    → ℕ
    → Probe
    → Result (Option ℕ)
unfolding narrow
steer pool batch k lo hi mid gap = ok none
steer pool batch k lo hi mid too_low = narrow pool batch k mid hi
steer pool batch k lo hi mid too_high = narrow pool batch k lo mid
steer pool batch k lo hi mid (residual r) =
    if is_close r
    then ok (some mid)
    else if is_positive r
    then narrow pool batch k mid hi
    else narrow pool batch k lo mid

unfoldable pub bisect : PoolWithBuckets → List ClearingOrder → ℕ → ℕ → ℕ → Result (Option ℕ)
unfolding steer
bisect pool batch zero lo hi = ok none
bisect pool batch (suc n) lo hi = do
  let mid = (lo + hi) / 2
  m ← probe pool batch mid
  steer pool batch (bisect pool batch n) lo hi mid m

-- The search of a book with both sides, or none.
unfoldable pub two_sided_price : PoolWithBuckets → List ClearingOrder → ℕ → ℕ → Result (Option ℕ)
unfolding bisect
two_sided_price pool batch lo hi = do
  l ← probe pool batch lo
  h ← probe pool batch hi
  if is_gap l || is_gap h
      then ok none
      else if not (lo_ok l) || not (hi_ok h)
      then ok none
      else bisect pool batch max_iters lo hi
