-- ===== src/Clearing/OneSided.antt =====
-- The price of a one-sided book: `oneSidedClearingPrice` of aggregator/src/clearing.ts. The pool is the
-- only counterparty, so the price is the realized price of the eligible volume, refined until the
-- orders eligible at the price are those that it was computed from.
pub mod FixedPoint
use quetzaldex.Prelude.{
  ℕ, suc, zero, ◌+◌, ◌-◌, ◌*◌, ◌/◌, Bool, true, false, ◌||◌, not, List, [], ◌∷◌, Option, none, some,
  leb, ◌==◌, if◌then◌else◌, filter, any, length, sum_by,
}
use quetzaldex.Prelude.Int.{ℤ, pos, negsuc}
use quetzaldex.Prelude.Result.{Result, ok, err, ◌>>=◌}
use quetzaldex.Prelude.Sort.{sort_by}
use quetzaldex.FixedPoint.{scale, mul_div}
use quetzaldex.Clearing.Types.{ClearingOrder, PoolWithBuckets}
use quetzaldex.Clearing.NetSwap.{bucket_net_swap}
use quetzaldex.Clearing.Price.{amount_in}

abbrev pub hop_fee_num : ℕ
hop_fee_num = 30

abbrev pub hop_fee_den : ℕ
hop_fee_den = 10_000

abbrev pub hop_after_fee : ℕ → ℕ
hop_after_fee x = x * (hop_fee_den - hop_fee_num) / hop_fee_den

abbrev pub negate : ℕ → ℤ
negate zero = pos 0
negate (suc n) = negsuc n

-- Of the side of the book, and within its limit at `p`.
unfoldable pub on_side : Bool → ClearingOrder → Bool
on_side true o = o.side
on_side false o = not o.side

unfoldable pub accepts : Bool → ℕ → ClearingOrder → Bool
accepts true p o = leb o.limit_price p
accepts false p o = leb p o.limit_price

-- Sells by rising limit, buys by falling limit.
unfoldable pub limit_le : Bool → ClearingOrder → ClearingOrder → Bool
limit_le true a b = leb a.limit_price b.limit_price
limit_le false a b = leb b.limit_price a.limit_price

unfoldable pub candidates : Bool → List ClearingOrder → List ClearingOrder
unfolding on_side limit_le
candidates sells batch = sort_by (limit_le sells) (filter (on_side sells) batch)

-- The pool's price for the volume `sum_in`; `none` where it cannot take the volume or pays nothing.
unfoldable pub realized : PoolWithBuckets → Bool → ℕ → Result (Option ℕ)
realized pool true sum_in = do
  swap ← bucket_net_swap pool (negate sum_in) scale
  if swap.saturated || (swap.amm_a_out == 0)
      then ok none
      else do p ← mul_div swap.amm_a_out scale (hop_after_fee sum_in); ok (some p)
realized pool false sum_in = do
  swap ← bucket_net_swap pool (pos sum_in) scale
  if swap.saturated || (swap.amm_b_out == 0)
      then ok none
      else do p ← mul_div (hop_after_fee sum_in) scale swap.amm_b_out; ok (some p)

-- The price of a set of orders, or `none` where there is no volume after the fee.
unfoldable pub price_of : PoolWithBuckets → Bool → List ClearingOrder → Result (Option ℕ)
unfolding realized
price_of pool sells [] = ok none
price_of pool sells (o ∷ os) =
    let sum_in = sum_by amount_in (o ∷ os) in
    if hop_after_fee sum_in == 0 then ok none else realized pool sells sum_in

-- A pass at price `p`: `next` is what is eligible there. A set of a size seen before is an oscillation;
-- otherwise `k` goes on with `next`.
unfoldable pub settle_pass :
    (List ClearingOrder → List ℕ → Result (Option ℕ))
    → ℕ
    → List ClearingOrder
    → ℕ
    → List ℕ
    → Result (Option ℕ)
settle_pass k p next size seen = elim (length next == size) [
  | true ↦ ok (some p)
  | false ↦ elim (any (λ n. n == length next) seen) [
    | true ↦ ok none
    | false ↦ k next (length next ∷ seen)
  ]
]

unfoldable pub priced_pass :
    (List ClearingOrder → List ℕ → Result (Option ℕ))
    → Bool
    → List ClearingOrder
    → ℕ
    → List ℕ
    → Option ℕ
    → Result (Option ℕ)
unfolding settle_pass
priced_pass k sells original size seen none = ok none
priced_pass k sells original size seen (some p) =
    settle_pass k p (filter (accepts sells p) original) size seen

unfoldable pub refine :
    PoolWithBuckets
    → Bool
    → List ClearingOrder
    → ℕ
    → List ClearingOrder
    → List ℕ
    → Result (Option ℕ)
unfolding priced_pass
refine pool sells original zero current seen = ok none
refine pool sells original (suc passes) current seen = do
  price ← price_of pool sells current
  priced_pass (refine pool sells original passes) sells original (length current) seen price

unfoldable pub one_sided_clearing_price :
    PoolWithBuckets → List ClearingOrder → Bool → Result (Option ℕ)
unfolding candidates price_of refine accepts
one_sided_clearing_price pool batch sells =
    let original = candidates sells batch in
    if length original == 0
    then ok none
    else refine pool sells original (suc (suc (length original))) original (length original ∷ [])
