-- ===== src/Router.antt =====
-- Orders over several pools: `computeClearingMultiPair` of aggregator/src/clearing.ts, over the pool
-- registry of aggregator/src/path.ts (Router/Registry).
pub mod Types
pub mod Registry
pub mod Dropped
pub mod Known
pub mod Fills
pub mod Unrouted
mod Tests
pub use quetzaldex.Router.Types.*
use quetzaldex.Prelude.{
  ℕ, suc, zero, ◌+◌, ◌-◌, ◌*◌, ◌/◌, Bool, true, false, not, ◌&&◌, ◌||◌, List, [], ◌∷◌, ◌++◌, Option,
  none, some, ltb, leb, ◌==◌, if◌then◌else◌, length, find, filter,
}
use quetzaldex.Prelude.Result.{Result, ok, err, ◌>>=◌, Error, map_result}
use quetzaldex.Prelude.Map.{lookup, insert, has, add}
use quetzaldex.Prelude.Sort.{sort_by}
use quetzaldex.FixedPoint.{scale, mul_div}
use quetzaldex.Clearing.Types.{ClearingOrder, OrderFill, PoolWithBuckets, BucketDelta}
use quetzaldex.Buckets.{BucketState}
use quetzaldex.Clearing.Compute.{ClearingResultV2, compute_clearing_v2}
use Registry.{PoolRegistryEntry, resolve_pool_id, resolve_hop}

unfoldable pub hops_of : List PoolRegistryEntry → PathLen → ℕ → ℕ → ℕ → Result (List ℕ)
unfolding resolve_hop
hops_of registry two a b c = do h ← resolve_hop registry a b; ok (h ∷ [])
hops_of registry three a b c = do
  h ← resolve_hop registry a b
  k ← resolve_hop registry b c
  ok (h ∷ k ∷ [])

pub route : List PoolRegistryEntry → MultiPairOrder → Result Routed
unfolding hops_of
route registry o = do
  hops ← hops_of registry o.path_len o.path_0 o.path_1 o.path_2
  ok (record { source = o; hops = hops })

abbrev pub is_three : PathLen → Bool
is_three two = false
is_three three = true

-- The two passes before the loop: no order of two hops, none below the dust threshold.
pub drop_two_hops : List Routed → List ℕ → List ℕ
drop_two_hops [] dropped = dropped
drop_two_hops (r ∷ rs) dropped =
    drop_two_hops rs
      (if is_three r.source.path_len then add r.source.order_nonce dropped else dropped)

pub drop_dust : List Routed → List ℕ → List ℕ
drop_dust [] dropped = dropped
drop_dust (r ∷ rs) dropped = drop_dust rs (
    if ltb r.source.amount_in min_fill_amount_in then add r.source.order_nonce dropped else dropped)

-- `perPoolOrders`: the orders that are left, by pool.
push_order : ClearingOrder → ℕ → List (ℕ × List ClearingOrder) → List (ℕ × List ClearingOrder)
push_order o pid m = elim (lookup pid m) [
  | none ↦ insert pid (o ∷ []) m
  | some arr ↦ insert pid (arr ++ o ∷ []) m
]

push_hops : ClearingOrder → List ℕ → List (ℕ × List ClearingOrder) → List (ℕ × List ClearingOrder)
unfolding push_order
push_hops o [] m = m
push_hops o (pid ∷ hops) m = push_hops o hops (push_order o pid m)

pub per_pool_orders :
    List Routed → List ℕ → List (ℕ × List ClearingOrder) → List (ℕ × List ClearingOrder)
unfolding push_hops
per_pool_orders [] dropped m = m
per_pool_orders (r ∷ rs) dropped m =
    per_pool_orders rs dropped
      (if has r.source.order_nonce dropped then m else push_hops r.source.order r.hops m)

pool_clearing : ℕ → ClearingResultV2 → PoolClearing
pool_clearing pid v = record {
  pool_id = pid;
  clearing_price = v.base.clearing_price;
  bucket_deltas = v.bucket_deltas;
  current_sqrt_price_after = v.current_sqrt_price_after;
  bucket_states_before = v.bucket_states_before;
  bucket_states_after = v.bucket_states_after;
  fills = v.base.fills;
}

-- The kernel on each pool's orders; a pool that is not there or does not clear has no entry.
pub run_pools :
    List (ℕ × PoolWithBuckets)
    → List (ℕ × List ClearingOrder)
    → List (ℕ × PoolClearing)
    → Result (List (ℕ × PoolClearing))
unfolding pool_clearing
run_pools pools [] per_pool = ok per_pool
run_pools pools ((pid, orders) ∷ rest) per_pool = elim (lookup pid pools) [
  | none ↦ run_pools pools rest per_pool
  | some pool ↦ do
    v ← compute_clearing_v2 pool orders
    run_pools pools rest
        (if not v.base.cleared then per_pool else insert pid (pool_clearing pid v) per_pool)
]

-- Does an order of two hops cross its limit at the composite price?
composite_ok : Bool → ℕ → ℕ → Bool
composite_ok false limit composite = leb composite limit
composite_ok true limit composite = leb limit composite

clearing_of : List (ℕ × PoolClearing) → Option ℕ → Option PoolClearing
clearing_of per_pool none = none
clearing_of per_pool (some pid) = lookup pid per_pool

pub hop_0 : List ℕ → Option ℕ
hop_0 [] = none
hop_0 (h ∷ hs) = some h

hop_1 : List ℕ → Option ℕ
hop_1 [] = none
hop_1 (h ∷ hs) = hop_0 hs

-- May the order stay?
pub stays : List (ℕ × PoolClearing) → Routed → Result Bool
unfolding composite_ok clearing_of hop_0 hop_1
stays per_pool r = elim (clearing_of per_pool (hop_0 r.hops)) [
  | none ↦ ok false
  | some p0 ↦ elim (clearing_of per_pool (hop_1 r.hops)) [
    | none ↦ ok false
    | some p1 ↦ do
      composite ← mul_div p0.clearing_price p1.clearing_price scale
      ok (composite_ok r.source.side r.source.limit_price composite)
  ]
]

-- The composite-eligibility pass, and whether it dropped an order.
pub composite_pass : List (ℕ × PoolClearing) → List Routed → List ℕ → Bool → Result (List ℕ × Bool)
unfolding stays
composite_pass per_pool [] dropped new_drops = ok (dropped, new_drops)
composite_pass per_pool (r ∷ rs) dropped new_drops =
    elim (is_three r.source.path_len && not (has r.source.order_nonce dropped)) [
      | false ↦ composite_pass per_pool rs dropped new_drops
      | true ↦ do
        keep ← stays per_pool r
        composite_pass per_pool rs (if keep then dropped else add r.source.order_nonce dropped)
            (new_drops || not keep)
    ]

pub record LoopState : Type 0 where
  pub dropped : List ℕ
  pub per_pool : List (ℕ × PoolClearing)

-- The fixed-point loop: `first` is `iter == 0`, `prev` the size before the last round.
pub multi_loop :
    List (ℕ × PoolWithBuckets) → List Routed → ℕ → Bool → ℕ → LoopState → Result LoopState
unfolding per_pool_orders run_pools composite_pass
multi_loop pools routed zero first prev s = ok s
multi_loop pools routed (suc iters) first prev s = elim (not first && (length s.dropped == prev)) [
  | true ↦ ok s
  | false ↦ do
    per_pool ← run_pools pools (per_pool_orders routed s.dropped []) []
    (dropped, new_drops) ← composite_pass per_pool routed s.dropped false
    let next : LoopState = record { dropped = dropped; per_pool = per_pool }
    elim (not new_drops && not first) [
      | true ↦ ok next
      | false ↦ multi_loop pools routed iters false (length s.dropped) next
    ]
]

-- The kernel's payout of an order.
kernel_fill : Routed → PoolClearing → Option OrderFill
kernel_fill r pr = find (λ f. f.order_nonce == r.source.order_nonce) pr.fills

hop_fill : Routed → ℕ → OrderFill → HopFill
hop_fill r pid kf = record {
  order_nonce = r.source.order_nonce;
  hop_index = 0;
  amount_out = kf.amount_out;
  pool_id = pid;
  owner = r.source.owner;
}

-- The fill of one order: none if it was dropped, its pool did not clear, or the kernel left it out.
pub emit_fill : List ℕ → List (ℕ × PoolClearing) → Routed → Option HopFill
unfolding kernel_fill hop_fill hop_0
emit_fill dropped per_pool r =
    if has r.source.order_nonce dropped then none else elim (hop_0 r.hops) [
      | none ↦ none
      | some pid ↦ elim (lookup pid per_pool) [
        | none ↦ none
        | some pr ↦ elim (kernel_fill r pr) [ none ↦ none | some kf ↦ some (hop_fill r pid kf) ]
      ]
    ]

pub emit_fills : List ℕ → List (ℕ × PoolClearing) → List Routed → List HopFill
unfolding emit_fill
emit_fills dropped per_pool [] = []
emit_fills dropped per_pool (r ∷ rs) =
    let rest = emit_fills dropped per_pool rs in
    elim (emit_fill dropped per_pool r) [ none ↦ rest | some f ↦ f ∷ rest ]

abbrev le_pool : PoolClearing → PoolClearing → Bool
le_pool x y = leb x.pool_id y.pool_id

pub values : List (ℕ × PoolClearing) → List PoolClearing
values [] = []
values ((pid, c) ∷ m) = c ∷ values m

pub finish : List Routed → LoopState → MultiPairResult
unfolding emit_fills values
finish routed s =
    if length s.per_pool == 0
    then record { cleared = false; active_pool_count = 0; per_pool_clearings = []; fills = [] }
    else record {
      cleared = true;
      active_pool_count = length s.per_pool;
      per_pool_clearings = sort_by le_pool (values s.per_pool);
      fills = emit_fills s.dropped s.per_pool routed;
    }

-- The orders dropped before the loop.
pub initial_dropped : List Routed → List ℕ
unfolding drop_two_hops drop_dust
initial_dropped routed = drop_dust routed (drop_two_hops routed [])

pub compute_clearing_multi_pair :
    List MultiPairOrder
    → List (ℕ × PoolWithBuckets)
    → List PoolRegistryEntry
    → Result MultiPairResult
unfolding route initial_dropped multi_loop finish
compute_clearing_multi_pair orders pools registry = do
  routed ← map_result (route registry) orders
  s ←
      multi_loop pools routed multi_pair_max_iters true 0
        (record { dropped = initial_dropped routed; per_pool = [] })
  ok (finish routed s)

-- The payout of a hop at the uniform price, after the fee.
pub hop_payout : ℕ → ℕ → Bool → Result ℕ
hop_payout amount p true = do
  gross ← mul_div amount p scale
  ok (gross * (hop_fee_den - hop_fee_num) / hop_fee_den)
hop_payout amount p false = do
  gross ← mul_div amount scale p
  ok (gross * (hop_fee_den - hop_fee_num) / hop_fee_den)
