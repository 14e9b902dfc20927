-- ===== src/Router/Fills.antt =====
-- What stands behind each fill of a result: an order of one hop that is not dust, and the payout of
-- its pool's clearing.
use quetzaldex.Prelude.{
  ℕ, ◌≤◌, ◌≡◌, ==_iff, refl, true, false, List, [], ◌∷◌, none, some, arith, inl, inr, ltb, ltb→ge,
  ◌==◌, length, All, All-map, Bool-cases, Option-cases, subst, ap, Some, Some-map, find-Some,
}
use quetzaldex.Prelude.Result.{ok, >>=-eq-ok, map_result}
use quetzaldex.Prelude.Map.{lookup, has}
use quetzaldex.Prelude.Sort.{sort_by-Some}
use quetzaldex.Clearing.Types.{OrderFill, PoolWithBuckets}
use quetzaldex.Router.Registry.{PoolRegistryEntry, resolve_hop}
use quetzaldex.Router.Dropped.{
  Gone, Swept, initial_dropped-Gone, initial_dropped-Swept,
  compute_clearing_multi_pair-single_round, single_round,
}
use quetzaldex.Router.Known.{Keyed, run_pools-Keyed, lookup-values, From, routed-From}
use quetzaldex.Router.{
  MultiPairOrder, HopFill, PoolClearing, Routed, LoopState, MultiPairResult, PathLen, two, three,
  is_three, min_fill_amount_in, initial_dropped, run_pools, values, le_pool, per_pool_orders,
  emit_fill, emit_fills, kernel_fill, hop_0, hop_fill, finish, compute_clearing_multi_pair, route,
}

-- The order that a fill names: of one hop, above the threshold, routed through the fill's pool.
pub record Placed (registry : List PoolRegistryEntry) (f : HopFill) (o : MultiPairOrder)
    : Type 0 where
  pub nonce : f.order_nonce ≡ o.order_nonce
  pub owner : f.owner ≡ o.owner
  pub one_hop : o.path_len ≡ two
  pub not_dust : min_fill_amount_in ≤ o.amount_in
  pub pool : resolve_hop registry o.path_0 o.path_1 ≡ ok f.pool_id

-- The pool's clearing pays the fill's nonce the fill's amount.
abbrev pub Paid : HopFill → PoolClearing → Type 0
Paid f c =
    (c.pool_id ≡ f.pool_id)
    × Some (λ k. (k.order_nonce ≡ f.order_nonce) × (k.amount_out ≡ f.amount_out)) c.fills

-- What stands behind a fill: its order, and its pool's payout.
abbrev pub Backed :
    List PoolRegistryEntry → List MultiPairOrder → List PoolClearing → HopFill → Type 0
Backed registry orders clearings f =
    (f.hop_index ≡ 0) × Some (Placed registry f) orders × Some (Paid f) clearings

module _ (registry : List PoolRegistryEntry) (orders : List MultiPairOrder) (s : List ℕ)
    (m : List (ℕ × PoolClearing)) (keyed : All Keyed m) where
  backed :
      (r : Routed) (pid : ℕ) (c : PoolClearing) (k : OrderFill)
      → has r.source.order_nonce s ≡ false
      → hop_0 r.hops ≡ some pid
      → lookup pid m ≡ some c
      → kernel_fill r c ≡ some k
      → From registry orders r
      → Gone s r
      → Swept s r
      → Backed registry orders (values m) (hop_fill r pid k)
  unfolding kernel_fill hop_fill
  backed r pid c k kept first entry found from gone swept =
      let (nonce, paid) = find-Some (λ f. f.order_nonce == r.source.order_nonce) c.fills k found in
      let one : r.source.path_len ≡ two = one_hop r.source.path_len (λ t. gone t) in
      let big : min_fill_amount_in ≤ r.source.amount_in = big_enough in
      (
        refl,
        Some-map orders
            (λ o e. rw e (record {
              nonce = refl;
              owner = refl;
              one_hop = one;
              not_dust = big;
              pool = from.1 pid first;
            }))
            from.0,
        Some-map (values m)
            (λ d h. (
              h.0,
              rw h.1 (
                  Some-map c.fills
                    (λ x e. (
                      rw e ((==_iff k.order_nonce r.source.order_nonce).0 nonce),
                      ap (λ y. y.amount_out) e,
                    ))
                    paid),
            ))
            (lookup-values pid m c keyed entry),
      )
    where
      one_hop : (n : PathLen) → (is_three n ≡ true → has r.source.order_nonce s ≡ true) → n ≡ two
      one_hop two h = refl
      one_hop three h = let e = h refl in cc

      big_enough : min_fill_amount_in ≤ r.source.amount_in
      big_enough = elim (Bool-cases (ltb r.source.amount_in min_fill_amount_in)) [
        | inl e ↦ let q = swept e in cc
        | inr e ↦ ltb→ge r.source.amount_in min_fill_amount_in e
      ]

  emit_fill-Backed :
      (r : Routed) (f : HopFill)
      → emit_fill s m r ≡ some f
      → From registry orders r
      → Gone s r
      → Swept s r
      → Backed registry orders (values m) f
  unfolding emit_fill
  emit_fill-Backed r f h from gone swept = elim (Bool-cases (has r.source.order_nonce s)) [
    | inl e ↦ let n : none ≡ some f = rw (e, emit_fill) at h in cc
    | inr e ↦ elim (Option-cases (hop_0 r.hops)) [
      | inl a ↦ let n : none ≡ some f = rw (e, a, emit_fill) at h in cc
      | inr (pid, a) ↦ elim (Option-cases (lookup pid m)) [
        | inl b ↦ let n : none ≡ some f = rw (e, a, b, emit_fill) at h in cc
        | inr (c, b) ↦ elim (Option-cases (kernel_fill r c)) [
          | inl g ↦ let n : none ≡ some f = rw (e, a, b, g, emit_fill) at h in cc
          | inr (k, g) ↦
              let n : some (hop_fill r pid k) ≡ some f = rw (e, a, b, g, emit_fill) at h in
              let q : hop_fill r pid k ≡ f = cc in
              rw (← q) (backed r pid c k e a b g from gone swept)
        ]
      ]
    ]
  ]

  emit_fills-Backed :
      (rs : List Routed)
      → All (From registry orders) rs
      → All (Gone s) rs
      → All (Swept s) rs
      → All (Backed registry orders (values m)) (emit_fills s m rs)
  unfolding emit_fills
  emit_fills-Backed [] h g w = tt
  emit_fills-Backed (r ∷ rs) h g w =
      let rest = emit_fills-Backed rs h.1 g.1 w.1 in
      elim (Option-cases (emit_fill s m r)) [
        | inl e ↦ rw (emit_fills, e) rest
        | inr (f, e) ↦ rw (emit_fills, e) (emit_fill-Backed r f e h.0 g.0 w.0, rest)
      ]

finish-Backed :
    (registry : List PoolRegistryEntry) (orders : List MultiPairOrder) (rs : List Routed)
    (t : LoopState)
    → All Keyed t.per_pool
    → All (From registry orders) rs
    → All (Gone t.dropped) rs
    → All (Swept t.dropped) rs
    → All (Backed registry orders (finish rs t).per_pool_clearings) (finish rs t).fills
unfolding finish
finish-Backed registry orders rs t keyed h g w = elim (Bool-cases (length t.per_pool == 0)) [
  | inl e ↦ rw (finish, e) tt
  | inr e ↦
      rw (finish, e)
        (All-map (emit_fills t.dropped t.per_pool rs)
          (λ f b. (b.0, b.1, sort_by-Some le_pool (Paid f) (values t.per_pool) b.2))
          (emit_fills-Backed registry orders t.dropped t.per_pool keyed rs h g w))
]

-- Every fill of a multi-pair clearing is the first hop of an order of one hop of at least 100,000
-- units, with that order's nonce and owner and in the pool of its pair; its amount is the one
-- that a clearing of the result pays for that nonce in that pool.
pub compute_clearing_multi_pair-Backed :
    (orders : List MultiPairOrder) (pools : List (ℕ × PoolWithBuckets))
    (registry : List PoolRegistryEntry) (res : MultiPairResult)
    → compute_clearing_multi_pair orders pools registry ≡ ok res
    → All (Backed registry orders res.per_pool_clearings) res.fills
unfolding single_round
compute_clearing_multi_pair-Backed orders pools registry res h =
    let (rs, e, l) =
      >>=-eq-ok (map_result (route registry) orders) _
        (rw (compute_clearing_multi_pair-single_round orders pools registry) at h) in
    let (t, f, g) = >>=-eq-ok (single_round pools rs) _ l in
    let (pp, a, b) =
      >>=-eq-ok (run_pools pools (per_pool_orders rs (initial_dropped rs) []) []) _ f in
    let q : finish rs t ≡ res = ground arith in
    let k : record { dropped = initial_dropped rs; per_pool = pp } ≡ t = ground arith in
    let keyed = run_pools-Keyed pools (per_pool_orders rs (initial_dropped rs) []) [] a tt in
    subst (λ x. All (Backed registry orders x.per_pool_clearings) x.fills) q
      (subst
        (λ x. All (Backed registry orders (finish rs x).per_pool_clearings) (finish rs x).fills) k
        (finish-Backed registry orders rs (record { dropped = initial_dropped rs; per_pool = pp })
          keyed (routed-From registry orders rs e) (initial_dropped-Gone rs)
          (initial_dropped-Swept rs)))
