-- ===== src/Router/Dropped.antt =====
-- Which orders a route result can fill. Orders are dropped by nonce and never taken back.
use quetzaldex.Prelude.{
  ℕ, suc, ◌≡◌, ◌≢◌, ==_iff, refl, Bool, true, false, not, ◌&&◌, List, [], ◌∷◌, inl, inr, ltb,
  if◌then◌else◌, length, All, Bool-cases, All-map,
}
use quetzaldex.Prelude.Result.{Result, ok, ◌>>=◌, Result-cases, map_result}
use quetzaldex.Prelude.Map.{has, add, has-add_self, has-add_keep}
use quetzaldex.Clearing.Types.{PoolWithBuckets}
use quetzaldex.Router.Registry.{PoolRegistryEntry}
use quetzaldex.Router.{
  MultiPairOrder, PoolClearing, Routed, LoopState, is_three, min_fill_amount_in, drop_two_hops,
  drop_dust, initial_dropped, composite_pass, multi_loop, run_pools, per_pool_orders, finish,
  compute_clearing_multi_pair, route,
}

-- What was dropped stays dropped.
abbrev Keeps : List ℕ → List ℕ → Type 0
Keeps s t = (j : ℕ) → has j s ≡ true → has j t ≡ true

drop_two_hops-Keeps : (rs : List Routed) (s : List ℕ) → Keeps s (drop_two_hops rs s)
unfolding drop_two_hops
drop_two_hops-Keeps [] s j h = h
drop_two_hops-Keeps (r ∷ rs) s j h = drop_two_hops-Keeps rs _ j (kept (is_three r.source.path_len))
  where
    kept : (b : Bool) → has j (if b then add r.source.order_nonce s else s) ≡ true
    kept true = has-add_keep r.source.order_nonce j s h
    kept false = h

drop_dust-Keeps : (rs : List Routed) (s : List ℕ) → Keeps s (drop_dust rs s)
unfolding drop_dust
drop_dust-Keeps [] s j h = h
drop_dust-Keeps (r ∷ rs) s j h =
    drop_dust-Keeps rs _ j (kept (ltb r.source.amount_in min_fill_amount_in))
  where
    kept : (b : Bool) → has j (if b then add r.source.order_nonce s else s) ≡ true
    kept true = has-add_keep r.source.order_nonce j s h
    kept false = h

-- An order of two hops is among the dropped.
abbrev pub Gone : List ℕ → Routed → Type 0
Gone s r = is_three r.source.path_len ≡ true → has r.source.order_nonce s ≡ true

-- An order below the threshold is among the dropped.
abbrev pub Swept : List ℕ → Routed → Type 0
Swept s r = ltb r.source.amount_in min_fill_amount_in ≡ true → has r.source.order_nonce s ≡ true

drop_two_hops-Gone : (rs : List Routed) (s : List ℕ) → All (Gone (drop_two_hops rs s)) rs
unfolding drop_two_hops
drop_two_hops-Gone [] s = tt
drop_two_hops-Gone (r ∷ rs) s = (
  λ h. drop_two_hops-Keeps rs _ r.source.order_nonce (gone (is_three r.source.path_len) h),
  drop_two_hops-Gone rs _,
)
  where
    gone :
        (b : Bool)
        → b ≡ true
        → has r.source.order_nonce (if b then add r.source.order_nonce s else s) ≡ true
    gone true h = has-add_self r.source.order_nonce s
    gone false h = cc

drop_dust-Swept : (rs : List Routed) (s : List ℕ) → All (Swept (drop_dust rs s)) rs
unfolding drop_dust
drop_dust-Swept [] s = tt
drop_dust-Swept (r ∷ rs) s = (
  λ h.
      drop_dust-Keeps rs _ r.source.order_nonce
        (gone (ltb r.source.amount_in min_fill_amount_in) h),
  drop_dust-Swept rs _,
)
  where
    gone :
        (b : Bool)
        → b ≡ true
        → has r.source.order_nonce (if b then add r.source.order_nonce s else s) ≡ true
    gone true h = has-add_self r.source.order_nonce s
    gone false h = cc

pub initial_dropped-Gone : (rs : List Routed) → All (Gone (initial_dropped rs)) rs
unfolding initial_dropped
initial_dropped-Gone rs =
    All-map rs (λ r h k. drop_dust-Keeps rs (drop_two_hops rs []) r.source.order_nonce (h k))
      (drop_two_hops-Gone rs [])

pub initial_dropped-Swept : (rs : List Routed) → All (Swept (initial_dropped rs)) rs
unfolding initial_dropped
initial_dropped-Swept rs = drop_dust-Swept rs (drop_two_hops rs [])

-- The composite pass has no order to drop.
composite_pass-idle :
    (per_pool : List (ℕ × PoolClearing)) (rs : List Routed) (s : List ℕ)
    → All (Gone s) rs
    → composite_pass per_pool rs s false ≡ ok (s, false)
unfolding composite_pass
composite_pass-idle per_pool [] s h = refl
composite_pass-idle per_pool (r ∷ rs) s h =
    elim (Bool-cases (is_three r.source.path_len && not (has r.source.order_nonce s))) [
      | inr e ↦ rw (e, composite_pass) (composite_pass-idle per_pool rs s h.1)
      | inl e ↦ absurd (idle (is_three r.source.path_len) (has r.source.order_nonce s) h.0 e)
    ]
  where
    idle : (b c : Bool) → (b ≡ true → c ≡ true) → (b && not c) ≢ true
    idle true true h k = cc
    idle true false h k = let e : false ≡ true = h refl in cc
    idle false c h k = cc

-- One round: the kernel on every pool's orders, without those of two hops and the dust.
unfoldable pub single_round : List (ℕ × PoolWithBuckets) → List Routed → Result LoopState
single_round pools rs = do
  per_pool ← run_pools pools (per_pool_orders rs (initial_dropped rs) []) []
  ok (record { dropped = initial_dropped rs; per_pool = per_pool })

-- A round that follows one in which nothing was dropped stops at once.
multi_loop-stop :
    (pools : List (ℕ × PoolWithBuckets)) (rs : List Routed) (n : ℕ) (s : LoopState)
    → multi_loop pools rs (suc n) false (length s.dropped) s ≡ ok s
unfolding multi_loop
multi_loop-stop pools rs n s =
    rw (multi_loop, (==_iff (length s.dropped) (length s.dropped)).1 refl) refl

multi_loop-single_round :
    (pools : List (ℕ × PoolWithBuckets)) (rs : List Routed) (n : ℕ)
    → multi_loop pools rs
        (suc (suc n))
        true
        0
        (record { dropped = initial_dropped rs; per_pool = [] })
      ≡ single_round pools rs
unfolding multi_loop single_round
multi_loop-single_round pools rs n =
    elim (Result-cases (run_pools pools (per_pool_orders rs (initial_dropped rs) []) [])) [
      | inr (e, h) ↦ rw (multi_loop, h) refl
      | inl (pp, h) ↦
          let idle = composite_pass-idle pp rs (initial_dropped rs) (initial_dropped-Gone rs) in
          let stop =
            multi_loop-stop pools rs n (record { dropped = initial_dropped rs; per_pool = pp }) in
          rw (multi_loop, h, idle, stop) refl
    ]

-- The multi-pair clearing is one round: it routes the orders, leaves out those of two hops and
-- those below 100,000 units, clears each pool once and emits the fills; its loop over rounds and
-- its composite pass change nothing.
pub compute_clearing_multi_pair-single_round :
    (orders : List MultiPairOrder) (pools : List (ℕ × PoolWithBuckets))
    (registry : List PoolRegistryEntry)
    → compute_clearing_multi_pair orders pools registry ≡ (
        map_result (route registry) orders >>= λ rs.
        single_round pools rs >>= λ s. ok (finish rs s))
unfolding compute_clearing_multi_pair
compute_clearing_multi_pair-single_round orders pools registry =
    elim (Result-cases (map_result (route registry) orders)) [
      | inr (e, h) ↦ rw h refl
      | inl (rs, h) ↦ rw (h, multi_loop-single_round pools rs 6) refl
    ]
