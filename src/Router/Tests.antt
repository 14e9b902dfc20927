-- ===== src/Router/Tests.antt =====
-- Orders over two pools: the demo epoch of the clearing's tests, with an order of two hops beside it.
use quetzaldex.Prelude.{ℕ, ◌≡◌, refl, true, false, List, [], ◌∷◌, none, All, inl, inr}
use quetzaldex.Prelude.Result.{ok, err, Error, map_result, ◌>>=◌}
use quetzaldex.Clearing.Types.{ClearingOrder, PoolWithBuckets}
use quetzaldex.Clearing.Tests.{order, two_buckets, epoch, ran, is_ok}
use quetzaldex.Router.Registry.{PoolRegistryEntry, resolve_hop, resolve_pool_id, find_pair}
use quetzaldex.Router.Dropped.{single_round, compute_clearing_multi_pair-single_round}
use quetzaldex.Router.Fills.{Backed, compute_clearing_multi_pair-Backed}
use quetzaldex.Router.Unrouted.{compute_clearing_multi_pair-no_pool}
use quetzaldex.Router.{
  MultiPairOrder, MultiPairResult, PathLen, two, three, compute_clearing_multi_pair, route, finish,
  hops_of, drop_two_hops, drop_dust, initial_dropped, per_pool_orders, push_hops, push_order,
  run_pools, pool_clearing,
}

abbrev placed : ClearingOrder → PathLen → MultiPairOrder
placed o n = record { order = o; path_0 = 100; path_1 = 200; path_2 = 300; path_len = n }

abbrev registry : List PoolRegistryEntry
registry =
    record { pool_id = 4; token_a = 100; token_b = 200; token_a_full = none; token_b_full = none }
    ∷ record { pool_id = 9; token_a = 200; token_b = 300; token_a_full = none; token_b_full = none }
    ∷ []

abbrev pools : List (ℕ × PoolWithBuckets)
pools = (4, two_buckets) ∷ (9, two_buckets) ∷ []

abbrev orders : List MultiPairOrder
orders =
    placed (order false 3_000_000_000_000_000_000 1_300_000_000_000_000_000 11) two
    ∷ placed (order true 1_000_000_000_000_000_000 900_000_000_000_000_000 12) two
    ∷ placed (order true 5_000_000_000_000_000_000 900_000_000_000_000_000 13) three
    ∷ []

runs : is_ok (compute_clearing_multi_pair orders pools registry) ≡ true
unfolding route hops_of resolve_hop resolve_pool_id find_pair single_round initial_dropped
    drop_two_hops drop_dust per_pool_orders push_hops push_order run_pools pool_clearing
runs = rw (compute_clearing_multi_pair-single_round orders pools registry, epoch.1) refl

abbrev result : (r : MultiPairResult) × (compute_clearing_multi_pair orders pools registry ≡ ok r)
result = ran (compute_clearing_multi_pair orders pools registry) runs

compute_clearing_multi_pair-Backed_example :
    All (Backed registry orders result.0.per_pool_clearings) result.0.fills
compute_clearing_multi_pair-Backed_example =
    compute_clearing_multi_pair-Backed orders pools registry result.0 result.1

compute_clearing_multi_pair-single_round_example :
    compute_clearing_multi_pair orders pools registry
    ≡ (map_result (route registry) orders >>= λ rs. single_round pools rs >>= λ s. ok (finish rs s))
compute_clearing_multi_pair-single_round_example =
    compute_clearing_multi_pair-single_round orders pools registry

-- Without the second pool the order of two hops has no route.
abbrev one_pool : List PoolRegistryEntry
one_pool =
    record { pool_id = 4; token_a = 100; token_b = 200; token_a_full = none; token_b_full = none }
    ∷ []

second_hop_is_missing : resolve_hop one_pool 200 300 ≡ err Error.no_pool
unfolding resolve_hop resolve_pool_id find_pair
second_hop_is_missing = refl

compute_clearing_multi_pair-no_pool_example :
    compute_clearing_multi_pair orders pools one_pool ≡ err Error.no_pool
compute_clearing_multi_pair-no_pool_example =
    compute_clearing_multi_pair-no_pool orders pools one_pool
      (inr (inr (inl (inr (refl, second_hop_is_missing)))))
