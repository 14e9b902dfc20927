-- ===== src/Routes/Tests.antt =====
-- A reveal of two hops routed, and its fills given slots.
use quetzaldex.Prelude.{ℕ, ◌≡◌, refl, List, [], ◌∷◌, none, false}
use quetzaldex.Prelude.Result.{ok}
use quetzaldex.Prelude.Sort.{sort_by}
use quetzaldex.Router.{three, hops_of, HopFill, PoolClearing}
use quetzaldex.Router.Registry.{PoolRegistryEntry, find_pair}
use quetzaldex.Routes.{
  Tokens, RoutedRevealPath, resolve_reveal_path, path_hops, resolve_hop_u128, resolve_pool_id_u128,
  active_ids, slots_by_id, remap_fill, remap_fill_pool_ids_to_slots,
}
use quetzaldex.Routes.Engine.{resolve_reveal_path-agrees}
use quetzaldex.Routes.Slots.{Remapped, remap_fill_pool_ids_to_slots-Remapped}

abbrev registry : List PoolRegistryEntry
registry =
    record { pool_id = 4; token_a = 100; token_b = 200; token_a_full = none; token_b_full = none }
    ∷ record { pool_id = 9; token_a = 200; token_b = 300; token_a_full = none; token_b_full = none }
    ∷ []

-- The first token's high word is not zero.
abbrev revealed : Tokens
revealed = record {
  token_0 = 340_282_366_920_938_463_463_374_607_431_768_211_556;
  token_1 = 200;
  token_2 = 300;
}

abbrev routed : RoutedRevealPath
routed = record {
  path_len = three;
  path = revealed;
  routing_path = record { token_0 = 100; token_1 = 200; token_2 = 300 };
  hops = 4 ∷ 9 ∷ [];
  used_fallback = false;
}

resolves : resolve_reveal_path registry 3 revealed revealed ≡ ok routed
unfolding resolve_reveal_path path_hops resolve_hop_u128 resolve_pool_id_u128 find_pair
resolves = refl

resolve_reveal_path-agrees_example : hops_of registry three 100 200 300 ≡ ok (4 ∷ 9 ∷ [])
resolve_reveal_path-agrees_example =
    resolve_reveal_path-agrees registry 3 revealed revealed resolves

abbrev clearing : ℕ → PoolClearing
clearing pid = record {
  pool_id = pid;
  clearing_price = 5;
  bucket_deltas = [];
  current_sqrt_price_after = 5;
  bucket_states_before = [];
  bucket_states_after = [];
  fills = [];
}

abbrev fill : ℕ → HopFill
fill pid = record { order_nonce = 11; hop_index = 0; amount_out = 500; pool_id = pid; owner = 77 }

remapped :
    remap_fill_pool_ids_to_slots (fill 9 ∷ fill 4 ∷ []) (clearing 9 ∷ clearing 4 ∷ [])
    ≡ ok (fill 1 ∷ fill 0 ∷ [])
unfolding remap_fill_pool_ids_to_slots remap_fill slots_by_id sort_by
remapped = refl

remap_fill_pool_ids_to_slots-Remapped_example :
    Remapped
      (active_ids (clearing 9 ∷ clearing 4 ∷ []))
      (fill 9 ∷ fill 4 ∷ [])
      (fill 1 ∷ fill 0 ∷ [])
remap_fill_pool_ids_to_slots-Remapped_example =
    remap_fill_pool_ids_to_slots-Remapped (fill 9 ∷ fill 4 ∷ []) (clearing 9 ∷ clearing 4 ∷ [])
      remapped
