-- ===== src/Merkle/Tests.antt =====
-- The tree of two fills, under a stand-in hash.
use quetzaldex.Prelude.{refl}
use quetzaldex.Prelude.{ℕ, ◌≡◌, List, [], ◌∷◌, arith, All, some}
use quetzaldex.Prelude.StandIn.{mix}
use quetzaldex.Prelude.Result.{ok}
use quetzaldex.Prelude.{◌^◌, length}
use quetzaldex.Merkle.Hops.{KeysApart, HopIncluded, build_hop_fills_tree-Included}
use quetzaldex.Merkle.{HopFillLeaf, HopTreeOutput, build_hop_fills_tree}
use quetzaldex.Merkle.{JsFillEntry, MerkleTreeOutput, build_fills_tree, merkle_root_32}
use quetzaldex.Merkle.Inclusion.{Apart, Included, build_fills_tree-Included}

abbrev two_fills : List JsFillEntry
two_fills =
    record { order_nonce = 11; amount_out = 500 }
    ∷ record { order_nonce = 12; amount_out = 700 }
    ∷ []

two_fills-Apart : Apart two_fills
two_fills-Apart = (omega arith, (omega arith, tt), (omega arith, tt, tt))

build_fills_tree-Included_example :
    (t : MerkleTreeOutput) × (build_fills_tree mix two_fills ≡ ok t)
    × (merkle_root_32 mix t.leaves ≡ ok t.root)
    × All (Included mix t.leaves t.root t.paths) two_fills
build_fills_tree-Included_example =
    build_fills_tree-Included mix two_fills (omega arith) two_fills-Apart

-- Both hops of one order, and a fill of another.
abbrev hop : ℕ → ℕ → HopFillLeaf
hop order_nonce hop_index = record {
  owner = 77;
  order_nonce = order_nonce;
  hop_index = hop_index;
  amount_out = 500;
  pool_id = 1;
}

abbrev three_hops : List HopFillLeaf
three_hops = hop 11 0 ∷ hop 11 1 ∷ hop 12 0 ∷ []

three_hops-KeysApart : KeysApart three_hops
three_hops-KeysApart = ((refl, (refl, tt)), ((refl, tt), (tt, tt)))

build_hop_fills_tree-Included_example :
    (t : HopTreeOutput) × (r : ℕ) × (build_hop_fills_tree mix three_hops (2 ^ 6) ≡ ok t)
    × (t.root ≡ some r)
    × (length t.leaves ≡ 2 ^ 6)
    × All (HopIncluded mix t.leaves t.root t.paths) three_hops
build_hop_fills_tree-Included_example =
    build_hop_fills_tree-Included mix three_hops 6 (omega arith) three_hops-KeysApart
