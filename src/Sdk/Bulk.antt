-- ===== src/Sdk/Bulk.antt =====
-- The slots of a bulk order: buildBulkSlots of sdk/src/orders.ts. The parallel arrays are one list
-- of slots; `rng n` is the n-th number drawn. The decoy registry is that of
-- sdk/src/privacy/decoy-registry.ts, its keys the numbers that its padded texts stand for.
pub mod Slots
pub mod Reveals
use quetzaldex.Prelude.{
  ℕ, zero, suc, ◌+◌, ◌-◌, ◌*◌, ◌^◌, Bool, true, false, not, List, [], ◌∷◌, ◌++◌, Option, none, some,
  leb, ◌==◌, if◌then◌else◌, map, take, filter, length,
}
use quetzaldex.Prelude.Sort.{sort_by}
use quetzaldex.Prelude.Map.{lookup, insert}
use quetzaldex.Sdk.Paths.{PathTriple, max_orders_per_bulk}

pub record Slot : Type 0 where
  pub side : Bool
  pub amount : ℕ
  pub limit : ℕ
  pub nonce : ℕ
  pub order_nonce : ℕ
  pub path : PathTriple

abbrev pub unfillable_high : ℕ
unfillable_high = 2 ^ 128 - 1

abbrev pub unfillable_low : ℕ
unfillable_low = 1

abbrev pub no_path : PathTriple
no_path = record { path_len = 0; field_0 = 0; field_1 = 0; field_2 = 0 }

abbrev pub empty_slot : Slot
empty_slot = record {
  side = false;
  amount = 0;
  limit = 0;
  nonce = 0;
  order_nonce = 0;
  path = no_path;
}

abbrev pub unfillable : Bool → ℕ
unfillable true = unfillable_high
unfillable false = unfillable_low

abbrev pub by_nonce : Slot → Slot → Bool
by_nonce x y = leb x.order_nonce y.order_nonce

unfoldable pub empties : ℕ → List Slot
empties zero = []
empties (suc n) = empty_slot ∷ empties n

pub record BulkOrderReveal : Type 0 where
  pub order_nonce : ℕ
  pub side : Bool
  pub amount_in : ℕ
  pub limit_price : ℕ
  pub path : PathTriple

abbrev pub reveal_of : Slot → BulkOrderReveal
reveal_of s = record {
  order_nonce = s.order_nonce;
  side = s.side;
  amount_in = s.amount;
  limit_price = s.limit;
  path = s.path;
}

pub record BulkSlotsResult : Type 0 where
  pub slots : List Slot
  pub real_order_nonce : ℕ
  pub reveals : List BulkOrderReveal

module _ (real_side : Bool) (amount limit_price : ℕ) (path : PathTriple) (rng : ℕ → ℕ) where
  -- The i-th slot draws its two nonces in turn.
  abbrev pub slot : ℕ → ℕ → Slot
  slot i limit = record {
    side = real_side;
    amount = amount;
    limit = limit;
    nonce = rng (2 * i);
    order_nonce = rng (2 * i + 1);
    path = path;
  }

  abbrev pub real_slot : Slot
  real_slot = slot 0 limit_price

  abbrev pub decoy : ℕ → Slot
  decoy i = slot i (unfillable real_side)

  -- The decoys from the i-th on.
  unfoldable pub decoys : ℕ → ℕ → List Slot
  decoys i zero = []
  decoys i (suc n) = decoy i ∷ decoys (suc i) n

  abbrev pub unsorted : ℕ → List Slot
  unsorted decoy_count = real_slot ∷ decoys 1 decoy_count

  -- Past the fifth slot the arrays grow.
  unfoldable pub build_bulk_slots : ℕ → BulkSlotsResult
  unfolding empties
  build_bulk_slots decoy_count =
      let used = sort_by by_nonce (unsorted decoy_count) in
      record {
        slots = used ++ empties (max_orders_per_bulk - suc decoy_count);
        real_order_nonce = real_slot.order_nonce;
        reveals = map reveal_of used;
      }

-- placeOrderBulk, after the transaction: the nonces that are kept as decoys' and the registry.
abbrev pub Registry : Type 0
Registry = List (ℕ × Bool)

abbrev pub other_than : ℕ → ℕ → Bool
other_than real n = not (n == real)

unfoldable pub record_decoy_batch : Registry → List (ℕ × Bool) → Registry
record_decoy_batch reg [] = reg
record_decoy_batch reg ((nonce, decoyed) ∷ entries) =
    record_decoy_batch (insert nonce decoyed reg) entries

abbrev pub is_true : Option Bool → Bool
is_true none = false
is_true (some b) = b

pub is_decoy : Registry → ℕ → Bool
is_decoy reg nonce = is_true (lookup nonce reg)

abbrev pub entry_of : ℕ → ℕ → ℕ × Bool
entry_of real n = (n, other_than real n)

unfoldable pub registered : Registry → ℕ → BulkSlotsResult → Registry
registered reg decoy_count r =
    record_decoy_batch reg (
      map (entry_of r.real_order_nonce) (map (λ s. s.order_nonce) (take (suc decoy_count) r.slots)))
