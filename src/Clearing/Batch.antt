-- ===== src/Clearing/Batch.antt =====
-- `selectBatch` of aggregator/src/clearing.ts: the oldest orders of the epoch.
pub mod Fifo
use quetzaldex.Prelude.{ℕ, Bool, List, ltb, leb, ◌==◌, if◌then◌else◌, take}
use quetzaldex.Prelude.Sort.{sort_by}
use quetzaldex.Clearing.Types.{ClearingOrder}

abbrev pub max_orders_per_epoch : ℕ
max_orders_per_epoch = 32

-- The comparator is not positive at x y: by block, then by nonce.
abbrev pub fifo_le : ClearingOrder → ClearingOrder → Bool
fifo_le x y =
    if x.submitted_at_block == y.submitted_at_block
    then leb x.order_nonce y.order_nonce
    else ltb x.submitted_at_block y.submitted_at_block

unfoldable pub select_batch : List ClearingOrder → List ClearingOrder
select_batch orders = take max_orders_per_epoch (sort_by fifo_le orders)
