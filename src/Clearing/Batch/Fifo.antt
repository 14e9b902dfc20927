-- ===== src/Clearing/Batch/Fifo.antt =====
-- Which orders `selectBatch` takes: the oldest, in first-in-first-out order, up to its limit.
use mathlib.Core.List.{Perm}
use quetzaldex.Prelude.{◌≤◌, ◌≡◌, ◌≢◌, List, [], ◌++◌, length}
use quetzaldex.Prelude.Sort.{Sorted}
use quetzaldex.Clearing.Types.{ClearingOrder}
use quetzaldex.Clearing.Batch.{fifo_le, max_orders_per_epoch}

-- The orders left over stand behind the batch in the order of age, and there are some only if the
-- batch is full.
pub record Oldest (orders batch : List ClearingOrder) : Type 0 where
  pub rest : List ClearingOrder
  pub same_orders : Perm (batch ++ rest) orders
  pub by_age : Sorted fifo_le (batch ++ rest)
  pub bounded : length batch ≤ max_orders_per_epoch
  pub full : rest ≢ [] → length batch ≡ max_orders_per_epoch
