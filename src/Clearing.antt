-- ===== src/Clearing.antt =====
-- The clearing kernel: aggregator/src/clearing.ts.
pub mod Types
pub mod Trace
pub mod Batch
pub mod NetSwap
pub mod Price
pub mod OneSided
pub mod Compute
pub mod Aggregate
pub mod Tests
mod SwapTests
