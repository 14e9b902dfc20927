-- ===== src/Sdk.antt =====
-- The client library: sdk/src.
pub mod Paths
pub mod Bulk
pub mod Escrow
pub mod Place
pub mod Claim
mod Tests
