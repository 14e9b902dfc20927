-- ===== src/Faucet.antt =====
-- The faucet: faucet/src.
pub mod RateLimit
pub mod Mutex
pub mod Address
pub mod Upstream
pub mod Drip
pub mod Handler
mod Tests
