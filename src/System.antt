-- ===== src/System.antt =====
-- The watcher (frontend/server/utils/watcher.ts) and the contract (contracts/interchain-events) together.
pub mod Agree
pub mod Delivery
pub mod Receipt
