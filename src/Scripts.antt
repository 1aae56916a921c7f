-- ===== src/Scripts.antt =====
-- The command line scripts: scripts/proof.ts and scripts/test-flow.ts.
pub mod Session
pub mod Proof
pub mod Flow
pub mod Stays
pub mod Quiet
pub mod Protocol
pub mod Order
pub mod Decode
