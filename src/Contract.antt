-- ===== src/Contract.antt =====
-- contracts/interchain-events: the contract that the watcher and the form talk to.
pub mod Types
pub mod Store
pub mod Compare
pub mod Verify
pub mod Condition
pub mod Execute
pub mod Query
pub mod Effect
pub mod Chain
pub mod Invariant
pub mod Issued
pub mod AtMostOnce
pub mod Diagram
pub mod Lifecycle
pub mod Verified
pub mod Paging
pub mod Callback
pub mod Attestation
