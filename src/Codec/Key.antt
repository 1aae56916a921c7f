-- ===== src/Codec/Key.antt =====
-- The keys of contract storage: written by scripts/iavl-key.ts, written and read again by
-- frontend/app/composables/useStateExplorer.ts.
pub mod Build
pub mod Parse
pub mod Agreement
pub mod Attestation
pub mod RoundTrip
pub mod Explorer
