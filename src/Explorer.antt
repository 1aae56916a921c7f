-- ===== src/Explorer.antt =====
-- The state explorer of frontend/app/composables/useStateExplorer.ts.
pub mod Node
pub mod Tree
pub mod Paging
pub mod LoadMore
pub mod Wasm
pub mod Json
pub mod Fetch
pub mod Registry
pub mod Clicks
pub mod AllPages
