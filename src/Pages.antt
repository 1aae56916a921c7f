-- ===== src/Pages.antt =====
-- The scripts of frontend/app/pages, and the list of chains.
pub mod Chains
pub mod WatcherPage
