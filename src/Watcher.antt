-- ===== src/Watcher.antt =====
-- The watcher of frontend/server/utils/watcher.ts and the handler that calls it.
pub mod Types
pub mod Condition
pub mod Machine
pub mod Logic
pub mod Fetch
pub mod Submit
pub mod Process
pub mod Poll
pub mod Safety
pub mod Cost
pub mod Budget
pub mod PollSafety
pub mod Manual
pub mod NextBlock
pub mod Retry
pub mod Ends
pub mod Live
pub mod Isolation
pub mod Timer
pub mod Api
pub mod Startup
