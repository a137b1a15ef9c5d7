-- ===== src/Prefetch.antt =====
-- internal/prefetch: the consumer of access events that issues warm commands. `Planner` is prefetch.go.
pub mod Planner
pub mod Commands
pub mod Wanted
pub mod Plans
pub mod Deletions
pub mod Coldest
pub mod Sweep
mod Examples
