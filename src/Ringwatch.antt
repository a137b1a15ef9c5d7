-- ===== src/Ringwatch.antt =====
-- internal/ringwatch/watcher.go: the fleet's view of the ring.
pub mod Watcher
pub mod Clients
pub mod Epochs
mod Examples
