-- ===== src/Gateway.antt =====
-- internal/gateway/server.go: the gateway's `Match` and `PutBlocks`.
pub mod Fanout
pub mod Matching
pub mod Putting
pub mod Routing
pub mod Evidence
pub mod Soundness
pub mod Answers
pub mod Access
mod Examples
