-- ===== src/CacheNode.antt =====
-- internal/cachenode: a cache node. `Server` is server.go, `Warmer` warmer.go, `Agent` agent.go.
pub mod Server
pub mod Epochs
pub mod Reads
pub mod Writes
pub mod Warmer
pub mod Warming
pub mod Agent
pub mod Joins
mod Examples
mod AgentExamples
