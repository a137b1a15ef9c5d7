-- ===== src/Directory.antt =====
-- internal/directory: the control plane. `State` is state.go, `Monitor` monitor.go, `Server`
-- server.go; the log that feeds the state machine is `Paxos.Log`.
pub mod State
pub mod Membership
pub mod Replicas
pub mod Monitor
pub mod Suspicion
pub mod Joining
pub mod Watch
pub mod Watching
pub mod Transport
pub mod Wire
mod Examples
mod MonitorExamples
mod WireExamples
