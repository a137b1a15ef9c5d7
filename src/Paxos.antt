-- ===== src/Paxos.antt =====
-- internal/paxos: multi-decree Paxos. `Ballot` and `Acceptor` are paxos.go, `Log` is log.go,
-- `Node` is node.go; `System` puts the replicas of one directory together over a network.
pub mod Ballot
pub mod Acceptor
pub mod Log
pub mod Node
pub mod System
mod Quorum
mod Tally
mod Ownership
mod Promises
mod Safety
pub mod Applied
mod Invariant
pub mod Steps
pub mod Agreement
pub mod Submission
pub mod Attempts
pub mod Submitted
mod Examples
mod SubmissionExamples
