-- ===== src/HashRing.antt =====
-- internal/hashring/ring.go: the consistent hash ring.
pub mod Defs
pub mod Walk
pub mod Owners
pub mod Fresh
mod Vnodes
pub mod Members
mod Examples
