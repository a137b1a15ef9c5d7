-- ===== src/Chain.antt =====
-- internal/chain/chain.go: block ids as a hash chain over the token blocks of a prompt. `sha256` is
-- a parameter of what uses it: a function from bytes to bytes.
pub mod Defs
pub mod Chunks
pub mod Identity
mod Examples
