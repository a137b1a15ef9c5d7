-- ===== src/BlockStore.antt =====
-- internal/blockstore: the stores of a cache node. `Block` is store.go, `Lru` is lru.go, `Paged`
-- is paged.go.
pub mod Block
pub mod Lru
pub mod Paged
mod Examples
mod PagedExamples
