-- ===== src/BlockStore/Lru.antt =====
-- internal/blockstore/lru.go. The list and the map of the source hold the same entries: here they
-- are one list, most recently used first, and the map's lookup searches it.
use prefixmesh.Prelude.{
  ltb, if◌then◌else◌, length, Bytes, bytes_discrete, ℕ, zero, suc, ◌+◌, ◌-◌, ◌%◌, ◌^◌, ite, Bool,
  true, false, Option, none, some, List, [], ◌∷◌,
}
use prefixmesh.BlockStore.Block.{Block, Stats, no_stats}
pub mod Laws
pub mod Eviction
pub mod Contract

abbrev pub per_block_overhead : ℕ
per_block_overhead = 128

pub record Entry : Type 0 where
  pub block : Block
  pub size : ℕ

pub record Lru : Type 0 where
  pub cap : ℕ
  pub used : ℕ
  pub entries : List Entry
  pub stats : Stats

unfoldable pub new_lru : ℕ → Lru
new_lru cap = record { cap = cap; used = 0; entries = []; stats = no_stats }

-- `blockSize`
abbrev pub block_size : Block → ℕ
block_size b = length b.payload + per_block_overhead

unfoldable pub find_entry : Bytes → List Entry → Option Entry
find_entry id [] = none
find_entry id (e ∷ es) = ite (bytes_discrete e.block.id id) (some e) (find_entry id es)

unfoldable pub remove_entry : Bytes → List Entry → List Entry
remove_entry id [] = []
remove_entry id (e ∷ es) = ite (bytes_discrete e.block.id id) es (e ∷ remove_entry id es)

-- `ll.MoveToFront` of the entry that the map gives.
abbrev pub move_to_front : List Entry → Entry → List Entry
move_to_front es e = e ∷ remove_entry e.block.id es

unfoldable pub last_entry : List Entry → Option Entry
last_entry [] = none
last_entry (e ∷ []) = some e
last_entry (e ∷ f ∷ es) = last_entry (f ∷ es)

unfoldable pub drop_last : List Entry → List Entry
drop_last [] = []
drop_last (e ∷ []) = []
drop_last (e ∷ f ∷ es) = e ∷ drop_last (f ∷ es)

-- `evictOldest`. `none` where the source would fault, on an empty list.
unfoldable pub evict_oldest : Lru → Option Lru
unfolding last_entry drop_last
evict_oldest s = elim (last_entry s.entries) [
  | none ↦ none
  | some e ↦ some (record s {
    entries = drop_last s.entries;
    used = (s.used + 2 ^ 64 - e.size) % 2 ^ 64;
    stats = record (s.stats) {
      evictions = (s.stats.evictions + 1) % 2 ^ 64;
      evicted_cost_us = (s.stats.evicted_cost_us + e.block.cost_us) % 2 ^ 64;
    };
  })
]

-- `for s.used+size > s.cap { s.evictOldest() }`; a round takes an entry away, so one round more
-- than there are entries is fuel enough.
unfoldable pub make_room : ℕ → Lru → ℕ → Option Lru
unfolding evict_oldest
make_room zero s size = none
make_room (suc fuel) s size = elim (ltb s.cap ((s.used + size) % 2 ^ 64)) [
  | false ↦ some s
  | true ↦ elim (evict_oldest s) [ none ↦ none | some s' ↦ make_room fuel s' size ]
]

-- The end of `Put`: the new entry in front.
abbrev pub push_front : Lru → Block → Lru
push_front s b = record s {
  entries = record { block = b; size = block_size b } ∷ s.entries;
  used = (s.used + block_size b) % 2 ^ 64;
}

-- `Put`; `none` is a fault.
unfoldable pub put_block : Lru → Block → Option (Lru × Bool)
unfolding find_entry remove_entry make_room
put_block s b = elim (find_entry b.id s.entries) [
  | some e ↦ some (record s { entries = move_to_front s.entries e }, false)
  | none ↦
      if ltb s.cap (block_size b)
      then some (s, false)
      else elim (make_room (suc (length s.entries)) s (block_size b)) [
        | none ↦ none
        | some s' ↦ some (push_front s' b, true)
      ]
]

abbrev pub hit : Lru → Entry → Lru
hit s e = record s {
  entries = move_to_front s.entries e;
  stats = record (s.stats) { hits = (s.stats.hits + 1) % 2 ^ 64 };
}

abbrev pub miss : Lru → Lru
miss s = record s { stats = record (s.stats) { misses = (s.stats.misses + 1) % 2 ^ 64 } }

-- `Get`
unfoldable pub get_block : Lru → Bytes → Lru × Option Block
unfolding find_entry remove_entry
get_block s id = elim (find_entry id s.entries) [
  | none ↦ (miss s, none)
  | some e ↦ (hit s e, some e.block)
]

-- `Contains`
unfoldable pub contains_block : Lru → Bytes → Lru × Bool
unfolding find_entry remove_entry
contains_block s id = elim (find_entry id s.entries) [
  | none ↦ (miss s, false)
  | some e ↦ (hit s e, true)
]

-- `Touch`
unfoldable pub touch_block : Lru → Bytes → Lru
unfolding find_entry remove_entry
touch_block s id = elim (find_entry id s.entries) [
  | none ↦ s
  | some e ↦ record s { entries = move_to_front s.entries e }
]

-- `Stats`
unfoldable pub stats_of : Lru → Stats
stats_of s = record (s.stats) { occupancy_bytes = s.used; capacity_bytes = s.cap }
