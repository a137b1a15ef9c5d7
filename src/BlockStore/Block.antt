-- ===== src/BlockStore/Block.antt =====
-- internal/blockstore/store.go. A block id is the list of its 32 bytes.
use prefixmesh.Prelude.{Bytes, ℕ, String, ◌≡◌, Bool, true, false, Option, none, some}

pub record Block : Type 0 where
  pub id : Bytes
  pub parent_id : Bytes
  pub model_id : String
  pub payload : Bytes
  pub token_count : ℕ
  pub cost_us : ℕ

pub record Stats : Type 0 where
  pub occupancy_bytes : ℕ
  pub capacity_bytes : ℕ
  pub hits : ℕ
  pub misses : ℕ
  pub evictions : ℕ
  pub evicted_cost_us : ℕ

abbrev pub no_stats : Stats
no_stats = record {
  occupancy_bytes = 0;
  capacity_bytes = 0;
  hits = 0;
  misses = 0;
  evictions = 0;
  evicted_cost_us = 0;
}

-- `Store`: what the cache node's server asks of a store, over the store's state. Each operation
-- returns the new state; `none` of a put is a fault of the store.
pub record Store (S : Type 0) : Type 0 where
  pub put_one : S → Block → Option (S × Bool)
  pub get_one : S → Bytes → S × Option Block
  pub contains_one : S → Bytes → S × Bool
  pub touch_one : S → Bytes → S
  pub stats_one : S → Stats

abbrev pub is_present : Option Block → Bool
is_present none = false
is_present (some b) = true

-- The contract in the comments of `Store`: reads tell what is stored and change none of it, a put
-- does not fault, and stores the block unless it says it did not.
pub record StoreLaws {S : Type 0} (st : Store S) : Type 1 where
  pub IsGood : S → Type 0
  pub stored_block : S → Bytes → Option Block
  pub get_lem :
      (s : S) (id : Bytes)
      → IsGood s
      → IsGood (st.get_one s id).0
        × ((st.get_one s id).1 ≡ stored_block s id)
        × ((j : Bytes) → stored_block (st.get_one s id).0 j ≡ stored_block s j)
  pub contains_lem :
      (s : S) (id : Bytes)
      → IsGood s
      → IsGood (st.contains_one s id).0
        × ((st.contains_one s id).1 ≡ is_present (stored_block s id))
        × ((j : Bytes) → stored_block (st.contains_one s id).0 j ≡ stored_block s j)
  pub touch_lem :
      (s : S) (id : Bytes)
      → IsGood s
      → IsGood (st.touch_one s id)
        × ((j : Bytes) → stored_block (st.touch_one s id) j ≡ stored_block s j)
  pub put_lem :
      (s : S) (b : Block)
      → IsGood s
      → (s' : S) × (stored : Bool) × (st.put_one s b ≡ some (s', stored))
        × IsGood s'
        × (stored ≡ true → stored_block s' b.id ≡ some b)
        × (stored ≡ false → (j : Bytes) → stored_block s' j ≡ stored_block s j)
