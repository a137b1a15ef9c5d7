-- ===== src/CacheNode/Examples.antt =====
-- The cache node's handlers over an LRU store, at small inputs.
use prefixmesh.Prelude.{Bytes, ℕ, ◌≡◌, refl, true, Option, none, some, [], ◌∷◌, arith}
use prefixmesh.BlockStore.Block.{Block, no_stats}
use prefixmesh.BlockStore.Lru.{Lru}
use prefixmesh.BlockStore.Lru.Laws.{IsValid}
use prefixmesh.BlockStore.Lru.Contract.{lru_store, lru_laws}
use prefixmesh.CacheNode.Server.{
  failed_precondition, failed, answered, IdsRequest, PutRequest, check_epoch, to_proto, contains,
  get_blocks, put_blocks, touch,
}
use prefixmesh.CacheNode.Epochs.{stale_refused}
use prefixmesh.CacheNode.Reads.{Keeps, presence, found_blocks, reads_lem}
use prefixmesh.CacheNode.Writes.{Serves, put_blocks_lem}

abbrev id_of : ℕ → Bytes
id_of n =
    n ∷ 0 ∷ 0 ∷ 0 ∷ 0 ∷ 0 ∷ 0 ∷ 0 ∷ 0 ∷ 0 ∷ 0 ∷ 0 ∷ 0 ∷ 0 ∷ 0 ∷ 0 ∷ 0 ∷ 0 ∷ 0 ∷ 0 ∷ 0 ∷ 0 ∷ 0 ∷ 0
    ∷ 0 ∷ 0 ∷ 0 ∷ 0 ∷ 0 ∷ 0 ∷ 0 ∷ 0 ∷ []

abbrev wire_block : ℕ → Block
wire_block n = record {
  id = id_of n;
  parent_id = id_of 0;
  model_id = "m";
  payload = n ∷ [];
  token_count = 1;
  cost_us = 7;
}

abbrev one_block : Lru
one_block = record {
  cap = 300;
  used = 129;
  entries = record { block = wire_block 1; size = 129 } ∷ [];
  stats = no_stats;
}

one_block-IsValid : IsValid one_block
one_block-IsValid = record {
  once = (λ h. h, tt);
  sized = (refl, tt);
  accounted = refl;
  within = omega arith;
  small = omega arith;
}

abbrev two_ids : ℕ → IdsRequest
two_ids epoch = record { ring_epoch = epoch; block_ids = id_of 1 ∷ id_of 2 ∷ [] }

abbrev put_of : ℕ → ℕ → PutRequest
put_of epoch n = record { ring_epoch = epoch; block = some (to_proto (wire_block n)) }

stale_refused_example :
    (contains lru_store (some 5) one_block (two_ids 4) ≡ (one_block, failed failed_precondition))
    × (get_blocks lru_store (λ n. true) (some 5) one_block (two_ids 4)
        ≡ (one_block, [], some failed_precondition))
    × (touch lru_store (some 5) one_block (two_ids 4) ≡ (one_block, some failed_precondition))
    × (put_blocks lru_store true (some 5) one_block (put_of 4 2 ∷ [])
        ≡ some (one_block, failed failed_precondition))
stale_refused_example =
    stale_refused lru_store one_block (λ n. true) 5 (two_ids 4) (put_of 4 2) [] true (omega arith)
      (omega arith) refl

abbrev stored_ids : Bytes → Option Block
stored_ids = lru_laws.stored_block one_block

reads_lem_example :
    (((contains lru_store (some 5) one_block (two_ids 5)).1
        ≡ answered (presence stored_ids (two_ids 5).block_ids))
      × Keeps lru_laws one_block (contains lru_store (some 5) one_block (two_ids 5)).0)
    × (((get_blocks lru_store (λ n. true) (some 5) one_block (two_ids 5)).1
          ≡ found_blocks stored_ids (two_ids 5).block_ids)
        × ((get_blocks lru_store (λ n. true) (some 5) one_block (two_ids 5)).2 ≡ none)
        × Keeps lru_laws one_block
            (get_blocks lru_store (λ n. true) (some 5) one_block (two_ids 5)).0)
    × (((touch lru_store (some 5) one_block (two_ids 5)).1 ≡ none)
        × Keeps lru_laws one_block (touch lru_store (some 5) one_block (two_ids 5)).0)
unfolding check_epoch
reads_lem_example =
    reads_lem lru_store lru_laws (some 5) one_block (two_ids 5) one_block-IsValid (refl, (refl, tt))
      refl

put_blocks_lem_example :
    Serves lru_store lru_laws true
      (some 5)
      one_block
      (record { stored = 0; existing = 0 })
      (put_of 5 2 ∷ put_of 6 1 ∷ put_of 4 3 ∷ [])
      (put_blocks lru_store true (some 5) one_block (put_of 5 2 ∷ put_of 6 1 ∷ put_of 4 3 ∷ []))
put_blocks_lem_example =
    put_blocks_lem lru_store lru_laws true (some 5) one_block
      (put_of 5 2 ∷ put_of 6 1 ∷ put_of 4 3 ∷ []) one_block-IsValid
