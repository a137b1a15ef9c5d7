-- ===== src/BlockStore/Examples.antt =====
-- Small runs of the LRU store: a capacity for two blocks, three blocks put.
use prefixmesh.Prelude.{bytes_discrete, ℕ, ◌≡◌, refl, inl, inr, Bool, true, some, [], ◌∷◌, arith}
use prefixmesh.BlockStore.Block.{Block}
use prefixmesh.BlockStore.Lru.{
  Lru, find_entry, last_entry, drop_last, evict_oldest, make_room, put_block, get_block,
}
use prefixmesh.BlockStore.Lru.Laws.{IsValid}
use prefixmesh.BlockStore.Lru.Eviction.{Puts, put_block_lem, get-put}

abbrev block_of : ℕ → Block
block_of n = record {
  id = n ∷ [];
  parent_id = [];
  model_id = "m";
  payload = n ∷ n ∷ [];
  token_count = 1;
  cost_us = n;
}

abbrev two_blocks : Lru
two_blocks = record {
  cap = 260;
  used = 260;
  entries =
      record { block = block_of 2; size = 130 } ∷ record { block = block_of 1; size = 130 } ∷ [];
  stats = record {
    occupancy_bytes = 0;
    capacity_bytes = 0;
    hits = 0;
    misses = 0;
    evictions = 0;
    evicted_cost_us = 0;
  };
}

two_blocks-IsValid : IsValid two_blocks
two_blocks-IsValid = record {
  once = (λ h. elim h [ inl e ↦ cc | inr f ↦ f ], (λ f. f, tt));
  sized = (refl, (refl, tt));
  accounted = refl;
  within = omega arith;
  small = omega arith;
}

put_block_lem_example :
    (s' : Lru) × (stored : Bool) × (put_block two_blocks (block_of 3) ≡ some (s', stored))
    × IsValid s'
    × Puts two_blocks (block_of 3) s' stored
put_block_lem_example = put_block_lem two_blocks (block_of 3) two_blocks-IsValid

-- The third block takes the place of the first, which was used least recently.
abbrev two_blocks_after : Lru
two_blocks_after = record {
  cap = 260;
  used = 260;
  entries =
      record { block = block_of 3; size = 130 } ∷ record { block = block_of 2; size = 130 } ∷ [];
  stats = record {
    occupancy_bytes = 0;
    capacity_bytes = 0;
    hits = 0;
    misses = 0;
    evictions = 1;
    evicted_cost_us = 1;
  };
}

put_evicts : put_block two_blocks (block_of 3) ≡ some (two_blocks_after, true)
unfolding put_block find_entry make_room evict_oldest last_entry drop_last bytes_discrete
put_evicts = refl

get-put_example : (get_block two_blocks_after (block_of 3).id).1 ≡ some (block_of 3)
get-put_example = get-put two_blocks two_blocks_after (block_of 3) two_blocks-IsValid put_evicts
