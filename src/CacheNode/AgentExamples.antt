-- ===== src/CacheNode/AgentExamples.antt =====
-- The warmer over an LRU store, and the agent's join, at small inputs.
use prefixmesh.Prelude.{
  ltb, leb, ◌==◌, string_discrete, Bytes, ℕ, ◌+◌, ◌-◌, ◌*◌, ◌/◌, ◌≤◌, min, String, ◌≡◌, refl, inl,
  inr, Bool, true, false, ◌&&◌, Option, none, some, [], ◌∷◌, arith, Floats,
}
use prefixmesh.BlockStore.Block.{Block, no_stats}
use prefixmesh.BlockStore.Lru.{Lru, put_block, contains_block}
use prefixmesh.BlockStore.Lru.Contract.{lru_store}
use prefixmesh.CacheNode.Server.{to_proto, from_proto}
use prefixmesh.CacheNode.Warmer.{Command, Reply, received, Warmer, new_warmer, counters, handle}
use prefixmesh.CacheNode.Agent.{is_listed, new_agent, notice_ring, join}
use prefixmesh.CacheNode.Joins.{IsFirst, join_lem}
use prefixmesh.Directory.State.{NodeInfo}

abbrev whole : Floats
whole = record {
  Float = ℕ;
  of_nat = λ n. n;
  seconds = λ n. n / 1000000000;
  single = λ f. f;
  add = λ a b. a + b;
  sub = λ a b. a - b;
  mul = λ a b. a * b;
  div = λ a b. a / (b + 1);
  neg = λ a. a;
  exp2 = λ a. 1;
  lesser = min;
  less = ltb;
  less_eq = leb;
  equal = λ a b. a == b;
}

abbrev id_of : ℕ → Bytes
id_of n =
    n ∷ 0 ∷ 0 ∷ 0 ∷ 0 ∷ 0 ∷ 0 ∷ 0 ∷ 0 ∷ 0 ∷ 0 ∷ 0 ∷ 0 ∷ 0 ∷ 0 ∷ 0 ∷ 0 ∷ 0 ∷ 0 ∷ 0 ∷ 0 ∷ 0 ∷ 0 ∷ 0
    ∷ 0 ∷ 0 ∷ 0 ∷ 0 ∷ 0 ∷ 0 ∷ 0 ∷ 0 ∷ []

abbrev block : Block
block = record {
  id = id_of 1;
  parent_id = id_of 0;
  model_id = "m";
  payload = 5 ∷ [];
  token_count = 1;
  cost_us = 7;
}

abbrev empty : Lru
empty = record { cap = 300; used = 0; entries = []; stats = no_stats }

abbrev command : Bytes → Option Command
command value =
    some (record {
      block_id = id_of 1;
      source_node = "b:1";
      target_node = "cn-1";
      deadline_unix_ms = 0;
    })

abbrev sends : String → Bytes → Reply
sends addr id = received (some (to_proto block))

abbrev fresh : Warmer whole
fresh = new_warmer whole "cn-1" 0 5

abbrev counters_after : Option (Warmer whole × Lru) → ℕ × ℕ × ℕ
counters_after none = (9, 9, 9)
counters_after (some (w, s)) = counters whole w

executed_once :
    counters_after (handle whole lru_store command (λ addr. true) sends fresh empty 9 [])
    ≡ (1, 0, 0)
unfolding handle new_warmer counters from_proto put_block contains_block string_discrete to_proto
executed_once = refl

-- The second directory accepts in the third round.
abbrev accepts_late : ℕ → ℕ → Bool
accepts_late k c = (c == 2) && leb 2 k

joined_late : join accepts_late (1 ∷ 2 ∷ []) 5 0 ≡ some (2, 2)
unfolding join
joined_late = refl

join_lem_example :
    (n : ℕ) × (c : ℕ) × (join accepts_late (1 ∷ 2 ∷ []) 5 0 ≡ some (n, c))
    × (n ≤ 3)
    × IsFirst accepts_late (1 ∷ 2 ∷ []) 0 n c
join_lem_example = join_lem accepts_late (1 ∷ 2 ∷ []) 5 3 2 (omega arith) (inr (inl refl)) refl

abbrev me : NodeInfo
me = record { node_id = "cn-1"; addr = "a:1"; capacity_bytes = 1 }

-- A ring without the node asks it to join again.
removed :
    (notice_ring (new_agent me) (record { epoch = 3; nodes = []; vnodes_per_node = 1 })).rejoin
    ≡ true
unfolding notice_ring new_agent
removed = refl

kept :
    (notice_ring (new_agent me) (record { epoch = 3; nodes = me ∷ []; vnodes_per_node = 1 })).rejoin
    ≡ false
unfolding notice_ring new_agent is_listed string_discrete
kept = refl
