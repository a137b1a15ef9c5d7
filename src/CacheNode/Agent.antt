-- ===== src/CacheNode/Agent.antt =====
-- internal/cachenode/agent.go. A directory is named by what dialed it; `rejoin` is the channel of one
-- place. The watcher's epoch is an argument where it is read.
use prefixmesh.Prelude.{
  if◌then◌else◌, string_discrete, ℕ, zero, suc, String, ite, Bool, true, false, Option, none, some,
  List, [], ◌∷◌,
}
use prefixmesh.Directory.State.{NodeInfo}
use prefixmesh.Directory.State

-- The loop of `onRing`: is the node among the members?
unfoldable pub is_listed : String → List NodeInfo → Bool
is_listed id [] = false
is_listed id (n ∷ ns) = ite (string_discrete n.node_id id) true (is_listed id ns)

pub record Agent : Type 0 where
  pub me : NodeInfo
  pub rejoin : Bool

-- `NewAgent`
unfoldable pub new_agent : NodeInfo → Agent
new_agent me = record { me = me; rejoin = false }

-- The callback of `NewAgent`: a send that does not wait. A full channel stays as it is.
unfoldable pub notice_ring : Agent → State.Ring → Agent
unfolding is_listed
notice_ring a ring = if is_listed a.me.node_id ring.nodes then a else record a { rejoin = true }

pub record HeartbeatRequest : Type 0 where
  pub node_id : String
  pub occupancy_bytes : ℕ
  pub ring_epoch : ℕ

module _ {C : Type 0} where
  -- The clients that `Run` has, from the addresses that could be dialed.
  unfoldable pub dial_all : (String → Option C) → List String → List C
  dial_all dial [] = []
  dial_all dial (addr ∷ addrs) =
      let rest = dial_all dial addrs in elim (dial addr) [ none ↦ rest | some c ↦ c ∷ rest ]

  -- A tick of `Run`: the requests that are sent. `occupancy` is `none` without a store.
  unfoldable pub heartbeats : Agent → Option ℕ → ℕ → List C → List (C × HeartbeatRequest)
  heartbeats a occupancy epoch [] = []
  heartbeats a occupancy epoch (c ∷ cs) =
      (
        c,
        record {
          node_id = a.me.node_id;
          occupancy_bytes = elim occupancy [ none ↦ 0 | some n ↦ n ];
          ring_epoch = epoch;
        },
      )
      ∷ heartbeats a occupancy epoch cs

  -- One round of `join`: the first client whose Join succeeds.
  unfoldable pub try_all : (C → Bool) → List C → Option C
  try_all accepts [] = none
  try_all accepts (c ∷ cs) = if accepts c then some c else try_all accepts cs

  -- `join`, for the `rounds` rounds that begin before the context ends; `accepts k c` is the outcome
  -- of a Join in round `k`. The result is the round and the client, if one succeeded.
  unfoldable pub join : (ℕ → C → Bool) → List C → ℕ → ℕ → Option (ℕ × C)
  unfolding try_all
  join accepts cs zero k = none
  join accepts cs (suc rounds) k =
      let later = join accepts cs rounds (suc k) in
      elim (try_all (accepts k) cs) [ some c ↦ some (k, c) | none ↦ later ]
