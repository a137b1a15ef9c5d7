-- ===== src/Directory/Monitor.antt =====
-- internal/directory/monitor.go, and of server.go the handlers Join, Leave, Heartbeat, GetRing and
-- Suspect. Times are counts of one unit; the clock's reading is an argument. Joining puts in
-- Submit for `submit`: the replica when the call returns, and whether it succeeded.
use prefixmesh.Prelude.{
  ltb, if◌then◌else◌, length, find, put, string_discrete, ℕ, suc, ◌+◌, ◌-◌, ◌/◌, String, ite, Bool,
  true, false, ◌&&◌, ◌||◌, Option, none, some, List, [], ◌∷◌,
}
use prefixmesh.Directory.State.{
  NodeInfo, ClusterCommand, node_join, node_leave, StateMachine, Ring, ring, has_member,
}

-- `hbTracker.las`, the last heartbeat of each node.
abbrev pub HbTracker : Type 0
HbTracker = List (String × ℕ)

-- `record` and `seed`
unfoldable pub record_beat : HbTracker → String → ℕ → HbTracker
record_beat h id now = put string_discrete id now h

-- `expired`. A heartbeat after `now` is no time ago at all.
unfoldable pub expired : ℕ → HbTracker → String → ℕ → Bool
expired dead_after h id now = elim (find string_discrete id h) [
  | none ↦ false
  | some last ↦ ltb dead_after (now - last)
]

-- The loop of `quorumSuspects` over the peers' replies, `none` where there was an error.
unfoldable pub count_suspects : ℕ → List (Option Bool) → ℕ
count_suspects suspecting [] = suspecting
count_suspects suspecting (some true ∷ rs) = count_suspects (suc suspecting) rs
count_suspects suspecting (_ ∷ rs) = count_suspects suspecting rs

-- `quorumSuspects`
unfoldable pub quorum_suspects : List (Option Bool) → Bool
unfolding count_suspects
quorum_suspects replies = ltb ((length replies + 1) / 2) (count_suspects 1 replies)

-- The members for which one round of `runFailureDetector` proposes NodeDead. `replies` are the
-- peers' answers about a node.
unfoldable pub detect :
    ℕ → HbTracker → ℕ → (String → List (Option Bool)) → List String → List String
unfolding expired quorum_suspects
detect dead_after h now replies [] = []
detect dead_after h now replies (id ∷ ids) =
    let rest = detect dead_after h now replies ids in
    if expired dead_after h id now && quorum_suspects (replies id) then id ∷ rest else rest

-- `Suspect`
unfoldable pub suspect : ℕ → StateMachine → HbTracker → String → ℕ → Bool
unfolding has_member expired
suspect dead_after sm h id now = if has_member sm id then expired dead_after h id now else true

pub data JoinAnswer : Type 0 where
  invalid_argument unavailable internal : JoinAnswer
  joined : Ring → JoinAnswer

abbrev pub is_empty : String → Bool
is_empty s = ite (string_discrete s "") true false

module _ {R : Type 0} (machine_of : R → StateMachine) (submit : R → ClusterCommand → R × Bool) where
  -- `Join` at a replica in the state `r`; a nil node is `none`.
  unfoldable pub join_node : R → Option NodeInfo → R × JoinAnswer
  unfolding has_member ring
  join_node r none = (r, invalid_argument)
  join_node r (some info) =
      if is_empty info.node_id || is_empty info.addr
      then (r, invalid_argument)
      else (let done = submit r (node_join info) in
          (
            done.0,
            if done.1
                then (if has_member (machine_of done.0) info.node_id
                    then joined (ring (machine_of done.0))
                    else internal)
                else unavailable,
          ))

  -- `Leave`: whether it succeeded.
  unfoldable pub leave_node : R → String → R × Bool
  leave_node r id = submit r (node_leave id)
