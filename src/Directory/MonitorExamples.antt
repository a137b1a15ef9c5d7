-- ===== src/Directory/MonitorExamples.antt =====
-- Three replicas, of which two have lost the node's heartbeat.
use prefixmesh.Prelude.{
  ◌==◌, if◌then◌else◌, In, find, put, string_discrete, Bytes, String, ◌≡◌, refl, sym, subst, ◌↔◌,
  inl, inr, Bool, true, false, Option, none, some, List, [], ◌∷◌, arith, ℕ_discrete,
}
use prefixmesh.Directory.State.{
  NodeInfo, ClusterCommand, node_join, noop, StateMachine, apply_command, apply, has_member, Ring,
  ring, new_state_machine,
}
use prefixmesh.Directory.Monitor.{HbTracker, detect, joined, join_node}
use prefixmesh.Directory.Suspicion.{Suspected, detect_iff}
use prefixmesh.Directory.Transport.{commands_equal, submit_command}
use prefixmesh.Directory.Joining.{IsJoined, join_at, join_node_lem}
use prefixmesh.Paxos.Log.{new_log, commit, first_unchosen}
use prefixmesh.Paxos.Node.{phase1, phase2}
use prefixmesh.Paxos.Applied.{new_log-IsSettled}
use prefixmesh.Paxos.Submission.{Replica, Attempt, submit}
use prefixmesh.Paxos.Attempts.{IsWithin, IsFine}
use prefixmesh.Paxos.Submitted.{AllFine}

abbrev first_node : String
first_node = "cn-1"

abbrev second_node : String
second_node = "cn-2"

abbrev two_beats : HbTracker
two_beats = ("cn-1", 100) ∷ ("cn-2", 1900) ∷ []

abbrev peers_say : String → List (Option Bool)
peers_say id = some true ∷ none ∷ []

detect_iff_example :
    In first_node (detect 1500 two_beats 2000 peers_say (first_node ∷ second_node ∷ [])) ↔ (
      In first_node (first_node ∷ second_node ∷ [])
      × Suspected 1500 two_beats 2000 peers_say first_node)
detect_iff_example =
    detect_iff 1500 two_beats 2000 peers_say (first_node ∷ second_node ∷ []) first_node

abbrev newcomer : NodeInfo
newcomer = record { node_id = "cn-3"; addr = "10.0.0.3:1"; capacity_bytes = 64 }

-- Commands are marshaled by tags; the only one that matters here is the join of the newcomer.
abbrev marshal : ClusterCommand → Option Bytes
marshal (node_join info) = some (1 ∷ [])
marshal (noop b) = some (2 ∷ [])
marshal _ = none

abbrev decode : Bytes → Option ClusterCommand
decode [] = none
decode (tag ∷ rest) = if tag == 1 then some (node_join newcomer) else some (noop true)

abbrev same_kind : ClusterCommand → ClusterCommand → Bool
same_kind (node_join a) (node_join b) = true
same_kind (noop a) (noop b) = true
same_kind _ _ = false

abbrev one_attempt : List (Attempt Bytes)
one_attempt =
    record {
      alive = true;
      learned = [];
      learned_preparing = [];
      learned_accepting = [];
      promises =
          some (record {
            promised = true;
            accepted_ballot = 0;
            accepted_value = none;
            promised_ballot = 256;
          })
          ∷ [];
      accepts = some (record { accepted = true; promised_ballot = 256 }) ∷ [];
    }
    ∷ []

abbrev fresh : Replica Bytes StateMachine
fresh = record { round = 0; log = new_log new_state_machine }

abbrev joined_ring : Ring
joined_ring = ring (apply_command new_state_machine (node_join newcomer))

answered : (join_at marshal decode same_kind 1 one_attempt fresh newcomer).1 ≡ joined joined_ring
unfolding join_node submit_command submit commands_equal apply_command apply new_log commit
    first_unchosen phase1 phase2 ring has_member find put string_discrete ℕ_discrete
    new_state_machine
answered = refl

fresh-IsWithin : IsWithin (apply decode) 1 new_state_machine 1 fresh.log
unfolding new_log
fresh-IsWithin = (new_log-IsSettled (apply decode) new_state_machine, omega arith)

one_attempt-AllFine : AllFine (apply decode) 1 new_state_machine 1 one_attempt
one_attempt-AllFine att (inr h) = absurd h
one_attempt-AllFine att (inl e) =
    subst (λ a. IsFine (apply decode) 1 new_state_machine 1 a) (sym e)
      (λ x h. absurd h, λ x h. absurd h)

join_node_lem_example :
    IsJoined marshal decode same_kind 1 one_attempt
      (join_at marshal decode same_kind 1 one_attempt fresh newcomer).0
      newcomer
      joined_ring
join_node_lem_example =
    join_node_lem marshal decode same_kind 1 one_attempt 1 fresh newcomer joined_ring (omega arith)
      one_attempt-AllFine fresh-IsWithin answered
