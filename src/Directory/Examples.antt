-- ===== src/Directory/Examples.antt =====
-- Tests and instances for the directory, with commands that need no decoding.
use prefixmesh.Prelude.{
  find, put, delete, string_discrete, ℕ, zero, suc, ◌^◌, ◌<◌, ◌≡◌, refl, inl, inr, true, false,
  Option, none, some, [], ◌∷◌, arith, ℕ_discrete,
}
use prefixmesh.Directory.State.{
  NodeInfo, ClusterCommand, node_join, node_dead, StateMachine, apply_command, apply, ring,
  new_state_machine,
}
use prefixmesh.Directory.Membership.{
  IsMembership, Effect, addr_of, address_after, addr_of-apply_command, apply_command-Effect,
  apply_command_twice,
}
use prefixmesh.Paxos.Acceptor.{PrepareReply, AcceptReply}
use prefixmesh.Paxos.System.{
  System, Reach, here, next, start, begins, prepares, promised, accepts, decided, learns,
  begin_slot, answer_prepare, answer_accept, end_phase1, end_phase2, learn,
}
use prefixmesh.Paxos.Node.{phase1, phase2}
use prefixmesh.Paxos.Log.{commit}
use prefixmesh.Directory.Replicas.{rings_agree, machine-IsMembership}

abbrev node_a : NodeInfo
node_a = record { node_id = "cn-1"; addr = "cn-1:7100"; capacity_bytes = 1024 }

abbrev one_member : StateMachine
one_member = record {
  epoch = 1;
  members = ("cn-1", node_a) ∷ [];
  watch = (4, false) ∷ [];
  joins = "cn-1" ∷ [];
}

-- A member dies: the map loses it, the epoch moves on, the watcher is signalled.
dead_member :
    apply_command one_member (node_dead "cn-1")
    ≡ record { epoch = 2; members = []; watch = (4, true) ∷ []; joins = "cn-1" ∷ [] }
unfolding apply_command find delete string_discrete
dead_member = refl

-- A join with the address that is known changes nothing.
same_join : apply_command one_member (node_join node_a) ≡ one_member
unfolding apply_command find put string_discrete
same_join = refl

one_member-IsMembership : IsMembership one_member.members
unfolding find
one_member-IsMembership = record { once = (λ h. h, tt); own_id = λ id info h. ground arith }

addr_of-apply_command_example :
    addr_of (apply_command one_member (node_dead "cn-1")) "cn-1"
    ≡ address_after (node_dead "cn-1") "cn-1" (addr_of one_member "cn-1")
addr_of-apply_command_example =
    addr_of-apply_command one_member (node_dead "cn-1") "cn-1" one_member-IsMembership

apply_command-Effect_example : Effect one_member (apply_command one_member (node_dead "cn-1"))
apply_command-Effect_example =
    apply_command-Effect one_member (node_dead "cn-1") one_member-IsMembership

apply_command_twice_example :
    apply_command (apply_command one_member (node_dead "cn-1")) (node_dead "cn-1")
    ≡ apply_command one_member (node_dead "cn-1")
apply_command_twice_example =
    apply_command_twice one_member (node_dead "cn-1") one_member-IsMembership

code : Unit {0}
unfolding start begin_slot answer_prepare answer_accept end_phase1 end_phase2 learn phase1 phase2
    commit ℕ_discrete
code = tt

abbrev joining : ClusterCommand
joining = node_join node_a

abbrev fresh_promise : PrepareReply ClusterCommand
fresh_promise = record {
  promised = true;
  accepted_ballot = 0;
  accepted_value = none;
  promised_ballot = 256;
}

abbrev vote_256 : AcceptReply
vote_256 = record { accepted = true; promised_ballot = 256 }

abbrev decode : ClusterCommand → Option ClusterCommand
decode cmd = some cmd

-- Replica 0 proposes that node a joins, 0 and 1 accept, both learn.
abbrev joined :
    (s : System ClusterCommand StateMachine) × Reach (apply decode) 3 new_state_machine s
unfolding code
joined = (
  _,
  next
      (next
        (next
          (next
            (next
              (next
                (next (next here (begins 0 joining (omega arith) refl))
                  (prepares 0 0 256 (omega arith) (inl refl)))
                (prepares 1 0 256 (omega arith) (inr (inl refl))))
              (promised 0 0 256 joining
                ((0, some fresh_promise) ∷ (1, some fresh_promise) ∷ (2, none) ∷ []) (omega arith)
                refl (omega arith) (omega arith) (inr (inl refl), (inl refl, tt))))
            (accepts 0 0 256 joining (omega arith) (inl refl)))
          (accepts 1 0 256 joining (omega arith) (inr (inl refl))))
        (decided 0 0 256 joining ((0, some vote_256) ∷ (1, some vote_256) ∷ (2, none) ∷ [])
          (omega arith) refl (omega arith) (omega arith) (inr (inl refl), (inl refl, tt))))
      (learns 1 0 joining (omega arith) (inl refl)),
)

joined_IsBounded : (i : ℕ) → joined.0.rounds i < 2 ^ 56
unfolding code
joined_IsBounded zero = omega arith
joined_IsBounded (suc i) = ground arith

rings_agree_example : ring (joined.0.logs 0).machine ≡ ring (joined.0.logs 1).machine
unfolding code
rings_agree_example =
    rings_agree decode 3 (omega arith) joined.0 joined.1 joined_IsBounded 0 1 (omega arith)
      (omega arith) refl

machine-IsMembership_example : IsMembership (joined.0.logs 0).machine.members
machine-IsMembership_example =
    machine-IsMembership decode 3 (omega arith) joined.0 joined.1 joined_IsBounded 0
