-- ===== src/Directory/Joining.antt =====
-- server.go: Join at a replica, down to its paxos log.
use prefixmesh.Prelude.{
  if◌then◌else◌, Bool-cases, Option-cases, take, string_discrete, Bytes, ℕ, ◌+◌, ◌^◌, ◌<◌, String,
  ◌≡◌, refl, sym, ap, subst, ◌∙◌, ◌≢◌, ◌⊎◌, inl, inr, if_pos, Bool, true, false, ◌||◌, Option, some,
  List, arith,
}
use prefixmesh.Paxos.Submission.{Replica, Attempt, Outcome, done, cancelled, not_achieved, submit}
use prefixmesh.Paxos.Applied.{IsSettled, replay}
use prefixmesh.Paxos.Attempts.{IsWithin}
use prefixmesh.Paxos.Submitted.{AllFine, heard, IsRecorded, submit-IsRecorded}
use prefixmesh.Directory.State.{
  NodeInfo, ClusterCommand, node_join, StateMachine, apply, has_member, Ring, ring,
  new_state_machine,
}
use prefixmesh.Directory.Monitor.{
  JoinAnswer, internal, unavailable, invalid_argument, joined, join_node, is_empty,
}
use prefixmesh.Directory.Transport.{commands_equal, submit_command}

abbrev is_done : Outcome → Bool
is_done done = true
is_done cancelled = false
is_done not_achieved = false

abbrev pub machine_of : Replica Bytes StateMachine → StateMachine
machine_of r = r.log.machine

is_empty-neither : (a b : String) → (is_empty a || is_empty b) ≡ false → (a ≢ "") × (b ≢ "")
is_empty-neither a b h = (
  λ p.
      let none_there : is_empty a ≡ true = if_pos (string_discrete a "") p true false in
      either (is_empty a) (is_empty b) h (inl none_there),
  λ q.
      let none_there : is_empty b ≡ true = if_pos (string_discrete b "") q true false in
      either (is_empty a) (is_empty b) h (inr none_there),
)
  where
    either : (x y : Bool) → (x || y) ≡ false → (x ≡ true) ⊎ (y ≡ true) → ⊥
    either x y g e = ground arith

module _ (marshal : ClusterCommand → Option Bytes) (decode : Bytes → Option ClusterCommand)
    (equal : ClusterCommand → ClusterCommand → Bool) (n : ℕ) (atts : List (Attempt Bytes)) where
  -- The machine's apply, and `Submit` with the attempts that it comes to make.
  abbrev act : StateMachine → ℕ → Bytes → StateMachine
  act = apply decode

  abbrev pub agree : Bytes → Bytes → Bool
  agree = commands_equal marshal decode equal

  abbrev submit_raw : Replica Bytes StateMachine → Bytes → Replica Bytes StateMachine × Bool
  submit_raw r raw = let out = submit act n agree r raw atts in (out.0, is_done out.1)

  -- `Join` at this replica.
  abbrev pub join_at :
      Replica Bytes StateMachine → NodeInfo → Replica Bytes StateMachine × JoinAnswer
  join_at r info =
      join_node machine_of (submit_command marshal decode equal submit_raw) r (some info)

  -- What a Join that answers with a ring leaves.
  pub record IsJoined (r : Replica Bytes StateMachine) (info : NodeInfo) (answer : Ring)
      : Type 0 where
    pub named : info.node_id ≢ ""
    pub placed : info.addr ≢ ""
    pub member : has_member r.log.machine info.node_id ≡ true
    pub current : answer ≡ ring (replay act new_state_machine r.log.chosen r.log.applied)
    pub raw : Bytes
    pub marshaled : marshal (node_join info) ≡ some raw
    pub recorded :
        IsRecorded act n new_state_machine agree
          (heard act n new_state_machine (take 20 atts))
          r
          raw
          done

  abbrev answer_of : Replica Bytes StateMachine → NodeInfo → Bool → JoinAnswer
  answer_of r info false = internal
  answer_of r info true = joined (ring r.log.machine)

  finish :
      (info : NodeInfo) (answer : Ring) (raw : Bytes) (out : Replica Bytes StateMachine × Outcome)
      → info.node_id ≢ ""
      → info.addr ≢ ""
      → marshal (node_join info) ≡ some raw
      → IsSettled act new_state_machine out.0.log
      → IsRecorded act n new_state_machine agree
          (heard act n new_state_machine (take 20 atts))
          out.0
          raw
          out.1
      → (if is_done out.1
          then (if has_member out.0.log.machine info.node_id
              then joined (ring out.0.log.machine)
              else internal)
          else unavailable)
        ≡ joined answer
      → IsJoined out.0 info answer
  finish info answer raw (r, cancelled) named placed m w rec said = cc
  finish info answer raw (r, not_achieved) named placed m w rec said = cc
  finish info answer raw (r, done) named placed m w rec said =
      elim (Bool-cases (has_member r.log.machine info.node_id)) [
        | inr gone ↦ let other : internal ≡ joined answer = rw (gone) at said in cc
        | inl there ↦
            let told : joined (ring r.log.machine) ≡ joined answer = rw (there) at said in
            let same : answer ≡ ring r.log.machine = cc in
            record {
              named = named;
              placed = placed;
              member = there;
              current = same ∙ ap ring (w.0.replayed);
              raw = raw;
              marshaled = m;
              recorded = rec;
            }
      ]

  -- If Join at a replica whose log is settled and has seen no slot from a bound on, a bound that
  -- 20 more slots keep below 2^64, answers with a ring, whatever the peers answer in the attempts
  -- of Submit and whatever slots below the bound they have the replica learn, then the request
  -- named a node and its address, the node is a member at this replica, the ring is that of the
  -- commands that the log has applied, and the log has recorded, at some slot, a command equal to
  -- the join, or the value that the replica learned for this slot while an attempt waited.
  pub join_node_lem :
      (bound : ℕ) (r : Replica Bytes StateMachine) (info : NodeInfo) (answer : Ring)
      → bound + 20 < 2 ^ 64
      → AllFine act n new_state_machine bound (take 20 atts)
      → IsWithin act n new_state_machine bound r.log
      → (join_at r info).1 ≡ joined answer
      → IsJoined (join_at r info).0 info answer
  unfolding join_node submit_command
  join_node_lem bound r info answer small fine w said =
      elim (Bool-cases (is_empty info.node_id || is_empty info.addr)) [
        | inl bad ↦
            let refused : join_at r info ≡ (r, invalid_argument) = rw (bad, join_node) refl in
            let told : invalid_argument ≡ joined answer = ap (λ q. q.1) (sym refused) ∙ said in cc
        | inr ok ↦ elim (Option-cases (marshal (node_join info))) [
          | inl lost ↦
              let failed : join_at r info ≡ (r, unavailable) =
                rw (ok, join_node, lost, submit_command) refl in
              let told : unavailable ≡ joined answer = ap (λ q. q.1) (sym failed) ∙ said in cc
          | inr (raw, m) ↦
              let out = submit act n agree r raw atts in
              let (named, placed) = is_empty-neither info.node_id info.addr ok in
              let (settled, rec) =
                submit-IsRecorded act n new_state_machine agree bound r raw atts small fine w in
              let ran : join_at r info ≡ (
                out.0,
                if is_done out.1
                    then (if has_member out.0.log.machine info.node_id
                        then joined (ring out.0.log.machine)
                        else internal)
                    else unavailable,
              ) =
                rw (ok, join_node, m, submit_command) refl in
              subst (λ q. IsJoined q info answer) (ap (λ q. q.0) (sym ran))
                (finish info answer raw out named placed m settled rec
                  (ap (λ q. q.1) (sym ran) ∙ said))
        ]
      ]
