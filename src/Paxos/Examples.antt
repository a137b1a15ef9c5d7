-- ===== src/Paxos/Examples.antt =====
-- A run of three replicas, of which one is down: replica 0 proposes 7, which 0 and 1 accept.
use prefixmesh.Prelude.{
  ℕ, zero, suc, ◌^◌, ◌≤◌, ◌<◌, ◌≡◌, refl, inl, inr, true, none, some, List, [], ◌∷◌, arith,
  ℕ_discrete,
}
use prefixmesh.Paxos.Acceptor.{PrepareReply, AcceptReply}
use prefixmesh.Paxos.Log.{Log, new_log, commit, drain}
use prefixmesh.Paxos.Node.{phase1, phase2}
use prefixmesh.Paxos.System.{
  System, Reach, here, next, start, begins, prepares, promised, accepts, decided, learns,
  begin_slot, answer_prepare, answer_accept, end_phase1, end_phase2, learn,
}
use prefixmesh.Paxos.Applied.{IsSettled, new_log-IsSettled, commit-IsSettled, replay}
use prefixmesh.Paxos.Agreement.{logs_agree, machines_agree}

abbrev record_all : List ℕ → ℕ → ℕ → List ℕ
record_all done slot v = v ∷ done

abbrev fresh_promise : PrepareReply ℕ
fresh_promise = record {
  promised = true;
  accepted_ballot = 0;
  accepted_value = none;
  promised_ballot = 256;
}

abbrev vote_256 : AcceptReply
vote_256 = record { accepted = true; promised_ballot = 256 }

code : Unit {0}
unfolding start begin_slot answer_prepare answer_accept end_phase1 end_phase2 learn phase1 phase2
    commit drain ℕ_discrete
code = tt

abbrev Run : Type 0
Run = (s : System ℕ (List ℕ)) × Reach record_all 3 [] s

abbrev agreed : Run
unfolding code
agreed = (
  _,
  next
      (next
        (next
          (next
            (next
              (next
                (next (next here (begins 0 7 (omega arith) refl))
                  (prepares 0 0 256 (omega arith) (inl refl)))
                (prepares 1 0 256 (omega arith) (inr (inl refl))))
              (promised 0 0 256 7
                ((0, some fresh_promise) ∷ (1, some fresh_promise) ∷ (2, none) ∷ []) (omega arith)
                refl (omega arith) (omega arith) (inr (inl refl), (inl refl, tt))))
            (accepts 0 0 256 7 (omega arith) (inl refl)))
          (accepts 1 0 256 7 (omega arith) (inr (inl refl))))
        (decided 0 0 256 7 ((0, some vote_256) ∷ (1, some vote_256) ∷ (2, none) ∷ []) (omega arith)
          refl (omega arith) (omega arith) (inr (inl refl), (inl refl, tt))))
      (learns 1 0 7 (omega arith) (inl refl)),
)

agreed_IsBounded : (i : ℕ) → agreed.0.rounds i < 2 ^ 56
unfolding code
agreed_IsBounded zero = omega arith
agreed_IsBounded (suc i) = ground arith

logs_agree_example : ◌≡◌ {A = ℕ} 7 7
unfolding code
logs_agree_example =
    logs_agree 3 record_all [] (omega arith) agreed.0 agreed.1 agreed_IsBounded 0 1 0 7 7 refl refl

machines_agree_example :
    ((agreed.0.logs 0).machine
      ≡ replay record_all [] (agreed.0.logs 1).chosen (agreed.0.logs 0).applied)
    × ((agreed.0.logs 0).applied ≡ (agreed.0.logs 1).applied
        → (agreed.0.logs 0).machine ≡ (agreed.0.logs 1).machine)
unfolding code
machines_agree_example =
    machines_agree 3 record_all [] (omega arith) agreed.0 agreed.1 agreed_IsBounded 0 1
      (omega arith)

agreed_machine : (agreed.0.logs 1).machine ≡ 7 ∷ []
unfolding code
agreed_machine = refl

-- A log that has heard of slot 1 but not of slot 0.
abbrev ahead : Log ℕ (List ℕ)
ahead = commit record_all (new_log []) 1 8

ahead-IsSettled : IsSettled record_all [] ahead
ahead-IsSettled =
    (commit-IsSettled record_all [] (new_log []) 1 8 (omega arith)
      (new_log-IsSettled record_all [])).0

commit-IsSettled_example :
    IsSettled record_all [] (commit record_all ahead 0 7)
    × (ahead.applied ≤ (commit record_all ahead 0 7).applied)
commit-IsSettled_example = commit-IsSettled record_all [] ahead 0 7 (omega arith) ahead-IsSettled
