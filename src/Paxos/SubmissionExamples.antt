-- ===== src/Paxos/SubmissionExamples.antt =====
-- Submit on one of three replicas, at small inputs.
use prefixmesh.Prelude.{
  ◌==◌, string_discrete, ℕ, ◌≡◌, refl, sym, subst, inl, inr, true, Option, none, some, List, [],
  ◌∷◌, arith, ℕ_discrete,
}
use prefixmesh.Paxos.Acceptor.{PrepareReply, AcceptReply}
use prefixmesh.Paxos.Log.{commit, new_log, first_unchosen}
use prefixmesh.Paxos.Node.{phase1, phase2}
use prefixmesh.Paxos.Applied.{IsSettled, new_log-IsSettled}
use prefixmesh.Paxos.Submission.{
  Replica, Attempt, done, not_achieved, replica_index, submit, fill_gap,
}
use prefixmesh.Paxos.Attempts.{IsWithin, IsFine}
use prefixmesh.Paxos.Submitted.{AllFine, IsRecorded, submit-IsRecorded}

abbrev apply : List ℕ → ℕ → ℕ → List ℕ
apply m slot v = v ∷ m

abbrev fresh : Replica ℕ (List ℕ)
fresh = record { round = 0; log = new_log [] }

abbrev promise : Option ℕ → Option (PrepareReply ℕ)
promise v =
    some
      (record { promised = true; accepted_ballot = 0; accepted_value = v; promised_ballot = 256 })

abbrev accepting : Option AcceptReply
accepting = some (record { accepted = true; promised_ballot = 256 })

abbrev attempt : Option ℕ → Attempt ℕ
attempt found = record {
  alive = true;
  learned = [];
  learned_preparing = [];
  learned_accepting = [];
  promises = promise found ∷ none ∷ promise none ∷ [];
  accepts = accepting ∷ accepting ∷ none ∷ [];
}

abbrev failing : Attempt ℕ
failing = record {
  alive = true;
  learned = [];
  learned_preparing = [];
  learned_accepting = [];
  promises = promise none ∷ [];
  accepts = [];
}

-- The first attempt fails, and no other is left.
unanswered : (submit apply 3 (λ a b. a == b) fresh 7 (failing ∷ [])).1 ≡ not_achieved
unfolding submit new_log phase1 phase2
unanswered = refl

-- After a failure it succeeds.
answered : (submit apply 3 (λ a b. a == b) fresh 7 (failing ∷ attempt none ∷ [])).1 ≡ done
unfolding submit new_log phase1 phase2
answered = refl

-- A value that an acceptor holds has the slot; the next slot is the caller's.
helped :
    (submit apply 3 (λ a b. a == b) fresh 7 (attempt (some 5) ∷ attempt none ∷ [])).0.log.machine
    ≡ 7 ∷ 5 ∷ []
unfolding submit new_log commit first_unchosen phase1 phase2 ℕ_discrete
helped = refl

-- Another value is learned for the slot while the accepts are awaited: it stays in the log.
abbrev disturbed : Attempt ℕ
disturbed = record (attempt none) { learned_accepting = (0, 9) ∷ [] }

overtaken : (submit apply 3 (λ a b. a == b) fresh 7 (disturbed ∷ [])).1 ≡ done
unfolding submit new_log commit phase1 phase2 ℕ_discrete
overtaken = refl

kept : (submit apply 3 (λ a b. a == b) fresh 7 (disturbed ∷ [])).0.log.machine ≡ 9 ∷ []
unfolding submit new_log commit first_unchosen phase1 phase2 ℕ_discrete
kept = refl

fresh-IsWithin : IsWithin apply 3 [] 1 fresh.log
unfolding new_log
fresh-IsWithin = (new_log-IsSettled apply [], omega arith)

disturbed-AllFine : AllFine apply 3 [] 1 (disturbed ∷ [])
disturbed-AllFine att (inr h) = absurd h
disturbed-AllFine att (inl e) =
    subst (λ a. IsFine apply 3 [] 1 a) (sym e)
      (λ x h. absurd h, λ x h. elim h [ inl p ↦ rw p (omega arith) | inr q ↦ absurd q ])

submit-IsRecorded_example :
    IsSettled apply [] (submit apply 3 (λ a b. a == b) fresh 7 (disturbed ∷ [])).0.log
    × IsRecorded apply 3 []
        (λ a b. a == b)
        ((0, 9) ∷ [])
        (submit apply 3 (λ a b. a == b) fresh 7 (disturbed ∷ [])).0
        7
        (submit apply 3 (λ a b. a == b) fresh 7 (disturbed ∷ [])).1
submit-IsRecorded_example =
    submit-IsRecorded apply 3 [] (λ a b. a == b) 1 fresh 7 (disturbed ∷ []) (omega arith)
      disturbed-AllFine fresh-IsWithin

indices :
    (replica_index "d2" ("d3" ∷ "d1" ∷ "d2" ∷ []) ≡ some 1)
    × (replica_index "d4" ("d3" ∷ "d1" ∷ []) ≡ none)
unfolding replica_index string_discrete
indices = (refl, refl)

-- A gap in front of a learned slot is filled with the no-op.
filled :
    (fill_gap apply 3
      (λ a b. a == b)
      (record { round = 0; log = commit apply (new_log []) 1 9 })
      0
      (attempt none ∷ [])).log.machine
    ≡ 9 ∷ 0 ∷ []
unfolding fill_gap commit first_unchosen phase1 phase2 new_log ℕ_discrete
filled = refl
