-- ===== src/Paxos/Agreement.antt =====
-- What the directory relies on: the replicas' logs never disagree, and neither do the machines
-- that they feed.
use prefixmesh.Prelude.{Option-cases, ℕ, ◌≤◌, ◌<◌, ◌≡◌, sym, ap, ◌∙◌, inl, inr, some, arith}
use prefixmesh.Paxos.System.{System, Reach}
use prefixmesh.Paxos.Safety.{IsSafe, IsChosen, chosen_once}
use prefixmesh.Paxos.Applied.{replay, replay_local}
use prefixmesh.Paxos.Invariant.{Inv}
use prefixmesh.Paxos.Steps.{IsBounded, Reach-Inv}

module _ (n : ℕ) {V S : Type 0} (apply : S → ℕ → V → S) (init : S) (few : n ≤ 256) (s : System V S)
    (reach : Reach apply n init s) (bounded : IsBounded s) where
  reached : Inv n apply init s
  reached = Reach-Inv n apply init few s reach bounded

  net-IsSafe : IsSafe n s.net
  net-IsSafe = record {
    unique = reached.owns.unique;
    justified = reached.messages.justified;
    reports = λ a t b r h p c v lt. (reached.slots a t).promise_reports b r h p c v lt;
  }

  -- At most one value is chosen for a slot: in a state that the replicas reach by any interleaving
  -- of proposals, lost, late, repeated and reordered messages, two values that majorities have
  -- accepted for one slot, under whatever ballots, are equal.
  pub chosen_unique :
      (slot : ℕ) (v w : V) → IsChosen n s.net slot v → IsChosen n s.net slot w → v ≡ w
  chosen_unique slot v w = chosen_once n s.net net-IsSafe slot v w

  -- In every state that at most 256 replicas reach by proposals and by lost, late, repeated and
  -- reordered messages, with all rounds below 2^56, two logs that have recorded a value for one
  -- slot have recorded the same value.
  pub logs_agree :
      (i j slot : ℕ) (v w : V)
      → (s.logs i).chosen slot ≡ some v
      → (s.logs j).chosen slot ≡ some w
      → v ≡ w
  logs_agree i j slot v w p q =
      chosen_unique slot v w (reached.logs.logged i slot v p) (reached.logs.logged j slot w q)

  same_below :
      (i j : ℕ)
      → (s.logs i).applied ≤ (s.logs j).applied
      → (t : ℕ) → t < (s.logs i).applied
      → (s.logs i).chosen t ≡ (s.logs j).chosen t
  same_below i j le t lt = elim (Option-cases ((s.logs i).chosen t)) [
    | inl e ↦ absurd ((reached.logs.settled i).complete t lt e)
    | inr (v, e) ↦ elim (Option-cases ((s.logs j).chosen t)) [
      | inl f ↦ absurd ((reached.logs.settled j).complete t (omega arith) f)
      | inr (w, f) ↦ e ∙ ap some (logs_agree i j t v w e f) ∙ sym f
    ]
  ]

  -- In every such state of at most 256 replicas with rounds below 2^56, of two replicas the one
  -- that has applied no more slots has the machine state that replaying the other log for as many
  -- slots gives, and both have the same state when they have applied equally many.
  pub machines_agree :
      (i j : ℕ)
      → (s.logs i).applied ≤ (s.logs j).applied
      → ((s.logs i).machine ≡ replay apply init (s.logs j).chosen (s.logs i).applied)
        × ((s.logs i).applied ≡ (s.logs j).applied → (s.logs i).machine ≡ (s.logs j).machine)
  machines_agree i j le = (
    one,
    λ e. one ∙ ap (replay apply init (s.logs j).chosen) e ∙ sym (reached.logs.settled j).replayed,
  )
    where
      one : (s.logs i).machine ≡ replay apply init (s.logs j).chosen (s.logs i).applied
      one =
          (reached.logs.settled i).replayed
          ∙ replay_local apply init _ _ (s.logs i).applied (same_below i j le)
