-- ===== src/Directory/Replicas.antt =====
-- The state machines of the directory's replicas, fed by their paxos logs.
use prefixmesh.Prelude.{
  Option-cases, find, ℕ, zero, suc, ◌+◌, ◌%◌, ◌^◌, ◌≤◌, ◌<◌, ◌≡◌, refl, sym, ap, subst, ◌∙◌, ◌⊎◌,
  inl, inr, Option, arith, dec_le, ℕ_discrete,
}
use prefixmesh.Directory.State.{ClusterCommand, StateMachine, apply, ring, new_state_machine}
use prefixmesh.Directory.Membership.{
  IsMembership, Effect, apply_command-IsMembership, apply_command-Effect,
}
use prefixmesh.Paxos.System.{System, Reach}
use prefixmesh.Paxos.Steps.{IsBounded, Reach-Inv}
use prefixmesh.Paxos.Applied.{replay}
use prefixmesh.Paxos.Agreement.{machines_agree}

module _ {Raw : Type 0} (decode : Raw → Option ClusterCommand) where
  apply-IsMembership :
      (sm : StateMachine) (slot : ℕ) (raw : Raw)
      → IsMembership sm.members
      → IsMembership (apply decode sm slot raw).members
  unfolding apply
  apply-IsMembership sm slot raw i = elim (Option-cases (decode raw)) [
    | inl e ↦ rw (e, apply) i
    | inr (cmd, e) ↦ rw (e, apply) (apply_command-IsMembership sm cmd i)
  ]

  apply-Effect :
      (sm : StateMachine) (slot : ℕ) (raw : Raw)
      → IsMembership sm.members
      → Effect sm (apply decode sm slot raw)
  unfolding apply
  apply-Effect sm slot raw i = elim (Option-cases (decode raw)) [
    | inl e ↦ rw (e, apply) (inl refl)
    | inr (cmd, e) ↦ rw (e, apply) (apply_command-Effect sm cmd i)
  ]

  module _ (chosen : ℕ → Option Raw) where
    abbrev after : ℕ → StateMachine
    after = replay (apply decode) new_state_machine chosen

    replay_next :
        (k : ℕ)
        → (after (suc k) ≡ after k) ⊎ ((raw : Raw) × (after (suc k) ≡ apply decode (after k) k raw))
    unfolding replay
    replay_next k = elim (Option-cases (chosen k)) [
      | inl e ↦ rw e (inl refl)
      | inr (raw, e) ↦ rw e (inr (raw, refl))
    ]

    replay-IsMembership : (k : ℕ) → IsMembership (after k).members
    unfolding replay new_state_machine
    replay-IsMembership zero = record { once = tt; own_id = λ id info h. unfold find in cc }
    replay-IsMembership (suc k) = elim (replay_next k) [
      | inl e ↦ subst (λ x. IsMembership x.members) (sym e) (replay-IsMembership k)
      | inr (raw, e) ↦
          subst (λ x. IsMembership x.members) (sym e)
            (apply-IsMembership (after k) k raw (replay-IsMembership k))
    ]

    abbrev Moves : StateMachine → StateMachine → Type 0
    Moves sm sm' = (sm' ≡ sm) ⊎ (sm'.epoch ≡ (sm.epoch + 1) % 2 ^ 64)

    replay-Moves : (k : ℕ) → Moves (after k) (after (suc k))
    replay-Moves k = elim (replay_next k) [
      | inl e ↦ inl e
      | inr (raw, e) ↦ elim (apply-Effect (after k) k raw (replay-IsMembership k)) [
        | inl same ↦ inl (e ∙ same)
        | inr (bumped, _, _, _) ↦ inr (ap (λ x. x.epoch) e ∙ bumped)
      ]
    ]

    epoch-le-applied : (k : ℕ) → k < 2 ^ 64 → (after k).epoch ≤ k
    unfolding replay new_state_machine
    epoch-le-applied zero h = omega arith
    epoch-le-applied (suc k) h = elim (replay-Moves k) [
      | inl e ↦ omega (arith, ap (λ x. x.epoch) e, epoch-le-applied k (omega arith))
      | inr e ↦ omega (arith, e, epoch-le-applied k (omega arith))
    ]

    -- Between two slots the state stays, or the epoch has risen.
    replay_grows :
        (k j : ℕ) → k ≤ j → j < 2 ^ 64 → (after j ≡ after k) ⊎ ((after k).epoch < (after j).epoch)
    replay_grows k zero le small = inl (ap after (omega arith))
    replay_grows k (suc j) le small = elim (ℕ_discrete k (suc j)) [
      | yes e ↦ inl (ap after (sym e))
      | no e ↦ elim (replay-Moves j) [
        | inl same ↦ elim (replay_grows k j (omega arith) (omega arith)) [
          | inl p ↦ inl (same ∙ p)
          | inr p ↦ inr (omega (arith, p, ap (λ x. x.epoch) same))
        ]
        | inr bumped ↦ elim (replay_grows k j (omega arith) (omega arith)) [
          | inl p ↦
              inr (omega (arith, bumped, ap (λ x. x.epoch) p, epoch-le-applied j (omega arith)))
          | inr p ↦ inr (omega (arith, bumped, p, epoch-le-applied j (omega arith)))
        ]
      ]
    ]

  module _ (n : ℕ) (few : n ≤ 256) (s : System Raw StateMachine)
      (reach : Reach (apply decode) n new_state_machine s) (bounded : IsBounded s) where
    machine-replay : (i : ℕ) → (s.logs i).machine ≡ after (s.logs i).chosen (s.logs i).applied
    machine-replay i =
        ((Reach-Inv n (apply decode) new_state_machine few s reach bounded).logs.settled i).replayed

    -- On every one of at most 256 directory replicas, in every reachable state with rounds below
    -- 2^56, each member stands once in the state machine and under its own node id.
    pub machine-IsMembership : (i : ℕ) → IsMembership (s.logs i).machine.members
    machine-IsMembership i =
        subst (λ x. IsMembership x.members) (sym (machine-replay i))
          (replay-IsMembership (s.logs i).chosen (s.logs i).applied)

    ordered_rings_agree :
        (i j : ℕ)
        → (s.logs i).applied ≤ (s.logs j).applied
        → (s.logs j).applied < 2 ^ 64
        → (s.logs i).machine.epoch ≡ (s.logs j).machine.epoch
        → (s.logs i).machine ≡ (s.logs j).machine
    ordered_rings_agree i j le small same =
        let at_i =
          (machines_agree n (apply decode) new_state_machine few s reach bounded i j le).0 in
        elim (replay_grows (s.logs j).chosen (s.logs i).applied (s.logs j).applied le small) [
          | inl e ↦ at_i ∙ sym e ∙ sym (machine-replay j)
          | inr lt ↦ absurd (
              omega (arith, lt, same, ap (λ x. x.epoch) at_i, ap (λ x. x.epoch) (machine-replay j)))
        ]

    -- In every such state of at most 256 directory replicas with rounds below 2^56, two replicas
    -- that have each applied fewer than 2^64 slots and report the same epoch report the same
    -- ring, however far each has come in its log.
    pub rings_agree :
        (i j : ℕ)
        → (s.logs i).applied < 2 ^ 64
        → (s.logs j).applied < 2 ^ 64
        → (ring (s.logs i).machine).epoch ≡ (ring (s.logs j).machine).epoch
        → ring (s.logs i).machine ≡ ring (s.logs j).machine
    unfolding ring
    rings_agree i j small_i small_j same = elim (dec_le (s.logs i).applied (s.logs j).applied) [
      | yes le ↦ ap ring (ordered_rings_agree i j le small_j same)
      | no gt ↦ ap ring (sym (ordered_rings_agree j i (omega arith) small_i (sym same)))
    ]
