-- ===== src/Paxos/Log.antt =====
-- internal/paxos/log.go: the learner. The `apply` callback is a parameter, over the state `S`
-- of the machine that it feeds.
use prefixmesh.Prelude.{
  ltb, if◌then◌else◌, ℕ, zero, suc, ◌+◌, ◌-◌, ◌%◌, ◌^◌, ite, Option, none, some, ℕ_discrete,
}

-- `Log`, with the state that `apply` has built so far.
pub record Log (V S : Type 0) : Type 0 where
  pub chosen : ℕ → Option V
  pub applied : ℕ
  pub max_seen : ℕ
  pub machine : S

module _ {V : Type 0} where
  -- The loop of `Log.FirstUnchosen` from slot `s`.
  unfoldable pub first_unchosen_from : ℕ → (ℕ → Option V) → ℕ → ℕ
  first_unchosen_from zero chosen s = s
  first_unchosen_from (suc fuel) chosen s = elim (chosen s) [
    | none ↦ s
    | some v ↦ first_unchosen_from fuel chosen (suc s)
  ]

  -- The loop of `Log.Gap` from slot `s`, with `rounds` slots left below `max_seen`.
  unfoldable pub gap_from : ℕ → (ℕ → Option V) → ℕ → Option ℕ
  gap_from zero chosen s = none
  gap_from (suc rounds) chosen s = elim (chosen s) [
    | none ↦ some s
    | some v ↦ gap_from rounds chosen (suc s)
  ]

module _ {V S : Type 0} where
  unfoldable pub new_log : S → Log V S
  new_log init = record { chosen = λ _. none; applied = 0; max_seen = 0; machine = init }

  -- Fuel for the loops that walk from `applied` to the first slot that is not chosen.
  abbrev pub slots_ahead : Log V S → ℕ
  slots_ahead l = suc (l.max_seen - l.applied)

  -- `Log.FirstUnchosen`
  unfoldable pub first_unchosen : Log V S → ℕ
  unfolding first_unchosen_from
  first_unchosen l = first_unchosen_from (slots_ahead l) l.chosen l.applied

  -- `Log.Gap`
  unfoldable pub gap : Log V S → Option ℕ
  unfolding gap_from
  gap l = gap_from (l.max_seen - l.applied) l.chosen l.applied

  module _ (apply : S → ℕ → V → S) where
    -- The loop of `Log.Commit`: apply the newly contiguous prefix.
    unfoldable pub drain : ℕ → Log V S → Log V S
    drain zero l = l
    drain (suc fuel) l = elim (l.chosen l.applied) [
      | none ↦ l
      | some v ↦
          drain fuel (record l { applied = suc l.applied; machine = apply l.machine l.applied v })
    ]

    -- `l.chosen[slot] = value` and the update of `maxSeen`; `slot + 1` is a uint64.
    abbrev pub note : Log V S → ℕ → V → Log V S
    note l slot value = record l {
      chosen = λ t. ite (ℕ_discrete slot t) (some value) (l.chosen t);
      max_seen = if ltb l.max_seen ((slot + 1) % 2 ^ 64) then (slot + 1) % 2 ^ 64 else l.max_seen;
    }

    -- `Log.Commit`: a slot that is chosen already keeps its value, whatever the new one is (the
    -- comparison of the two in the source only decides whether an error is logged).
    unfoldable pub commit : Log V S → ℕ → V → Log V S
    unfolding drain
    commit l slot value = elim (l.chosen slot) [
      | some prev ↦ l
      | none ↦ let l' = note l slot value in drain (slots_ahead l') l'
    ]
