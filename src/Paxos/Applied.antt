-- ===== src/Paxos/Applied.antt =====
-- log.go: what the learner's fields say of one another.
use prefixmesh.Prelude.{
  ltb, if◌then◌else◌, Option-cases, ℕ, zero, suc, ◌+◌, ◌-◌, ◌^◌, ◌≤◌, ◌<◌, ◌≡◌, refl, ◌∙◌, ◌≢◌, inl,
  inr, ite, Option, none, some, arith, ℕ_discrete,
}
use prefixmesh.Paxos.Log.{
  Log, new_log, slots_ahead, first_unchosen, first_unchosen_from, gap, gap_from, drain, note,
  commit,
}

module _ {V S : Type 0} (apply : S → ℕ → V → S) where
  abbrev apply_chosen : S → ℕ → Option V → S
  apply_chosen m k none = m
  apply_chosen m k (some v) = apply m k v

  -- The machine after the values of the first `k` slots, in slot order.
  unfoldable pub replay : S → (ℕ → Option V) → ℕ → S
  replay init chosen zero = init
  replay init chosen (suc k) = apply_chosen (replay init chosen k) k (chosen k)

  -- The machine depends on the chosen values below the slot alone.
  pub replay_local :
      (init : S) (f g : ℕ → Option V) (k : ℕ)
      → ((s : ℕ) → s < k → f s ≡ g s)
      → replay init f k ≡ replay init g k
  unfolding replay
  replay_local init f g zero h = refl
  replay_local init f g (suc k) h =
      rw (h k (omega arith), replay_local init f g k (λ s lt. h s (omega arith)))

  -- No gap below `applied`, and the machine is the replay of the applied slots.
  pub record IsLog (init : S) (l : Log V S) : Type 0 where
    pub complete : (s : ℕ) → s < l.applied → l.chosen s ≢ none
    pub replayed : l.machine ≡ replay init l.chosen l.applied

  abbrev advance : Log V S → V → Log V S
  advance l v = record l { applied = suc l.applied; machine = apply l.machine l.applied v }

  advance-IsLog :
      (init : S) (l : Log V S) (v : V)
      → l.chosen l.applied ≡ some v
      → IsLog init l
      → IsLog init (advance l v)
  unfolding replay
  advance-IsLog init l v e i = record {
    complete = λ s lt. elim (ℕ_discrete s l.applied) [
      | yes q ↦ λ none_. cc
      | no q ↦ i.complete s (omega arith)
    ];
    replayed = rw (e, i.replayed);
  }

  -- The loop changes neither map nor bound.
  pub chosen-drain : (fuel : ℕ) (l : Log V S) → (drain apply fuel l).chosen ≡ l.chosen
  unfolding drain
  chosen-drain zero l = refl
  chosen-drain (suc fuel) l = elim (Option-cases (l.chosen l.applied)) [
    | inl e ↦ rw (e, drain)
    | inr (v, e) ↦ rw (e, drain) (chosen-drain fuel (advance l v))
  ]

  pub max_seen-drain : (fuel : ℕ) (l : Log V S) → (drain apply fuel l).max_seen ≡ l.max_seen
  unfolding drain
  max_seen-drain zero l = refl
  max_seen-drain (suc fuel) l = elim (Option-cases (l.chosen l.applied)) [
    | inl e ↦ rw (e, drain)
    | inr (v, e) ↦ rw (e, drain) (max_seen-drain fuel (advance l v))
  ]

  drain-IsLog : (init : S) (fuel : ℕ) (l : Log V S) → IsLog init l → IsLog init (drain apply fuel l)
  unfolding drain
  drain-IsLog init zero l i = i
  drain-IsLog init (suc fuel) l i = elim (Option-cases (l.chosen l.applied)) [
    | inl e ↦ rw (e, drain) i
    | inr (v, e) ↦ rw (e, drain) (drain-IsLog init fuel (advance l v) (advance-IsLog init l v e i))
  ]

  abbrev AllSeen : Log V S → Type 0
  AllSeen l = (s : ℕ) → l.max_seen ≤ s → l.chosen s ≡ none

  -- With the fuel of `commit` the loop ends at a slot that is not chosen.
  drain-AllSeen : (fuel : ℕ) (l : Log V S) → AllSeen l → AllSeen (drain apply fuel l)
  drain-AllSeen fuel l seen s le =
      rw (chosen-drain fuel l) (seen s (rw (max_seen-drain fuel l) at le))

  drain-stalls :
      (fuel : ℕ) (l : Log V S)
      → l.max_seen < l.applied + fuel
      → AllSeen l
      → ((drain apply fuel l).chosen (drain apply fuel l).applied ≡ none)
        × (l.applied ≤ (drain apply fuel l).applied)
  unfolding drain
  drain-stalls zero l h seen = (seen l.applied (omega arith), omega arith)
  drain-stalls (suc fuel) l h seen = elim (Option-cases (l.chosen l.applied)) [
    | inl e ↦ rw (e, drain) (e, omega arith)
    | inr (v, e) ↦
        let d = drain-stalls fuel (advance l v) (omega arith) seen in
        rw (e, drain) (d.0, omega (arith, d.1))
  ]

  note-IsLog :
      (init : S) (l : Log V S) (slot : ℕ) (v : V)
      → l.chosen slot ≡ none
      → IsLog init l
      → IsLog init (note apply l slot v)
  note-IsLog init l slot v e i = record {
    complete = λ s lt. ground (arith, i.complete s lt);
    replayed =
        i.replayed
        ∙ replay_local init l.chosen (note apply l slot v).chosen l.applied
            (λ s lt. ground (arith, i.complete s lt, e));
  }

  -- A log as `NewLog` makes it, or as `Commit` of the slots below 2^64 - 1 leaves it: well formed,
  -- nothing chosen from `max_seen` on, and stalled at a slot that is not chosen.
  abbrev pub IsSettled : S → Log V S → Type 0
  IsSettled init l = IsLog init l × AllSeen l × (l.chosen l.applied ≡ none)

  pub new_log-IsSettled : (init : S) → IsSettled init (new_log init)
  unfolding new_log replay
  new_log-IsSettled init =
      (record { complete = λ s h. absurd (omega arith); replayed = refl }, (λ s h. refl), refl)

  -- Commit of any slot keeps what the log says of the applied slots.
  pub commit-IsLog :
      (init : S) (l : Log V S) (slot : ℕ) (v : V)
      → IsLog init l
      → IsLog init (commit apply l slot v)
  unfolding commit
  commit-IsLog init l slot v i = elim (Option-cases (l.chosen slot)) [
    | inr (w, e) ↦ rw (e, commit) i
    | inl e ↦
        let l' = note apply l slot v in
        rw (e, commit) (drain-IsLog init (slots_ahead l') l' (note-IsLog init l slot v e i))
  ]

  -- Commit of a slot below 2^64 - 1 keeps a log settled: nothing is recorded from maxSeen on,
  -- every slot below applied is recorded and the slot at applied is not, and the machine is the
  -- replay of the applied slots. The next slot to apply never goes back.
  pub commit-IsSettled :
      (init : S) (l : Log V S) (slot : ℕ) (v : V)
      → slot + 1 < 2 ^ 64
      → IsSettled init l
      → IsSettled init (commit apply l slot v) × (l.applied ≤ (commit apply l slot v).applied)
  unfolding commit
  commit-IsSettled init l slot v small i = elim (Option-cases (l.chosen slot)) [
    | inr (w, e) ↦ rw (e, commit) (i, omega arith)
    | inl e ↦
        let l' = note apply l slot v in
        let seen : AllSeen l' = λ s le. ground (arith, i.1 s) in
        let d = drain-stalls (slots_ahead l') l' (omega arith) seen in
        let whole = commit-IsLog init l slot v i.0 in
        (
          (
            whole,
            rw (e, commit) (λ s le. drain-AllSeen (slots_ahead l') l' seen s le),
            rw (e, commit) (d.0),
          ),
          rw (e, commit) (d.1),
        )
  ]

  -- `Commit` writes one slot, once: the first value stays, and no other slot changes.
  pub chosen-commit :
      (l : Log V S) (slot : ℕ) (v : V) (s : ℕ)
      → (commit apply l slot v).chosen s
        ≡ elim (l.chosen s) [ some w ↦ some w | none ↦ ite (ℕ_discrete slot s) (some v) none ]
  unfolding commit
  chosen-commit l slot v s = elim (Option-cases (l.chosen slot)) [
    | inr (w, e) ↦ rw (e, commit) (ground arith)
    | inl e ↦ rw (e, commit, chosen-drain) (ground arith)
  ]

module _ {V S : Type 0} (apply : S → ℕ → V → S) (init : S) (l : Log V S)
    (i : IsSettled apply init l) where
  -- On a settled log `FirstUnchosen` is the next slot to apply.
  pub first_unchosen-settled : first_unchosen l ≡ l.applied
  unfolding first_unchosen first_unchosen_from
  first_unchosen-settled = rw (i.2, first_unchosen_from)

  gap_from-settled :
      (rounds : ℕ)
      → gap_from rounds l.chosen l.applied ≡ (if ltb 0 rounds then some l.applied else none)
  unfolding gap_from
  gap_from-settled zero = refl
  gap_from-settled (suc rounds) = rw (i.2, gap_from) (ground arith)

  -- On a settled log Gap reports the next slot to apply exactly when a slot beyond it has been
  -- seen, and otherwise no slot.
  gap-settled : gap l ≡ (if ltb l.applied l.max_seen then some l.applied else none)
  unfolding gap
  gap-settled = gap_from-settled (l.max_seen - l.applied) ∙ ground arith
