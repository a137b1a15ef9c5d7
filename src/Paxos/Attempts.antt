-- ===== src/Paxos/Attempts.antt =====
-- What one attempt of Submit leaves in the log.
use prefixmesh.Prelude.{
  ltb, Bool-cases, Option-cases, In, In-append_left, In-append_right, ℕ, suc, ◌^◌, ◌≤◌, ◌<◌, ◌≡◌,
  refl, sym, ap, ◌∙◌, ◌⊎◌, inl, inr, if_pos, if_neg, Bool, true, false, Option, none, some, List,
  [], ◌∷◌, ◌++◌, arith, ℕ_discrete,
}
use prefixmesh.Paxos.Log.{Log, commit, note, slots_ahead, first_unchosen}
use prefixmesh.Paxos.Applied.{
  IsSettled, commit-IsSettled, chosen-drain, max_seen-drain, chosen-commit, first_unchosen-settled,
}
use prefixmesh.Paxos.Node.{phase1, phase2}
use prefixmesh.Paxos.Submission.{Replica, Attempt, learn_all, hear, finish_slot, propose, run_slot}

module _ {V S : Type 0} (apply : S → ℕ → V → S) (n : ℕ) (init : S) where
  pub first_unchosen-none :
      (l : Log V S) → IsSettled apply init l → l.chosen (first_unchosen l) ≡ none
  first_unchosen-none l w = rw (first_unchosen-settled apply init l w) (w.2)

  commit-chosen :
      (l : Log V S) (slot : ℕ) (v : V)
      → l.chosen slot ≡ none
      → (commit apply l slot v).chosen slot ≡ some v
  unfolding commit
  commit-chosen l slot v free =
      rw (free, commit)
        (ap (λ f. f slot)
            (chosen-drain apply (slots_ahead (note apply l slot v)) (note apply l slot v))
          ∙ if_pos (ℕ_discrete slot slot) refl (some v) (l.chosen slot))

  -- The log is settled and no slot from `bound` on has been seen.
  abbrev pub IsWithin : ℕ → Log V S → Type 0
  IsWithin bound l = IsSettled apply init l × (l.max_seen ≤ bound)

  abbrev AllBelow : ℕ → List (ℕ × V) → Type 0
  AllBelow bound vs = (x : ℕ × V) → In x vs → x.0 < bound

  commit-IsWithin :
      (bound : ℕ) (l : Log V S) (slot : ℕ) (v : V)
      → bound < 2 ^ 64
      → slot < bound
      → IsWithin bound l
      → IsWithin bound (commit apply l slot v)
  unfolding commit
  commit-IsWithin bound l slot v small lt w = (
    (commit-IsSettled apply init l slot v (omega arith) w.0).0,
    elim (Option-cases (l.chosen slot)) [
      | inr (x, e) ↦ rw (e, commit) w.1
      | inl e ↦ rw (e, commit, max_seen-drain) (ground arith)
    ],
  )

  pub learn_all-IsWithin :
      (bound : ℕ) (vs : List (ℕ × V)) (l : Log V S)
      → bound < 2 ^ 64
      → AllBelow bound vs
      → IsWithin bound l
      → IsWithin bound (learn_all apply n l vs)
  unfolding learn_all
  learn_all-IsWithin bound [] l small below w = w
  learn_all-IsWithin bound ((slot, v) ∷ vs) l small below w =
      learn_all-IsWithin bound vs (commit apply l slot v) small (λ x h. below x (inr h))
        (commit-IsWithin bound l slot v small (below (slot, v) (inl refl)) w)

  -- What a slot that was free holds after commits comes from one of them.
  commit-source :
      (l : Log V S) (slot t : ℕ) (v w : V)
      → (commit apply l slot v).chosen t ≡ some w
      → (l.chosen t ≡ some w) ⊎ (Path (ℕ × V) (t, w) (slot, v))
  commit-source l slot t v w h = elim (Option-cases (l.chosen t)) [
    | inr (x, e) ↦ inl (e ∙ (rw (chosen-commit apply l slot v t, e) at h))
    | inl e ↦ elim (ℕ_discrete slot t) [
      | yes p ↦
          let found : some v ≡ some w =
            sym (if_pos (ℕ_discrete slot t) p (some v) none)
            ∙ (rw (chosen-commit apply l slot v t, e) at h) in
          inr cc
      | no p ↦
          let found : none ≡ some w =
            sym (if_neg (ℕ_discrete slot t) p (some v) none)
            ∙ (rw (chosen-commit apply l slot v t, e) at h) in
          cc
    ]
  ]

  learn_all-source :
      (vs : List (ℕ × V)) (l : Log V S) (t : ℕ) (w : V)
      → (learn_all apply n l vs).chosen t ≡ some w
      → (l.chosen t ≡ some w) ⊎ In (t, w) vs
  unfolding learn_all
  learn_all-source [] l t w h = inl h
  learn_all-source ((slot, v) ∷ vs) l t w h =
      elim (learn_all-source vs (commit apply l slot v) t w h) [
        | inr there ↦ inr (inr there)
        | inl here ↦ elim (commit-source l slot t v w here) [
          | inl before ↦ inl before
          | inr same ↦ inr (inl same)
        ]
      ]

  -- What arrives while an attempt waits.
  abbrev pub overheard : Attempt V → List (ℕ × V)
  overheard att = att.learned_preparing ++ att.learned_accepting

  -- What a log records at a slot for which an attempt returned a value: this value, unless the
  -- replica learned one for the slot while it waited.
  abbrev Records : Log V S → V → Attempt V → Type 0
  Records l v att =
      (slot : ℕ) × (w : V) × (l.chosen slot ≡ some w) × ((w ≡ v) ⊎ In (slot, w) (overheard att))

  abbrev pub Ran : ℕ → Attempt V → Replica V S × Option V → Type 0
  Ran bound att (r, none) = IsWithin bound r.log
  Ran bound att (r, some v) = IsWithin bound r.log × Records r.log v att

  abbrev pub IsFine : ℕ → Attempt V → Type 0
  IsFine bound att = AllBelow bound att.learned × AllBelow bound (overheard att)

  weaken : (l : Log V S) (bound : ℕ) → IsWithin bound l → IsWithin (suc bound) l
  weaken l bound w = (w.0, omega (arith, w.1))

  -- The end of `runSlot`: the commit, over what was learned in the two waits.
  finish-Records :
      (l : Log V S) (slot : ℕ) (v : V) (att : Attempt V)
      → l.chosen slot ≡ none
      → Records
          (commit apply
            (learn_all apply n (learn_all apply n l att.learned_preparing) att.learned_accepting)
            slot
            v)
          v
          att
  unfolding commit
  finish-Records l slot v att free =
      let heard1 = learn_all apply n l att.learned_preparing in
      let heard2 = learn_all apply n heard1 att.learned_accepting in
      elim (Option-cases (heard2.chosen slot)) [
        | inl e ↦ (slot, v, commit-chosen heard2 slot v e, inl refl)
        | inr (w, e) ↦ (
          slot,
          w,
          rw (e, commit) e,
          inr (elim (learn_all-source att.learned_accepting heard1 slot w e) [
            | inr late ↦ In-append_right (slot, w) att.learned_preparing att.learned_accepting late
            | inl early ↦ elim (learn_all-source att.learned_preparing l slot w early) [
              | inr first ↦
                  In-append_left (slot, w) att.learned_preparing att.learned_accepting first
              | inl before ↦ cc (before, free)
            ]
          ]),
        )
      ]

  pub run_slot-Ran :
      (bound : ℕ) (r : Replica V S) (slot : ℕ) (value : V) (att : Attempt V)
      → suc bound < 2 ^ 64
      → slot ≤ bound
      → IsFine bound att
      → IsWithin bound r.log
      → r.log.chosen slot ≡ none
      → Ran (suc bound) att (run_slot apply n r slot value att)
  unfolding run_slot
  run_slot-Ran bound r slot value att small le fine w free =
      phase1_Ran (phase1 n (suc r.round) value att.promises)
    where
      w1 : IsWithin bound (learn_all apply n r.log att.learned_preparing)
      w1 =
          learn_all-IsWithin bound att.learned_preparing r.log (omega arith)
            (λ x h. fine.1 x (In-append_left x att.learned_preparing att.learned_accepting h)) w

      w2 :
          IsWithin bound (
            learn_all apply n (learn_all apply n r.log att.learned_preparing) att.learned_accepting)
      w2 =
          learn_all-IsWithin bound att.learned_accepting
            (learn_all apply n r.log att.learned_preparing) (omega arith)
            (λ x h. fine.1 x (In-append_right x att.learned_preparing att.learned_accepting h)) w1

      phase2_Ran :
          (v : V) (out : Bool × ℕ)
          → Ran (suc bound) att (
              finish_slot apply n
                (hear apply n (hear apply n r att.learned_preparing) att.learned_accepting)
                slot
                v
                out)
      phase2_Ran v (false, round) = weaken _ bound w2
      phase2_Ran v (true, round) = (
        commit-IsWithin (suc bound) _ slot v small (omega arith) (weaken _ bound w2),
        finish-Records r.log slot v att free,
      )

      phase1_Ran :
          (out : Option V × ℕ)
          → Ran
              (suc bound)
              att
              (propose apply n (hear apply n r att.learned_preparing) slot att out)
      phase1_Ran (none, round) = weaken _ bound w1
      phase1_Ran (some v, round) = phase2_Ran v (phase2 n round att.accepts)

  pub first_unchosen-le : (bound : ℕ) (l : Log V S) → IsWithin bound l → first_unchosen l ≤ bound
  first_unchosen-le bound l w = rw (first_unchosen-settled apply init l w.0) (applied_le)
    where
      applied_le : l.applied ≤ bound
      applied_le = elim (Bool-cases (ltb bound l.applied)) [
        | inr not_above ↦ ground arith
        | inl above ↦
            absurd (w.0.0.complete bound (ground arith) (w.0.1 bound (omega (arith, w.1))))
      ]
