-- ===== src/Paxos/Submitted.antt =====
-- A Submit that succeeds has its value in the log.
use prefixmesh.Prelude.{
  length, take, length-take, In, In-append_left, In-append_right, ℕ, suc, ◌+◌, ◌^◌, ◌≤◌, ◌<◌, ◌≡◌,
  refl, subst, ◌⊎◌, inl, inr, Bool, true, false, Option, none, some, List, [], ◌∷◌, ◌++◌, arith,
}
use prefixmesh.Paxos.Log.{Log, first_unchosen}
use prefixmesh.Paxos.Applied.{IsSettled}
use prefixmesh.Paxos.Submission.{
  Replica, Attempt, Outcome, done, cancelled, not_achieved, hear, run_slot, is_own, if_alive,
  if_other, submit_from, submit,
}
use prefixmesh.Paxos.Attempts.{
  first_unchosen-none, learn_all-IsWithin, run_slot-Ran, first_unchosen-le, IsWithin, overheard,
  Ran, IsFine,
}

module _ {V S : Type 0} (apply : S → ℕ → V → S) (n : ℕ) (init : S) where
  abbrev pub AllFine : ℕ → List (Attempt V) → Type 0
  AllFine bound atts = (att : Attempt V) → In att atts → IsFine apply n init bound att

  AllFine-later :
      (bound : ℕ) (att : Attempt V) (atts : List (Attempt V))
      → AllFine bound (att ∷ atts)
      → AllFine (suc bound) atts
  AllFine-later bound att atts fine a h =
      (λ x i. omega (arith, (fine a (inr h)).0 x i), λ x i. omega (arith, (fine a (inr h)).1 x i))

  abbrev pub heard : List (Attempt V) → List (ℕ × V)
  heard [] = []
  heard (att ∷ atts) = overheard apply n init att ++ heard atts

  module _ (equal : V → V → Bool) where
    -- The log has recorded a value that is equal to the submitted one, or one for a slot that the
    -- replica learned a value for while an attempt waited.
    abbrev pub IsRecorded : List (ℕ × V) → Replica V S → V → Outcome → Type 0
    IsRecorded vs r value done =
        (slot : ℕ) × (w : V) × (r.log.chosen slot ≡ some w)
        × ((equal w value ≡ true) ⊎ In (slot, w) vs)
    IsRecorded vs r value cancelled = Unit
    IsRecorded vs r value not_achieved = Unit

    abbrev Ends : ℕ → List (ℕ × V) → V → Replica V S × Outcome → Type 0
    Ends bound vs value out =
        IsWithin apply n init bound out.0.log × IsRecorded vs out.0 value out.1

    Ends-more :
        (bound : ℕ) (us vs : List (ℕ × V)) (value : V) (out : Replica V S × Outcome)
        → Ends bound vs value out
        → Ends bound (us ++ vs) value out
    Ends-more bound us vs value (r, done) (w, (slot, v, at, why)) = (
      w,
      (
        slot,
        v,
        at,
        elim why [ inl same ↦ inl same | inr late ↦ inr (In-append_right (slot, v) us vs late) ],
      ),
    )
    Ends-more bound us vs value (r, cancelled) h = h
    Ends-more bound us vs value (r, not_achieved) h = h

    Ran-IsWithin :
        (bound : ℕ) (att : Attempt V) (out : Replica V S × Option V)
        → Ran apply n init bound att out
        → IsWithin apply n init bound out.0.log
    Ran-IsWithin bound att (r, none) h = h
    Ran-IsWithin bound att (r, some v) h = h.0

    Ran-IsRecorded :
        (bound : ℕ) (att : Attempt V) (vs : List (ℕ × V)) (out : Replica V S × Option V) (value : V)
        → Ran apply n init bound att out
        → is_own apply n equal out.1 value ≡ true
        → IsRecorded (overheard apply n init att ++ vs) out.0 value done
    Ran-IsRecorded bound att vs (r, none) value h own = cc
    Ran-IsRecorded bound att vs (r, some v) value (w, (slot, x, at, why)) own = (
      slot,
      x,
      at,
      elim why [
        | inl same ↦ inl (rw same own)
        | inr late ↦ inr (In-append_left (slot, x) (overheard apply n init att) vs late)
      ],
    )

    IsWithin-le :
        (b c : ℕ) (l : Log V S) → b ≤ c → IsWithin apply n init b l → IsWithin apply n init c l
    IsWithin-le b c l le w = (w.0, omega (arith, w.1))

    if_alive-Ends :
        (bound : ℕ) (vs : List (ℕ × V)) (value : V) (b : Bool) (r : Replica V S)
        (next : Replica V S × Outcome)
        → IsWithin apply n init bound r.log
        → Ends bound vs value next
        → Ends bound vs value (if_alive apply n equal b r next)
    if_alive-Ends bound vs value true r next w h = h
    if_alive-Ends bound vs value false r next w h = (w, tt)

    if_other-Ends :
        (bound : ℕ) (vs : List (ℕ × V)) (value : V) (b : Bool) (r : Replica V S)
        (later : Replica V S × Outcome)
        → IsWithin apply n init bound r.log
        → (b ≡ true → IsRecorded vs r value done)
        → Ends bound vs value later
        → Ends bound vs value (if_other apply n equal b r later)
    if_other-Ends bound vs value true r later w own h = (w, own refl)
    if_other-Ends bound vs value false r later w own h = h

    submit_from-Ends :
        (bound : ℕ) (r : Replica V S) (value : V) (atts : List (Attempt V))
        → bound + length atts < 2 ^ 64
        → AllFine bound atts
        → IsWithin apply n init bound r.log
        → Ends (bound + length atts) (heard atts) value (submit_from apply n equal r value atts)
    unfolding submit_from
    submit_from-Ends bound r value [] small fine w =
        (IsWithin-le bound (bound + 0) r.log (omega arith) w, tt)
    submit_from-Ends bound r value (att ∷ atts) small fine w =
        let seen : Replica V S = hear apply n r att.learned in
        let ours = fine att (inl refl) in
        let settled =
          learn_all-IsWithin apply n init bound att.learned r.log (omega arith) ours.0 w in
        let slot = first_unchosen seen.log in
        let ran = run_slot apply n seen slot value att in
        let good =
          run_slot-Ran apply n init bound seen slot value att (omega arith)
            (first_unchosen-le apply n init bound seen.log settled) ours settled
            (first_unchosen-none apply n init seen.log settled.0) in
        let after = Ran-IsWithin (suc bound) att ran good in
        let rest = submit_from apply n equal ran.0 value atts in
        let ends =
          submit_from-Ends (suc bound) ran.0 value atts (omega arith)
            (AllFine-later bound att atts fine) after in
        let total = bound + suc (length atts) in
        let same : suc bound + length atts ≡ total = omega arith in
        let later : Ends total (heard (att ∷ atts)) value rest =
          Ends-more total (overheard apply n init att) (heard atts) value rest
            (subst (λ b. Ends b (heard atts) value rest) same ends) in
        if_alive-Ends total (heard (att ∷ atts)) value att.alive seen
          (if_other apply n equal (is_own apply n equal ran.1 value) ran.0 rest)
          (IsWithin-le bound total seen.log (omega arith) settled)
          (if_other-Ends total (heard (att ∷ atts)) value (is_own apply n equal ran.1 value) ran.0
            rest (IsWithin-le (suc bound) total ran.0.log (omega arith) after)
            (λ own. Ran-IsRecorded (suc bound) att (heard atts) ran value good own) later)

    -- Submit on a replica with a settled log that has seen no slot from a bound on, a bound that
    -- 20 more slots keep below 2^64, over any attempts, whatever the peers answer in them and
    -- whatever slots below the bound they have the replica learn before and during them, leaves
    -- the log settled. If it returns without an error the log has recorded, at some slot, a value
    -- that is equal to the submitted one, or the value that the replica learned for this slot
    -- while an attempt waited.
    pub submit-IsRecorded :
        (bound : ℕ) (r : Replica V S) (value : V) (atts : List (Attempt V))
        → bound + 20 < 2 ^ 64
        → AllFine bound (take 20 atts)
        → IsWithin apply n init bound r.log
        → IsSettled apply init (submit apply n equal r value atts).0.log
          × IsRecorded
              (heard (take 20 atts))
              (submit apply n equal r value atts).0
              value
              (submit apply n equal r value atts).1
    unfolding submit
    submit-IsRecorded bound r value atts small fine w =
        let ends =
          submit_from-Ends bound r value (take 20 atts) (omega (arith, length-take 20 atts)) fine
            w in
        (ends.0.0, ends.1)
