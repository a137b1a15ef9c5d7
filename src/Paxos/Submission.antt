-- ===== src/Paxos/Submission.antt =====
-- node.go as one replica sees it: NewNode's index, runSlot with its two waits, Submit, and the gap
-- filler. What the peers answer in an attempt is a list for each wait, and so is what they have the
-- replica learn before the attempt and during each wait.
use prefixmesh.Prelude.{
  take, string_discrete, ℕ, suc, ◌%◌, ◌^◌, String, ite, Bool, true, false, Option, none, some, List,
  [], ◌∷◌,
}
use prefixmesh.Paxos.Acceptor.{PrepareReply, AcceptReply}
use prefixmesh.Paxos.Log.{Log, commit, first_unchosen, gap}
use prefixmesh.Paxos.Node.{phase1, phase2}
use Prim.Native.Nat.{Ordering}
use Prim.Native.String.{compare}

-- `sort.Strings`, as an insertion sort.
unfoldable pub insert_text : String → List String → List String
insert_text x [] = x ∷ []
insert_text x (y ∷ ys) = elim (compare x y) [ Ordering.gt ↦ y ∷ insert_text x ys | _ ↦ x ∷ y ∷ ys ]

unfoldable pub sort_texts : List String → List String
unfolding insert_text
sort_texts [] = []
sort_texts (x ∷ xs) = insert_text x (sort_texts xs)

-- The loop of NewNode that looks for `Self`, from the index `i` on; the last one counts.
unfoldable pub index_from : String → List String → ℕ → Option ℕ → Option ℕ
index_from self [] i found = found
index_from self (id ∷ ids) i found =
    index_from self ids (suc i) (ite (string_discrete id self) (some i) found)

-- The index of a new node, as a uint8; `none` is the panic.
unfoldable pub replica_index : String → List String → Option ℕ
unfolding sort_texts index_from
replica_index self replicas = elim (index_from self (sort_texts replicas) 0 none) [
  | none ↦ none
  | some i ↦ some (i % 2 ^ 8)
]

pub data Outcome : Type 0 where
  done cancelled not_achieved : Outcome

-- What a replica's proposer keeps.
pub record Replica (V S : Type 0) : Type 0 where
  pub round : ℕ
  pub log : Log V S

-- The rest of the world during one attempt. `learned` comes before its slot is picked, `learned_preparing` and
-- `learned_accepting` while it waits for the promises and for the accepts.
pub record Attempt (V : Type 0) : Type 0 where
  pub alive : Bool
  pub learned : List (ℕ × V)
  pub learned_preparing : List (ℕ × V)
  pub learned_accepting : List (ℕ × V)
  pub promises : List (Option (PrepareReply V))
  pub accepts : List (Option AcceptReply)

module _ {V S : Type 0} where
  module _ (apply : S → ℕ → V → S) (n : ℕ) where
    unfoldable pub learn_all : Log V S → List (ℕ × V) → Log V S
    learn_all l [] = l
    learn_all l ((slot, v) ∷ vs) = learn_all (commit apply l slot v) vs

    abbrev pub finish_slot : Replica V S → ℕ → V → Bool × ℕ → Replica V S × Option V
    finish_slot r slot proposal (false, round) = (record r { round = round }, none)
    finish_slot r slot proposal (true, round) =
        (record { round = round; log = commit apply r.log slot proposal }, some proposal)

    abbrev pub hear : Replica V S → List (ℕ × V) → Replica V S
    hear r vs = record r { log = learn_all r.log vs }

    abbrev pub propose : Replica V S → ℕ → Attempt V → Option V × ℕ → Replica V S × Option V
    propose r slot att (none, round) = (record r { round = round }, none)
    propose r slot att (some v, round) =
        finish_slot (hear r att.learned_accepting) slot v (phase2 n round att.accepts)

    -- `runSlot`: the value that was chosen, or `none` on an error.
    unfoldable pub run_slot : Replica V S → ℕ → V → Attempt V → Replica V S × Option V
    unfolding learn_all
    run_slot r slot value att =
        propose (hear r att.learned_preparing) slot att (phase1 n (suc r.round) value att.promises)

    module _ (equal : V → V → Bool) where
      abbrev pub is_own : Option V → V → Bool
      is_own none value = false
      is_own (some v) value = equal v value

      abbrev pub if_alive : Bool → Replica V S → Replica V S × Outcome → Replica V S × Outcome
      if_alive true r next = next
      if_alive false r next = (r, cancelled)

      abbrev pub if_other : Bool → Replica V S → Replica V S × Outcome → Replica V S × Outcome
      if_other true r later = (r, done)
      if_other false r later = later

      -- The loop of `Submit`, over the attempts that are left.
      unfoldable pub submit_from : Replica V S → V → List (Attempt V) → Replica V S × Outcome
      unfolding run_slot learn_all
      submit_from r value [] = (r, not_achieved)
      submit_from r value (att ∷ atts) =
          let seen : Replica V S = hear r att.learned in
          let ran = run_slot seen (first_unchosen seen.log) value att in
          if_alive att.alive seen
            (if_other (is_own ran.1 value) ran.0 (submit_from ran.0 value atts))

      -- `Submit`: at most 20 attempts.
      unfoldable pub submit : Replica V S → V → List (Attempt V) → Replica V S × Outcome
      unfolding submit_from
      submit r value atts = submit_from r value (take 20 atts)

      -- A tick of `RunGapFiller`
      unfoldable pub fill_gap : Replica V S → V → List (Attempt V) → Replica V S
      unfolding submit gap
      fill_gap r noop atts = elim (gap r.log) [ none ↦ r | some slot ↦ (submit r noop atts).0 ]
