-- ===== src/Paxos/Node.antt =====
-- internal/paxos/node.go: the proposer. `runSlot` is cut at its two waits: `phase1` is what it does
-- with the results of the prepare messages, `phase2` with those of the accept messages. A result
-- is `none` where the call of the transport failed.
use prefixmesh.Prelude.{
  ltb, leb, if◌then◌else◌, ℕ, suc, ◌+◌, ◌/◌, Bool, true, false, Option, none, some, List, [], ◌∷◌,
}
use prefixmesh.Paxos.Ballot.{ballot_round}
use prefixmesh.Paxos.Acceptor.{PrepareReply, AcceptReply}

-- `Node.majority` of `n` replicas.
unfoldable pub majority : ℕ → ℕ
majority n = n / 2 + 1

-- `Node.catchUpRound`: the new value of `n.round`.
unfoldable pub catch_up_round : ℕ → ℕ → ℕ
unfolding ballot_round
catch_up_round round promised =
    let target = ballot_round promised in if leb target round then round else target

module _ (V : Type 0) where
  -- The variables of the loop over the prepare results.
  pub record Tally : Type 0 where
    pub promises : ℕ
    pub adopted : Option V
    pub adopted_ballot : ℕ
    pub max_promised : ℕ

-- The variables of the loop over the accept results.
pub record Count : Type 0 where
  pub accepts : ℕ
  pub max_promised : ℕ

-- `if promised > maxPromised { maxPromised = promised }`
abbrev raise : ℕ → ℕ → ℕ
raise promised max_promised = if ltb max_promised promised then promised else max_promised

unfoldable pub count_accept : Count → Option AcceptReply → Count
count_accept c none = c
count_accept c (some r) =
    if r.accepted
    then record c { accepts = suc c.accepts }
    else record c { max_promised = raise r.promised_ballot c.max_promised }

unfoldable pub collect_accepts : Count → List (Option AcceptReply) → Count
unfolding count_accept
collect_accepts c [] = c
collect_accepts c (r ∷ rs) = collect_accepts (count_accept c r) rs

abbrev pub no_accepts : Count
no_accepts = record { accepts = 0; max_promised = 0 }

module _ {V : Type 0} where
  -- The adoption of an accepted value: the highest ballot so far wins, the later one on a tie.
  abbrev pub adopt : Tally V → PrepareReply V → Tally V
  adopt t r = elim r.accepted_value [
    | none ↦ t
    | some v ↦
        if leb t.adopted_ballot r.accepted_ballot
        then record t { adopted = some v; adopted_ballot = r.accepted_ballot }
        else t
  ]

  unfoldable pub count_promise : Tally V → Option (PrepareReply V) → Tally V
  count_promise t none = t
  count_promise t (some r) =
      if r.promised
      then adopt (record t { promises = suc t.promises }) r
      else record t { max_promised = raise r.promised_ballot t.max_promised }

  unfoldable pub collect_promises : Tally V → List (Option (PrepareReply V)) → Tally V
  unfolding count_promise
  collect_promises t [] = t
  collect_promises t (r ∷ rs) = collect_promises (count_promise t r) rs

  abbrev pub no_promises : Tally V
  no_promises = record { promises = 0; adopted = none; adopted_ballot = 0; max_promised = 0 }

  abbrev pub or_value : Option V → V → V
  or_value none v = v
  or_value (some w) v = w

  -- After the loop of phase 1: the proposal for phase 2, or `none` on a failure; and the round.
  unfoldable pub phase1 : ℕ → ℕ → V → List (Option (PrepareReply V)) → Option V × ℕ
  unfolding majority catch_up_round collect_promises
  phase1 n round value results =
      let t = collect_promises no_promises results in
      if ltb t.promises (majority n)
      then (none, catch_up_round round t.max_promised)
      else (some (or_value t.adopted value), round)

-- After the loop of phase 2: whether the proposal is chosen; and the round.
unfoldable pub phase2 : ℕ → ℕ → List (Option AcceptReply) → Bool × ℕ
unfolding majority catch_up_round collect_accepts
phase2 n round results =
    let c = collect_accepts no_accepts results in
    if ltb c.accepts (majority n)
    then (false, catch_up_round round c.max_promised)
    else (true, round)
