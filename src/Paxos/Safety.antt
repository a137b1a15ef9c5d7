-- ===== src/Paxos/Safety.antt =====
-- What is chosen for a slot is chosen once: the argument over one state of the network.
use mathlib.Core.WellFounded
use prefixmesh.Prelude.{
  Option-cases, In, ℕ, ◌≤◌, ◌<◌, ◌≡◌, sym, subst, ◌∙◌, ◌≢◌, inl, inr, true, Option, none, some,
  List, ◌∷◌, arith, dec_lt, ℕ_discrete,
}
use prefixmesh.Prelude.Order.{lt_wf}
use prefixmesh.Paxos.Acceptor.{PrepareReply}
use prefixmesh.Paxos.System.{Msg, prepare_rep, accept_req}
use prefixmesh.Paxos.Quorum.{IsQuorum, quorums_meet}
use prefixmesh.Paxos.Promises.{Voted}

module _ (n : ℕ) {V : Type 0} where
  -- A majority of the replicas has voted for one proposal.
  pub record IsChosenAt (net : List (Msg V)) (s b : ℕ) (v : V) : Type 0 where
    pub proposed : In (accept_req s b v) net
    pub voters : List ℕ
    pub majority_voted : IsQuorum n voters
    pub votes : (a : ℕ) → In a voters → Voted net a s b

  abbrev pub IsChosen : List (Msg V) → ℕ → V → Type 0
  IsChosen net s v = (b : ℕ) × IsChosenAt net s b v

  -- Why a proposal may go out: the promises of a majority, and the value that they report.
  pub record IsJustified (net : List (Msg V)) (s b : ℕ) (v : V) : Type 0 where
    pub promisers : List ℕ
    pub majority_promised : IsQuorum n promisers
    pub reported : Option V
    pub ballot : ℕ
    pub replies :
        (a : ℕ)
        → In a promisers
        → (r : PrepareReply V) × In (prepare_rep a s b r) net
          × (r.promised ≡ true)
          × (r.accepted_value ≢ none → (reported ≢ none) × (r.accepted_ballot ≤ ballot))
    pub source :
        (w : V) → reported ≡ some w → (w ≡ v) × In (accept_req s ballot w) net × (ballot < b)

  pub IsChosen-more :
      (m : Msg V) (net : List (Msg V)) (s : ℕ) (v : V) → IsChosen net s v → IsChosen (m ∷ net) s v
  IsChosen-more m net s v (b, c) = (
    b,
    record {
      proposed = inr c.proposed;
      voters = c.voters;
      majority_voted = c.majority_voted;
      votes = λ a h. let (r, k, p) = c.votes a h in (r, inr k, p);
    },
  )

  pub IsJustified-more :
      (m : Msg V) (net : List (Msg V)) (s b : ℕ) (v : V)
      → IsJustified net s b v
      → IsJustified (m ∷ net) s b v
  IsJustified-more m net s b v j = record {
    promisers = j.promisers;
    majority_promised = j.majority_promised;
    reported = j.reported;
    ballot = j.ballot;
    replies = λ a h. let (r, k, p, c) = j.replies a h in (r, inr k, p, c);
    source = λ w e. let (same, k, lt) = j.source w e in (same, inr k, lt);
  }

  -- What the invariants give of the votes and promises, without the acceptors that they are of.
  pub record IsSafe (net : List (Msg V)) : Type 0 where
    pub unique :
        (s t b : ℕ) (v w : V)
        → In (accept_req s b v) net
        → In (accept_req t b w) net
        → (s ≡ t) × (v ≡ w)
    pub justified : (s b : ℕ) (v : V) → In (accept_req s b v) net → IsJustified net s b v
    pub reports :
        (a s b : ℕ) (r : PrepareReply V)
        → In (prepare_rep a s b r) net
        → r.promised ≡ true
        → (c : ℕ) → Voted net a s c
        → c < b
        → (r.accepted_value ≢ none) × (c ≤ r.accepted_ballot)

  module _ (net : List (Msg V)) (safe : IsSafe net) (s : ℕ) where
    -- A proposal with a ballot above that of a chosen one has its value.
    above :
        (c : ℕ) (w : V)
        → IsChosenAt net s c w
        → (b : ℕ) → (v : V) → In (accept_req s b v) net
        → c < b
        → v ≡ w
    above c w chosen b =
        WellFounded.induction lt_wf {C = λ b. (v : V) → In (accept_req s b v) net → c < b → v ≡ w} b
          λ b ih v sent below.
            let j = safe.justified s b v sent in
            let (a, promises, voted) =
              quorums_meet n j.promisers chosen.voters j.majority_promised chosen.majority_voted in
            let (r, reply, yes_, covered) = j.replies a promises in
            let (held, high) = safe.reports a s b r reply yes_ c (chosen.votes a voted) below in
            let (held', high') = covered held in
            elim (Option-cases j.reported) [
              | inl e ↦ absurd (held' e)
              | inr (x, e) ↦
                  let (same, sent', lt) = j.source x e in
                  elim (ℕ_discrete c j.ballot) [
                    | yes eq ↦
                        sym same
                        ∙ (safe.unique s s j.ballot x w sent'
                            (subst (λ k. In (accept_req s k w) net) eq chosen.proposed)).1
                    | no ne ↦ sym same ∙ ih j.ballot lt x sent' (omega arith)
                  ]
            ]

    pub chosen_once : (v w : V) → IsChosen net s v → IsChosen net s w → v ≡ w
    chosen_once v w (b, p) (c, q) = elim (ℕ_discrete b c) [
      | yes e ↦
          (safe.unique s s c v w (subst (λ k. In (accept_req s k v) net) e p.proposed) q.proposed).1
      | no ne ↦ elim (dec_lt b c) [
        | yes lt ↦ sym (above b v p c w q.proposed lt)
        | no ge ↦ above c w q b v p.proposed (omega arith)
      ]
    ]
