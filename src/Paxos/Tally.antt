-- ===== src/Paxos/Tally.antt =====
-- What the loops of node.go over the results have found when they end.
use prefixmesh.Prelude.{
  if◌then◌else◌, Bool-cases, length, In, Distinct, ℕ, ◌+◌, ◌≤◌, ◌≡◌, sym, ◌∙◌, ◌≢◌, ◌⊎◌, inl, inr,
  Bool, true, Option, none, some, List, [], ◌∷◌, map, arith,
}
use prefixmesh.Paxos.Acceptor.{PrepareReply, AcceptReply}
use prefixmesh.Paxos.Node.{
  Tally, Count, majority, catch_up_round, count_promise, collect_promises, no_promises,
  count_accept, collect_accepts, no_accepts, or_value, phase1, phase2,
}
use prefixmesh.Paxos.System.{
  Msg, prepare_rep, accept_rep, Peers, sender, result, SentPromises, SentAccepts,
}
use prefixmesh.Paxos.Quorum.{Below, IsQuorum}

module _ {A : Type 0} (good : A → Bool) where
  -- The senders of the good replies.
  pub senders : List (ℕ × Option A) → List ℕ
  senders [] = []
  senders ((a, none) ∷ rs) = senders rs
  senders ((a, some r) ∷ rs) = if good r then a ∷ senders rs else senders rs

  In-senders : (a : ℕ) (rs : List (ℕ × Option A)) → In a (senders rs) → In a (map sender rs)
  unfolding senders
  In-senders a [] h = h
  In-senders a ((x, none) ∷ rs) h = inr (In-senders a rs h)
  In-senders a ((x, some r) ∷ rs) h = ground (arith, In-senders a rs)

  pub Distinct-senders :
      (rs : List (ℕ × Option A)) → Distinct (map sender rs) → Distinct (senders rs)
  unfolding senders
  Distinct-senders [] d = tt
  Distinct-senders ((x, none) ∷ rs) d = Distinct-senders rs d.1
  Distinct-senders ((x, some r) ∷ rs) d = elim (Bool-cases (good r)) [
    | inl e ↦ rw e (λ h. d.0 (In-senders x rs h), Distinct-senders rs d.1)
    | inr e ↦ rw e (Distinct-senders rs d.1)
  ]

  pub Below-senders : (n : ℕ) (rs : List (ℕ × Option A)) → Peers n rs → Below n (senders rs)
  unfolding senders
  Below-senders n [] p = tt
  Below-senders n ((x, none) ∷ rs) p = Below-senders n rs p.1
  Below-senders n ((x, some r) ∷ rs) p = elim (Bool-cases (good r)) [
    | inl e ↦ rw e (p.0, Below-senders n rs p.1)
    | inr e ↦ rw e (Below-senders n rs p.1)
  ]

abbrev pub accepters : List (ℕ × Option AcceptReply) → List ℕ
accepters = senders (λ r. r.accepted)

collect_accepts-senders :
    (c : Count) (rs : List (ℕ × Option AcceptReply))
    → (collect_accepts c (map result rs)).accepts ≡ c.accepts + length (accepters rs)
unfolding collect_accepts senders
collect_accepts-senders c [] = omega arith
collect_accepts-senders c ((a, none) ∷ rs) = collect_accepts-senders c rs
collect_accepts-senders c ((a, some r) ∷ rs) =
    ground (arith, collect_accepts-senders (count_accept c (some r)) rs)

module _ {V : Type 0} where
  pub accepters-sent :
      (net : List (Msg V)) (slot b a : ℕ) (rs : List (ℕ × Option AcceptReply))
      → SentAccepts net slot b rs
      → In a (accepters rs)
      → (r : AcceptReply) × In (accept_rep a slot b r) net × (r.accepted ≡ true)
  unfolding senders
  accepters-sent net slot b a [] s h = absurd h
  accepters-sent net slot b a ((x, none) ∷ rs) s h = accepters-sent net slot b a rs s h
  accepters-sent net slot b a ((x, some r) ∷ rs) s h = elim (Bool-cases r.accepted) [
    | inl e ↦ elim (rw e at h) [
      | inl here ↦ (r, rw here s.0, e)
      | inr there ↦ accepters-sent net slot b a rs s.1 there
    ]
    | inr e ↦ accepters-sent net slot b a rs s.1 (rw e at h)
  ]

  abbrev pub promisers : List (ℕ × Option (PrepareReply V)) → List ℕ
  promisers = senders (λ r. r.promised)

  -- A reply is covered: if it holds a value, so does the tally, from as high a ballot.
  abbrev pub Covered : Tally V → PrepareReply V → Type 0
  Covered t r =
      r.accepted_value ≢ none → (t.adopted ≢ none) × (r.accepted_ballot ≤ t.adopted_ballot)

  -- The tally grows, and a ballot is adopted with a value.
  abbrev Grows : Tally V → Tally V → Type 0
  Grows t u = (t.adopted_ballot ≤ u.adopted_ballot) × (t.adopted ≢ none → u.adopted ≢ none)

  abbrev IsTally : Tally V → Type 0
  IsTally t = t.adopted ≡ none → t.adopted_ballot ≡ 0

  count_promise-IsTally :
      (t : Tally V) (r : Option (PrepareReply V)) → IsTally t → IsTally (count_promise t r)
  unfolding count_promise
  count_promise-IsTally t r h = ground arith

  count_promise-Grows : (t : Tally V) (r : Option (PrepareReply V)) → Grows t (count_promise t r)
  unfolding count_promise
  count_promise-Grows t r = ground arith

  count_promise-Covered :
      (t : Tally V) (r : PrepareReply V)
      → IsTally t
      → r.promised ≡ true
      → Covered (count_promise t (some r)) r
  unfolding count_promise
  count_promise-Covered t r h p = ground arith

  collect-Grows :
      (t : Tally V) (rs : List (ℕ × Option (PrepareReply V)))
      → Grows t (collect_promises t (map result rs))
  unfolding collect_promises
  collect-Grows t [] = ground arith
  collect-Grows t ((a, r) ∷ rs) =
      let g = count_promise-Grows t r in
      let k = collect-Grows (count_promise t r) rs in (omega (arith, g.0, k.0), λ h. k.1 (g.1 h))

  collect-promises :
      (t : Tally V) (rs : List (ℕ × Option (PrepareReply V)))
      → (collect_promises t (map result rs)).promises ≡ t.promises + length (promisers rs)
  unfolding collect_promises senders count_promise
  collect-promises t [] = omega arith
  collect-promises t ((a, none) ∷ rs) = collect-promises t rs
  collect-promises t ((a, some r) ∷ rs) =
      ground (arith, collect-promises (count_promise t (some r)) rs)

  pub promisers-sent :
      (net : List (Msg V)) (slot b a : ℕ) (t : Tally V) (rs : List (ℕ × Option (PrepareReply V)))
      → IsTally t
      → SentPromises net slot b rs
      → In a (promisers rs)
      → (r : PrepareReply V) × In (prepare_rep a slot b r) net
        × (r.promised ≡ true)
        × Covered (collect_promises t (map result rs)) r
  unfolding senders collect_promises
  promisers-sent net slot b a t [] i s h = absurd h
  promisers-sent net slot b a t ((x, none) ∷ rs) i s h =
      promisers-sent net slot b a (count_promise t none) rs (count_promise-IsTally t none i) s h
  promisers-sent net slot b a t ((x, some r) ∷ rs) i s h =
      let u = count_promise t (some r) in
      let rest = promisers-sent net slot b a u rs (count_promise-IsTally t (some r) i) s.1 in
      elim (Bool-cases r.promised) [
        | inl e ↦ elim (rw e at h) [
          | inl here ↦ (
            r,
            rw here s.0,
            e,
            λ v.
                let c = count_promise-Covered t r i e v in
                let g = collect-Grows u rs in (g.1 c.0, omega (arith, c.1, g.0)),
          )
          | inr there ↦ rest there
        ]
        | inr e ↦ rest (rw e at h)
      ]

  -- Where an adopted value comes from.
  abbrev pub Source : List (Msg V) → ℕ → ℕ → V → ℕ → Type 0
  Source net slot b v k =
      (a : ℕ) × (r : PrepareReply V) × In (prepare_rep a slot b r) net
      × (r.promised ≡ true)
      × (r.accepted_value ≡ some v)
      × (r.accepted_ballot ≡ k)

  -- A step of the loop keeps the tally's value, or adopts that of the reply.
  count_promise-adopted :
      (t : Tally V) (r : PrepareReply V)
      → (((count_promise t (some r)).adopted ≡ t.adopted)
          × ((count_promise t (some r)).adopted_ballot ≡ t.adopted_ballot))
        ⊎ ((r.promised ≡ true)
            × ((count_promise t (some r)).adopted ≡ r.accepted_value)
            × ((count_promise t (some r)).adopted_ballot ≡ r.accepted_ballot))
  unfolding count_promise
  count_promise-adopted t r = ground arith

  module _ (net : List (Msg V)) (slot b : ℕ) where
    abbrev Sourced : Tally V → Type 0
    Sourced t = (v : V) → t.adopted ≡ some v → Source net slot b v t.adopted_ballot

    count_promise-Sourced :
        (a : ℕ) (t : Tally V) (r : PrepareReply V)
        → In (prepare_rep a slot b r) net
        → Sourced t
        → Sourced (count_promise t (some r))
    count_promise-Sourced a t r sent s v e = elim (count_promise-adopted t r) [
      | inl (same, at) ↦ rw at (s v (sym same ∙ e))
      | inr (p, val, at) ↦ (a, r, sent, p, sym val ∙ e, sym at)
    ]

    pub collect-Sourced :
        (t : Tally V) (rs : List (ℕ × Option (PrepareReply V)))
        → SentPromises net slot b rs
        → Sourced t
        → Sourced (collect_promises t (map result rs))
    unfolding collect_promises
    collect-Sourced t [] s h = h
    collect-Sourced t ((a, none) ∷ rs) s h =
        collect-Sourced (count_promise t none) rs s (unfold count_promise in h)
    collect-Sourced t ((a, some r) ∷ rs) s h =
        collect-Sourced (count_promise t (some r)) rs s.1 (count_promise-Sourced a t r s.0 h)

  pub phase1_outcome :
      (n round : ℕ) (v w : V) (rs : List (ℕ × Option (PrepareReply V))) (k : ℕ)
      → Peers n rs
      → Distinct (map sender rs)
      → phase1 n round v (map result rs) ≡ (some w, k)
      → IsQuorum n (promisers rs)
        × (w ≡ or_value (collect_promises no_promises (map result rs)).adopted v)
  unfolding phase1 majority
  phase1_outcome n round v w rs k p d e = (
    record {
      distinct = Distinct-senders _ rs d;
      below = Below-senders _ n rs p;
      many = unfold majority in ground (arith, collect-promises no_promises rs);
    },
    ground arith,
  )

  pub phase1_round :
      (n round : ℕ) (v : V) (rs : List (Option (PrepareReply V))) → round ≤ (phase1 n round v rs).1
  unfolding phase1 catch_up_round
  phase1_round n round v rs = ground arith

  pub phase1_keeps_round :
      (n round : ℕ) (v w : V) (rs : List (Option (PrepareReply V))) (k : ℕ)
      → phase1 n round v rs ≡ (some w, k)
      → k ≡ round
  unfolding phase1
  phase1_keeps_round n round v w rs k e = ground arith

pub phase2_outcome :
    (n round : ℕ) (rs : List (ℕ × Option AcceptReply)) (k : ℕ)
    → Peers n rs
    → Distinct (map sender rs)
    → phase2 n round (map result rs) ≡ (true, k)
    → IsQuorum n (accepters rs)
unfolding phase2 majority
phase2_outcome n round rs k p d e = record {
  distinct = Distinct-senders _ rs d;
  below = Below-senders _ n rs p;
  many = unfold majority in ground (arith, collect_accepts-senders no_accepts rs);
}

pub phase2_round : (n round : ℕ) (rs : List (Option AcceptReply)) → round ≤ (phase2 n round rs).1
unfolding phase2 catch_up_round
phase2_round n round rs = ground arith
