-- ===== src/Paxos/Promises.antt =====
-- What an acceptor's slot holds, and what its replies in the network promise for it.
use prefixmesh.Prelude.{
  ltb, leb, ltb→lt, leb→le, Bool-cases, In, ℕ, ◌≤◌, ◌<◌, ◌≡◌, refl, sym, ap, subst, ◌∙◌, ◌≢◌, ◌⊎◌,
  inl, inr, true, none, some, List, ◌∷◌, arith, ℕ_discrete,
}
use prefixmesh.Paxos.Acceptor.{
  Acceptor, AcceptorSlot, PrepareReply, AcceptReply, slot, put_slot, prepare, accept,
}
use prefixmesh.Paxos.System.{Msg, prepare_rep, accept_req, accept_rep}

module _ {V : Type 0} where
  -- The acceptor has voted for a ballot.
  abbrev pub Voted : List (Msg V) → ℕ → ℕ → ℕ → Type 0
  Voted net a s b = (r : AcceptReply) × In (accept_rep a s b r) net × (r.accepted ≡ true)

  pub record SlotInv (a s : ℕ) (st : AcceptorSlot V) (net : List (Msg V)) : Type 0 where
    pub ballot_le : st.accepted_ballot ≤ st.promised
    pub value_sent :
        (v : V) → st.accepted_value ≡ some v → In (accept_req s st.accepted_ballot v) net
    pub voted : (b : ℕ) → Voted net a s b → (b ≤ st.accepted_ballot) × (st.accepted_value ≢ none)
    pub vote_sent : (b : ℕ) → Voted net a s b → (v : V) × In (accept_req s b v) net
    pub promise_kept :
        (b : ℕ) (r : PrepareReply V)
        → In (prepare_rep a s b r) net
        → r.promised ≡ true
        → b ≤ st.promised
    pub promise_reports :
        (b : ℕ) (r : PrepareReply V)
        → In (prepare_rep a s b r) net
        → r.promised ≡ true
        → (c : ℕ) → Voted net a s c
        → c < b
        → (r.accepted_value ≢ none) × (c ≤ r.accepted_ballot)
    pub promise_sent :
        (b : ℕ) (r : PrepareReply V)
        → In (prepare_rep a s b r) net
        → r.promised ≡ true
        → (v : V) → r.accepted_value ≡ some v
        → In (accept_req s r.accepted_ballot v) net × (r.accepted_ballot < b)

  -- A message that is no vote and no promise of acceptor `a` for slot `s`.
  abbrev pub IsQuiet : ℕ → ℕ → Msg V → Type 0
  IsQuiet a s (prepare_rep f t b r) = f ≡ a → t ≡ s → r.promised ≡ true → ⊥
  IsQuiet a s (accept_rep f t b r) = f ≡ a → t ≡ s → r.accepted ≡ true → ⊥
  IsQuiet a s _ = Unit

  module _ (a s : ℕ) (m : Msg V) (net : List (Msg V)) (q : IsQuiet a s m) where
    old_promise :
        (b : ℕ) (r : PrepareReply V)
        → In (prepare_rep a s b r) (m ∷ net)
        → r.promised ≡ true
        → In (prepare_rep a s b r) net
    old_promise b r (inl e) p = absurd (subst (IsQuiet a s) (sym e) q refl refl p)
    old_promise b r (inr h) p = h

    old_vote : (b : ℕ) → Voted (m ∷ net) a s b → Voted net a s b
    old_vote b (r, inl e, p) = absurd (subst (IsQuiet a s) (sym e) q refl refl p)
    old_vote b (r, inr h, p) = (r, h, p)

    pub SlotInv-quiet : (st : AcceptorSlot V) → SlotInv a s st net → SlotInv a s st (m ∷ net)
    SlotInv-quiet st i = record {
      ballot_le = i.ballot_le;
      value_sent = λ v e. inr (i.value_sent v e);
      voted = λ b h. i.voted b (old_vote b h);
      vote_sent = λ b h. let (v, k) = i.vote_sent b (old_vote b h) in (v, inr k);
      promise_kept = λ b r h p. i.promise_kept b r (old_promise b r h p) p;
      promise_reports =
          λ b r h p c k. i.promise_reports b r (old_promise b r h p) p c (old_vote c k);
      promise_sent =
          λ b r h p v e. let g = i.promise_sent b r (old_promise b r h p) p v e in (inr g.0, g.1);
    }

  module _ (a s b : ℕ) (st : AcceptorSlot V) (net : List (Msg V)) (i : SlotInv a s st net) where
    abbrev reply : PrepareReply V
    reply = record {
      promised = true;
      accepted_ballot = st.accepted_ballot;
      accepted_value = st.accepted_value;
      promised_ballot = b;
    }

    abbrev promise : Msg V
    promise = prepare_rep a s b reply

    same_vote : (c : ℕ) → Voted (promise ∷ net) a s c → Voted net a s c
    same_vote c (r, inl e, p) = cc
    same_vote c (r, inr h, p) = (r, h, p)

    -- An acceptor promises.
    pub SlotInv-promise : st.promised < b → SlotInv a s (record st { promised = b }) (promise ∷ net)
    SlotInv-promise newer = record {
      ballot_le = omega (arith, i.ballot_le);
      value_sent = λ v e. inr (i.value_sent v e);
      voted = λ c h. i.voted c (same_vote c h);
      vote_sent = λ c h. let (v, k) = i.vote_sent c (same_vote c h) in (v, inr k);
      promise_kept = λ c r h p. elim h [
        | inl e ↦ omega (arith, promise_ballot c r e)
        | inr k ↦ omega (arith, i.promise_kept c r k p)
      ];
      promise_reports = λ c r h p d k below. elim h [
        | inl e ↦
            let g = i.voted d (same_vote d k) in let x = promise_reply c r e in rw x (g.1, g.0)
        | inr old ↦ i.promise_reports c r old p d (same_vote d k) below
      ];
      promise_sent = λ c r h p v e. elim h [
        | inl x ↦
            let same = promise_reply c r x in
            (
              inr (
                  subst (λ y. In (accept_req s y.accepted_ballot v) net) (sym same)
                    (i.value_sent v (ap (λ y. y.accepted_value) (sym same) ∙ e))),
              omega (arith, i.ballot_le, promise_ballot c r x, ap (λ y. y.accepted_ballot) same),
            )
        | inr old ↦ let g = i.promise_sent c r old p v e in (inr g.0, g.1)
      ];
    }
      where
        promise_ballot : (c : ℕ) (r : PrepareReply V) → prepare_rep a s c r ≡ promise → c ≡ b
        promise_ballot c r e = cc

        promise_reply : (c : ℕ) (r : PrepareReply V) → prepare_rep a s c r ≡ promise → r ≡ reply
        promise_reply c r e = cc

  module _ (a s b : ℕ) (v : V) (st : AcceptorSlot V) (net : List (Msg V))
      (i : SlotInv a s st net) where
    abbrev vote : Msg V
    vote = accept_rep a s b (record { accepted = true; promised_ballot = b })

    vote_cases : (c : ℕ) → Voted (vote ∷ net) a s c → (c ≡ b) ⊎ Voted net a s c
    vote_cases c (r, inl e, p) = inl (cc)
    vote_cases c (r, inr h, p) = inr (r, h, p)

    same_promise :
        (c : ℕ) (r : PrepareReply V)
        → In (prepare_rep a s c r) (vote ∷ net)
        → In (prepare_rep a s c r) net
    same_promise c r (inl e) = cc
    same_promise c r (inr h) = h

    -- An acceptor votes.
    pub SlotInv-vote :
        st.promised ≤ b
        → In (accept_req s b v) net
        → SlotInv a s
            (record { promised = b; accepted_ballot = b; accepted_value = some v })
            (vote ∷ net)
    SlotInv-vote le req = record {
      ballot_le = omega arith;
      value_sent = λ w e. inr (subst (λ x. In (accept_req s b x) net) (cc) req);
      voted = λ c h. (
        elim (vote_cases c h) [
          | inl e ↦ omega arith
          | inr k ↦ omega (arith, (i.voted c k).0, i.ballot_le)
        ],
        λ e. cc,
      );
      vote_sent = λ c h. elim (vote_cases c h) [
        | inl e ↦ (v, inr (subst (λ x. In (accept_req s x v) net) (sym e) req))
        | inr k ↦ let (w, x) = i.vote_sent c k in (w, inr x)
      ];
      promise_kept = λ c r h p. omega (arith, i.promise_kept c r (same_promise c r h) p);
      promise_reports = λ c r h p d k below. elim (vote_cases d k) [
        | inl e ↦ absurd (omega (arith, i.promise_kept c r (same_promise c r h) p))
        | inr old ↦ i.promise_reports c r (same_promise c r h) p d old below
      ];
      promise_sent =
          λ c r h p w e. let g = i.promise_sent c r (same_promise c r h) p w e in (inr g.0, g.1);
    }

  slot-put_slot_ne :
      (acc : Acceptor V) (s t : ℕ) (x : AcceptorSlot V)
      → s ≢ t
      → slot (put_slot acc s x) t ≡ slot acc t
  slot-put_slot_ne acc s t x h = ground arith

  slot-put_slot_self :
      (acc : Acceptor V) (s : ℕ) (x : AcceptorSlot V) → slot (put_slot acc s x) s ≡ x
  slot-put_slot_self acc s x = ground arith

  module _ (a s b : ℕ) (acc : Acceptor V) (net : List (Msg V)) where
    prepare_here :
        SlotInv a s (slot acc s) net
        → SlotInv a s (slot (prepare acc s b).0 s) (prepare_rep a s b (prepare acc s b).1 ∷ net)
    unfolding prepare
    prepare_here i = elim (Bool-cases (ltb (slot acc s).promised b)) [
      | inr e ↦
          rw (e, prepare, slot-put_slot_self) (SlotInv-quiet a s _ net (λ f g p. cc) (slot acc s) i)
      | inl e ↦
          rw (e, prepare, slot-put_slot_self)
            (SlotInv-promise a s b (slot acc s) net i (ltb→lt _ _ e))
    ]

    prepare_elsewhere : (t : ℕ) → s ≢ t → slot (prepare acc s b).0 t ≡ slot acc t
    unfolding prepare
    prepare_elsewhere t h = ground (
      arith,
      slot-put_slot_ne acc s t (slot acc s) h,
      slot-put_slot_ne acc s t (record (slot acc s) { promised = b }) h,
    )

    -- The acceptor answers a prepare message: what is true of its slots stays so.
    pub SlotInv-prepare :
        (t : ℕ)
        → SlotInv a t (slot acc t) net
        → SlotInv a t (slot (prepare acc s b).0 t) (prepare_rep a s b (prepare acc s b).1 ∷ net)
    SlotInv-prepare t i = elim (ℕ_discrete s t) [
      | yes q ↦
          subst
            (λ u.
              SlotInv a u (slot (prepare acc s b).0 u)
                (prepare_rep a s b (prepare acc s b).1 ∷ net))
            q (prepare_here (subst (λ u. SlotInv a u (slot acc u) net) (sym q) i))
      | no q ↦ rw (prepare_elsewhere t q) (SlotInv-quiet a t _ net (λ f g p. q g) (slot acc t) i)
    ]

    module _ (v : V) where
      accept_here :
          In (accept_req s b v) net
          → SlotInv a s (slot acc s) net
          → SlotInv a s
              (slot (accept acc s b (some v)).0 s)
              (accept_rep a s b (accept acc s b (some v)).1 ∷ net)
      unfolding accept
      accept_here sent i = elim (Bool-cases (leb (slot acc s).promised b)) [
        | inr e ↦
            rw (e, accept, slot-put_slot_self)
              (SlotInv-quiet a s _ net (λ f g p. cc) (slot acc s) i)
        | inl e ↦
            rw (e, accept, slot-put_slot_self)
              (SlotInv-vote a s b v (slot acc s) net i (leb→le _ _ e) sent)
      ]

      accept_elsewhere : (t : ℕ) → s ≢ t → slot (accept acc s b (some v)).0 t ≡ slot acc t
      unfolding accept
      accept_elsewhere t h = ground (arith, slot-put_slot_ne acc s t (slot acc s) h)

      -- The acceptor answers an accept message that was sent.
      pub SlotInv-accept :
          (t : ℕ)
          → In (accept_req s b v) net
          → SlotInv a t (slot acc t) net
          → SlotInv a t
              (slot (accept acc s b (some v)).0 t)
              (accept_rep a s b (accept acc s b (some v)).1 ∷ net)
      SlotInv-accept t sent i = elim (ℕ_discrete s t) [
        | yes q ↦
            subst
              (λ u.
                SlotInv a u (slot (accept acc s b (some v)).0 u)
                  (accept_rep a s b (accept acc s b (some v)).1 ∷ net))
              q (accept_here sent (subst (λ u. SlotInv a u (slot acc u) net) (sym q) i))
        | no q ↦ rw (accept_elsewhere t q) (SlotInv-quiet a t _ net (λ f g p. q g) (slot acc t) i)
      ]
