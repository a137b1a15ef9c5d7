-- ===== src/Paxos/Ownership.antt =====
-- Each ballot belongs to one replica and to one of its rounds, so that it carries one proposal.
use prefixmesh.Prelude.{
  In, ℕ, suc, ◌+◌, ◌*◌, ◌%◌, ◌^◌, ◌≤◌, ◌<◌, ◌≡◌, sym, subst, inl, inr, if_pos, if_neg, List, ◌∷◌,
  arith, ℕ_discrete,
}
use prefixmesh.Paxos.Ballot.{make_ballot, make_ballot_parts}
use prefixmesh.Paxos.System.{Msg, accept_req, Phase, idle, preparing, accepting, update}

module _ {V : Type 0} where
  -- A message that asks for no acceptance.
  abbrev pub IsNoRequest : Msg V → Type 0
  IsNoRequest (accept_req slot b v) = ⊥
  IsNoRequest _ = Unit

  pub old_request :
      (m : Msg V) (net : List (Msg V)) (slot b : ℕ) (v : V)
      → IsNoRequest m
      → In (accept_req slot b v) (m ∷ net)
      → In (accept_req slot b v) net
  old_request m net slot b v q (inl e) = absurd (subst IsNoRequest (sym e) q)
  old_request m net slot b v q (inr h) = h

module _ (n : ℕ) {V : Type 0} where
  pub record Owns (rounds : ℕ → ℕ) (phases : ℕ → Phase V) (net : List (Msg V)) : Type 0 where
    pub current :
        (i slot b : ℕ) (v : V)
        → i < n
        → phases i ≡ preparing slot b v
        → (b ≡ rounds i * 256 + i) × ((t : ℕ) (w : V) → In (accept_req t b w) net → ⊥)
    pub sent :
        (i slot b : ℕ) (v : V)
        → i < n
        → phases i ≡ accepting slot b v
        → In (accept_req slot b v) net
    pub owned :
        (slot b : ℕ) (v : V) → In (accept_req slot b v) net → b ≤ rounds (b % 256) * 256 + b % 256
    pub unique :
        (slot t b : ℕ) (v w : V)
        → In (accept_req slot b v) net
        → In (accept_req t b w) net
        → (slot ≡ t) × (v ≡ w)

  module _ {rounds : ℕ → ℕ} {phases : ℕ → Phase V} {net : List (Msg V)}
      (o : Owns rounds phases net) where
    pub Owns-quiet : (m : Msg V) → IsNoRequest m → Owns rounds phases (m ∷ net)
    Owns-quiet m q = record {
      current = λ i slot b v lt e.
          let c = o.current i slot b v lt e in
          (c.0, λ t w h. c.1 t w (old_request m net t b w q h));
      sent = λ i slot b v lt e. inr (o.sent i slot b v lt e);
      owned = λ slot b v h. o.owned slot b v (old_request m net slot b v q h);
      unique = λ slot t b v w h k.
          o.unique slot t b v w (old_request m net slot b v q h) (old_request m net t b w q k);
    }

    -- A proposer gives up or ends; its round may rise.
    pub Owns-idle :
        (i round : ℕ)
        → i < n
        → rounds i ≤ round
        → Owns (update rounds i round) (update phases i idle) net
    Owns-idle i round lt le = record {
      current = λ j slot b v jlt. elim (ℕ_discrete i j) [
        | yes e ↦ rw (if_pos _ e) (λ p. cc)
        | no e ↦ rw (if_neg _ e, if_neg _ e) (o.current j slot b v jlt)
      ];
      sent = λ j slot b v jlt. elim (ℕ_discrete i j) [
        | yes e ↦ rw (if_pos _ e) (λ p. cc)
        | no e ↦ rw (if_neg _ e) (o.sent j slot b v jlt)
      ];
      owned = λ slot b v h. ground (arith, o.owned slot b v h);
      unique = o.unique;
    }

    -- A proposer takes its next round, with no accept message out.
    pub Owns-begin :
        (i slot : ℕ) (v : V)
        → i < n
        → n ≤ 256
        → suc (rounds i) < 2 ^ 56
        → Owns
            (update rounds i (suc (rounds i)))
            (update phases i (preparing slot (make_ballot (suc (rounds i)) i) v))
            net
    Owns-begin i slot v lt few small =
        let parts = (make_ballot_parts (suc (rounds i)) i small (omega arith)).2 in
        record {
          current = λ j t b w jlt. elim (ℕ_discrete i j) [
            | yes e ↦
                rw (if_pos _ e, if_pos _ e)
                  (λ p.
                    let b_is : b ≡ suc (rounds i) * 256 + i = ground (arith, parts) in
                    (
                      omega arith,
                      λ t' w' h.
                          absurd
                            (omega (arith, own_bound i b b_is (omega arith) (o.owned t' b w' h))),
                    ))
            | no e ↦ rw (if_neg _ e, if_neg _ e) (o.current j t b w jlt)
          ];
          sent = λ j t b w jlt. elim (ℕ_discrete i j) [
            | yes e ↦ rw (if_pos _ e) (λ p. cc)
            | no e ↦ rw (if_neg _ e) (o.sent j t b w jlt)
          ];
          owned = λ t b w h. ground (arith, o.owned t b w h);
          unique = o.unique;
        }
      where
        own_bound :
            (j b : ℕ)
            → b ≡ suc (rounds j) * 256 + j
            → j < 256
            → b ≤ rounds (b % 256) * 256 + b % 256
            → b ≤ rounds j * 256 + j
        own_bound j b e small_j h = subst (λ k. b ≤ rounds k * 256 + k) (omega arith) h

    -- The accept messages of the current round go out.
    pub Owns-propose :
        (i slot b : ℕ) (v w : V) (m : ℕ)
        → i < n
        → n ≤ 256
        → phases i ≡ preparing slot b v
        → m ≡ rounds i
        → Owns
            (update rounds i m)
            (update phases i (accepting slot b w))
            (accept_req slot b w ∷ net)
    Owns-propose i slot b v w m lt few p same =
        let c = o.current i slot b v lt p in
        record {
          current = λ j t d x jlt. elim (ℕ_discrete i j) [
            | yes e ↦ rw (if_pos _ e) (λ q. cc)
            | no e ↦
                rw (if_neg _ e, if_neg _ e)
                  (λ q.
                    let c' = o.current j t d x jlt q in
                    (
                      c'.0,
                      λ t' w' h. elim h [
                        | inl r ↦ e (omega (arith, request_ballot t' d slot b w' w r, c.0, c'.0))
                        | inr r ↦ c'.1 t' w' r
                      ],
                    ))
          ];
          sent = λ j t d x jlt. elim (ℕ_discrete i j) [
            | yes e ↦ rw (if_pos _ e) (λ q. inl (cc))
            | no e ↦ rw (if_neg _ e) (λ q. inr (o.sent j t d x jlt q))
          ];
          owned = λ t d x h. elim h [
            | inl r ↦
                let e = request_ballot t d slot b x w r in
                let q : d % 256 ≡ i = omega (arith, e, c.0) in ground (arith, e, q, c.0, same)
            | inr r ↦ ground (arith, o.owned t d x r)
          ];
          unique = λ s t d x y h k. elim h [
            | inl r ↦ elim k [
              | inl r' ↦ (cc, cc)
              | inr r' ↦ absurd (
                  c.1 t y
                    (subst (λ z. In (accept_req t z y) net) (request_ballot s d slot b x w r) r'))
            ]
            | inr r ↦ elim k [
              | inl r' ↦ absurd (
                  c.1 s x
                    (subst (λ z. In (accept_req s z x) net) (request_ballot t d slot b y w r') r))
              | inr r' ↦ o.unique s t d x y r r'
            ]
          ];
        }
      where
        request_ballot :
            (t d t' d' : ℕ) (x x' : V) → accept_req t d x ≡ accept_req t' d' x' → d ≡ d'
        request_ballot t d t' d' x x' e = cc
