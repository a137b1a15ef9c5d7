-- ===== src/Paxos/Invariant.antt =====
-- The invariant of the replicas and the network, kept by each step.
use prefixmesh.Prelude.{
  Option-cases, In, ℕ, ◌≡◌, sym, ap, subst, ◌∙◌, inl, inr, ite, none, some, List, ◌∷◌, arith,
  ℕ_discrete,
}
use prefixmesh.Paxos.Acceptor.{slot}
use prefixmesh.Paxos.Log.{Log, commit}
use prefixmesh.Paxos.System.{Msg, accept_req, learn_req, System, update, update_self, update_ne}
use prefixmesh.Paxos.Ownership.{IsNoRequest, old_request, Owns}
use prefixmesh.Paxos.Promises.{SlotInv}
use prefixmesh.Paxos.Safety.{IsChosen, IsJustified, IsChosen-more, IsJustified-more}
use prefixmesh.Paxos.Applied.{IsLog, commit-IsLog, chosen-commit}

module _ (n : ℕ) {V S : Type 0} (apply : S → ℕ → V → S) (init : S) where
  -- What the network's messages stand for.
  pub record NetInv (net : List (Msg V)) : Type 0 where
    pub justified : (t b : ℕ) (v : V) → In (accept_req t b v) net → IsJustified n net t b v
    pub learned : (t : ℕ) (v : V) → In (learn_req t v) net → IsChosen n net t v

  pub record LogsInv (logs : ℕ → Log V S) (net : List (Msg V)) : Type 0 where
    pub settled : (i : ℕ) → IsLog apply init (logs i)
    pub logged : (i t : ℕ) (v : V) → (logs i).chosen t ≡ some v → IsChosen n net t v

  pub record Inv (s : System V S) : Type 0 where
    pub owns : Owns n s.rounds s.phases s.net
    pub slots : (a t : ℕ) → SlotInv a t (slot (s.acceptors a) t) s.net
    pub messages : NetInv s.net
    pub logs : LogsInv s.logs s.net

  abbrev pub IsNoNews : Msg V → Type 0
  IsNoNews (learn_req t v) = ⊥
  IsNoNews m = IsNoRequest m

  pub NetInv-quiet :
      (m : Msg V) (net : List (Msg V)) → IsNoRequest m → IsNoNews m → NetInv net → NetInv (m ∷ net)
  NetInv-quiet m net q r i = record {
    justified =
        λ t b v h. IsJustified-more n m net t b v (i.justified t b v (old_request m net t b v q h));
    learned = λ t v h. elim h [
      | inl e ↦ absurd (subst IsNoNews (sym e) r)
      | inr k ↦ IsChosen-more n m net t v (i.learned t v k)
    ];
  }

  pub NetInv-learn :
      (net : List (Msg V)) (t : ℕ) (v : V)
      → IsChosen n net t v
      → NetInv net
      → NetInv (learn_req t v ∷ net)
  NetInv-learn net t v c i = record {
    justified = λ s b w h.
        IsJustified-more n _ net s b w
          (i.justified s b w (old_request (learn_req t v) net s b w tt h));
    learned = λ s w h. IsChosen-more n _ net s w (elim h [
      | inl e ↦
          subst (λ x. IsChosen n net s x) (learned_value s w e)
            (subst (λ x. IsChosen n net x v) (learned_slot s w e) c)
      | inr k ↦ i.learned s w k
    ]);
  }
    where
      learned_value : (s : ℕ) (w : V) → learn_req s w ≡ learn_req t v → v ≡ w
      learned_value s w e = cc

      learned_slot : (s : ℕ) (w : V) → learn_req s w ≡ learn_req t v → t ≡ s
      learned_slot s w e = cc

  pub NetInv-propose :
      (net : List (Msg V)) (t b : ℕ) (v : V)
      → IsJustified n net t b v
      → NetInv net
      → NetInv (accept_req t b v ∷ net)
  NetInv-propose net t b v j i = record {
    justified = λ s c w h. IsJustified-more n _ net s c w (elim h [
      | inl e ↦
          subst (λ x. IsJustified n net s c x) (request_value s c w e)
            (subst (λ x. IsJustified n net s x v) (request_ballot s c w e)
              (subst (λ x. IsJustified n net x b v) (request_slot s c w e) j))
      | inr k ↦ i.justified s c w k
    ]);
    learned = λ s w h. elim h [ inl e ↦ cc | inr k ↦ IsChosen-more n _ net s w (i.learned s w k) ];
  }
    where
      request_value : (s c : ℕ) (w : V) → accept_req s c w ≡ accept_req t b v → v ≡ w
      request_value s c w e = cc

      request_ballot : (s c : ℕ) (w : V) → accept_req s c w ≡ accept_req t b v → b ≡ c
      request_ballot s c w e = cc

      request_slot : (s c : ℕ) (w : V) → accept_req s c w ≡ accept_req t b v → t ≡ s
      request_slot s c w e = cc

  pub LogsInv-more :
      (m : Msg V) (net : List (Msg V)) (logs : ℕ → Log V S)
      → LogsInv logs net
      → LogsInv logs (m ∷ net)
  LogsInv-more m net logs l = record {
    settled = l.settled;
    logged = λ i t v e. IsChosen-more n m net t v (l.logged i t v e);
  }

  pub LogsInv-commit :
      (net : List (Msg V)) (logs : ℕ → Log V S) (i t : ℕ) (v : V)
      → IsChosen n net t v
      → LogsInv logs net
      → LogsInv (update logs i (commit apply (logs i) t v)) net
  LogsInv-commit net logs i t v c l = record {
    settled = λ j. elim (ℕ_discrete i j) [
      | yes e ↦
          subst (λ x. IsLog apply init x) (sym (update_self logs i j l' e))
            (commit-IsLog apply init (logs i) t v (l.settled i))
      | no e ↦ subst (λ x. IsLog apply init x) (sym (update_ne logs i j l' e)) (l.settled j)
    ];
    logged = λ j s w h. elim (ℕ_discrete i j) [
      | yes e ↦ written s w (
          sym (chosen-commit apply (logs i) t v s)
          ∙ ap (λ x. x.chosen s) (sym (update_self logs i j l' e))
          ∙ h)
      | no e ↦ l.logged j s w (ap (λ x. x.chosen s) (sym (update_ne logs i j l' e)) ∙ h)
    ];
  }
    where
      l' : Log V S
      l' = commit apply (logs i) t v

      written :
          (s : ℕ) (w : V)
          → elim ((logs i).chosen s) [ some x ↦ some x | none ↦ ite (ℕ_discrete t s) (some v) none ]
            ≡ some w
          → IsChosen n net s w
      written s w h = elim (Option-cases ((logs i).chosen s)) [
        | inr (x, e) ↦ l.logged i s w (e ∙ (rw e at h))
        | inl e ↦ elim (ℕ_discrete t s) [
          | yes q ↦
              subst (λ x. IsChosen n net s x) (ground arith) (subst (λ x. IsChosen n net x v) q c)
          | no q ↦ absurd (ground arith)
        ]
      ]
