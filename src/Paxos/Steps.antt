-- ===== src/Paxos/Steps.antt =====
-- Each step of a replica keeps the invariant.
use prefixmesh.Prelude.{
  In, Distinct, ℕ, suc, ◌^◌, ◌≤◌, ◌<◌, ◌≡◌, refl, sym, ap, subst, ◌∙◌, Bool, true, false, Option,
  none, some, List, ◌∷◌, map, arith, ℕ_discrete,
}
use prefixmesh.Paxos.Acceptor.{PrepareReply, AcceptReply, slot, new_acceptor, prepare, accept}
use prefixmesh.Paxos.Log.{first_unchosen}
use prefixmesh.Paxos.Node.{Tally, no_promises, collect_promises, or_value, phase1, phase2}
use prefixmesh.Paxos.System.{
  prepare_rep, accept_req, accept_rep, learn_req, preparing, accepting, System, update_self,
  update_ne, Peers, sender, result, SentPromises, SentAccepts, begin_slot, answer_prepare,
  answer_accept, after_phase1, end_phase1, after_phase2, end_phase2, learn, Step, begins, prepares,
  promised, accepts, decided, learns, start, Reach, here, next,
}
use prefixmesh.Paxos.Tally.{
  accepters, accepters-sent, promisers, promisers-sent, collect-Sourced, phase1_outcome,
  phase1_round, phase1_keeps_round, phase2_outcome, phase2_round,
}
use prefixmesh.Paxos.Ownership.{Owns-quiet, Owns-idle, Owns-begin, Owns-propose}
use prefixmesh.Paxos.Promises.{SlotInv, SlotInv-quiet, SlotInv-prepare, SlotInv-accept}
use prefixmesh.Paxos.Safety.{IsChosen, IsJustified}
use prefixmesh.Paxos.Applied.{new_log-IsSettled}
use prefixmesh.Paxos.Invariant.{
  Inv, NetInv-quiet, NetInv-learn, NetInv-propose, LogsInv-more, LogsInv-commit,
}

-- No replica has come to the round at which a ballot leaves 64 bits.
abbrev pub IsBounded : {V S : Type 0} → System V S → Type 0
IsBounded s = (i : ℕ) → s.rounds i < 2 ^ 56

module _ (n : ℕ) {V S : Type 0} (apply : S → ℕ → V → S) (init : S) (few : n ≤ 256) where
  begin_slot-Inv :
      (s : System V S) (i : ℕ) (v : V)
      → i < n
      → suc (s.rounds i) < 2 ^ 56
      → Inv n apply init s
      → Inv n apply init (begin_slot s i v)
  unfolding begin_slot
  begin_slot-Inv s i v lt small inv = record {
    owns = Owns-quiet n (Owns-begin n inv.owns i (first_unchosen (s.logs i)) v lt few small) _ tt;
    slots = λ a t. SlotInv-quiet a t _ s.net tt _ (inv.slots a t);
    messages = NetInv-quiet n apply init _ s.net tt tt inv.messages;
    logs = LogsInv-more n apply init _ s.net s.logs inv.logs;
  }

  answer_prepare-Inv :
      (s : System V S) (a t b : ℕ) → Inv n apply init s → Inv n apply init (answer_prepare s a t b)
  unfolding answer_prepare
  answer_prepare-Inv s a t b inv = record {
    owns = Owns-quiet n inv.owns _ tt;
    slots = λ x u. elim (ℕ_discrete a x) [
      | yes e ↦
          subst
            (λ acc.
              SlotInv x u (slot acc u) (prepare_rep a t b (prepare (s.acceptors a) t b).1 ∷ s.net))
            (sym (update_self s.acceptors a x (prepare (s.acceptors a) t b).0 e))
            (subst
              (λ y.
                SlotInv y u (slot (prepare (s.acceptors a) t b).0 u)
                  (prepare_rep a t b (prepare (s.acceptors a) t b).1 ∷ s.net))
              e (SlotInv-prepare a t b (s.acceptors a) s.net u (inv.slots a u)))
      | no e ↦
          subst
            (λ acc.
              SlotInv x u (slot acc u) (prepare_rep a t b (prepare (s.acceptors a) t b).1 ∷ s.net))
            (sym (update_ne s.acceptors a x (prepare (s.acceptors a) t b).0 e))
            (SlotInv-quiet x u (prepare_rep a t b (prepare (s.acceptors a) t b).1) s.net
              (λ f g p. e f) _ (inv.slots x u))
    ];
    messages = NetInv-quiet n apply init _ s.net tt tt inv.messages;
    logs = LogsInv-more n apply init _ s.net s.logs inv.logs;
  }

  answer_accept-Inv :
      (s : System V S) (a t b : ℕ) (v : V)
      → In (accept_req t b v) s.net
      → Inv n apply init s
      → Inv n apply init (answer_accept s a t b v)
  unfolding answer_accept
  answer_accept-Inv s a t b v sent inv = record {
    owns = Owns-quiet n inv.owns _ tt;
    slots = λ x u. elim (ℕ_discrete a x) [
      | yes e ↦
          subst
            (λ acc.
              SlotInv x u (slot acc u)
                (accept_rep a t b (accept (s.acceptors a) t b (some v)).1 ∷ s.net))
            (sym (update_self s.acceptors a x (accept (s.acceptors a) t b (some v)).0 e))
            (subst
              (λ y.
                SlotInv y u (slot (accept (s.acceptors a) t b (some v)).0 u)
                  (accept_rep a t b (accept (s.acceptors a) t b (some v)).1 ∷ s.net))
              e (SlotInv-accept a t b (s.acceptors a) s.net v u sent (inv.slots a u)))
      | no e ↦
          subst
            (λ acc.
              SlotInv x u (slot acc u)
                (accept_rep a t b (accept (s.acceptors a) t b (some v)).1 ∷ s.net))
            (sym (update_ne s.acceptors a x (accept (s.acceptors a) t b (some v)).0 e))
            (SlotInv-quiet x u (accept_rep a t b (accept (s.acceptors a) t b (some v)).1) s.net
              (λ f g p. e f) _ (inv.slots x u))
    ];
    messages = NetInv-quiet n apply init _ s.net tt tt inv.messages;
    logs = LogsInv-more n apply init _ s.net s.logs inv.logs;
  }

  learn-Inv :
      (s : System V S) (i t : ℕ) (v : V)
      → In (learn_req t v) s.net
      → Inv n apply init s
      → Inv n apply init (learn apply s i t v)
  unfolding learn
  learn-Inv s i t v sent inv = record {
    owns = inv.owns;
    slots = inv.slots;
    messages = inv.messages;
    logs = LogsInv-commit n apply init s.net s.logs i t v (inv.messages.learned t v sent) inv.logs;
  }

  -- The promises of a majority justify the proposal that phase 1 makes of them.
  phase1-IsJustified :
      (s : System V S) (i t b : ℕ) (v w : V) (rs : List (ℕ × Option (PrepareReply V))) (k : ℕ)
      → Peers n rs
      → Distinct (map sender rs)
      → SentPromises s.net t b rs
      → phase1 n (s.rounds i) v (map result rs) ≡ (some w, k)
      → Inv n apply init s
      → IsJustified n s.net t b w
  phase1-IsJustified s i t b v w rs k p d sent e inv =
      let out = phase1_outcome n (s.rounds i) v w rs k p d e in
      record {
        promisers = promisers rs;
        majority_promised = out.0;
        reported = tally.adopted;
        ballot = tally.adopted_ballot;
        replies = λ a h. promisers-sent s.net t b a no_promises rs (λ _. refl) sent h;
        source = λ x q.
            let (a, r, h, p_, val, at) =
              collect-Sourced s.net t b no_promises rs sent (λ y none_. cc) x q in
            let g = (inv.slots a t).promise_sent b r h p_ x val in
            (
              ap (λ o. or_value o v) (sym q) ∙ sym out.1,
              subst (λ y. In (accept_req t y x) s.net) at g.0,
              omega (arith, at, g.1),
            );
      }
    where
      tally : Tally V
      tally = collect_promises no_promises (map result rs)

  after_phase1-Inv :
      (s : System V S) (i t b : ℕ) (v : V) (rs : List (ℕ × Option (PrepareReply V)))
      (o : Option V × ℕ)
      → i < n
      → s.phases i ≡ preparing t b v
      → Peers n rs
      → Distinct (map sender rs)
      → SentPromises s.net t b rs
      → phase1 n (s.rounds i) v (map result rs) ≡ o
      → Inv n apply init s
      → Inv n apply init (after_phase1 s i t b o)
  unfolding after_phase1
  after_phase1-Inv s i t b v rs (none, k) lt ph p d sent e inv = record {
    owns =
        Owns-idle n inv.owns i k lt
          (subst (λ y. s.rounds i ≤ y.1) e (phase1_round n (s.rounds i) v (map result rs)));
    slots = inv.slots;
    messages = inv.messages;
    logs = inv.logs;
  }
  after_phase1-Inv s i t b v rs (some w, k) lt ph p d sent e inv = record {
    owns =
        Owns-propose n inv.owns i t b v w k lt few ph
          (phase1_keeps_round n (s.rounds i) v w (map result rs) k e);
    slots = λ a u. SlotInv-quiet a u _ s.net tt _ (inv.slots a u);
    messages =
        NetInv-propose n apply init s.net t b w (phase1-IsJustified s i t b v w rs k p d sent e inv)
          inv.messages;
    logs = LogsInv-more n apply init _ s.net s.logs inv.logs;
  }

  after_phase2-Inv :
      (s : System V S) (i t b : ℕ) (v : V) (rs : List (ℕ × Option AcceptReply)) (o : Bool × ℕ)
      → i < n
      → s.phases i ≡ accepting t b v
      → Peers n rs
      → Distinct (map sender rs)
      → SentAccepts s.net t b rs
      → phase2 n (s.rounds i) (map result rs) ≡ o
      → Inv n apply init s
      → Inv n apply init (after_phase2 apply s i t v o)
  unfolding after_phase2
  after_phase2-Inv s i t b v rs (false, k) lt ph p d sent e inv = record {
    owns =
        Owns-idle n inv.owns i k lt
          (subst (λ y. s.rounds i ≤ y.1) e (phase2_round n (s.rounds i) (map result rs)));
    slots = inv.slots;
    messages = inv.messages;
    logs = inv.logs;
  }
  after_phase2-Inv s i t b v rs (true, k) lt ph p d sent e inv =
      let c : IsChosen n s.net t v = (
        b,
        record {
          proposed = inv.owns.sent i t b v lt ph;
          voters = accepters rs;
          majority_voted = phase2_outcome n (s.rounds i) rs k p d e;
          votes = λ a h. accepters-sent s.net t b a rs sent h;
        },
      ) in
      record {
        owns =
            Owns-quiet n
              (Owns-idle n inv.owns i k lt
                (subst (λ y. s.rounds i ≤ y.1) e (phase2_round n (s.rounds i) (map result rs))))
              _ tt;
        slots = λ a u. SlotInv-quiet a u _ s.net tt _ (inv.slots a u);
        messages = NetInv-learn n apply init s.net t v c inv.messages;
        logs =
            LogsInv-more n apply init _ s.net _
              (LogsInv-commit n apply init s.net s.logs i t v c inv.logs);
      }

  -- Rounds only rise.
  after_phase1_rounds :
      (s : System V S) (i t b : ℕ) (o : Option V × ℕ)
      → s.rounds i ≤ o.1
      → (j : ℕ) → s.rounds j ≤ (after_phase1 s i t b o).rounds j
  unfolding after_phase1
  after_phase1_rounds s i t b (none, k) le j = ground arith
  after_phase1_rounds s i t b (some v, k) le j = ground arith

  after_phase2_rounds :
      (s : System V S) (i t : ℕ) (v : V) (o : Bool × ℕ)
      → s.rounds i ≤ o.1
      → (j : ℕ) → s.rounds j ≤ (after_phase2 apply s i t v o).rounds j
  unfolding after_phase2
  after_phase2_rounds s i t v (false, k) le j = ground arith
  after_phase2_rounds s i t v (true, k) le j = ground arith

  pub rounds_rise : (s t : System V S) → Step apply n s t → (j : ℕ) → s.rounds j ≤ t.rounds j
  unfolding begin_slot answer_prepare answer_accept learn end_phase1 end_phase2
  rounds_rise s t (begins i v lt p) j = ground arith
  rounds_rise s t (prepares a u b lt m) j = omega arith
  rounds_rise s t (promised i u b v rs lt ph p d sent) j =
      after_phase1_rounds s i u b _ (phase1_round n (s.rounds i) v (map result rs)) j
  rounds_rise s t (accepts a u b v lt m) j = omega arith
  rounds_rise s t (decided i u b v rs lt ph p d sent) j =
      after_phase2_rounds s i u v _ (phase2_round n (s.rounds i) (map result rs)) j
  rounds_rise s t (learns i u v lt m) j = omega arith

  begun_round : (s : System V S) (i : ℕ) (v : V) → (begin_slot s i v).rounds i ≡ suc (s.rounds i)
  unfolding begin_slot
  begun_round s i v = ground arith

  pub Step-Inv :
      (s t : System V S) → Step apply n s t → IsBounded t → Inv n apply init s → Inv n apply init t
  unfolding end_phase1 end_phase2
  Step-Inv s t (begins i v lt p) small inv =
      begin_slot-Inv s i v lt (omega (arith, begun_round s i v, small i)) inv
  Step-Inv s t (prepares a u b lt m) small inv = answer_prepare-Inv s a u b inv
  Step-Inv s t (promised i u b v rs lt ph p d sent) small inv =
      after_phase1-Inv s i u b v rs _ lt ph p d sent refl inv
  Step-Inv s t (accepts a u b v lt m) small inv = answer_accept-Inv s a u b v m inv
  Step-Inv s t (decided i u b v rs lt ph p d sent) small inv =
      after_phase2-Inv s i u b v rs _ lt ph p d sent refl inv
  Step-Inv s t (learns i u v lt m) small inv = learn-Inv s i u v m inv

  start-Inv : Inv n apply init (start apply init)
  unfolding start new_acceptor
  start-Inv = record {
    owns = record {
      current = λ i t b v lt e. cc;
      sent = λ i t b v lt e. cc;
      owned = λ t b v h. absurd h;
      unique = λ s t b v w h k. absurd h;
    };
    slots = λ a t. record {
      ballot_le = omega arith;
      value_sent = λ v e. cc;
      voted = λ b h. absurd h.1;
      vote_sent = λ b h. absurd h.1;
      promise_kept = λ b r h p. absurd h;
      promise_reports = λ b r h p c k lt. absurd h;
      promise_sent = λ b r h p v e. absurd h;
    };
    messages = record { justified = λ t b v h. absurd h; learned = λ t v h. absurd h };
    logs = record { settled = λ i. (new_log-IsSettled apply init).0; logged = λ i t v e. cc };
  }

  pub Reach-Inv : (s : System V S) → Reach apply n init s → IsBounded s → Inv n apply init s
  Reach-Inv s here small = start-Inv
  Reach-Inv t (next {s = s} r st) small =
      Step-Inv s t st small (Reach-Inv s r (λ i. omega (arith, rounds_rise s t st i, small i)))
