-- ===== src/Paxos/System.antt =====
-- The directory's replicas over a network. Replica `i` of `n` is the one whose index in the sorted
-- list of `NewNode` is `i`. The network `net` holds each message ever sent: a message may be
-- delivered late, more than once, in any order, or never, as the goroutines and timeouts of
-- node.go leave open; a result that a proposer gives up on is `none` in its list of results.
use prefixmesh.Prelude.{
  In, Distinct, ℕ, suc, ◌<◌, ◌≡◌, ◌≢◌, ite, if_pos, if_neg, Bool, true, false, Option, none, some,
  List, [], ◌∷◌, map, ℕ_discrete,
}
use prefixmesh.Paxos.Ballot.{make_ballot}
use prefixmesh.Paxos.Acceptor.{Acceptor, PrepareReply, AcceptReply, new_acceptor, prepare, accept}
use prefixmesh.Paxos.Log.{Log, new_log, first_unchosen, commit}
use prefixmesh.Paxos.Node.{phase1, phase2}

-- `Prepare`, `Accept` and `Learn` of the transport, with a reply's sender.
pub data Msg (V : Type 0) : Type 0 where
  prepare_req : (slot b : ℕ) → Msg V
  prepare_rep : (from slot b : ℕ) (r : PrepareReply V) → Msg V
  accept_req : (slot b : ℕ) (v : V) → Msg V
  accept_rep : (from slot b : ℕ) (r : AcceptReply) → Msg V
  learn_req : (slot : ℕ) (v : V) → Msg V

-- Where a replica's proposer stands. `submitMu` admits one proposal at a time.
pub data Phase (V : Type 0) : Type 0 where
  idle : Phase V
  preparing : (slot b : ℕ) (v : V) → Phase V
  accepting : (slot b : ℕ) (v : V) → Phase V

-- The fields of `Node`, each for all replicas, and the network.
pub record System (V S : Type 0) : Type 0 where
  pub acceptors : ℕ → Acceptor V
  pub logs : ℕ → Log V S
  pub rounds : ℕ → ℕ
  pub phases : ℕ → Phase V
  pub net : List (Msg V)

abbrev pub update {ℓ} : {A : Type ℓ} → (ℕ → A) → ℕ → A → ℕ → A
update f i a j = ite (ℕ_discrete i j) a (f j)

pub update_self {ℓ} : {A : Type ℓ} (f : ℕ → A) (i j : ℕ) (a : A) → i ≡ j → update f i a j ≡ a
update_self f i j a e = if_pos (ℕ_discrete i j) e a (f j)

pub update_ne {ℓ} : {A : Type ℓ} (f : ℕ → A) (i j : ℕ) (a : A) → i ≢ j → update f i a j ≡ f j
update_ne f i j a e = if_neg (ℕ_discrete i j) e a (f j)

-- The results that a proposer has read, each with the peer that it is from: no peer twice, and
-- each that is no error is a reply that was sent.
abbrev pub Peers : {A : Type 0} → ℕ → List (ℕ × A) → Type 0
Peers n [] = Unit
Peers n (x ∷ xs) = (x.0 < n) × Peers n xs

abbrev pub sender : {A : Type 0} → ℕ × A → ℕ
sender x = x.0

abbrev pub result : {A : Type 0} → ℕ × A → A
result x = x.1

module _ {V : Type 0} where
  abbrev pub SentPromises : List (Msg V) → ℕ → ℕ → List (ℕ × Option (PrepareReply V)) → Type 0
  SentPromises net slot b [] = Unit
  SentPromises net slot b ((a, none) ∷ rs) = SentPromises net slot b rs
  SentPromises net slot b ((a, some r) ∷ rs) =
      In (prepare_rep a slot b r) net × SentPromises net slot b rs

  abbrev pub SentAccepts : List (Msg V) → ℕ → ℕ → List (ℕ × Option AcceptReply) → Type 0
  SentAccepts net slot b [] = Unit
  SentAccepts net slot b ((a, none) ∷ rs) = SentAccepts net slot b rs
  SentAccepts net slot b ((a, some r) ∷ rs) =
      In (accept_rep a slot b r) net × SentAccepts net slot b rs

module _ {V S : Type 0} where
  -- `runSlot` up to the prepare messages: `n.round.Add(1)`, the ballot, one message to all.
  unfoldable pub begin_slot : System V S → ℕ → V → System V S
  unfolding first_unchosen make_ballot
  begin_slot s i v =
      let round = suc (s.rounds i) in
      let b = make_ballot round i in
      let slot = first_unchosen (s.logs i) in
      record s {
        rounds = update s.rounds i round;
        phases = update s.phases i (preparing slot b v);
        net = prepare_req slot b ∷ s.net;
      }

  -- An acceptor answers a prepare message.
  unfoldable pub answer_prepare : System V S → ℕ → ℕ → ℕ → System V S
  unfolding prepare
  answer_prepare s a slot b =
      let (acc, r) = prepare (s.acceptors a) slot b in
      record s { acceptors = update s.acceptors a acc; net = prepare_rep a slot b r ∷ s.net }

  unfoldable pub answer_accept : System V S → ℕ → ℕ → ℕ → V → System V S
  unfolding accept
  answer_accept s a slot b v =
      let (acc, r) = accept (s.acceptors a) slot b (some v) in
      record s { acceptors = update s.acceptors a acc; net = accept_rep a slot b r ∷ s.net }

  -- `runSlot` between its waits: the accept messages go out, or the call gives up.
  unfoldable pub after_phase1 : System V S → ℕ → ℕ → ℕ → Option V × ℕ → System V S
  after_phase1 s i slot b (none, round) = record s {
    rounds = update s.rounds i round;
    phases = update s.phases i idle;
  }
  after_phase1 s i slot b (some v, round) = record s {
    rounds = update s.rounds i round;
    phases = update s.phases i (accepting slot b v);
    net = accept_req slot b v ∷ s.net;
  }

  unfoldable pub end_phase1 :
      ℕ → System V S → ℕ → ℕ → ℕ → V → List (ℕ × Option (PrepareReply V)) → System V S
  unfolding after_phase1
  end_phase1 n s i slot b v rs = after_phase1 s i slot b (phase1 n (s.rounds i) v (map result rs))

  module _ (apply : S → ℕ → V → S) where
    -- `runSlot` after its second wait: the learn messages go out and the local log commits.
    unfoldable pub after_phase2 : System V S → ℕ → ℕ → V → Bool × ℕ → System V S
    after_phase2 s i slot v (false, round) = record s {
      rounds = update s.rounds i round;
      phases = update s.phases i idle;
    }
    after_phase2 s i slot v (true, round) = record s {
      rounds = update s.rounds i round;
      phases = update s.phases i idle;
      logs = update s.logs i (commit apply (s.logs i) slot v);
      net = learn_req slot v ∷ s.net;
    }

    unfoldable pub end_phase2 :
        ℕ → System V S → ℕ → ℕ → V → List (ℕ × Option AcceptReply) → System V S
    unfolding after_phase2
    end_phase2 n s i slot v rs = after_phase2 s i slot v (phase2 n (s.rounds i) (map result rs))

    -- A replica handles a learn message.
    unfoldable pub learn : System V S → ℕ → ℕ → V → System V S
    learn s i slot v = record s { logs = update s.logs i (commit apply (s.logs i) slot v) }

    -- One step of some replica.
    pub data Step (n : ℕ) (s : System V S) : System V S → Type 0 where
      begins : (i : ℕ) (v : V) → i < n → s.phases i ≡ idle → Step n s (begin_slot s i v)
      prepares :
          (a slot b : ℕ)
          → a < n
          → In (prepare_req slot b) s.net
          → Step n s (answer_prepare s a slot b)
      promised :
          (i slot b : ℕ) (v : V) (rs : List (ℕ × Option (PrepareReply V)))
          → i < n
          → s.phases i ≡ preparing slot b v
          → Peers n rs
          → Distinct (map sender rs)
          → SentPromises s.net slot b rs
          → Step n s (end_phase1 n s i slot b v rs)
      accepts :
          (a slot b : ℕ) (v : V)
          → a < n
          → In (accept_req slot b v) s.net
          → Step n s (answer_accept s a slot b v)
      decided :
          (i slot b : ℕ) (v : V) (rs : List (ℕ × Option AcceptReply))
          → i < n
          → s.phases i ≡ accepting slot b v
          → Peers n rs
          → Distinct (map sender rs)
          → SentAccepts s.net slot b rs
          → Step n s (end_phase2 n s i slot v rs)
      learns :
          (i slot : ℕ) (v : V) → i < n → In (learn_req slot v) s.net → Step n s (learn s i slot v)

    -- `NewNode` at each replica.
    unfoldable pub start : S → System V S
    unfolding new_acceptor new_log
    start init = record {
      acceptors = λ _. new_acceptor;
      logs = λ _. new_log init;
      rounds = λ _. 0;
      phases = λ _. idle;
      net = [];
    }

    pub data Reach (n : ℕ) (init : S) : System V S → Type 0 where
      here : Reach n init (start init)
      next : {s t : System V S} → Reach n init s → Step n s t → Reach n init t
