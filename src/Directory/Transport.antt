-- ===== src/Directory/Transport.antt =====
-- server.go: New with its defaults, commandsEqual, submit, and grpcTransport with the replica-internal
-- handlers. proto.Marshal and proto.Unmarshal of a command are parameters, as is the peer's node.
use prefixmesh.Prelude.{
  ◌==◌, if◌then◌else◌, keys, find, put, string_discrete, Bytes, ℕ, ◌*◌, String, Bool, true, false,
  Option, none, some, List, ◌∷◌,
}
use prefixmesh.Paxos.Acceptor.{Acceptor, PrepareReply, AcceptReply, prepare, accept}

pub record Config : Type 0 where
  pub replica_id : String
  pub peers : List (String × String)
  pub heartbeat_every : ℕ
  pub dead_after : ℕ

-- `defaults`, in nanoseconds
unfoldable pub defaults : Config → Config
defaults c =
    let every = if c.heartbeat_every == 0 then 500000000 else c.heartbeat_every in
    record c {
      heartbeat_every = every;
      dead_after = if c.dead_after == 0 then 3 * every else c.dead_after;
    }

-- `replicas` of New
unfoldable pub replicas_of : Config → List String
replicas_of c = c.replica_id ∷ keys c.peers

-- `grpcTransport.client`: the client is named by the address that was dialed.
unfoldable pub client :
    (String → Bool)
    → List (String × String)
    → List (String × String)
    → String
    → List (String × String) × Option String
client dial peers clients peer = elim (find string_discrete peer clients) [
  | some addr ↦ (clients, some addr)
  | none ↦ elim (find string_discrete peer peers) [
    | none ↦ (clients, none)
    | some addr ↦
        if dial addr then (put string_discrete peer addr clients, some addr) else (clients, none)
  ]
]

module _ {C : Type 0} (marshal : C → Option Bytes) (unmarshal : Bytes → Option C)
    (equal : C → C → Bool) where
  abbrev pub equal_parsed : Option C → Option C → Bool
  equal_parsed none b = false
  equal_parsed (some a) none = false
  equal_parsed (some a) (some b) = equal a b

  -- `commandsEqual`
  unfoldable pub commands_equal : Bytes → Bytes → Bool
  commands_equal a b = equal_parsed (unmarshal a) (unmarshal b)

  -- `Server.submit`; `none` is an error.
  unfoldable pub submit_command {ℓ} : {S : Type ℓ} → (S → Bytes → S × Bool) → S → C → S × Bool
  submit_command submit s cmd = elim (marshal cmd) [ none ↦ (s, false) | some raw ↦ submit s raw ]

  -- pmv1.PrepareResponse
  pub record PrepareResponse : Type 0 where
    pub promised : Bool
    pub accepted_ballot : ℕ
    pub accepted_value : Option C
    pub promised_ballot : ℕ

  -- `Server.Prepare`: the acceptor after it, and the response; `none` is an Internal error.
  abbrev pub respond : PrepareReply Bytes → Option C → PrepareResponse
  respond r value = record {
    promised = r.promised;
    accepted_ballot = r.accepted_ballot;
    accepted_value = value;
    promised_ballot = r.promised_ballot;
  }

  abbrev pub response_of : PrepareReply Bytes → Option Bytes → Option PrepareResponse
  response_of r none = some (respond r none)
  response_of r (some raw) = elim (unmarshal raw) [
    | none ↦ none
    | some cmd ↦ some (respond r (some cmd))
  ]

  unfoldable pub serve_prepare : Acceptor Bytes → ℕ → ℕ → Acceptor Bytes × Option PrepareResponse
  serve_prepare a slot ballot = (
    (prepare a slot ballot).0,
    response_of (prepare a slot ballot).1 (prepare a slot ballot).1.accepted_value,
  )

  -- The end of `grpcTransport.Prepare`
  abbrev pub reply_with : PrepareResponse → Option Bytes → PrepareReply Bytes
  reply_with resp value = record {
    promised = resp.promised;
    accepted_ballot = resp.accepted_ballot;
    accepted_value = value;
    promised_ballot = resp.promised_ballot;
  }

  abbrev pub reply_of : PrepareResponse → Option C → Option (PrepareReply Bytes)
  reply_of resp none = some (reply_with resp none)
  reply_of resp (some cmd) = elim (marshal cmd) [
    | none ↦ none
    | some raw ↦ some (reply_with resp (some raw))
  ]

  abbrev pub read_response : Option PrepareResponse → Option (PrepareReply Bytes)
  read_response none = none
  read_response (some resp) = reply_of resp resp.accepted_value

  -- `grpcTransport.Prepare` to a peer that answers, `local` if it is this replica.
  unfoldable pub send_prepare :
      Bool → Acceptor Bytes → ℕ → ℕ → Acceptor Bytes × Option (PrepareReply Bytes)
  unfolding serve_prepare
  send_prepare local a slot ballot =
      if local
      then ((prepare a slot ballot).0, some (prepare a slot ballot).1)
      else ((serve_prepare a slot ballot).0, read_response (serve_prepare a slot ballot).1)

  -- `Server.Accept`; `none` is an InvalidArgument error.
  unfoldable pub serve_accept : Acceptor Bytes → ℕ → ℕ → C → Acceptor Bytes × Option AcceptReply
  serve_accept a slot ballot cmd = elim (marshal cmd) [
    | none ↦ (a, none)
    | some raw ↦ ((accept a slot ballot (some raw)).0, some (accept a slot ballot (some raw)).1)
  ]

  -- `grpcTransport.Accept` to a peer that answers
  unfoldable pub send_accept :
      Bool → Acceptor Bytes → ℕ → ℕ → Bytes → Acceptor Bytes × Option AcceptReply
  unfolding serve_accept
  send_accept local a slot ballot value =
      if local
      then ((accept a slot ballot (some value)).0, some (accept a slot ballot (some value)).1)
      else elim (unmarshal value) [ none ↦ (a, none) | some cmd ↦ serve_accept a slot ballot cmd ]

  -- `grpcTransport.Learn` and `Server.Learn` over the `commit` of the peer's log.
  unfoldable pub send_learn {ℓ} :
      {L : Type ℓ} → (L → ℕ → Bytes → L) → Bool → L → ℕ → Bytes → L × Bool
  send_learn commit local l slot value =
      if local then (commit l slot value, true) else elim (unmarshal value) [
        | none ↦ (l, false)
        | some cmd ↦ elim (marshal cmd) [ none ↦ (l, false) | some raw ↦ (commit l slot raw, true) ]
      ]
