-- ===== src/Directory/Wire.antt =====
-- A value that goes to a peer's acceptor and comes back over the wire is the same command.
use prefixmesh.Prelude.{
  leb, lt→ltb, Bool-cases, Bytes, ℕ, ◌<◌, ◌≡◌, refl, sym, ap, ◌∙◌, inl, inr, if_pos, Bool, true,
  false, Option, none, some, ℕ_discrete,
}
use prefixmesh.Paxos.Acceptor
use prefixmesh.Paxos.Acceptor.{
  Acceptor, AcceptorSlot, PrepareReply, AcceptReply, put_slot, prepare, accept,
}
use prefixmesh.Directory.Transport.{
  commands_equal, response_of, reply_of, read_response, serve_prepare, send_prepare, serve_accept,
  send_accept,
}

module _ {C : Type 0} (marshal : C → Option Bytes) (unmarshal : Bytes → Option C)
    (equal : C → C → Bool)
    (parses : (c : C) (raw : Bytes) → marshal c ≡ some raw → unmarshal raw ≡ some c)
    (reflexive : (c : C) → equal c c ≡ true) where
  -- Values that are equal as commands; there may be none.
  abbrev pub SameValue : Option Bytes → Option Bytes → Type 0
  SameValue none none = Unit
  SameValue none (some b) = ⊥
  SameValue (some a) none = ⊥
  SameValue (some a) (some b) = commands_equal marshal unmarshal equal a b ≡ true

  -- A value that can be parsed, and whose command can be marshaled again.
  abbrev pub IsCarried : Option Bytes → Type 0
  IsCarried none = Unit
  IsCarried (some raw) =
      (c : C) × (raw' : Bytes) × (unmarshal raw ≡ some c) × (marshal c ≡ some raw')

  same_command :
      (a b : Bytes) (c : C)
      → unmarshal a ≡ some c
      → unmarshal b ≡ some c
      → commands_equal marshal unmarshal equal a b ≡ true
  unfolding commands_equal
  same_command a b c p q = rw (p, q) (reflexive c)

  -- What the acceptor is given parses to the command that was sent.
  send_accept-accept :
      (local : Bool) (a : Acceptor Bytes) (slot b : ℕ) (value raw' : Bytes) (c : C)
      → unmarshal value ≡ some c
      → marshal c ≡ some raw'
      → (raw : Bytes) × (send_accept marshal unmarshal equal local a slot b value
          ≡ ((accept a slot b (some raw)).0, some (accept a slot b (some raw)).1))
        × (unmarshal raw ≡ some c)
  unfolding send_accept serve_accept
  send_accept-accept true a slot b value raw' c parsed written = (value, refl, parsed)
  send_accept-accept false a slot b value raw' c parsed written =
      (raw', rw (parsed, written, serve_accept) refl, parses c raw' written)

  accept-prepare :
      (a : Acceptor Bytes) (slot b b' : ℕ) (raw : Bytes)
      → (accept a slot b (some raw)).1.accepted ≡ true
      → b < b'
      → (prepare (accept a slot b (some raw)).0 slot b').1 ≡ record {
        promised = true;
        accepted_ballot = b;
        accepted_value = some raw;
        promised_ballot = b';
      }
  unfolding accept prepare
  accept-prepare a slot b b' raw ok lt = elim (Bool-cases (leb (Acceptor.slot a slot).promised b)) [
    | inr refused ↦ cc (rw (refused, accept) at ok)
    | inl taken ↦
        let written : (accept a slot b (some raw)).0
            ≡ put_slot a slot
                (record { promised = b; accepted_ballot = b; accepted_value = some raw }) =
          rw (taken, accept) refl in
        ap (λ x. (prepare x slot b').1) written
        ∙ rw
            (
              if_pos (ℕ_discrete slot slot) refl
                  (some (record { promised = b; accepted_ballot = b; accepted_value = some raw }))
                  (a.slots slot),
              lt→ltb b b' lt,
              prepare,
            )
            refl
  ]

  abbrev reply_over : Bool → PrepareReply Bytes → Option (PrepareReply Bytes)
  reply_over true r = some r
  reply_over false r =
      read_response marshal unmarshal equal (response_of marshal unmarshal equal r r.accepted_value)

  abbrev holds : ℕ → ℕ → Bytes → PrepareReply Bytes
  holds b b' raw = record {
    promised = true;
    accepted_ballot = b;
    accepted_value = some raw;
    promised_ballot = b';
  }

  comes_back :
      (far : Bool) (b b' : ℕ) (value raw raw' : Bytes) (c : C)
      → unmarshal value ≡ some c
      → unmarshal raw ≡ some c
      → marshal c ≡ some raw'
      → (s : PrepareReply Bytes) × (reply_over far (holds b b' raw) ≡ some s)
        × (s.promised ≡ true)
        × (s.accepted_ballot ≡ b)
        × SameValue (some value) s.accepted_value
  comes_back true b b' value raw raw' c sent kept written =
      (holds b b' raw, refl, refl, refl, same_command value raw c sent kept)
  comes_back false b b' value raw raw' c sent kept written = (
    holds b b' raw',
    rw (kept, response_of) (rw (written, reply_of) refl),
    refl,
    refl,
    same_command value raw' c sent (parses c raw' written),
  )

  send_prepare-reply_over :
      (far : Bool) (a : Acceptor Bytes) (slot b : ℕ)
      → (send_prepare marshal unmarshal equal far a slot b).1 ≡ reply_over far (prepare a slot b).1
  unfolding send_prepare serve_prepare
  send_prepare-reply_over true a slot b = refl
  send_prepare-reply_over false a slot b = refl

  abbrev taken : Option AcceptReply → Bool
  taken none = false
  taken (some x) = x.accepted

  -- Where a marshaled command parses back and equality of commands is reflexive: a value that
  -- parses to a command that can be marshaled, which an acceptor has accepted from the transport,
  -- comes back to whoever next prepares the slot with a higher ballot as a promise with that
  -- ballot and a value equal to it as a command, whether each of the two calls is to this replica
  -- or to a peer.
  pub wire_lem :
      (near far : Bool) (a : Acceptor Bytes) (slot b b' : ℕ) (value : Bytes) (r : AcceptReply)
      → IsCarried (some value)
      → (send_accept marshal unmarshal equal near a slot b value).1 ≡ some r
      → r.accepted ≡ true
      → b < b'
      → (s : PrepareReply Bytes) × ((send_prepare marshal unmarshal equal far
            (send_accept marshal unmarshal equal near a slot b value).0
            slot
            b').1
          ≡ some s)
        × (s.promised ≡ true)
        × (s.accepted_ballot ≡ b)
        × SameValue (some value) s.accepted_value
  wire_lem near far a slot b b' value r (c, raw', parsed, written) sent ok lt =
      let (raw, stored, kept) = send_accept-accept near a slot b value raw' c parsed written in
      let accepted : (accept a slot b (some raw)).1.accepted ≡ true =
        ap taken (sym (ap (λ x. x.1) stored) ∙ sent) ∙ ok in
      let (s, back, p, q, same) = comes_back far b b' value raw raw' c parsed kept written in
      (
        s,
        ap (λ x. (send_prepare marshal unmarshal equal far x slot b').1) (ap (λ x. x.0) stored)
            ∙ send_prepare-reply_over far (accept a slot b (some raw)).0 slot b'
            ∙ ap (reply_over far) (accept-prepare a slot b b' raw accepted lt)
            ∙ back,
        p,
        q,
        same,
      )
