-- ===== src/Paxos/Acceptor.antt =====
-- internal/paxos/paxos.go: the acceptor. A value is `none` where the source has a nil slice.
use prefixmesh.Prelude.{
  ltb, leb, if◌then◌else◌, ℕ, ite, Bool, true, false, Option, none, some, ℕ_discrete,
}

module _ (V : Type 0) where
  -- `acceptorSlot`
  pub record AcceptorSlot : Type 0 where
    pub promised : ℕ
    pub accepted_ballot : ℕ
    pub accepted_value : Option V

  -- `Acceptor`: the map from slots.
  pub record Acceptor : Type 0 where
    pub slots : ℕ → Option AcceptorSlot

  -- The results of `Prepare` and `Accept`; node.go's `PrepareReply` and `AcceptReply`.
  pub record PrepareReply : Type 0 where
    pub promised : Bool
    pub accepted_ballot : ℕ
    pub accepted_value : Option V
    pub promised_ballot : ℕ

pub record AcceptReply : Type 0 where
  pub accepted : Bool
  pub promised_ballot : ℕ

module _ {V : Type 0} where
  unfoldable pub new_acceptor : Acceptor V
  new_acceptor = record { slots = λ _. none }

  -- A map write.
  abbrev pub put_slot : Acceptor V → ℕ → AcceptorSlot V → Acceptor V
  put_slot a s sl = record { slots = λ t. ite (ℕ_discrete s t) (some sl) (a.slots t) }

  abbrev pub zero_slot : AcceptorSlot V
  zero_slot = record { promised = 0; accepted_ballot = 0; accepted_value = none }

  abbrev or_zero : Option (AcceptorSlot V) → AcceptorSlot V
  or_zero none = zero_slot
  or_zero (some sl) = sl

  -- `Acceptor.slot`: the entry of a slot, which is created where it is missing.
  abbrev pub slot : Acceptor V → ℕ → AcceptorSlot V
  slot a s = or_zero (a.slots s)

  -- `Acceptor.Prepare`
  unfoldable pub prepare : Acceptor V → ℕ → ℕ → Acceptor V × PrepareReply V
  prepare a s b =
      let sl = slot a s in
      if ltb sl.promised b
      then (
        put_slot a s (record sl { promised = b }),
        record {
          promised = true;
          accepted_ballot = sl.accepted_ballot;
          accepted_value = sl.accepted_value;
          promised_ballot = b;
        },
      )
      else (
        put_slot a s sl,
        record {
          promised = false;
          accepted_ballot = sl.accepted_ballot;
          accepted_value = sl.accepted_value;
          promised_ballot = sl.promised;
        },
      )

  -- `Acceptor.Accept`
  unfoldable pub accept : Acceptor V → ℕ → ℕ → Option V → Acceptor V × AcceptReply
  accept a s b v =
      let sl = slot a s in
      if leb sl.promised b
      then (
        put_slot a s (record { promised = b; accepted_ballot = b; accepted_value = v }),
        record { accepted = true; promised_ballot = b },
      )
      else (put_slot a s sl, record { accepted = false; promised_ballot = sl.promised })
