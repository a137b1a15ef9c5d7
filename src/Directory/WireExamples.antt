-- ===== src/Directory/WireExamples.antt =====
-- WatchRing and the transport at small inputs.
use prefixmesh.Prelude.{
  ◌==◌, In, find, string_discrete, Bytes, ℕ, ◌≡◌, refl, sym, ap, Bool, true, false, Option, none,
  some, List, [], ◌∷◌, arith, ℕ_discrete,
}
use prefixmesh.Paxos.Acceptor.{Acceptor, PrepareReply, new_acceptor, prepare, accept}
use prefixmesh.Directory.State.{Ring}
use prefixmesh.Directory.Watch.{new_stream, watch_ring}
use prefixmesh.Directory.Watching.{IsClimbing, watch_ring_lem}
use prefixmesh.Directory.Transport.{Config, defaults, client, send_prepare, send_accept}
use prefixmesh.Directory.Wire.{SameValue, wire_lem}

abbrev ring_at : ℕ → Ring
ring_at epoch = record { epoch = epoch; nodes = []; vnodes_per_node = 128 }

abbrev read : List Ring
read = ring_at 0 ∷ ring_at 0 ∷ ring_at 3 ∷ ring_at 3 ∷ ring_at 5 ∷ []

-- The ring before the first command may be sent again.
told :
    (watch_ring (λ n. true) new_stream read).0.sent
    ≡ ring_at 0 ∷ ring_at 0 ∷ ring_at 3 ∷ ring_at 5 ∷ []
unfolding watch_ring
told = refl

watch_ring_lem_example :
    ((watch_ring (λ n. true) new_stream read).1 ≡ true)
    × IsClimbing 0 (watch_ring (λ n. true) new_stream read).0.sent
    × ((r : Ring)
        → In r read
        → (s : Ring) × In s (watch_ring (λ n. true) new_stream read).0.sent × (s.epoch ≡ r.epoch))
watch_ring_lem_example =
    watch_ring_lem read
      (omega arith, (omega arith, (omega arith, (omega arith, (omega arith, tt)))))

-- A command is one number; a byte in front of it does not matter.
abbrev marshal : ℕ → Option Bytes
marshal c = some (0 ∷ c ∷ [])

abbrev unmarshal : Bytes → Option ℕ
unmarshal (x ∷ c ∷ []) = some c
unmarshal _ = none

abbrev equal : ℕ → ℕ → Bool
equal a b = a == b

marshal-parses : (c : ℕ) (raw : Bytes) → marshal c ≡ some raw → unmarshal raw ≡ some c
marshal-parses c raw h = ap second (sym h)
  where
    second : Option Bytes → Option ℕ
    second none = none
    second (some raw) = unmarshal raw

equal_refl : (c : ℕ) → equal c c ≡ true
equal_refl c = ground arith

abbrev holding : Acceptor Bytes
holding = (accept new_acceptor 4 256 (some (9 ∷ 7 ∷ []))).0

-- The value that comes back is written anew.
comes_back :
    elim ((send_prepare marshal unmarshal equal false holding 4 512).1) [
      | none ↦ none
      | some r ↦ r.accepted_value
    ]
    ≡ some (0 ∷ 7 ∷ [])
unfolding send_prepare accept prepare new_acceptor ℕ_discrete
comes_back = refl

wire_lem_example :
    (s : PrepareReply Bytes) × ((send_prepare marshal unmarshal equal false
        (send_accept marshal unmarshal equal false new_acceptor 4 256 (9 ∷ 7 ∷ [])).0
        4
        512).1
      ≡ some s)
    × (s.promised ≡ true)
    × (s.accepted_ballot ≡ 256)
    × SameValue marshal unmarshal equal marshal-parses equal_refl
        (some (9 ∷ 7 ∷ []))
        s.accepted_value
unfolding send_accept accept new_acceptor
wire_lem_example =
    wire_lem marshal unmarshal equal marshal-parses equal_refl false false new_acceptor 4 256 512
      (9 ∷ 7 ∷ []) (record { accepted = true; promised_ballot = 256 }) (7, 0 ∷ 7 ∷ [], refl, refl)
      refl refl (omega arith)

abbrev three : Config
three = record {
  replica_id = "d1";
  peers = ("d2", "h2") ∷ ("d3", "h3") ∷ [];
  heartbeat_every = 0;
  dead_after = 0;
}

timing :
    ((defaults three).dead_after ≡ 1500000000) × ((client (λ a. true) three.peers [] "d4").1 ≡ none)
unfolding defaults client find string_discrete
timing = (refl, refl)
