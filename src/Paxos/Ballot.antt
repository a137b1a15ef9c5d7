-- ===== src/Paxos/Ballot.antt =====
-- internal/paxos/paxos.go: ballots, as uint64 values.
use prefixmesh.Prelude.{ℕ, ◌+◌, ◌*◌, ◌/◌, ◌%◌, ◌^◌, ◌<◌, ◌≡◌, arith}

-- `round<<8 | uint64(replicaIdx)` in a uint64. The shift clears the low byte, which the index, a
-- uint8, then fills: the `|` is a sum.
unfoldable pub make_ballot : ℕ → ℕ → ℕ
make_ballot round idx = round * 2 ^ 8 % 2 ^ 64 + idx

-- `Ballot.Round`
unfoldable pub ballot_round : ℕ → ℕ
ballot_round b = b / 2 ^ 8

-- Below the round 2^56 and the index 2^8 a ballot gives back its round and its replica index, and
-- is the round times 256 plus the index.
pub make_ballot_parts :
    (round idx : ℕ)
    → round < 2 ^ 56
    → idx < 2 ^ 8
    → (ballot_round (make_ballot round idx) ≡ round)
      × (make_ballot round idx % 2 ^ 8 ≡ idx)
      × (make_ballot round idx ≡ round * 256 + idx)
unfolding make_ballot ballot_round
make_ballot_parts round idx h k = omega arith
