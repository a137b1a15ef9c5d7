-- ===== src/Gateway/Putting.antt =====
-- internal/gateway/server.go, `PutBlocks`. The stream brings requests, each with the ring that
-- `src.Ring` gives when it is read, and ends with EOF or an error. `forward epoch n bs` tells what the
-- stream to a node's `PutBlocks` brings back: the two counts, or nothing on an error.
use prefixmesh.Prelude.{
  ◌==◌, if◌then◌else◌, length, string_discrete, Bytes, ℕ, ◌+◌, ◌%◌, ◌^◌, String, ite, Bool, Option,
  none, some, List, [], ◌∷◌, ◌++◌,
}
use prefixmesh.HashRing.Defs.{Ring, owners}

-- What of a block the routing reads: its id; the rest is carried along.
pub record Routed : Type 0 where
  pub block_id : Bytes
  pub payload : Bytes

pub record Totals : Type 0 where
  pub stored : ℕ
  pub existing : ℕ

-- `byOwner[nodeID] = append(byOwner[nodeID], req.Block)`
unfoldable pub add_block :
    String → Routed → List (String × List Routed) → List (String × List Routed)
add_block n b [] = (n, b ∷ []) ∷ []
add_block n b ((m, bs) ∷ rest) =
    ite (string_discrete m n) ((m, bs ++ b ∷ []) ∷ rest) ((m, bs) ∷ add_block n b rest)

unfoldable pub add_to_all :
    List String → Routed → List (String × List Routed) → List (String × List Routed)
unfolding add_block
add_to_all [] b m = m
add_to_all (n ∷ ns) b m = add_to_all ns b (add_block n b m)

-- `ring == nil || ring.Size() == 0` leaves the block nowhere to go.
abbrev pub targets : ℕ → Option Ring → Routed → List String
targets rf none b = []
targets rf (some ring) b = if length ring.addrs == 0 then [] else owners ring b.block_id rf

-- The receiving loop. `none` is InvalidArgument: a request without a block or with an id that has
-- not 32 bytes.
unfoldable pub route_blocks :
    ℕ
    → List (Option Routed × Option Ring)
    → List (String × List Routed)
    → Option (List (String × List Routed))
unfolding add_to_all
route_blocks rf [] m = some m
route_blocks rf ((none, ring) ∷ reqs) m = none
route_blocks rf ((some b, ring) ∷ reqs) m =
    let rest = route_blocks rf reqs (add_to_all (targets rf ring b) b m) in
    if length b.block_id == 32 then rest else none

-- `stored += resp.Stored` and `existing += resp.Existing`
abbrev pub add_totals : Totals → Option Totals → Totals
add_totals t none = t
add_totals t (some r) = record {
  stored = (t.stored + r.stored) % 2 ^ 32;
  existing = (t.existing + r.existing) % 2 ^ 32;
}

abbrev pub epoch_of : Option Ring → ℕ
epoch_of none = 0
epoch_of (some ring) = ring.epoch

module _ (client : String → Bool) (forward : ℕ → String → List Routed → Option Totals) where
  -- The goroutines' sums, in one order.
  unfoldable pub forward_all : ℕ → List (String × List Routed) → Totals → Totals
  forward_all epoch [] t = t
  forward_all epoch ((n, bs) ∷ rest) t =
      forward_all epoch rest (if client n then add_totals t (forward epoch n bs) else t)

  -- `PutBlocks`, with the ring that is known after the last request; the error of the stream, where
  -- it does not end with EOF, is `none` as well.
  unfoldable pub put_stream :
      Bool → ℕ → List (Option Routed × Option Ring) → Option Ring → Option Totals
  unfolding route_blocks forward_all
  put_stream eof rf reqs last = elim (route_blocks rf reqs []) [
    | none ↦ none
    | some m ↦
        if eof
        then some (forward_all (epoch_of last) m (record { stored = 0; existing = 0 }))
        else none
  ]
