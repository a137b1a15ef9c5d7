-- ===== src/Gateway/Fanout.antt =====
-- internal/gateway/server.go, `probeReplica`. The cache nodes are the parameters: `client n` tells
-- whether there is a connection to the node, `rpc replica n ids` what its `Contains` answers. The
-- goroutines of the batches end in the order `finish`. An index of the chain goes with its block id,
-- and the arrays `present` and `holders` are one list, with `none` where a block is not present.
use prefixmesh.Prelude.{
  if◌then◌else◌, get_elem?, string_discrete, Bytes, ℕ, zero, suc, ◌+◌, String, ite, Bool, true,
  false, ◌||◌, Option, none, some, List, [], ◌∷◌, ◌++◌,
}
use prefixmesh.HashRing.Defs.{Ring, owners}

pub record Batch : Type 0 where
  pub node : String
  pub asked : List (ℕ × Bytes)

-- An error, with whether it was FailedPrecondition, or the answer.
pub data Reply : Type 0 where
  rpc_error : Bool → Reply
  present_list : List Bool → Reply

-- `present` with `holders`, `retry` and `wrongEpoch`.
pub record Probe : Type 0 where
  pub marks : List (Option String)
  pub retry : List (ℕ × Bytes)
  pub wrong_epoch : Bool

abbrev pub ids_of : List (ℕ × Bytes) → List Bytes
ids_of [] = []
ids_of ((i, id) ∷ xs) = id ∷ ids_of xs

abbrev pub has_batch : String → List Batch → Bool
has_batch n [] = false
has_batch n (b ∷ bs) = ite (string_discrete b.node n) true (has_batch n bs)

-- Appends to the batch of the node, which is a new one where there is none.
unfoldable pub place : String → ℕ × Bytes → List Batch → List Batch
place n x [] = record { node = n; asked = x ∷ [] } ∷ []
place n x (b ∷ bs) =
    ite (string_discrete b.node n) (record b { asked = b.asked ++ x ∷ [] } ∷ bs) (b ∷ place n x bs)

unfoldable pub set_mark : ℕ → String → List (Option String) → List (Option String)
set_mark i n [] = []
set_mark zero n (m ∷ ms) = some n ∷ ms
set_mark (suc i) n (m ∷ ms) = m ∷ set_mark i n ms

-- The loop over a batch's indices and the answers beside them, which may be too few.
unfoldable pub mark_batch : String → List (ℕ × Bytes) → List Bool → Probe → Probe
unfolding set_mark
mark_batch n [] ps p = p
mark_batch n ((i, id) ∷ xs) (true ∷ ps) p =
    mark_batch n xs ps (record p { marks = set_mark i n p.marks })
mark_batch n ((i, id) ∷ xs) (false ∷ ps) p =
    mark_batch n xs ps (record p { retry = p.retry ++ (i, id) ∷ [] })
mark_batch n ((i, id) ∷ xs) [] p = mark_batch n xs [] (record p { retry = p.retry ++ (i, id) ∷ [] })

module _ (ring : Ring) (client : String → Bool) (rpc : ℕ → String → List Bytes → Reply)
    (finish : List Batch → List Batch) where
  -- One round of the loop that fills the batches; the second list is `unroutable`.
  unfoldable pub route_one :
      ℕ → ℕ × Bytes → List Batch × List (ℕ × Bytes) → List Batch × List (ℕ × Bytes)
  unfolding place
  route_one replica x (bs, unroutable) = elim (get_elem? (owners ring x.1 (replica + 1)) replica) [
    | none ↦ (bs, unroutable)
    | some n ↦
        if has_batch n bs || client n
        then (place n x bs, unroutable)
        else (bs, unroutable ++ x ∷ [])
  ]

  unfoldable pub route_all :
      ℕ → List (ℕ × Bytes) → List Batch × List (ℕ × Bytes) → List Batch × List (ℕ × Bytes)
  unfolding route_one
  route_all replica [] r = r
  route_all replica (x ∷ xs) r = route_all replica xs (route_one replica x r)

  -- The goroutine of a batch.
  unfoldable pub finish_batch : ℕ → Batch → Probe → Probe
  unfolding mark_batch
  finish_batch replica b p = elim (rpc replica b.node (ids_of b.asked)) [
    | rpc_error stale ↦ record p {
      retry = p.retry ++ b.asked;
      wrong_epoch = p.wrong_epoch || stale;
    }
    | present_list ps ↦ mark_batch b.node b.asked ps p
  ]

  unfoldable pub finish_all : ℕ → List Batch → Probe → Probe
  unfolding finish_batch
  finish_all replica [] p = p
  finish_all replica (b ∷ bs) p = finish_all replica bs (finish_batch replica b p)

  -- `probeReplica` on the indices in `retry`, which it replaces.
  unfoldable pub probe_replica : ℕ → Probe → Probe
  unfolding route_all finish_all
  probe_replica replica p =
      let routed = route_all replica p.retry ([], []) in
      finish_all replica (finish routed.0) (record p { retry = routed.1 })

  -- The loop of `matchOnRing`, with `left` replicas left.
  unfoldable pub probe_rounds : ℕ → ℕ → Probe → Probe
  unfolding probe_replica
  probe_rounds zero replica p = p
  probe_rounds (suc left) replica p = elim (p.retry) [
    | [] ↦ p
    | x ∷ xs ↦ probe_rounds left (suc replica) (probe_replica replica p)
  ]
