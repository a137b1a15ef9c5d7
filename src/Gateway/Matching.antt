-- ===== src/Gateway/Matching.antt =====
-- internal/gateway/server.go, `matchOnRing` and `Match`. The calls of `src.Ring` give the rings of
-- the parameter `rings`, in order; a nil ring is `none`. The metrics and the access event that
-- `Match` sends off are left out.
use prefixmesh.Prelude.{
  ltb, ◌==◌, if◌then◌else◌, length, find, string_discrete, Bytes, ℕ, suc, ◌%◌, ◌^◌, String, Bool,
  true, false, ◌&&◌, ◌||◌, Option, none, some, List, [], ◌∷◌,
}
use prefixmesh.HashRing.Defs.{Ring}
use prefixmesh.Gateway.Fanout.{Batch, Reply, Probe, probe_rounds}

pub record BlockRef : Type 0 where
  pub block_id : Bytes
  pub node_addr : String

pub record MatchResponse : Type 0 where
  pub matched_depth : ℕ
  pub refs : List BlockRef
  pub ring_epoch : ℕ

abbrev pub empty_response : MatchResponse
empty_response = record { matched_depth = 0; refs = []; ring_epoch = 0 }

abbrev pub enumerate : ℕ → List Bytes → List (ℕ × Bytes)
enumerate i [] = []
enumerate i (id ∷ ids) = (i, id) ∷ enumerate (suc i) ids

abbrev pub no_marks : List Bytes → List (Option String)
no_marks [] = []
no_marks (id ∷ ids) = none ∷ no_marks ids

-- `for depth < len(present) && present[depth]`
unfoldable pub run_of_hits : List (Option String) → ℕ
run_of_hits [] = 0
run_of_hits (none ∷ ms) = 0
run_of_hits (some n ∷ ms) = suc (run_of_hits ms)

-- `nodes[holder]`, empty for a node that the ring does not have.
abbrev pub address : Ring → String → String
address ring n = elim (find string_discrete n ring.addrs) [ none ↦ "" | some addr ↦ addr ]

-- The references for the first `depth` blocks, all of which are present.
unfoldable pub make_refs : Ring → ℕ → List Bytes → List (Option String) → List BlockRef
make_refs ring (suc depth) (id ∷ ids) (some n ∷ ms) =
    record { block_id = id; node_addr = address ring n } ∷ make_refs ring depth ids ms
make_refs ring _ _ _ = []

module _ (client : String → Bool) (rpc : ℕ → String → List Bytes → Reply)
    (finish : List Batch → List Batch) where
  abbrev pub probed : ℕ → Ring → List Bytes → Probe
  probed rf ring chain_ids =
      probe_rounds ring client rpc finish rf 0
        (record { marks = no_marks chain_ids; retry = enumerate 0 chain_ids; wrong_epoch = false })

  -- `matchOnRing`
  unfoldable pub match_on_ring : ℕ → Ring → List Bytes → MatchResponse × Bool
  unfolding run_of_hits make_refs probe_rounds
  match_on_ring rf ring chain_ids =
      let p = probed rf ring chain_ids in
      let depth = run_of_hits p.marks in
      (
        record {
          matched_depth = depth % 2 ^ 32;
          refs = make_refs ring depth chain_ids p.marks;
          ring_epoch = ring.epoch;
        },
        p.wrong_epoch,
      )

-- `New` clamps the replication factor.
unfoldable pub clamp_rf : ℕ → ℕ
clamp_rf rf = if ltb rf 1 then 1 else rf

abbrev pub all_sized : List Bytes → Bool
all_sized [] = true
all_sized (id ∷ ids) = (length id == 32) && all_sized ids

-- `ring == nil || ring.Size() == 0 || len(req.Chain) == 0`
abbrev pub usable : Option Ring → List Bytes → Option Ring
usable none chain_ids = none
usable (some ring) chain_ids =
    if (length ring.addrs == 0) || (length chain_ids == 0) then none else some ring

abbrev pub is_newer : Option Ring → Ring → Bool
is_newer none ring = false
is_newer (some newer) ring = ltb ring.epoch newer.epoch

-- The rounds of `Match`; `rpc` also depends on the attempt, of which there are at most two.
module _ (client : String → Bool) (rpc : ℕ → ℕ → String → List Bytes → Reply)
    (finish : List Batch → List Batch) (rings : ℕ → Option Ring) where
  unfoldable pub second_attempt : ℕ → List Bytes → MatchResponse
  unfolding match_on_ring
  second_attempt rf chain_ids = elim (usable (rings 2) chain_ids) [
    | none ↦ empty_response
    | some ring ↦ (match_on_ring client (rpc 1) finish rf ring chain_ids).0
  ]

  unfoldable pub first_attempt : ℕ → List Bytes → MatchResponse
  unfolding match_on_ring second_attempt
  first_attempt rf chain_ids = elim (usable (rings 0) chain_ids) [
    | none ↦ empty_response
    | some ring ↦
        let r = match_on_ring client (rpc 0) finish rf ring chain_ids in
        if r.1 && is_newer (rings 1) ring then second_attempt rf chain_ids else r.0
  ]

  -- `Match`; `none` is InvalidArgument.
  unfoldable pub match_chain : ℕ → List Bytes → Option MatchResponse
  unfolding first_attempt
  match_chain rf chain_ids = if all_sized chain_ids then some (first_attempt rf chain_ids) else none
