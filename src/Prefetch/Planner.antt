-- ===== src/Prefetch/Planner.antt =====
-- internal/prefetch/prefetch.go. The map of blocks is a list of pairs, whose order is the order in
-- which the source ranges over it. A time is in nanoseconds since 1970. float64, proto.Unmarshal and
-- whether proto.Marshal succeeds are parameters; `Produce` appends to the list of commands.
use prefixmesh.Prelude.{
  ltb, leb, ◌==◌, if◌then◌else◌, length, take, keys, find, put, delete, string_discrete, Bytes,
  bytes_discrete, ℕ, ◌+◌, ◌-◌, ◌/◌, ◌%◌, ◌^◌, String, Bool, true, false, ◌&&◌, Option, none, some,
  List, [], ◌∷◌, ◌++◌, Floats,
}
use prefixmesh.HashRing.Defs
use prefixmesh.Directory.State
use prefixmesh.Directory.Monitor.{is_empty}
use prefixmesh.Ringwatch.Watcher.{node_map}

-- The fields of pmv1.AccessEvent that are read.
pub record AccessEvent : Type 0 where
  pub model_id : String
  pub chain : List Bytes

-- `oldSet` and the choice of the source: the address of the first old owner that is still a member.
abbrev pub address_of : Option String → String
address_of none = ""
address_of (some addr) = addr

unfoldable pub source_from : List (String × String) → List String → String → String
source_from new_nodes [] source = source
source_from new_nodes (o ∷ os) source =
    source_from new_nodes os
      (if is_empty source then address_of (find string_discrete o new_nodes) else source)

-- The new owners that had no copy.
unfoldable pub targets_of : List String → List String → List String
targets_of old_owners [] = []
targets_of old_owners (o ∷ os) =
    let rest = targets_of old_owners os in if Defs.seen o old_owners then rest else o ∷ rest

-- The deletions of `sweepLocked`.
unfoldable pub delete_all : {A : Type 0} → List Bytes → List (Bytes × A) → List (Bytes × A)
delete_all [] m = m
delete_all (id ∷ ids) m = delete_all ids (delete bytes_discrete id m)

module _ (fl : Floats) where
  open fl use {Float, of_nat, seconds, single, add, sub, mul, div, neg, exp2, less, equal}

  -- `demand * math.Exp2(-dt)` with `dt := age.Seconds() / halfLife.Seconds()`
  abbrev decay : Float → ℕ → ℕ → Float
  decay demand age half_life = mul demand (exp2 (neg (div (seconds age) (seconds half_life))))

  abbrev one_more : Float → Float
  one_more d = add (of_nat 1) d

  -- `1 - math.Exp2(-demand)`
  abbrev pub confidence : Float → Float
  confidence d = sub (of_nat 1) (exp2 (neg d))

  pub record BlockStat : Type 0 where
    pub demand : Float
    pub last_seen : ℕ
    pub parent : Bytes
    pub model_id : String

  pub record Config : Type 0 where
    pub rf : ℕ
    pub demand_threshold : Float
    pub half_life : ℕ
    pub max_tracked : ℕ
    pub warm_deadline : ℕ

  abbrev or_default : ℕ → ℕ → ℕ
  or_default n d = if n == 0 then d else n

  -- `defaults`
  unfoldable pub defaults : Config → Config
  defaults c = record {
    rf = or_default c.rf 2;
    demand_threshold = if equal c.demand_threshold (of_nat 0) then of_nat 2 else c.demand_threshold;
    half_life = or_default c.half_life 60000000000;
    max_tracked = or_default c.max_tracked 100000;
    warm_deadline = or_default c.warm_deadline 30000000000;
  }

  pub record WarmCommand : Type 0 where
    pub block_id : Bytes
    pub parent_id : Bytes
    pub model_id : String
    pub source_node : String
    pub target_node : String
    pub conf : Float
    pub deadline_unix_ms : ℕ

  pub record Prefetcher : Type 0 where
    pub cfg : Config
    pub blocks : List (Bytes × BlockStat)
    pub ring : Option Defs.Ring
    pub warms_issued : ℕ

  -- `New`
  unfoldable pub new_prefetcher : Config → Prefetcher
  unfolding defaults
  new_prefetcher cfg = record { cfg = defaults cfg; blocks = []; ring = none; warms_issued = 0 }

  -- The demand of a block at `now`.
  abbrev pub demand_at : Config → ℕ → BlockStat → Float
  demand_at cfg now st = decay st.demand (now - st.last_seen) cfg.half_life

  -- One hit of a block of the chain, which may be new.
  abbrev pub counted : Config → ℕ → Bytes → String → Option BlockStat → BlockStat
  counted cfg now parent model_id none = record {
    demand = one_more (decay (of_nat 0) 0 cfg.half_life);
    last_seen = now;
    parent = parent;
    model_id = model_id;
  }
  counted cfg now parent model_id (some st) = record st {
    demand = one_more (demand_at cfg now st);
    last_seen = now;
  }

  -- The loop of `HandleAccess`: the blocks after it, and whether it came to the chain's end.
  unfoldable pub walk_chain :
      Config
      → ℕ
      → String
      → Bytes
      → List Bytes
      → List (Bytes × BlockStat)
      → List (Bytes × BlockStat) × Bool
  walk_chain cfg now model_id parent [] blocks = (blocks, true)
  walk_chain cfg now model_id parent (raw ∷ raws) blocks = elim (length raw == 32) [
    | false ↦ (blocks, false)
    | true ↦ walk_chain cfg now model_id raw raws (
        put bytes_discrete raw (counted cfg now parent model_id (find bytes_discrete raw blocks))
          blocks)
  ]

  -- `all` of `sweepLocked`, and `sort.Slice` as an insertion sort; the order of equals is open.
  unfoldable pub candidates : Config → ℕ → List (Bytes × BlockStat) → List (Bytes × Float)
  candidates cfg now [] = []
  candidates cfg now ((id, st) ∷ blocks) = (id, demand_at cfg now st) ∷ candidates cfg now blocks

  unfoldable pub insert_cold : Bytes × Float → List (Bytes × Float) → List (Bytes × Float)
  insert_cold c [] = c ∷ []
  insert_cold c (d ∷ ds) = if less d.1 c.1 then d ∷ insert_cold c ds else c ∷ d ∷ ds

  unfoldable pub sort_cold : List (Bytes × Float) → List (Bytes × Float)
  unfolding insert_cold
  sort_cold [] = []
  sort_cold (c ∷ cs) = insert_cold c (sort_cold cs)

  -- `sweepLocked`
  unfoldable pub sweep : Config → ℕ → List (Bytes × BlockStat) → List (Bytes × BlockStat)
  unfolding candidates sort_cold delete_all
  sweep cfg now blocks =
      let all = sort_cold (candidates cfg now blocks) in
      delete_all (keys (take (length all / 2) all)) blocks

  module _ (unmarshal : Bytes → Option AccessEvent) where
    -- `HandleAccess` at the time `now`. `chain.BlockID{}` is 32 zero bytes.
    unfoldable pub handle_access : Bytes → Prefetcher → ℕ → Bytes → Prefetcher
    unfolding walk_chain sweep
    handle_access zero_id p now value = elim (unmarshal value) [
      | none ↦ p
      | some ev ↦
          let walked = walk_chain p.cfg now ev.model_id zero_id ev.chain p.blocks in
          record p {
            blocks =
                if walked.1 && ltb p.cfg.max_tracked (length walked.0)
                then sweep p.cfg now walked.0
                else walked.0;
          }
    ]

  -- An element of the plan of `OnRing`.
  pub record Warm : Type 0 where
    pub id : Bytes
    pub st : BlockStat
    pub targets : List String
    pub source : String
    pub conf : Float

  abbrev pub warm_unless_idle : Bytes → BlockStat → String → Float → List String → Option Warm
  warm_unless_idle id st source demand [] = none
  warm_unless_idle id st source demand (t ∷ ts) =
      some
        (record { id = id; st = st; targets = t ∷ ts; source = source; conf = confidence demand })

  -- One round of the loop over the blocks; `none` is a `continue`.
  unfoldable pub plan_block : Config → ℕ → Defs.Ring → Defs.Ring → Bytes → BlockStat → Option Warm
  unfolding source_from targets_of
  plan_block cfg now old new id st =
      let demand = demand_at cfg now st in
      let olds = Defs.owners old id cfg.rf in
      let source = source_from (Defs.nodes new) olds "" in
      if less demand cfg.demand_threshold
      then none
      else if is_empty source
      then none
      else warm_unless_idle id st source demand (targets_of olds (Defs.owners new id cfg.rf))

  abbrev with_warm : Option Warm → List Warm → List Warm
  with_warm none ws = ws
  with_warm (some w) ws = w ∷ ws

  unfoldable pub plan_blocks :
      Config → ℕ → Defs.Ring → Defs.Ring → List (Bytes × BlockStat) → List Warm
  unfolding plan_block
  plan_blocks cfg now old new [] = []
  plan_blocks cfg now old new ((id, st) ∷ blocks) =
      with_warm (plan_block cfg now old new id st) (plan_blocks cfg now old new blocks)

  abbrev pub command_of : Config → ℕ → Warm → String → WarmCommand
  command_of cfg now w target = record {
    block_id = w.id;
    parent_id = w.st.parent;
    model_id = w.st.model_id;
    source_node = w.source;
    target_node = target;
    conf = single w.conf;
    deadline_unix_ms = (now + cfg.warm_deadline) / 1000000;
  }

  module _ (marshals : WarmCommand → Bool) where
    -- The loops that produce the commands.
    unfoldable pub issue_targets : Config → ℕ → Warm → List String → List WarmCommand
    issue_targets cfg now w [] = []
    issue_targets cfg now w (t ∷ ts) =
        let rest = issue_targets cfg now w ts in
        if marshals (command_of cfg now w t) then command_of cfg now w t ∷ rest else rest

    unfoldable pub issue_all : Config → ℕ → List Warm → List WarmCommand
    unfolding issue_targets
    issue_all cfg now [] = []
    issue_all cfg now (w ∷ ws) = issue_targets cfg now w w.targets ++ issue_all cfg now ws

    -- `oldRing == nil || newRing.Epoch <= oldRing.Epoch`, else the plan.
    unfoldable pub commands_for : Prefetcher → ℕ → Option Defs.Ring → Defs.Ring → List WarmCommand
    unfolding plan_blocks issue_all
    commands_for p now none new = []
    commands_for p now (some old) new =
        if leb new.epoch old.epoch
        then []
        else issue_all p.cfg now (plan_blocks p.cfg now old new p.blocks)

    -- `OnRing`: the state after it, and what it produced.
    unfoldable pub on_ring :
        (String → ℕ → ℕ) → Prefetcher → ℕ → State.Ring → Prefetcher × List WarmCommand
    unfolding commands_for
    on_ring vnode_point p now r =
        let new = Defs.new_ring vnode_point r.epoch (node_map r.nodes []) r.vnodes_per_node in
        let issued = commands_for p now p.ring new in
        (
          record p { ring = some new; warms_issued = (p.warms_issued + length issued) % 2 ^ 64 },
          issued,
        )
