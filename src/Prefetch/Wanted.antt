-- ===== src/Prefetch/Wanted.antt =====
-- Which commands OnRing issues: those that are wanted.
use prefixmesh.Prelude.{
  Bool-cases, In, Bytes, ℕ, ◌+◌, ◌/◌, String, ◌≡◌, refl, sym, ap, subst, ◌∙◌, ◌↔◌, inl, inr, Bool,
  true, false, some, List, [], ◌∷◌, Floats,
}
use prefixmesh.HashRing.Defs
use prefixmesh.Directory.Monitor.{is_empty}
use prefixmesh.Prefetch.Planner.{
  confidence, BlockStat, Config, WarmCommand, Warm, source_from, targets_of, demand_at,
  warm_unless_idle, plan_block, plan_blocks, command_of, issue_all,
}
use prefixmesh.Prefetch.Commands.{In-targets_of, In-issue_targets, In-issue_all, In-plan_blocks}

module _ (fl : Floats) (cfg : Config fl) (now : ℕ) (old new : Defs.Ring) where
  abbrev planned_warm : Bytes → BlockStat fl → Warm fl
  planned_warm id st = record {
    id = id;
    st = st;
    targets = targets_of (Defs.owners old id cfg.rf) (Defs.owners new id cfg.rf);
    source = source_from (Defs.nodes new) (Defs.owners old id cfg.rf) "";
    conf = confidence fl (demand_at fl cfg now st);
  }

  record IsPlanned (id : Bytes) (st : BlockStat fl) : Type 0 where
    pub hot : fl.less (demand_at fl cfg now st) cfg.demand_threshold ≡ false
    pub alive : is_empty (source_from (Defs.nodes new) (Defs.owners old id cfg.rf) "") ≡ false

  warm_unless_idle-some :
      (id : Bytes) (st : BlockStat fl) (source : String) (demand : fl.Float) (ts : List String)
      (w : Warm fl)
      → warm_unless_idle fl id st source demand ts ≡ some w
      → w ≡ record { id = id; st = st; targets = ts; source = source; conf = confidence fl demand }
  warm_unless_idle-some id st source demand [] w h = cc
  warm_unless_idle-some id st source demand (t ∷ ts) w h =
      inj w
        (record {
          id = id;
          st = st;
          targets = t ∷ ts;
          source = source;
          conf = confidence fl demand;
        })
        (sym h)
    where
      inj : (x y : Warm fl) → some x ≡ some y → x ≡ y
      inj x y q = cc

  warm_unless_idle-In :
      (id : Bytes) (st : BlockStat fl) (source : String) (demand : fl.Float) (ts : List String)
      (t : String)
      → In t ts
      → warm_unless_idle fl id st source demand ts
        ≡ some (record {
          id = id;
          st = st;
          targets = ts;
          source = source;
          conf = confidence fl demand;
        })
  warm_unless_idle-In id st source demand [] t h = absurd h
  warm_unless_idle-In id st source demand (u ∷ ts) t h = refl

  plan_block-some :
      (id : Bytes) (st : BlockStat fl) (w : Warm fl)
      → plan_block fl cfg now old new id st ≡ some w
      → IsPlanned id st × (w ≡ planned_warm id st)
  unfolding plan_block
  plan_block-some id st w h =
      elim (Bool-cases (fl.less (demand_at fl cfg now st) cfg.demand_threshold)) [
        | inl cold ↦ cc (rw cold at h)
        | inr hot ↦
            elim (Bool-cases
              (is_empty (source_from (Defs.nodes new) (Defs.owners old id cfg.rf) ""))) [
                | inl lost ↦ cc (rw (hot, lost) at h)
                | inr alive ↦ (
                  record { hot = hot; alive = alive },
                  warm_unless_idle-some id st
                      (source_from (Defs.nodes new) (Defs.owners old id cfg.rf) "")
                      (demand_at fl cfg now st)
                      (targets_of (Defs.owners old id cfg.rf) (Defs.owners new id cfg.rf)) w
                      (rw (hot, alive) at h),
                )
              ]
      ]

  plan_block-In :
      (id : Bytes) (st : BlockStat fl) (t : String)
      → IsPlanned id st
      → In t (targets_of (Defs.owners old id cfg.rf) (Defs.owners new id cfg.rf))
      → plan_block fl cfg now old new id st ≡ some (planned_warm id st)
  unfolding plan_block
  plan_block-In id st t i h =
      rw (i.hot, i.alive)
        (warm_unless_idle-In id st (source_from (Defs.nodes new) (Defs.owners old id cfg.rf) "")
          (demand_at fl cfg now st)
          (targets_of (Defs.owners old id cfg.rf) (Defs.owners new id cfg.rf)) t h)

  -- A tracked block that is in demand, with an old owner that is still a member; the target owns it
  -- now and did not before.
  pub record IsWanted (blocks : List (Bytes × BlockStat fl)) (c : WarmCommand fl) : Type 0 where
    pub st : BlockStat fl
    pub tracked : In (c.block_id, st) blocks
    pub hot : fl.less (demand_at fl cfg now st) cfg.demand_threshold ≡ false
    pub gains : In c.target_node (Defs.owners new c.block_id cfg.rf)
    pub lacked : In c.target_node (Defs.owners old c.block_id cfg.rf) → ⊥
    pub alive :
        is_empty (source_from (Defs.nodes new) (Defs.owners old c.block_id cfg.rf) "") ≡ false
    pub filled : c ≡ record {
      block_id = c.block_id;
      parent_id = st.parent;
      model_id = st.model_id;
      source_node = source_from (Defs.nodes new) (Defs.owners old c.block_id cfg.rf) "";
      target_node = c.target_node;
      conf = fl.single (confidence fl (demand_at fl cfg now st));
      deadline_unix_ms = (now + cfg.warm_deadline) / 1000000;
    }

  pub issued_iff :
      (marshals : WarmCommand fl → Bool) (blocks : List (Bytes × BlockStat fl)) (c : WarmCommand fl)
      → In c (issue_all fl marshals cfg now (plan_blocks fl cfg now old new blocks))
        ↔ (IsWanted blocks c × (marshals c ≡ true))
  issued_iff marshals blocks c = (there, back)
    where
      there :
          In c (issue_all fl marshals cfg now (plan_blocks fl cfg now old new blocks))
          → IsWanted blocks c × (marshals c ≡ true)
      there h =
          let (w, in_plan, its) =
            (In-issue_all fl cfg now marshals c (plan_blocks fl cfg now old new blocks)).0 h in
          let (id, st, tracked, planned) = (In-plan_blocks fl cfg now old new w blocks).0 in_plan in
          let (is_planned, is_w) = plan_block-some id st w planned in
          let (t, in_targets, is_c, ok) =
            (In-issue_targets fl cfg now marshals c w w.targets).0 its in
          let olds = Defs.owners old id cfg.rf in
          let (gains, lacked) =
            (In-targets_of t olds (Defs.owners new id cfg.rf)).0
              (subst (λ x. In t x.targets) is_w in_targets) in
          let made : c ≡ command_of fl cfg now (planned_warm id st) t =
            is_c ∙ ap (λ x. command_of fl cfg now x t) is_w in
          subst (λ x. IsWanted blocks x × (marshals x ≡ true)) (sym made)
            (
              record {
                st = st;
                tracked = tracked;
                hot = is_planned.hot;
                gains = gains;
                lacked = lacked;
                alive = is_planned.alive;
                filled = refl;
              },
              ap marshals (sym made) ∙ ok,
            )

      back :
          IsWanted blocks c × (marshals c ≡ true)
          → In c (issue_all fl marshals cfg now (plan_blocks fl cfg now old new blocks))
      back (i, ok) =
          let olds = Defs.owners old c.block_id cfg.rf in
          let target =
            (In-targets_of c.target_node olds (Defs.owners new c.block_id cfg.rf)).1
              (i.gains, i.lacked) in
          let w = planned_warm c.block_id i.st in
          (In-issue_all fl cfg now marshals c (plan_blocks fl cfg now old new blocks)).1 (
            w,
            (In-plan_blocks fl cfg now old new w blocks).1 (
              c.block_id,
              i.st,
              i.tracked,
              plan_block-In c.block_id i.st c.target_node (record { hot = i.hot; alive = i.alive })
                  target,
            ),
            (In-issue_targets fl cfg now marshals c w w.targets).1
                (c.target_node, target, i.filled, ok),
          )
