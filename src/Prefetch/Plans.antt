-- ===== src/Prefetch/Plans.antt =====
-- OnRing as a whole: exactly the wanted commands, and each of them can be carried out.
use prefixmesh.Prelude.{
  leb, Bool-cases, Option-cases, In, Distinct, keys, find, put, Distinct-put, string_discrete, ℕ,
  ◌<◌, String, ◌≡◌, refl, sym, ap, subst, ◌∙◌, ◌≢◌, ◌↔◌, inl, inr, if_pos, Bool, true, false, some,
  List, [], ◌∷◌, arith, Floats,
}
use prefixmesh.HashRing.Defs
use prefixmesh.HashRing.Members.{owners_members}
use prefixmesh.Directory.State
use prefixmesh.Directory.Monitor.{is_empty}
use prefixmesh.Ringwatch.Watcher.{node_map}
use prefixmesh.Prefetch.Planner.{WarmCommand, Prefetcher, source_from, commands_for, on_ring}
use prefixmesh.Prefetch.Commands.{source_from-owner}
use prefixmesh.Prefetch.Wanted.{IsWanted, issued_iff}

node_map-Distinct :
    (ns : List State.NodeInfo) (acc : List (String × String))
    → Distinct (keys acc)
    → Distinct (keys (node_map ns acc))
unfolding node_map
node_map-Distinct [] acc d = d
node_map-Distinct (n ∷ ns) acc d =
    node_map-Distinct ns (put string_discrete n.node_id n.addr acc)
      (Distinct-put string_discrete n.node_id n.addr acc d)

module _ (fl : Floats) (marshals : WarmCommand fl → Bool) (vnode_point : String → ℕ → ℕ) where
  abbrev pub ring_of : State.Ring → Defs.Ring
  ring_of r = Defs.new_ring vnode_point r.epoch (node_map r.nodes []) r.vnodes_per_node

  ring_of-epoch : (r : State.Ring) → (ring_of r).epoch ≡ r.epoch
  unfolding Defs.new_ring
  ring_of-epoch r = refl

  ring_of-nodes : (r : State.Ring) → Defs.nodes (ring_of r) ≡ node_map r.nodes []
  unfolding Defs.new_ring Defs.nodes
  ring_of-nodes r = refl

  -- If the prefetcher has planned for a ring and a ring with a later epoch comes, OnRing issues a
  -- command exactly if it can be marshaled and it is wanted: it is for a tracked block whose
  -- decayed demand reaches the threshold, one of whose first rf owners on the old ring is still a
  -- member with an address, its target is one of the first rf owners on the new ring and was none
  -- on the old, and its other fields are those of the block and that source.
  pub on_ring_iff :
      (p : Prefetcher fl) (now : ℕ) (r : State.Ring) (old : Defs.Ring) (c : WarmCommand fl)
      → p.ring ≡ some old
      → old.epoch < r.epoch
      → In c (on_ring fl marshals vnode_point p now r).1
        ↔ (IsWanted fl p.cfg now old (ring_of r) p.blocks c × (marshals c ≡ true))
  unfolding on_ring commands_for
  on_ring_iff p now r old c had newer =
      let fresh : leb (ring_of r).epoch old.epoch ≡ false = ground (arith, ring_of-epoch r) in
      rw (had, fresh) (issued_iff fl p.cfg now old (ring_of r) marshals p.blocks c)

  issued-newer :
      (p : Prefetcher fl) (now : ℕ) (r : State.Ring) (c : WarmCommand fl)
      → In c (on_ring fl marshals vnode_point p now r).1
      → (old : Defs.Ring) × (p.ring ≡ some old) × (old.epoch < r.epoch)
  unfolding on_ring commands_for
  issued-newer p now r c h = elim (Option-cases p.ring) [
    | inl none_yet ↦ absurd (rw none_yet at h)
    | inr (old, had) ↦ elim (Bool-cases (leb (ring_of r).epoch old.epoch)) [
      | inl stale ↦ absurd (rw (had, stale) at h)
      | inr fresh ↦ (old, had, ground (arith, ring_of-epoch r))
    ]
  ]

  -- Every command that OnRing issues is for a later epoch than that of the ring planned for
  -- before, its target is a member of the new ring, and its source is the address of another
  -- member, which was one of the first rf owners of the block on the old ring.
  pub on_ring-source :
      (p : Prefetcher fl) (now : ℕ) (r : State.Ring) (c : WarmCommand fl)
      → In c (on_ring fl marshals vnode_point p now r).1
      → In c.target_node (keys (node_map r.nodes []))
        × ((old : Defs.Ring) × (o : String) × (p.ring ≡ some old)
            × (old.epoch < r.epoch)
            × In o (Defs.owners old c.block_id p.cfg.rf)
            × (find string_discrete o (node_map r.nodes []) ≡ some c.source_node)
            × (o ≢ c.target_node))
  on_ring-source p now r c h =
      let (old, had, newer) = issued-newer p now r c h in
      let (i, ok) = (on_ring_iff p now r old c had newer).0 h in
      let members = node_map r.nodes [] in
      let olds = Defs.owners old c.block_id p.cfg.rf in
      let src : c.source_node ≡ source_from members olds "" =
        ap (λ x. x.source_node) i.filled ∙ ap (λ m. source_from m olds "") (ring_of-nodes r) in
      let alive : is_empty (source_from members olds "") ≡ false =
        ap (λ m. is_empty (source_from m olds "")) (sym (ring_of-nodes r)) ∙ i.alive in
      (
        (owners_members vnode_point r.epoch members r.vnodes_per_node c.block_id p.cfg.rf
              (node_map-Distinct r.nodes [] tt)).1
            c.target_node i.gains,
        elim (source_from-owner members olds "" alive) [
          | inl blank ↦
              cc (alive, ap is_empty blank, if_pos (string_discrete "" "") refl true false)
          | inr (o, inside, at) ↦ (
            old,
            o,
            had,
            newer,
            inside,
            at ∙ ap some (sym src),
            λ same. i.lacked (subst (λ x. In x olds) same inside),
          )
        ],
      )
