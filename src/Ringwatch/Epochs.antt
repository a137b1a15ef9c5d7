-- ===== src/Ringwatch/Epochs.antt =====
-- The epochs of a watcher's rings.
use prefixmesh.Prelude.{
  Bool-cases, ℕ, ◌≤◌, ◌<◌, String, ◌≡◌, refl, ap, ◌↔◌, inl, inr, Bool, true, false, Option, none,
  some, List, [], ◌∷◌, arith,
}
use prefixmesh.HashRing.Defs
use prefixmesh.Directory.State
use prefixmesh.Ringwatch.Watcher.{Watcher, is_stale, epoch_of, apply_ring, apply_rings}

abbrev pub AllNonzero : List State.Ring → Type 0
AllNonzero [] = Unit
AllNonzero (msg ∷ msgs) = (0 < msg.epoch) × AllNonzero msgs

fresh_le :
    (o : Option Defs.Ring) (epoch : ℕ) → 0 < epoch → is_stale o epoch ≡ false → epoch_of o ≤ epoch
fresh_le none epoch pos h = omega arith
fresh_le (some r) epoch pos h = ground arith

zero_is_fresh : (o : Option Defs.Ring) → is_stale o 0 ≡ false
zero_is_fresh none = refl
zero_is_fresh (some r) = ground arith

module _ (vnode_point : String → ℕ → ℕ) (dial : String → Bool) where
  apply_ring-le :
      (w : Watcher) (msg : State.Ring)
      → 0 < msg.epoch
      → epoch_of w.ring ≤ epoch_of (apply_ring vnode_point dial w msg).ring
  unfolding apply_ring Defs.new_ring
  apply_ring-le w msg pos = elim (Bool-cases (is_stale w.ring msg.epoch)) [
    | inl stale ↦ rw (stale, apply_ring) (omega arith)
    | inr fresh_ ↦ rw (fresh_, apply_ring) (fresh_le w.ring msg.epoch pos fresh_)
  ]

  -- Over any sequence of ring updates whose epochs are not zero the epoch of a watcher's ring
  -- never goes back.
  apply_rings-le :
      (w : Watcher) (msgs : List State.Ring)
      → AllNonzero msgs
      → epoch_of w.ring ≤ epoch_of (apply_rings vnode_point dial w msgs).ring
  unfolding apply_rings
  apply_rings-le w [] h = omega arith
  apply_rings-le w (msg ∷ msgs) h =
      omega (
        arith,
        apply_ring-le w msg h.0,
        apply_rings-le (apply_ring vnode_point dial w msg) msgs h.1,
      )

  -- A ring update makes the epoch of a watcher's ring go back if and only if the update has the
  -- epoch zero and the watcher's ring has a larger one.
  pub epoch-back_iff :
      (w : Watcher) (msg : State.Ring)
      → (epoch_of (apply_ring vnode_point dial w msg).ring < epoch_of w.ring)
        ↔ ((msg.epoch ≡ 0) × (0 < epoch_of w.ring))
  unfolding apply_ring Defs.new_ring
  epoch-back_iff w msg = elim (Bool-cases (is_stale w.ring msg.epoch)) [
    | inl stale ↦
        rw (stale, apply_ring)
          (λ lt. absurd (omega (arith, lt)), λ zero_. absurd (stale_nonzero stale zero_.0))
    | inr fresh_ ↦
        rw (fresh_, apply_ring)
          (
            λ lt. (below_zero w.ring msg.epoch fresh_ lt, omega (arith, lt)),
            λ zero_. omega (arith, zero_.0, zero_.1),
          )
  ]
    where
      stale_nonzero : is_stale w.ring msg.epoch ≡ true → msg.epoch ≡ 0 → ⊥
      stale_nonzero stale e = cc (stale, ap (is_stale w.ring) e, zero_is_fresh w.ring)

      below_zero :
          (o : Option Defs.Ring) (epoch : ℕ)
          → is_stale o epoch ≡ false
          → epoch < epoch_of o
          → epoch ≡ 0
      below_zero none epoch h lt = absurd (omega (arith, lt))
      below_zero (some r) epoch h lt = ground arith
