-- ===== src/HashRing/Vnodes.antt =====
-- Which node ids the virtual nodes of a ring, and those of a walk, carry.
use prefixmesh.Prelude.{
  ltb, leb, Bool-cases, In, In-append_left, In-append_right, In-append, keys, ℕ, zero, suc, ◌≤◌,
  ◌<◌, String, ◌≡◌, refl, sym, ap, subst, inl, inr, Bool, true, false, List, [], ◌∷◌, ◌++◌, arith,
  dec_le,
}
use prefixmesh.HashRing.Defs.{Vnode, before, insert, sort, node_vnodes, all_vnodes}
use prefixmesh.HashRing.Owners.{keep, walk}
use prefixmesh.HashRing.Fresh.{ids}

insert-In :
    (id : String) (v : Vnode) (vs : List Vnode) → In id (ids (insert v vs)) → In id (ids (v ∷ vs))
unfolding insert
insert-In id v [] h = h
insert-In id v (w ∷ ws) h = elim (Bool-cases (before w v)) [
  | inr e ↦ rw e at h
  | inl e ↦ elim (rw e at h) [
    | inl p ↦ inr (inl p)
    | inr p ↦ elim (insert-In id v ws p) [ inl q ↦ inl q | inr q ↦ inr (inr q) ]
  ]
]

In-insert :
    (id : String) (v : Vnode) (vs : List Vnode) → In id (ids (v ∷ vs)) → In id (ids (insert v vs))
unfolding insert
In-insert id v [] h = h
In-insert id v (w ∷ ws) h = elim (Bool-cases (before w v)) [
  | inr e ↦ rw e h
  | inl e ↦ rw e (elim h [
    | inl p ↦ inr (In-insert id v ws (inl p))
    | inr p ↦ elim p [ inl q ↦ inl q | inr q ↦ inr (In-insert id v ws (inr q)) ]
  ])
]

pub sort-In : (id : String) (vs : List Vnode) → In id (ids (sort vs)) → In id (ids vs)
unfolding sort
sort-In id [] h = h
sort-In id (v ∷ vs) h = elim (insert-In id v (sort vs) h) [
  | inl p ↦ inl p
  | inr p ↦ inr (sort-In id vs p)
]

pub In-sort : (id : String) (vs : List Vnode) → In id (ids vs) → In id (ids (sort vs))
unfolding sort
In-sort id [] h = h
In-sort id (v ∷ vs) h =
    In-insert id v (sort vs) (elim h [ inl p ↦ inl p | inr p ↦ inr (In-sort id vs p) ])

keep-In :
    (id : String) (p : Vnode → Bool) (vs : List Vnode) → In id (ids (keep p vs)) → In id (ids vs)
keep-In id p [] h = h
keep-In id p (v ∷ vs) h = elim (Bool-cases (p v)) [
  | inl e ↦ elim (rw e at h) [ inl q ↦ inl q | inr q ↦ inr (keep-In id p vs q) ]
  | inr e ↦ inr (keep-In id p vs (rw e at h))
]

ids-append : (vs ws : List Vnode) → ids (vs ++ ws) ≡ ids vs ++ ids ws
ids-append [] ws = refl
ids-append (v ∷ vs) ws = ap (◌∷◌ v.node_id) (ids-append vs ws)

-- A virtual node is on one side of the key.
pub In-walk : (id : String) (key : ℕ) (vs : List Vnode) → In id (ids vs) → In id (ids (walk key vs))
In-walk id key vs h = rw (ids-append (keep (λ v. leb key v.point) vs) _) (sides vs h)
  where
    sides :
        (ws : List Vnode)
        → In id (ids ws)
        → In id (ids (keep (λ v. leb key v.point) ws) ++ ids (keep (λ v. ltb v.point key) ws))
    sides [] i = i
    sides (w ∷ ws) i = elim (dec_le key w.point) [
      | yes le ↦
          rw (le→leb key w.point le, le→not_ltb key w.point le)
            (elim i [ inl e ↦ inl e | inr j ↦ inr (sides ws j) ])
      | no gt ↦
          rw (gt→not_leb key w.point gt, gt→ltb key w.point gt)
            (elim i [
              | inl e ↦ In-append_right id (ids (keep (λ v. leb key v.point) ws)) _ (inl e)
              | inr j ↦ elim (In-append id (ids (keep (λ v. leb key v.point) ws)) _ (sides ws j)) [
                | inl l ↦ In-append_left id _ _ l
                | inr r ↦ In-append_right id (ids (keep (λ v. leb key v.point) ws)) _ (inr r)
              ]
            ])
    ]
      where
        le→leb : (a b : ℕ) → a ≤ b → leb a b ≡ true
        le→leb a b le = ground arith

        le→not_ltb : (a b : ℕ) → a ≤ b → ltb b a ≡ false
        le→not_ltb a b le = ground arith

        gt→not_leb : (a b : ℕ) → ¬ (a ≤ b) → leb a b ≡ false
        gt→not_leb a b gt = ground arith

        gt→ltb : (a b : ℕ) → ¬ (a ≤ b) → ltb b a ≡ true
        gt→ltb a b gt = ground arith

pub walk-In : (id : String) (key : ℕ) (vs : List Vnode) → In id (ids (walk key vs)) → In id (ids vs)
walk-In id key vs h =
    elim (In-append id (ids (keep (λ v. leb key v.point) vs)) _
      (rw (ids-append (keep (λ v. leb key v.point) vs) _) at h)) [
        | inl l ↦ keep-In id _ vs l
        | inr r ↦ keep-In id _ vs r
      ]

module _ (vnode_point : String → ℕ → ℕ) where
  node_vnodes-In : (id x : String) (k i : ℕ) → In id (ids (node_vnodes vnode_point x k i)) → id ≡ x
  unfolding node_vnodes
  node_vnodes-In id x zero i h = absurd h
  node_vnodes-In id x (suc k) i (inl e) = e
  node_vnodes-In id x (suc k) i (inr h) = node_vnodes-In id x k (suc i) h

  pub all_vnodes-In :
      (id : String) (k : ℕ) (ns : List (String × String))
      → In id (ids (all_vnodes vnode_point k ns))
      → In id (keys ns)
  unfolding all_vnodes
  all_vnodes-In id k [] h = h
  all_vnodes-In id k ((x, addr) ∷ ns) h =
      elim (In-append id (ids (node_vnodes vnode_point x k 0)) _
        (rw (ids-append (node_vnodes vnode_point x k 0) (all_vnodes vnode_point k ns)) at h)) [
          | inl l ↦ inl (node_vnodes-In id x k 0 l)
          | inr r ↦ inr (all_vnodes-In id k ns r)
        ]

  In-node_vnodes : (x : String) (k i : ℕ) → In x (ids (node_vnodes vnode_point x (suc k) i))
  unfolding node_vnodes
  In-node_vnodes x k i = inl refl

  pub In-all_vnodes :
      (id : String) (k : ℕ) (ns : List (String × String))
      → 0 < k
      → In id (keys ns)
      → In id (ids (all_vnodes vnode_point k ns))
  unfolding all_vnodes
  In-all_vnodes id zero ns pos h = absurd (omega arith)
  In-all_vnodes id (suc k) [] pos h = h
  In-all_vnodes id (suc k) ((x, addr) ∷ ns) pos h =
      subst (In id)
        (sym (ids-append (node_vnodes vnode_point x (suc k) 0) (all_vnodes vnode_point (suc k) ns)))
        (elim h [
          | inl e ↦ In-append_left id (ids (node_vnodes vnode_point x (suc k) 0)) _ (
              subst (λ y. In y (ids (node_vnodes vnode_point x (suc k) 0))) (sym e)
                (In-node_vnodes x k 0))
          | inr i ↦
              In-append_right id (ids (node_vnodes vnode_point x (suc k) 0)) _
                (In-all_vnodes id (suc k) ns pos i)
        ])
