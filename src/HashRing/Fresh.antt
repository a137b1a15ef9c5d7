-- ===== src/HashRing/Fresh.antt =====
-- The nodes met along a list of virtual nodes: none twice, each on the list, and all of them.
use prefixmesh.Prelude.{
  Bool-cases, In, Distinct, In-append_left, In-append_right, In-append, string_discrete, String,
  ◌≡◌, refl, sym, subst, ◌∙◌, ◌⊎◌, inl, inr, if_pos, if_neg, true, false, List, [], ◌∷◌, ◌++◌,
}
use prefixmesh.HashRing.Defs.{Vnode, seen}
use prefixmesh.HashRing.Walk.{fresh}

pub seen-In : (id : String) (xs : List String) → seen id xs ≡ false → In id xs → ⊥
seen-In id [] h i = i
seen-In id (x ∷ xs) h i = elim (string_discrete x id) [
  | yes e ↦ cc (if_pos (string_discrete x id) e true (seen id xs))
  | no e ↦ elim i [
    | inl p ↦ e (sym p)
    | inr p ↦ seen-In id xs (sym (if_neg (string_discrete x id) e true (seen id xs)) ∙ h) p
  ]
]

pub In-seen : (id : String) (xs : List String) → seen id xs ≡ true → In id xs
In-seen id [] h = cc
In-seen id (x ∷ xs) h = elim (string_discrete x id) [
  | yes e ↦ inl (sym e)
  | no e ↦ inr (In-seen id xs (sym (if_neg (string_discrete x id) e true (seen id xs)) ∙ h))
]

abbrev pub ids : List Vnode → List String
ids [] = []
ids (v ∷ vs) = v.node_id ∷ ids vs

fresh_not_old :
    (id : String) (old : List String) (vs : List Vnode) → In id (fresh old vs) → In id old → ⊥
fresh_not_old id old [] h i = h
fresh_not_old id old (v ∷ vs) h i = elim (Bool-cases (seen v.node_id old)) [
  | inl e ↦ fresh_not_old id old vs (rw e at h) i
  | inr e ↦ elim (rw e at h) [
    | inl p ↦ seen-In v.node_id old e (subst (λ x. In x old) p i)
    | inr p ↦
        fresh_not_old id (old ++ v.node_id ∷ []) vs p (In-append_left id old (v.node_id ∷ []) i)
  ]
]

pub fresh-Distinct : (old : List String) (vs : List Vnode) → Distinct (fresh old vs)
fresh-Distinct old [] = tt
fresh-Distinct old (v ∷ vs) = elim (Bool-cases (seen v.node_id old)) [
  | inl e ↦ rw e (fresh-Distinct old vs)
  | inr e ↦ rw e (
    λ h.
        fresh_not_old v.node_id (old ++ v.node_id ∷ []) vs h
          (In-append_right v.node_id old (v.node_id ∷ []) (inl refl)),
    fresh-Distinct (old ++ v.node_id ∷ []) vs,
  )
]

pub fresh-In :
    (id : String) (old : List String) (vs : List Vnode) → In id (fresh old vs) → In id (ids vs)
fresh-In id old [] h = h
fresh-In id old (v ∷ vs) h = elim (Bool-cases (seen v.node_id old)) [
  | inl e ↦ inr (fresh-In id old vs (rw e at h))
  | inr e ↦ elim (rw e at h) [
    | inl p ↦ inl p
    | inr p ↦ inr (fresh-In id (old ++ v.node_id ∷ []) vs p)
  ]
]

pub In-fresh :
    (id : String) (old : List String) (vs : List Vnode)
    → In id (ids vs)
    → In id old ⊎ In id (fresh old vs)
In-fresh id old [] h = absurd h
In-fresh id old (v ∷ vs) h = elim (Bool-cases (seen v.node_id old)) [
  | inl e ↦ elim h [
    | inl p ↦ inl (subst (λ x. In x old) (sym p) (In-seen v.node_id old e))
    | inr p ↦ rw e (In-fresh id old vs p)
  ]
  | inr e ↦ elim h [
    | inl p ↦ inr (rw e (inl p))
    | inr p ↦ elim (In-fresh id (old ++ v.node_id ∷ []) vs p) [
      | inl q ↦ elim (In-append id old (v.node_id ∷ []) q) [
        | inl r ↦ inl r
        | inr r ↦ elim r [ inl x ↦ inr (rw e (inl x)) | inr x ↦ absurd x ]
      ]
      | inr q ↦ inr (rw e (inr q))
    ]
  ]
]
