-- ===== src/HashRing/Owners.antt =====
-- What `Owners` returns, on a ring that `New` made.
use prefixmesh.Prelude.{
  ltb, leb, ◌==◌, if◌then◌else◌, leb→le, Bool-cases, length, take, drop, Bytes, ℕ, zero, suc, ◌≤◌,
  min, String, ◌≡◌, refl, sym, ap, ◌∙◌, ◌≢◌, inl, inr, Bool, true, false, ◌||◌, List, [], ◌∷◌, ◌++◌,
  arith, ℕ_discrete,
}
use prefixmesh.HashRing.Defs.{
  Vnode, Ring, default_vnodes, before, insert, sort, all_vnodes, new_ring, key_of, search_point,
  collect, owners,
}
use prefixmesh.HashRing.Walk.{rotate, fresh, take-zero, collect-fresh}

abbrev AllFrom : ℕ → List Vnode → Type 0
AllFrom p [] = Unit
AllFrom p (v ∷ vs) = (p ≤ v.point) × AllFrom p vs

abbrev IsSorted : List Vnode → Type 0
IsSorted [] = Unit
IsSorted (v ∷ vs) = AllFrom v.point vs × IsSorted vs

AllFrom-weaken : (p q : ℕ) (vs : List Vnode) → q ≤ p → AllFrom p vs → AllFrom q vs
AllFrom-weaken p q [] le h = tt
AllFrom-weaken p q (v ∷ vs) le h = (omega arith, AllFrom-weaken p q vs le h.1)

AllFrom-insert :
    (p : ℕ) (v : Vnode) (vs : List Vnode) → p ≤ v.point → AllFrom p vs → AllFrom p (insert v vs)
unfolding insert
AllFrom-insert p v [] le h = (le, tt)
AllFrom-insert p v (w ∷ ws) le h = elim (Bool-cases (before w v)) [
  | inl e ↦ rw e (h.0, AllFrom-insert p v ws le h.1)
  | inr e ↦ rw e (le, h)
]

before_le : (a b : Vnode) → before a b ≡ true → a.point ≤ b.point
before_le a b h = ground arith

not_before_le : (a b : Vnode) → before a b ≡ false → b.point ≤ a.point
not_before_le a b h = ground arith

insert-IsSorted : (v : Vnode) (vs : List Vnode) → IsSorted vs → IsSorted (insert v vs)
unfolding insert
insert-IsSorted v [] s = (tt, tt)
insert-IsSorted v (w ∷ ws) s = elim (Bool-cases (before w v)) [
  | inl e ↦ rw e (AllFrom-insert w.point v ws (before_le w v e) s.0, insert-IsSorted v ws s.1)
  | inr e ↦ let le = not_before_le w v e in rw e ((le, AllFrom-weaken w.point v.point ws le s.0), s)
]

sort-IsSorted : (vs : List Vnode) → IsSorted (sort vs)
unfolding sort
sort-IsSorted [] = tt
sort-IsSorted (v ∷ vs) = insert-IsSorted v (sort vs) (sort-IsSorted vs)

abbrev pub keep : (Vnode → Bool) → List Vnode → List Vnode
keep p [] = []
keep p (v ∷ vs) = if p v then v ∷ keep p vs else keep p vs

-- Clockwise from the key: the points from the key on, then, past the origin, those below it.
abbrev pub walk : ℕ → List Vnode → List Vnode
walk key vs = keep (λ v. leb key v.point) vs ++ keep (λ v. ltb v.point key) vs

search_point-le : (key : ℕ) (vs : List Vnode) → search_point key vs ≤ length vs
unfolding search_point
search_point-le key [] = omega arith
search_point-le key (v ∷ vs) = ground (arith, search_point-le key vs)

keep_above :
    (key : ℕ) (vs : List Vnode)
    → AllFrom key vs
    → (keep (λ v. leb key v.point) vs ≡ vs) × (keep (λ v. ltb v.point key) vs ≡ [])
keep_above key [] h = (refl, refl)
keep_above key (v ∷ vs) h = ground (arith, keep_above key vs h.1)

search_splits :
    (key : ℕ) (vs : List Vnode)
    → IsSorted vs
    → (drop (search_point key vs) vs ≡ keep (λ v. leb key v.point) vs)
      × (take (search_point key vs) vs ≡ keep (λ v. ltb v.point key) vs)
unfolding search_point
search_splits key [] s = (refl, refl)
search_splits key (v ∷ vs) s = elim (Bool-cases (leb key v.point)) [
  | inl e ↦
      let k = keep_above key vs (AllFrom-weaken v.point key vs (leb→le _ _ e) s.0) in
      rw e (ground (arith, k.0), ground (arith, k.1))
  | inr e ↦ let r = search_splits key vs s.1 in rw e (r.0, ground (arith, r.1))
]

-- The search starts the walk.
search-walk :
    (key : ℕ) (vs : List Vnode) → IsSorted vs → rotate (search_point key vs) vs ≡ walk key vs
search-walk key vs s = let r = search_splits key vs s in rw (r.0, r.1)

nothing_fresh : (j key : ℕ) (vs : List Vnode) → length vs ≡ 0 → [] ≡ take j (fresh [] (walk key vs))
nothing_fresh zero key vs h = refl
nothing_fresh (suc j) key [] h = refl
nothing_fresh (suc j) key (v ∷ vs) h = absurd (omega arith)

owners_of :
    (key : ℕ) (vs : List Vnode) (n m : ℕ)
    → IsSorted vs
    → (if length vs == 0 || n == 0
        then []
        else collect vs (search_point key vs) (if ltb m n then m else n) (length vs) 0 [])
      ≡ take (min n m) (fresh [] (walk key vs))
owners_of key vs n m s = elim (Bool-cases (length vs == 0)) [
  | inl e ↦ rw e (nothing_fresh (min n m) key vs (ground arith))
  | inr e ↦ elim (ℕ_discrete n 0) [
    | yes z ↦ rw (e, z) (sym (take-zero (min 0 m) (fresh [] (walk key vs)) (omega arith)))
    | no nz ↦
        rw (e, not_zero n nz)
          (collect-fresh vs (search_point key vs) (if ltb m n then m else n)
              (search_point-le key vs)
            ∙ ap (λ w. take (if ltb m n then m else n) (fresh [] w)) (search-walk key vs s)
            ∙ ap (λ j. take j (fresh [] (walk key vs))) (limit-min n m))
  ]
]
  where
    not_zero : (a : ℕ) → a ≢ 0 → (a == 0) ≡ false
    not_zero a h = ground arith

    limit-min : (a b : ℕ) → (if ltb b a then b else a) ≡ min a b
    limit-min a b = ground arith

module _ (vnode_point : String → ℕ → ℕ) (epoch : ℕ) (members : List (String × String)) (k : ℕ) where
  abbrev ring_ : Ring
  ring_ = new_ring vnode_point epoch members k

  ring-IsSorted : IsSorted ring_.vnodes
  unfolding new_ring
  ring-IsSorted =
      sort-IsSorted (all_vnodes vnode_point (if k == 0 then default_vnodes else k) members)

  -- On a ring made by New, Owners returns the first nodes of the clockwise walk from the block's
  -- point, each taken once, as many as asked for but no more than there are members.
  pub owners-walk :
      (block_id : Bytes) (n : ℕ)
      → owners ring_ block_id n
        ≡ take (min n (length ring_.addrs)) (fresh [] (walk (key_of block_id) ring_.vnodes))
  unfolding owners
  owners-walk block_id n =
      owners_of (key_of block_id) ring_.vnodes n (length ring_.addrs) ring-IsSorted
