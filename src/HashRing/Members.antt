-- ===== src/HashRing/Members.antt =====
-- The owners of a block are distinct members, as many as asked for as long as there are members,
-- and asking for more of them changes none.
use prefixmesh.Prelude.{
  ◌==◌, if◌then◌else◌, length, get_elem?, take, length-take, In, Distinct, keys, string_discrete,
  Bytes, ℕ, zero, suc, ◌≤◌, ◌<◌, min, String, ◌≡◌, refl, sym, ap, subst, ◌∙◌, inl, inr, none, List,
  [], ◌∷◌, arith, dec_lt,
}
use prefixmesh.Prelude.Counting.{length-le_of_subset}
use prefixmesh.HashRing.Defs.{Ring, default_vnodes, new_ring, key_of, owners}
use prefixmesh.HashRing.Walk.{fresh}
use prefixmesh.HashRing.Owners.{walk, owners-walk}
use prefixmesh.HashRing.Fresh.{ids, fresh-Distinct, fresh-In, In-fresh}
use prefixmesh.HashRing.Vnodes.{sort-In, In-sort, In-walk, walk-In, all_vnodes-In, In-all_vnodes}

In-take : {A : Type 0} (a : A) (k : ℕ) (xs : List A) → In a (take k xs) → In a xs
In-take a zero xs h = absurd h
In-take a (suc k) [] h = h
In-take a (suc k) (x ∷ xs) (inl e) = inl e
In-take a (suc k) (x ∷ xs) (inr h) = inr (In-take a k xs h)

Distinct-take : {A : Type 0} (k : ℕ) (xs : List A) → Distinct xs → Distinct (take k xs)
Distinct-take zero xs d = tt
Distinct-take (suc k) [] d = tt
Distinct-take (suc k) (x ∷ xs) d = (λ h. d.0 (In-take x k xs h), Distinct-take k xs d.1)

get_elem?-take :
    {A : Type 0} (xs : List A) (i k : ℕ) → k < i → get_elem? (take i xs) k ≡ get_elem? xs k
get_elem?-take xs zero k h = absurd (omega arith)
get_elem?-take [] (suc i) k h = refl
get_elem?-take (x ∷ xs) (suc i) zero h = refl
get_elem?-take (x ∷ xs) (suc i) (suc k) h = get_elem?-take xs i k (omega arith)

get_elem?-take_le : {A : Type 0} (xs : List A) (i k : ℕ) → i ≤ k → get_elem? (take i xs) k ≡ none
get_elem?-take_le xs zero k h = refl
get_elem?-take_le [] (suc i) k h = refl
get_elem?-take_le (x ∷ xs) (suc i) zero h = absurd (omega arith)
get_elem?-take_le (x ∷ xs) (suc i) (suc k) h = get_elem?-take_le xs i k (omega arith)

module _ (vnode_point : String → ℕ → ℕ) (epoch : ℕ) (members : List (String × String)) (k : ℕ)
    (block_id : Bytes) where
  abbrev ring_ : Ring
  ring_ = new_ring vnode_point epoch members k

  abbrev walked : List String
  walked = fresh [] (walk (key_of block_id) ring_.vnodes)

  ring_addrs : ring_.addrs ≡ members
  unfolding new_ring
  ring_addrs = refl

  count_pos : 0 < (if k == 0 then default_vnodes else k)
  count_pos = ground arith

  ring-In : (id : String) → In id (ids ring_.vnodes) → In id (keys members)
  unfolding new_ring
  ring-In id h =
      all_vnodes-In vnode_point id (if k == 0 then default_vnodes else k) members (sort-In id _ h)

  In-ring : (id : String) → In id (keys members) → In id (ids ring_.vnodes)
  unfolding new_ring
  In-ring id h =
      In-sort id _
        (In-all_vnodes vnode_point id (if k == 0 then default_vnodes else k) members count_pos h)

  walked-In : (id : String) → In id walked → In id (keys members)
  walked-In id h = ring-In id (walk-In id (key_of block_id) ring_.vnodes (fresh-In id [] _ h))

  In-walked : (id : String) → In id (keys members) → In id walked
  In-walked id h =
      elim (In-fresh id [] _ (In-walk id (key_of block_id) ring_.vnodes (In-ring id h))) [
        | inl p ↦ absurd p
        | inr p ↦ p
      ]

  length-keys : (m : List (String × String)) → length (keys m) ≡ length m
  length-keys [] = refl
  length-keys ((a, b) ∷ m) = ap suc (length-keys m)

  length-walked : Distinct (keys members) → length walked ≡ length members
  length-walked d = omega (
    arith,
    length-le_of_subset string_discrete walked (keys members) (fresh-Distinct [] _) walked-In,
    length-le_of_subset string_discrete (keys members) walked d In-walked,
    length-keys members,
  )

  -- On a ring made of a map of members Owners returns distinct members, exactly as many as asked
  -- for, or all members if there are fewer.
  pub owners_members :
      (n : ℕ)
      → Distinct (keys members)
      → Distinct (owners ring_ block_id n)
        × ((id : String) → In id (owners ring_ block_id n) → In id (keys members))
        × (length (owners ring_ block_id n) ≡ min n (length members))
  owners_members n d = (
    subst Distinct (sym spec) (Distinct-take limit walked (fresh-Distinct [] _)),
    λ id h. walked-In id (In-take id limit walked (subst (In id) spec h)),
    omega (arith, ap length spec, length-take limit walked, length-walked d, ap length ring_addrs),
  )
    where
      limit : ℕ
      limit = min n (length ring_.addrs)

      spec : owners ring_ block_id n ≡ take limit walked
      spec = owners-walk vnode_point epoch members k block_id n

  -- On a ring made by New the j-th owner of a block is the same whether j + 1 or any larger
  -- number of owners is asked for.
  pub owners_stable :
      (j n : ℕ)
      → j < n
      → get_elem? (owners ring_ block_id n) j ≡ get_elem? (owners ring_ block_id (suc j)) j
  owners_stable j n h =
      rw
        (
          owners-walk vnode_point epoch members k block_id n,
          owners-walk vnode_point epoch members k block_id (suc j),
        )
        (at j n h)
    where
      at :
          (i m : ℕ)
          → i < m
          → get_elem? (take (min m (length ring_.addrs)) walked) i
            ≡ get_elem? (take (min (suc i) (length ring_.addrs)) walked) i
      at i m lt = elim (dec_lt i (length ring_.addrs)) [
        | yes inside ↦
            get_elem?-take walked _ i (omega arith) ∙ sym (get_elem?-take walked _ i (omega arith))
        | no outside ↦
            get_elem?-take_le walked _ i (omega arith)
            ∙ sym (get_elem?-take_le walked _ i (omega arith))
      ]
