-- ===== src/HashRing/Examples.antt =====
-- Tests and instances, with points that are easy to follow.
use prefixmesh.Prelude.{
  length, get_elem?, take, In, Distinct, keys, find, string_discrete, Bytes, string_apart, ℕ, ◌+◌,
  ◌*◌, min, String, ◌≡◌, refl, inl, inr, ite, some, List, [], ◌∷◌, arith,
}
use prefixmesh.HashRing.Defs.{new_ring, key_of, owners, owner}
use prefixmesh.HashRing.Walk.{fresh}
use prefixmesh.HashRing.Owners.{walk, owners-walk}
use prefixmesh.HashRing.Members.{owners_members, owners_stable}

abbrev point : String → ℕ → ℕ
point id i = ite (string_discrete id "a") (100 * i) (100 * i + 50)

abbrev two_nodes : List (String × String)
two_nodes = ("a", "a:1") ∷ ("b", "b:1") ∷ []

abbrev block : Bytes
block = 0 ∷ 0 ∷ 0 ∷ 0 ∷ 0 ∷ 0 ∷ 0 ∷ 120 ∷ []

-- The point 120 lies between b's 50, a's 100 and b's 150.
owners_of_block : owners (new_ring point 1 two_nodes 2) block 3 ≡ "b" ∷ "a" ∷ []
unfolding owners new_ring string_discrete
owners_of_block = refl

owner_of_block : owner (new_ring point 1 two_nodes 2) block ≡ some ("b", "b:1")
unfolding owner new_ring string_discrete find
owner_of_block = refl

two_nodes-Distinct : Distinct (keys two_nodes)
two_nodes-Distinct = (λ h. elim h [ inl e ↦ string_apart "a" "b" refl e | inr i ↦ i ], (λ h. h, tt))

owners_members_example :
    Distinct (owners (new_ring point 1 two_nodes 2) block 3)
    × ((id : String)
        → In id (owners (new_ring point 1 two_nodes 2) block 3)
        → In id (keys two_nodes))
    × (length (owners (new_ring point 1 two_nodes 2) block 3) ≡ min 3 (length two_nodes))
owners_members_example = owners_members point 1 two_nodes 2 block 3 two_nodes-Distinct

owners_stable_example :
    get_elem? (owners (new_ring point 1 two_nodes 2) block 2) 1
    ≡ get_elem? (owners (new_ring point 1 two_nodes 2) block 2) 1
owners_stable_example = owners_stable point 1 two_nodes 2 block 1 2 (omega arith)

owners-walk_example :
    owners (new_ring point 1 two_nodes 2) block 3
    ≡ take
        (min 3 (length (new_ring point 1 two_nodes 2).addrs))
        (fresh [] (walk (key_of block) (new_ring point 1 two_nodes 2).vnodes))
owners-walk_example = owners-walk point 1 two_nodes 2 block 3
