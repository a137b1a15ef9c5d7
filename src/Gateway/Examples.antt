-- ===== src/Gateway/Examples.antt =====
-- `Match` at a small ring: two nodes, a chain of two blocks of which the second is nowhere.
use prefixmesh.Prelude.{
  ◌==◌, string_discrete, Bytes, ℕ, zero, suc, String, ◌≡◌, refl, ◌⊎◌, Bool, true, false, Option,
  none, some, List, [], ◌∷◌,
}
use prefixmesh.HashRing.Defs.{Ring, owners, collect, search_point, key_of}
use prefixmesh.Gateway.Fanout.{Reply, present_list}
use prefixmesh.Gateway.Putting.{Routed, add_block, add_to_all, route_blocks}
use prefixmesh.Gateway.Routing.{AllFine, blocks_for, owned_blocks, route_blocks_lem}
use prefixmesh.Gateway.Soundness.{IsOrder}
use prefixmesh.Gateway.Matching.{MatchResponse, match_on_ring, match_chain}
use prefixmesh.Gateway.Answers.{Honest, Supported, match_on_ring-Honest, match_chain_lem}

abbrev small_ring : Ring
small_ring = record {
  epoch = 3;
  vnodes = record { point = 10; node_id = "a" } ∷ record { point = 20; node_id = "b" } ∷ [];
  addrs = ("a", "10.0.0.1:1") ∷ ("b", "10.0.0.2:1") ∷ [];
}

abbrev zeros : ℕ → Bytes
zeros zero = []
zeros (suc n) = 0 ∷ zeros n

abbrev two_ids : List Bytes
two_ids = (1 ∷ zeros 31) ∷ (2 ∷ zeros 31) ∷ []

-- A node has the blocks whose first byte is 1.
abbrev has_first : List Bytes → List Bool
has_first [] = []
has_first ([] ∷ ids) = false ∷ has_first ids
has_first ((b ∷ bs) ∷ ids) = (b == 1) ∷ has_first ids

abbrev answers : ℕ → String → List Bytes → Reply
answers replica n ids = present_list (has_first ids)

same-IsOrder : IsOrder (λ bs. bs)
same-IsOrder bs b h = h

match_on_ring-Honest_example :
    Honest small_ring answers 2 two_ids
      (match_on_ring (λ n. true) answers (λ bs. bs) 2 small_ring two_ids).0
match_on_ring-Honest_example =
    match_on_ring-Honest (λ n. true) answers (λ bs. bs) 2 small_ring two_ids same-IsOrder

match_chain_lem_example :
    (resp : MatchResponse) × (match_chain
        (λ n. true)
        (λ k. answers)
        (λ bs. bs)
        (λ k. some small_ring)
        2
        two_ids
      ≡ some resp)
    × Supported (λ k. answers) (λ k. some small_ring) 2 two_ids resp
match_chain_lem_example =
    match_chain_lem (λ n. true) (λ k. answers) (λ bs. bs) (λ k. some small_ring) same-IsOrder 2
      two_ids refl

-- Two blocks, the second read while no ring is known, so that it goes nowhere.
abbrev small_block : Routed
small_block = record { block_id = 1 ∷ zeros 31; payload = [] }

abbrev two_requests : List (Option Routed × Option Ring)
two_requests = (some small_block, some small_ring) ∷ (some small_block, none) ∷ []

abbrev two_routed : Option (List (String × List Routed))
two_routed = some (("a", small_block ∷ []) ∷ [])

routed_once : route_blocks 1 two_requests [] ≡ two_routed
unfolding route_blocks add_to_all add_block owners collect search_point key_of string_discrete
routed_once = refl

route_blocks_lem_example :
    (AllFine two_requests
      × ((m : List (String × List Routed)) × (route_blocks 1 two_requests [] ≡ some m)
          × ((n : String) → blocks_for n m ≡ owned_blocks 1 n two_requests)))
    ⊎ ((AllFine two_requests → ⊥) × (route_blocks 1 two_requests [] ≡ none))
route_blocks_lem_example = route_blocks_lem 1 two_requests
