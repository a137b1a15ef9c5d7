-- ===== src/Gateway/Routing.antt =====
-- Which blocks of a `PutBlocks` stream go to which node.
use prefixmesh.Prelude.{
  ◌==◌, if◌then◌else◌, length, string_discrete, ℕ, suc, String, ◌≡◌, refl, sym, ap, ◌∙◌, ◌⊎◌, inl,
  inr, ite, if_pos, if_neg, true, false, Option, none, some, List, [], ◌∷◌, ◌++◌, append_assoc,
  append-nil, arith, ℕ_discrete,
}
use prefixmesh.HashRing.Defs.{Ring, owners}
use prefixmesh.Gateway.Putting.{Routed, add_block, add_to_all, targets, route_blocks}

-- The blocks that are on their way to a node.
abbrev pub blocks_for : String → List (String × List Routed) → List Routed
blocks_for n [] = []
blocks_for n ((m, bs) ∷ rest) = ite (string_discrete m n) bs (blocks_for n rest)

-- A block, as often as the node is in a list.
abbrev copies : String → Routed → List String → List Routed
copies n b [] = []
copies n b (m ∷ ms) = ite (string_discrete m n) (b ∷ []) [] ++ copies n b ms

-- A block, as often as the node is among its first `rf` owners on a ring that has members.
abbrev copies_on : ℕ → String → Routed → Option Ring → List Routed
copies_on rf n b none = []
copies_on rf n b (some ring) = elim (ring.addrs) [
  | [] ↦ []
  | _ ∷ _ ↦ copies n b (owners ring b.block_id rf)
]

-- The blocks of a stream that a node is an owner of, when they were read.
abbrev pub owned_blocks : ℕ → String → List (Option Routed × Option Ring) → List Routed
owned_blocks rf n [] = []
owned_blocks rf n ((none, ring) ∷ reqs) = owned_blocks rf n reqs
owned_blocks rf n ((some b, ring) ∷ reqs) = copies_on rf n b ring ++ owned_blocks rf n reqs

-- Every request has a block, with an id of 32 bytes.
abbrev pub AllFine : List (Option Routed × Option Ring) → Type 0
AllFine [] = Unit
AllFine ((none, ring) ∷ reqs) = ⊥
AllFine ((some b, ring) ∷ reqs) = (length b.block_id ≡ 32) × AllFine reqs

blocks_for-add_block :
    (n k : String) (b : Routed) (m : List (String × List Routed))
    → blocks_for n (add_block k b m) ≡ blocks_for n m ++ ite (string_discrete k n) (b ∷ []) []
unfolding add_block
blocks_for-add_block n k b [] = refl
blocks_for-add_block n k b ((j, bs) ∷ rest) = elim (string_discrete j k) [
  | yes p ↦
      ap (blocks_for n)
        (if_pos (string_discrete j k) p ((j, bs ++ b ∷ []) ∷ rest) ((j, bs) ∷ add_block k b rest))
      ∙ same_node (string_discrete j n) (string_discrete k n) (λ q. sym p ∙ q) (λ q. p ∙ q)
  | no p ↦
      ap (blocks_for n)
        (if_neg (string_discrete j k) p ((j, bs ++ b ∷ []) ∷ rest) ((j, bs) ∷ add_block k b rest))
      ∙ other_node (string_discrete j n) (string_discrete k n) (λ q r. p (q ∙ sym r))
          (blocks_for-add_block n k b rest)
]
  where
    same_node :
        (d : Dec (j ≡ n)) (e : Dec (k ≡ n))
        → (j ≡ n → k ≡ n)
        → (k ≡ n → j ≡ n)
        → ite d (bs ++ b ∷ []) (blocks_for n rest)
          ≡ ite d bs (blocks_for n rest) ++ ite e (b ∷ []) []
    same_node (yes q) (yes r) f g = refl
    same_node (yes q) (no r) f g = absurd (r (f q))
    same_node (no q) (yes r) f g = absurd (q (g r))
    same_node (no q) (no r) f g = sym (append-nil (blocks_for n rest))

    other_node :
        (d : Dec (j ≡ n)) (e : Dec (k ≡ n))
        → (j ≡ n → k ≡ n → ⊥)
        → blocks_for n (add_block k b rest) ≡ blocks_for n rest ++ ite e (b ∷ []) []
        → ite d bs (blocks_for n (add_block k b rest))
          ≡ ite d bs (blocks_for n rest) ++ ite e (b ∷ []) []
    other_node (yes q) (yes r) f ih = absurd (f q r)
    other_node (yes q) (no r) f ih = sym (append-nil bs)
    other_node (no q) e f ih = ih

blocks_for-add_to_all :
    (n : String) (ns : List String) (b : Routed) (m : List (String × List Routed))
    → blocks_for n (add_to_all ns b m) ≡ blocks_for n m ++ copies n b ns
unfolding add_to_all
blocks_for-add_to_all n [] b m = sym (append-nil (blocks_for n m))
blocks_for-add_to_all n (k ∷ ns) b m =
    blocks_for-add_to_all n ns b (add_block k b m)
    ∙ ap (λ x. x ++ copies n b ns) (blocks_for-add_block n k b m)
    ∙ append_assoc (blocks_for n m) (ite (string_discrete k n) (b ∷ []) []) (copies n b ns)

copies-targets :
    (rf : ℕ) (n : String) (b : Routed) (ring : Option Ring)
    → copies n b (targets rf ring b) ≡ copies_on rf n b ring
copies-targets rf n b none = refl
copies-targets rf n b (some ring) = by (ring.addrs)
  where
    by :
        (addrs : List (String × String))
        → copies n b (if length addrs == 0 then [] else owners ring b.block_id rf)
          ≡ elim addrs [ [] ↦ [] | _ ∷ _ ↦ copies n b (owners ring b.block_id rf) ]
    by [] = refl
    by (x ∷ xs) =
        let some_there : (suc (length xs) == 0) ≡ false = ground arith in rw (some_there) refl

abbrev Routes : ℕ → List (Option Routed × Option Ring) → List (String × List Routed) → Type 0
Routes rf reqs m =
    (m' : List (String × List Routed)) × (route_blocks rf reqs m ≡ some m')
    × ((n : String) → blocks_for n m' ≡ blocks_for n m ++ owned_blocks rf n reqs)

routed_from :
    (rf : ℕ) (reqs : List (Option Routed × Option Ring)) (m : List (String × List Routed))
    → (AllFine reqs × Routes rf reqs m) ⊎ ((AllFine reqs → ⊥) × (route_blocks rf reqs m ≡ none))
unfolding route_blocks
routed_from rf [] m = inl (tt, (m, refl, λ n. sym (append-nil (blocks_for n m))))
routed_from rf ((none, ring) ∷ reqs) m = inr (λ h. h, refl)
routed_from rf ((some b, ring) ∷ reqs) m = elim (ℕ_discrete (length b.block_id) 32) [
  | no wrong ↦
      let refused : (length b.block_id == 32) ≡ false = ground arith in
      inr (λ h. wrong h.0, rw (refused) refl)
  | yes right ↦
      let passes : (length b.block_id == 32) ≡ true = ground arith in
      elim (routed_from rf reqs (add_to_all (targets rf ring b) b m)) [
        | inr (bad, refused) ↦ inr (λ h. bad h.1, rw (passes) refused)
        | inl (fine, (m', ran, at)) ↦ inl (
          (right, fine),
          (
            m',
            rw (passes) ran,
            λ n.
                at n
                ∙ ap (λ x. x ++ owned_blocks rf n reqs)
                    (blocks_for-add_to_all n (targets rf ring b) b m
                      ∙ ap (λ x. blocks_for n m ++ x) (copies-targets rf n b ring))
                ∙ append_assoc (blocks_for n m) (copies_on rf n b ring) (owned_blocks rf n reqs),
          ),
        )
      ]
]

-- The receiving loop of PutBlocks refuses the stream exactly if a request has no block or one
-- whose id is not of 32 bytes. Otherwise the blocks under way to each node are, in order, those
-- of the stream that the node was one of the first rf owners of on the ring known when they were
-- read; a block read while the ring was missing or had no members goes nowhere.
pub route_blocks_lem :
    (rf : ℕ) (reqs : List (Option Routed × Option Ring))
    → (AllFine reqs
        × ((m : List (String × List Routed)) × (route_blocks rf reqs [] ≡ some m)
            × ((n : String) → blocks_for n m ≡ owned_blocks rf n reqs)))
      ⊎ ((AllFine reqs → ⊥) × (route_blocks rf reqs [] ≡ none))
route_blocks_lem rf reqs = routed_from rf reqs []
