-- ===== src/Gateway/Evidence.antt =====
-- What a hit of the fan-out rests on: the answer of an owner of the block.
use prefixmesh.Prelude.{
  get_elem?, In, In-append, string_discrete, Bytes, ℕ, zero, suc, ◌+◌, ◌<◌, String, ◌≡◌, refl, sym,
  ap, subst, ◌∙◌, ◌⊎◌, inl, inr, if_pos, if_neg, Bool, true, false, Option, some, List, [], ◌∷◌,
  ◌++◌,
}
use prefixmesh.HashRing.Defs.{Ring, owners}
use prefixmesh.Gateway.Fanout.{
  Batch, Reply, present_list, Probe, ids_of, place, set_mark, mark_batch,
}

-- The ids that the true answers stand beside.
abbrev pub Confirmed : Bytes → List Bytes → List Bool → Type 0
Confirmed id [] ps = ⊥
Confirmed id (x ∷ xs) [] = ⊥
Confirmed id (x ∷ xs) (true ∷ ps) = (id ≡ x) ⊎ Confirmed id xs ps
Confirmed id (x ∷ xs) (false ∷ ps) = Confirmed id xs ps

-- The node is the block's owner for one of the first `rf` replicas, and said that it has the block.
abbrev pub Evidence : Ring → (ℕ → String → List Bytes → Reply) → ℕ → Bytes → String → Type 0
Evidence ring rpc rf id n =
    (replica : ℕ) × (ids : List Bytes) × (ps : List Bool) × (replica < rf)
    × (get_elem? (owners ring id (replica + 1)) replica ≡ some n)
    × (rpc replica n ids ≡ present_list ps)
    × Confirmed id ids ps

-- Each index goes with the id it stands for in the chain.
abbrev pub IsIndexed : List Bytes → List (ℕ × Bytes) → Type 0
IsIndexed chain_ids xs = (x : ℕ × Bytes) → In x xs → get_elem? chain_ids x.0 ≡ some x.1

abbrev pub IsSound : List Bytes → (Bytes → String → Type 0) → List (Option String) → Type 0
IsSound chain_ids Ev marks =
    (i : ℕ) (n : String)
    → get_elem? marks i ≡ some (some n)
    → (id : Bytes) × (get_elem? chain_ids i ≡ some id) × Ev id n

pub IsIndexed-append :
    (chain_ids : List Bytes) (xs ys : List (ℕ × Bytes))
    → IsIndexed chain_ids xs
    → IsIndexed chain_ids ys
    → IsIndexed chain_ids (xs ++ ys)
IsIndexed-append chain_ids xs ys hx hy x h = elim (In-append x xs ys h) [
  | inl p ↦ hx x p
  | inr q ↦ hy x q
]

set_mark-IsSound :
    (chain_ids : List Bytes) (Ev : Bytes → String → Type 0) (i : ℕ) (n : String) (id : Bytes)
    (marks : List (Option String))
    → get_elem? chain_ids i ≡ some id
    → Ev id n
    → IsSound chain_ids Ev marks
    → IsSound chain_ids Ev (set_mark i n marks)
unfolding set_mark
set_mark-IsSound chain_ids Ev i n id marks at ev sound j m h = elim (set_mark_cases i marks j h) [
  | inl (e, f) ↦
      (id, subst (λ k. get_elem? chain_ids k ≡ some id) (sym e) at, subst (Ev id) (sym f) ev)
  | inr old ↦ sound j m old
]
  where
    set_mark_cases :
        (i : ℕ) (ms : List (Option String)) (j : ℕ)
        → get_elem? (set_mark i n ms) j ≡ some (some m)
        → ((j ≡ i) × (m ≡ n)) ⊎ (get_elem? ms j ≡ some (some m))
    set_mark_cases i [] j h = inr h
    set_mark_cases zero (x ∷ ms) zero h = inl (refl, cc)
    set_mark_cases zero (x ∷ ms) (suc j) h = inr h
    set_mark_cases (suc i) (x ∷ ms) zero h = inr h
    set_mark_cases (suc i) (x ∷ ms) (suc j) h = elim (set_mark_cases i ms j h) [
      | inl (e, f) ↦ inl (ap suc e, f)
      | inr old ↦ inr old
    ]

single-IsIndexed :
    (chain_ids : List Bytes) (i : ℕ) (id : Bytes)
    → get_elem? chain_ids i ≡ some id
    → IsIndexed chain_ids ((i, id) ∷ [])
single-IsIndexed chain_ids i id at x (inl e) =
    subst (λ y. get_elem? chain_ids y.0 ≡ some y.1) (sym e) at
single-IsIndexed chain_ids i id at x (inr h) = absurd h

-- The state of a fan-out under way.
abbrev pub IsProbe : List Bytes → (Bytes → String → Type 0) → Probe → Type 0
IsProbe chain_ids Ev p = IsSound chain_ids Ev p.marks × IsIndexed chain_ids p.retry

pub mark_batch_sound :
    (chain_ids : List Bytes) (Ev : Bytes → String → Type 0) (n : String) (xs : List (ℕ × Bytes))
    (ps : List Bool) (p : Probe)
    → IsIndexed chain_ids xs
    → ((id : Bytes) → Confirmed id (ids_of xs) ps → Ev id n)
    → IsProbe chain_ids Ev p
    → IsProbe chain_ids Ev (mark_batch n xs ps p)
unfolding mark_batch
mark_batch_sound chain_ids Ev n [] ps p at ev ok = ok
mark_batch_sound chain_ids Ev n ((i, id) ∷ xs) (true ∷ ps) p at ev ok =
    mark_batch_sound chain_ids Ev n xs ps (record p { marks = set_mark i n p.marks })
      (λ x h. at x (inr h)) (λ y h. ev y (inr h))
      (
        set_mark-IsSound chain_ids Ev i n id p.marks (at (i, id) (inl refl)) (ev id (inl refl))
            ok.0,
        ok.1,
      )
mark_batch_sound chain_ids Ev n ((i, id) ∷ xs) (false ∷ ps) p at ev ok =
    mark_batch_sound chain_ids Ev n xs ps (record p { retry = p.retry ++ (i, id) ∷ [] })
      (λ x h. at x (inr h)) ev
      (
        ok.0,
        IsIndexed-append chain_ids p.retry _ ok.1
            (single-IsIndexed chain_ids i id (at (i, id) (inl refl))),
      )
mark_batch_sound chain_ids Ev n ((i, id) ∷ xs) [] p at ev ok =
    mark_batch_sound chain_ids Ev n xs [] (record p { retry = p.retry ++ (i, id) ∷ [] })
      (λ x h. at x (inr h)) (λ y h. absurd (nothing_confirmed y xs h))
      (
        ok.0,
        IsIndexed-append chain_ids p.retry _ ok.1
            (single-IsIndexed chain_ids i id (at (i, id) (inl refl))),
      )
  where
    nothing_confirmed : (y : Bytes) (xs : List (ℕ × Bytes)) → Confirmed y (ids_of xs) [] → ⊥
    nothing_confirmed y [] h = h
    nothing_confirmed y (x ∷ xs) h = h

-- A batch holds indices of the chain, and its node owns each of the blocks.
abbrev pub IsBatch : Ring → List Bytes → ℕ → Batch → Type 0
IsBatch ring chain_ids replica b =
    (x : ℕ × Bytes)
    → In x b.asked
    → (get_elem? chain_ids x.0 ≡ some x.1)
      × (get_elem? (owners ring x.1 (replica + 1)) replica ≡ some b.node)

abbrev pub AreBatches : Ring → List Bytes → ℕ → List Batch → Type 0
AreBatches ring chain_ids replica bs = (b : Batch) → In b bs → IsBatch ring chain_ids replica b

pub place_good :
    (ring : Ring) (chain_ids : List Bytes) (replica : ℕ) (n : String) (x : ℕ × Bytes)
    (bs : List Batch)
    → get_elem? chain_ids x.0 ≡ some x.1
    → get_elem? (owners ring x.1 (replica + 1)) replica ≡ some n
    → AreBatches ring chain_ids replica bs
    → AreBatches ring chain_ids replica (place n x bs)
unfolding place
place_good ring chain_ids replica n x [] at own good b (inl e) =
    subst (IsBatch ring chain_ids replica) (sym e) only
  where
    only : IsBatch ring chain_ids replica (record { node = n; asked = x ∷ [] })
    only y (inl f) =
        subst
          (λ z.
            (get_elem? chain_ids z.0 ≡ some z.1)
            × (get_elem? (owners ring z.1 (replica + 1)) replica ≡ some n))
          (sym f) (at, own)
    only y (inr h) = absurd h
place_good ring chain_ids replica n x [] at own good b (inr h) = absurd h
place_good ring chain_ids replica n x (c ∷ bs) at own good b h = elim (string_discrete c.node n) [
  | yes p ↦ elim (rw (if_pos _ p) at h) [
    | inl e ↦ subst (IsBatch ring chain_ids replica) (sym e) (grown p)
    | inr q ↦ good b (inr q)
  ]
  | no p ↦ elim (rw (if_neg _ p) at h) [
    | inl e ↦ good b (inl e)
    | inr q ↦ place_good ring chain_ids replica n x bs at own (λ d k. good d (inr k)) b q
  ]
]
  where
    grown : c.node ≡ n → IsBatch ring chain_ids replica (record c { asked = c.asked ++ x ∷ [] })
    grown p y k = elim (In-append y c.asked (x ∷ []) k) [
      | inl old ↦ good c (inl refl) y old
      | inr (inl f) ↦
          subst
            (λ z.
              (get_elem? chain_ids z.0 ≡ some z.1)
              × (get_elem? (owners ring z.1 (replica + 1)) replica ≡ some c.node))
            (sym f) (at, own ∙ ap some (sym p))
      | inr (inr f) ↦ absurd f
    ]
