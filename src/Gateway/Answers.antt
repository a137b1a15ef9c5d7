-- ===== src/Gateway/Answers.antt =====
-- Every block that `Match` reports rests on an owner's answer.
use prefixmesh.Prelude.{
  Bool-cases, Option-cases, length, get_elem?, In, Bytes, ℕ, zero, suc, ◌-◌, ◌*◌, ◌%◌, ◌^◌, ◌≤◌,
  ◌<◌, String, ◌≡◌, refl, sym, ap, subst, ◌∙◌, ◌⊎◌, inl, inr, Bool, true, false, ◌&&◌, Option, none,
  some, List, [], ◌∷◌, arith,
}
use prefixmesh.HashRing.Defs.{Ring}
use prefixmesh.Gateway.Fanout.{Batch, Reply}
use prefixmesh.Gateway.Evidence.{Evidence, IsIndexed, IsSound}
use prefixmesh.Gateway.Soundness.{IsOrder, probe_rounds_sound}
use prefixmesh.Gateway.Matching.{
  BlockRef, MatchResponse, empty_response, enumerate, no_marks, run_of_hits, address, make_refs,
  probed, match_on_ring, all_sized, usable, is_newer, second_attempt, first_attempt, match_chain,
}

-- The references of an answer: one for each block of the matched prefix, in order, with the address
-- of a node for which there is evidence.
abbrev pub RefsHold :
    Ring → (ℕ → String → List Bytes → Reply) → ℕ → List Bytes → List BlockRef → Type 0
RefsHold ring rpc rf chain_ids refs =
    (i : ℕ) (ref : BlockRef)
    → get_elem? refs i ≡ some ref
    → (n : String) × (get_elem? chain_ids i ≡ some ref.block_id)
      × (ref.node_addr ≡ address ring n)
      × Evidence ring rpc rf ref.block_id n

-- An answer over a ring: the depth is the number of references, at most the chain's length, and each
-- reference holds.
abbrev pub Honest :
    Ring → (ℕ → String → List Bytes → Reply) → ℕ → List Bytes → MatchResponse → Type 0
Honest ring rpc rf chain_ids resp =
    (resp.ring_epoch ≡ ring.epoch)
    × (length resp.refs ≤ length chain_ids)
    × (resp.matched_depth ≡ length resp.refs % 2 ^ 32)
    × RefsHold ring rpc rf chain_ids resp.refs

refs_of_run :
    (ring : Ring) (rpc : ℕ → String → List Bytes → Reply) (rf : ℕ) (chain_ids : List Bytes)
    (marks : List (Option String))
    → IsSound chain_ids (Evidence ring rpc rf) marks
    → (length (make_refs ring (run_of_hits marks) chain_ids marks) ≡ run_of_hits marks)
      × (run_of_hits marks ≤ length chain_ids)
      × RefsHold ring rpc rf chain_ids (make_refs ring (run_of_hits marks) chain_ids marks)
unfolding make_refs run_of_hits
refs_of_run ring rpc rf chain_ids [] sound = (refl, omega arith, λ i ref h. cc)
refs_of_run ring rpc rf chain_ids (none ∷ marks) sound = (refl, omega arith, λ i ref h. cc)
refs_of_run ring rpc rf [] (some n ∷ marks) sound =
    let (id, at, ev) = sound 0 n refl in absurd (nothing id at)
  where
    nothing : (id : Bytes) → none ≡ some id → ⊥
    nothing id h = cc
refs_of_run ring rpc rf (id ∷ chain_ids) (some n ∷ marks) sound =
    let (same, le, holds) = refs_of_run ring rpc rf chain_ids marks (λ i m h. sound (suc i) m h) in
    (omega (arith, same), omega (arith, le), holds_at holds)
  where
    inj : (a b : BlockRef) → some a ≡ some b → a ≡ b
    inj a b h = cc

    inj_id : (y : Bytes) → some id ≡ some y → y ≡ id
    inj_id y h = cc

    holds_at :
        RefsHold ring rpc rf chain_ids (make_refs ring (run_of_hits marks) chain_ids marks)
        → RefsHold ring rpc rf (id ∷ chain_ids) (
            record { block_id = id; node_addr = address ring n }
            ∷ make_refs ring (run_of_hits marks) chain_ids marks)
    holds_at holds zero ref h =
        let (id', at, ev) = sound 0 n refl in
        let same_id : id ≡ ref.block_id = ap (λ r. r.block_id) (inj _ ref h) in
        (
          n,
          ap some same_id,
          sym (ap (λ r. r.node_addr) (inj _ ref h)),
          subst (λ y. Evidence ring rpc rf y n) (inj_id id' at ∙ same_id) ev,
        )
    holds_at holds (suc i) ref h = holds i ref h

no_marks-IsSound :
    (chain_ids all : List Bytes) (Ev : Bytes → String → Type 0)
    → IsSound all Ev (no_marks chain_ids)
no_marks-IsSound chain_ids all Ev i n h = absurd (no_mark chain_ids i h)
  where
    no_mark : (ids : List Bytes) (i : ℕ) → get_elem? (no_marks ids) i ≡ some (some n) → ⊥
    no_mark [] i h = cc
    no_mark (id ∷ ids) zero h = cc
    no_mark (id ∷ ids) (suc i) h = no_mark ids i h

enumerate_at :
    (chain_ids : List Bytes) (k : ℕ) (x : ℕ × Bytes)
    → In x (enumerate k chain_ids)
    → (k ≤ x.0) × (get_elem? chain_ids (x.0 - k) ≡ some x.1)
enumerate_at [] k x h = absurd h
enumerate_at (id ∷ ids) k x (inl e) =
    let zero_ : x.0 - k ≡ 0 = omega (arith, ap (λ y. y.0) e) in
    (omega (arith, ap (λ y. y.0) e), rw (zero_) (ap (λ y. some y.1) (sym e)))
enumerate_at (id ∷ ids) k x (inr h) =
    let (le, at) = enumerate_at ids (suc k) x h in
    let later : x.0 - k ≡ suc (x.0 - suc k) = omega (arith, le) in
    (omega (arith, le), rw (later) at)

enumerate-IsIndexed : (chain_ids : List Bytes) → IsIndexed chain_ids (enumerate 0 chain_ids)
enumerate-IsIndexed chain_ids x h =
    let whole : x.0 ≡ x.0 - 0 = omega arith in
    subst (λ k. get_elem? chain_ids k ≡ some x.1) (sym whole) (enumerate_at chain_ids 0 x h).1

-- Where the goroutines end in any order, the answer of matchOnRing on a ring has its epoch,
-- references for a prefix of the chain, in order, the depth is their number as a uint32, and each
-- names the address of a node that owns the block on the ring for one of the first rf replicas
-- and that answered that it has the block.
pub match_on_ring-Honest :
    (client : String → Bool) (rpc : ℕ → String → List Bytes → Reply)
    (finish : List Batch → List Batch) (rf : ℕ) (ring : Ring) (chain_ids : List Bytes)
    → IsOrder finish
    → Honest ring rpc rf chain_ids (match_on_ring client rpc finish rf ring chain_ids).0
unfolding match_on_ring
match_on_ring-Honest client rpc finish rf ring chain_ids is_order =
    let sound =
      probe_rounds_sound ring client rpc finish is_order chain_ids rf rf 0
        (record { marks = no_marks chain_ids; retry = enumerate 0 chain_ids; wrong_epoch = false })
        (omega arith)
        (
          no_marks-IsSound chain_ids chain_ids (Evidence ring rpc rf),
          enumerate-IsIndexed chain_ids,
        ) in
    let (same, le, holds) =
      refs_of_run ring rpc rf chain_ids (probed client rpc finish rf ring chain_ids).marks
        sound.0 in
    (refl, omega (arith, same, le), ap (λ d. d % 2 ^ 32) (sym same), holds)

-- An answer is empty, or honest for the ring of one of the two attempts.
abbrev pub Supported :
    (ℕ → ℕ → String → List Bytes → Reply)
    → (ℕ → Option Ring)
    → ℕ
    → List Bytes
    → MatchResponse
    → Type 0
Supported rpc rings rf chain_ids resp =
    (resp ≡ empty_response)
    ⊎ ((attempt : ℕ) × (ring : Ring) × (attempt < 2)
        × (rings (2 * attempt) ≡ some ring)
        × Honest ring (rpc attempt) rf chain_ids resp)

usable_is :
    (o : Option Ring) (chain_ids : List Bytes) (ring : Ring)
    → usable o chain_ids ≡ some ring
    → o ≡ some ring
usable_is none chain_ids ring h = h
usable_is (some r) chain_ids ring h = ground arith

module _ (client : String → Bool) (rpc : ℕ → ℕ → String → List Bytes → Reply)
    (finish : List Batch → List Batch) (rings : ℕ → Option Ring) (is_order : IsOrder finish) where
  second_attempt-Supported :
      (rf : ℕ) (chain_ids : List Bytes)
      → Supported rpc rings rf chain_ids (second_attempt client rpc finish rings rf chain_ids)
  unfolding second_attempt
  second_attempt-Supported rf chain_ids = elim (Option-cases (usable (rings 2) chain_ids)) [
    | inl unusable ↦ rw (unusable, second_attempt) (inl refl)
    | inr (ring, is_ring) ↦
        rw (is_ring, second_attempt)
          (inr (
            1,
            ring,
            omega arith,
            usable_is (rings 2) chain_ids ring is_ring,
            match_on_ring-Honest client (rpc 1) finish rf ring chain_ids is_order,
          ))
  ]

  first_attempt-Supported :
      (rf : ℕ) (chain_ids : List Bytes)
      → Supported rpc rings rf chain_ids (first_attempt client rpc finish rings rf chain_ids)
  unfolding first_attempt
  first_attempt-Supported rf chain_ids = elim (Option-cases (usable (rings 0) chain_ids)) [
    | inl unusable ↦ rw (unusable, first_attempt) (inl refl)
    | inr (ring, is_ring) ↦
        elim (Bool-cases
          ((match_on_ring client (rpc 0) finish rf ring chain_ids).1 && is_newer (rings 1) ring)) [
            | inl again ↦ rw (is_ring, first_attempt, again) (second_attempt-Supported rf chain_ids)
            | inr once ↦
                rw (is_ring, first_attempt, once)
                  (inr (
                    0,
                    ring,
                    omega arith,
                    usable_is (rings 0) chain_ids ring is_ring,
                    match_on_ring-Honest client (rpc 0) finish rf ring chain_ids is_order,
                  ))
          ]
  ]

  -- On block ids of 32 bytes Match always answers, where the goroutines of a fan-out end in any
  -- order. The answer is empty, or its ring epoch is that of a ring that the first or the third
  -- call of src.Ring gave, its references are for a prefix of the chain, in order, the depth is
  -- their number as a uint32, and each reference names the address of a node that owns the block
  -- on that ring for one of the first rf replicas and that answered, in that attempt, that it has
  -- the block.
  pub match_chain_lem :
      (rf : ℕ) (chain_ids : List Bytes)
      → all_sized chain_ids ≡ true
      → (resp : MatchResponse) × (match_chain client rpc finish rings rf chain_ids ≡ some resp)
        × Supported rpc rings rf chain_ids resp
  unfolding match_chain
  match_chain_lem rf chain_ids sized = (
    first_attempt client rpc finish rings rf chain_ids,
    rw (sized, match_chain) refl,
    first_attempt-Supported rf chain_ids,
  )
