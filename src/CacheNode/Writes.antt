-- ===== src/CacheNode/Writes.antt =====
-- `PutBlocks` over a store that keeps its contract.
use prefixmesh.Prelude.{
  ◌==◌, length, Bytes, ℕ, suc, ◌+◌, ◌%◌, ◌^◌, ◌≤◌, ◌<◌, ◌≡◌, refl, sym, ap, subst, ◌≢◌, ◌⊎◌, inl,
  inr, Bool, true, false, Option, none, some, List, [], ◌∷◌, arith, dec_le, ℕ_discrete,
}
use prefixmesh.BlockStore.Block.{Block, Store, StoreLaws}
use prefixmesh.CacheNode.Server.{
  hash_size, failed_precondition, invalid_argument, stream_failed, Answer, failed, answered,
  WireBlock, PutRequest, PutResponse, count, check_epoch, to_id, to_proto, from_proto, put_requests,
  put_blocks,
}
use prefixmesh.CacheNode.Epochs.{to_id-sized}

-- A caller that names no epoch, or one that is not behind the node's.
abbrev IsCurrent : Option ℕ → ℕ → Type 0
IsCurrent none caller = Unit
IsCurrent (some mine) caller = (caller ≡ 0) ⊎ (mine ≤ caller)

-- A block with an id and a parent id of 32 bytes.
abbrev IsWhole : Option WireBlock → Type 0
IsWhole none = ⊥
IsWhole (some p) = (length p.block_id ≡ 32) × (length p.parent_id ≡ 32)

-- The stream begins with requests that bring these blocks, and `rest` follows.
abbrev Brings : Option ℕ → List PutRequest → List (Block × Bool) → List PutRequest → Type 0
Brings mine reqs [] rest = reqs ≡ rest
Brings mine [] (x ∷ puts) rest = ⊥
Brings mine (req ∷ reqs) ((b, stored) ∷ puts) rest =
    IsCurrent mine req.ring_epoch
    × (req.block ≡ some (to_proto b))
    × IsWhole req.block
    × Brings mine reqs puts rest

-- How many of the puts stored their block, or did not.
abbrev pub tally : Bool → List (Block × Bool) → ℕ
tally said [] = 0
tally true ((b, true) ∷ puts) = suc (tally true puts)
tally true ((b, false) ∷ puts) = tally true puts
tally false ((b, true) ∷ puts) = tally false puts
tally false ((b, false) ∷ puts) = suc (tally false puts)

-- The answer to a stream, by what follows the puts.
abbrev pub Ends : Bool → Option ℕ → PutResponse → List PutRequest → Answer PutResponse → Type 0
Ends true mine resp [] a = a ≡ answered resp
Ends false mine resp [] a = a ≡ failed stream_failed
Ends eof mine resp (req ∷ rest) a =
    ((a ≡ failed failed_precondition) × (IsCurrent mine req.ring_epoch → ⊥))
    ⊎ ((a ≡ failed invalid_argument) × IsCurrent mine req.ring_epoch × (IsWhole req.block → ⊥))

check_epoch-IsCurrent :
    (mine : Option ℕ) (caller : ℕ)
    → (IsCurrent mine caller × (check_epoch mine caller ≡ true))
      ⊎ ((IsCurrent mine caller → ⊥) × (check_epoch mine caller ≡ false))
unfolding check_epoch
check_epoch-IsCurrent none caller = inl (tt, refl)
check_epoch-IsCurrent (some mine) caller = elim (ℕ_discrete caller 0) [
  | yes nought ↦ inl (inl nought, ground arith)
  | no named ↦ elim (dec_le mine caller) [
    | yes le ↦ inl (inr le, ground arith)
    | no above ↦ inr (λ h. elim h [ inl p ↦ named p | inr p ↦ above p ], ground arith)
  ]
]

to_id-unsized : (b : Bytes) → length b ≢ hash_size → to_id b ≡ none
unfolding to_id
to_id-unsized b h = let other : (length b == hash_size) ≡ false = ground arith in rw (other) refl

from_proto-IsWhole :
    (o : Option WireBlock)
    → (IsWhole o × ((b : Block) × (o ≡ some (to_proto b)) × (from_proto o ≡ some b)))
      ⊎ ((IsWhole o → ⊥) × (from_proto o ≡ none))
unfolding from_proto to_proto
from_proto-IsWhole none = inr (λ h. h, refl)
from_proto-IsWhole (some p) = elim (ℕ_discrete (length p.block_id) 32) [
  | no wrong ↦ inr (λ h. wrong h.0, rw (to_id-unsized p.block_id wrong) refl)
  | yes right ↦ elim (ℕ_discrete (length p.parent_id) 32) [
    | no wrong ↦
        inr
          (λ h. wrong h.1, rw (to_id-sized p.block_id right, to_id-unsized p.parent_id wrong) refl)
    | yes also ↦ inl (
      (right, also),
      (
        record {
          id = p.block_id;
          parent_id = p.parent_id;
          model_id = p.model_id;
          payload = p.payload;
          token_count = p.token_count;
          cost_us = p.cost_us;
        },
        refl,
        rw (to_id-sized p.block_id right, to_id-sized p.parent_id also) refl,
      ),
    )
  ]
]

module _ {S : Type 0} (st : Store S) (laws : StoreLaws st) where
  -- The store after the puts of the blocks in order, each with what the store said to it.
  abbrev Wrote : S → List (Block × Bool) → S → Type 0
  Wrote s [] s' = s' ≡ s
  Wrote s ((b, stored) ∷ puts) s' =
      (s1 : S) × (st.put_one s b ≡ some (s1, stored)) × Wrote s1 puts s'

  -- The counts on top of those of `acc`.
  abbrev with_tally : PutResponse → List (Block × Bool) → PutResponse
  with_tally acc puts = record {
    stored = (acc.stored + tally true puts) % 2 ^ 32;
    existing = (acc.existing + tally false puts) % 2 ^ 32;
  }

  abbrev pub Serves :
      Bool → Option ℕ → S → PutResponse → List PutRequest → Option (S × Answer PutResponse) → Type 0
  Serves eof mine s acc reqs out =
      (puts : List (Block × Bool)) × (rest : List PutRequest) × (s' : S) × (a : Answer PutResponse)
      × (out ≡ some (s', a))
      × laws.IsGood s'
      × Brings mine reqs puts rest
      × Wrote s puts s'
      × Ends eof mine (with_tally acc puts) rest a

  abbrev IsSmall : PutResponse → Type 0
  IsSmall acc = (acc.stored < 2 ^ 32) × (acc.existing < 2 ^ 32)

  count-IsSmall : (stored : Bool) (acc : PutResponse) → IsSmall acc → IsSmall (count stored acc)
  count-IsSmall true acc h = (omega arith, h.1)
  count-IsSmall false acc h = (h.0, omega arith)

  with_tally-nil : (acc : PutResponse) → IsSmall acc → with_tally acc [] ≡ acc
  with_tally-nil acc h =
      let one : (acc.stored + 0) % 2 ^ 32 ≡ acc.stored = omega (arith, h.0) in
      let two : (acc.existing + 0) % 2 ^ 32 ≡ acc.existing = omega (arith, h.1) in
      rw (one, two) refl

  with_tally-count :
      (acc : PutResponse) (b : Block) (stored : Bool) (puts : List (Block × Bool))
      → with_tally (count stored acc) puts ≡ with_tally acc ((b, stored) ∷ puts)
  with_tally-count acc b true puts =
      let same : ((acc.stored + 1) % 2 ^ 32 + tally true puts) % 2 ^ 32
          ≡ (acc.stored + suc (tally true puts)) % 2 ^ 32 =
        omega arith in
      rw (same) refl
  with_tally-count acc b false puts =
      let same : ((acc.existing + 1) % 2 ^ 32 + tally false puts) % 2 ^ 32
          ≡ (acc.existing + suc (tally false puts)) % 2 ^ 32 =
        omega arith in
      rw (same) refl

  put_requests_lem :
      (eof : Bool) (mine : Option ℕ) (s : S) (acc : PutResponse) (reqs : List PutRequest)
      → laws.IsGood s
      → IsSmall acc
      → Serves eof mine s acc reqs (put_requests st eof mine s acc reqs)
  unfolding put_requests
  put_requests_lem true mine s acc [] good small = (
    [],
    [],
    s,
    answered acc,
    refl,
    good,
    refl,
    refl,
    ap answered (sym (with_tally-nil acc small)),
  )
  put_requests_lem false mine s acc [] good small =
      ([], [], s, failed stream_failed, refl, good, refl, refl, refl)
  put_requests_lem eof mine s acc (req ∷ reqs) good small =
      elim (check_epoch-IsCurrent mine req.ring_epoch) [
        | inr (behind, e) ↦ (
          [],
          req ∷ reqs,
          s,
          failed failed_precondition,
          rw (e, put_requests) refl,
          good,
          refl,
          refl,
          inl (refl, behind),
        )
        | inl (current, e) ↦ elim (from_proto-IsWhole req.block) [
          | inr (broken, f) ↦ (
            [],
            req ∷ reqs,
            s,
            failed invalid_argument,
            rw (e, put_requests, f) refl,
            good,
            refl,
            refl,
            inr (refl, current, broken),
          )
          | inl (whole, (b, wire, f)) ↦
              let (s1, stored, ran, good1, new, old) = laws.put_lem s b good in
              let (puts, rest, s', a, out, good', brings, wrote, ends) =
                put_requests_lem eof mine s1 (count stored acc) reqs good1
                  (count-IsSmall stored acc small) in
              (
                (b, stored) ∷ puts,
                rest,
                s',
                a,
                rw (e, put_requests, f, ran) out,
                good',
                (current, wire, whole, brings),
                (s1, ran, wrote),
                subst (λ r. Ends eof mine r rest a) (with_tally-count acc b stored puts) ends,
              )
        ]
      ]

  -- Over a store that keeps its contract, in a good state, PutBlocks comes to an answer without a
  -- fault and leaves the store in a good state, after puts of the blocks of the first requests,
  -- in order. If these are all requests, it answers with the number of the puts that stored their
  -- block and of those that did not, modulo 2^32, or with the error of the stream if it did not
  -- end with EOF. Otherwise the next request has a ring epoch, not zero, below that of the node,
  -- and the answer is FailedPrecondition, or it has not, and has no block or one whose id or
  -- parent id is not of 32 bytes, and the answer is InvalidArgument.
  pub put_blocks_lem :
      (eof : Bool) (mine : Option ℕ) (s : S) (reqs : List PutRequest)
      → laws.IsGood s
      → Serves eof mine s (record { stored = 0; existing = 0 }) reqs (put_blocks st eof mine s reqs)
  unfolding put_blocks
  put_blocks_lem eof mine s reqs good =
      put_requests_lem eof mine s (record { stored = 0; existing = 0 }) reqs good
        (omega arith, omega arith)
