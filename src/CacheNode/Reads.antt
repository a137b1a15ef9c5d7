-- ===== src/CacheNode/Reads.antt =====
-- `Contains`, `GetBlocks` and `Touch` over a store that keeps its contract.
use prefixmesh.Prelude.{
  Option-cases, length, Bytes, ℕ, ◌≡◌, refl, sym, ap, ◌∙◌, inl, inr, Bool, true, Option, none, some,
  List, [], ◌∷◌, ◌++◌, append_assoc, append-nil,
}
use prefixmesh.BlockStore.Block.{Block, Store, StoreLaws, is_present}
use prefixmesh.CacheNode.Server.{
  hash_size, answered, WireBlock, IdsRequest, check_epoch, to_proto, contains_ids, contains,
  get_ids, get_blocks, touch_ids, touch,
}
use prefixmesh.CacheNode.Epochs.{to_id-sized}

abbrev pub AllSized : List Bytes → Type 0
AllSized [] = Unit
AllSized (b ∷ bs) = (length b ≡ hash_size) × AllSized bs

-- The state after keeps the blocks of the state before.
abbrev pub Keeps : {S : Type 0} {st : Store S} → StoreLaws st → S → S → Type 0
Keeps laws s s' = laws.IsGood s' × ((j : Bytes) → laws.stored_block s' j ≡ laws.stored_block s j)

abbrev pub presence : (Bytes → Option Block) → List Bytes → List Bool
presence stored [] = []
presence stored (id ∷ ids) = is_present (stored id) ∷ presence stored ids

abbrev pub wire_of : Option Block → List WireBlock → List WireBlock
wire_of none bs = bs
wire_of (some b) bs = to_proto b ∷ bs

-- The blocks that are stored among those asked for, as they go over the wire.
abbrev pub found_blocks : (Bytes → Option Block) → List Bytes → List WireBlock
found_blocks stored [] = []
found_blocks stored (id ∷ ids) = wire_of (stored id) (found_blocks stored ids)

presence-same :
    (f g : Bytes → Option Block)
    → ((j : Bytes) → f j ≡ g j)
    → (ids : List Bytes) → presence f ids ≡ presence g ids
presence-same f g h [] = refl
presence-same f g h (id ∷ ids) = rw (h id, presence-same f g h ids) refl

found_blocks-same :
    (f g : Bytes → Option Block)
    → ((j : Bytes) → f j ≡ g j)
    → (ids : List Bytes) → found_blocks f ids ≡ found_blocks g ids
found_blocks-same f g h [] = refl
found_blocks-same f g h (id ∷ ids) =
    ap (wire_of (f id)) (found_blocks-same f g h ids)
    ∙ ap (λ o. wire_of o (found_blocks g ids)) (h id)

module _ {S : Type 0} (st : Store S) (laws : StoreLaws st) where
  contains_ids_lem :
      (s : S) (ids : List Bytes)
      → laws.IsGood s
      → AllSized ids
      → ((contains_ids st s ids).1 ≡ answered (presence (laws.stored_block s) ids))
        × Keeps laws s (contains_ids st s ids).0
  unfolding contains_ids
  contains_ids_lem s [] good h = (refl, (good, λ j. refl))
  contains_ids_lem s (raw ∷ raws) good h =
      let (good1, here, same) = laws.contains_lem s raw good in
      let (rest, keeps) = contains_ids_lem (st.contains_one s raw).0 raws good1 h.1 in
      let (good2, kept) = keeps in
      rw (to_id-sized raw h.0, contains_ids)
        (rw (rest, here, presence-same _ _ same raws) refl, (good2, λ j. kept j ∙ same j))

  get_ids_lem :
      (s : S) (out : List WireBlock) (ids : List Bytes)
      → laws.IsGood s
      → AllSized ids
      → ((get_ids st (λ n. true) s out ids).1 ≡ out ++ found_blocks (laws.stored_block s) ids)
        × ((get_ids st (λ n. true) s out ids).2 ≡ none)
        × Keeps laws s (get_ids st (λ n. true) s out ids).0
  unfolding get_ids
  get_ids_lem s out [] good h = (sym (append-nil out), refl, (good, λ j. refl))
  get_ids_lem s out (raw ∷ raws) good h =
      let (good1, here, same) = laws.get_lem s raw good in
      let s1 = (st.get_one s raw).0 in
      let rest_same = found_blocks-same _ _ same raws in
      elim (Option-cases (laws.stored_block s raw)) [
        | inl absent ↦
            let (sent, ok, keeps) = get_ids_lem s1 out raws good1 h.1 in
            let none_ : (st.get_one s raw).1 ≡ none = here ∙ absent in
            rw (to_id-sized raw h.0, get_ids, none_)
              (
                sent
                    ∙ ap (◌++◌ out) (
                        rest_same
                        ∙ ap (λ o. wire_of o (found_blocks (laws.stored_block s) raws))
                            (sym absent)),
                ok,
                (keeps.0, λ j. keeps.1 j ∙ same j),
              )
        | inr (b, there) ↦
            let (sent, ok, keeps) = get_ids_lem s1 (out ++ to_proto b ∷ []) raws good1 h.1 in
            let some_ : (st.get_one s raw).1 ≡ some b = here ∙ there in
            rw (to_id-sized raw h.0, get_ids, some_)
              (
                sent
                    ∙ append_assoc out (to_proto b ∷ []) (found_blocks (laws.stored_block s1) raws)
                    ∙ ap (λ x. out ++ to_proto b ∷ x) rest_same
                    ∙ ap (λ o. out ++ wire_of o (found_blocks (laws.stored_block s) raws))
                        (sym there),
                ok,
                (keeps.0, λ j. keeps.1 j ∙ same j),
              )
      ]

  touch_ids_lem :
      (s : S) (ids : List Bytes)
      → laws.IsGood s
      → AllSized ids
      → ((touch_ids st s ids).1 ≡ none) × Keeps laws s (touch_ids st s ids).0
  unfolding touch_ids
  touch_ids_lem s [] good h = (refl, (good, λ j. refl))
  touch_ids_lem s (raw ∷ raws) good h =
      let (good1, same) = laws.touch_lem s raw good in
      let (rest, keeps) = touch_ids_lem (st.touch_one s raw) raws good1 h.1 in
      let (good2, kept) = keeps in
      rw (to_id-sized raw h.0, touch_ids) (rest, (good2, λ j. kept j ∙ same j))

  -- Over a store that keeps its contract, in a good state, with ids of 32 bytes and an epoch that
  -- passes the check: Contains answers for every block, in order, whether it is stored;
  -- GetBlocks, over a stream that takes its messages, sends exactly the stored blocks among those
  -- asked for, in order, and ends without an error; Touch ends without an error; and none of the
  -- three loses or changes a stored block.
  pub reads_lem :
      (mine : Option ℕ) (s : S) (req : IdsRequest)
      → laws.IsGood s
      → AllSized req.block_ids
      → check_epoch mine req.ring_epoch ≡ true
      → (((contains st mine s req).1 ≡ answered (presence (laws.stored_block s) req.block_ids))
          × Keeps laws s (contains st mine s req).0)
        × (((get_blocks st (λ n. true) mine s req).1
              ≡ found_blocks (laws.stored_block s) req.block_ids)
            × ((get_blocks st (λ n. true) mine s req).2 ≡ none)
            × Keeps laws s (get_blocks st (λ n. true) mine s req).0)
        × (((touch st mine s req).1 ≡ none) × Keeps laws s (touch st mine s req).0)
  unfolding contains get_blocks touch
  reads_lem mine s req good h passes =
      rw (passes, contains, get_blocks, touch)
        (
          contains_ids_lem s req.block_ids good h,
          get_ids_lem s [] req.block_ids good h,
          touch_ids_lem s req.block_ids good h,
        )
