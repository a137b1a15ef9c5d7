-- ===== src/BlockStore/Paged/Runs.antt =====
-- Any sequence of operations on a paged store, against the promise of a cache: what is found was put.
use prefixmesh.Prelude.{
  ◌>>=◌, length, In, put, Bytes, bytes_discrete, ℕ, ◌+◌, ◌*◌, ◌/◌, ◌^◌, ◌≤◌, ◌<◌, ◌≡◌, refl, sym,
  ap, subst, ◌∙◌, ◌⊎◌, inl, inr, Bool, true, false, Option, none, some, List, [], ◌∷◌, arith,
}
use native.Mathlib.Nat.{mul-le-mul_right}
use prefixmesh.BlockStore.Block.{Block}
use prefixmesh.BlockStore.Paged.{
  Platform, Paged, EvictionPolicy, new_paged, put_paged, get_paged, contains_paged, touch_paged,
}
use prefixmesh.BlockStore.Paged.Invariant.{IsPaged}
use prefixmesh.BlockStore.Paged.Putting.{block_at, stored_in}
use prefixmesh.BlockStore.Paged.Contract.{PutsPaged, put_paged_lem, new_paged-IsPaged}
use prefixmesh.BlockStore.Paged.Reads.{
  get_paged_lem, contains_paged_lem, touch_paged_lem, page_size-get_paged, page_size-contains_paged,
  page_size-touch_paged,
}

pub data Op : Type 0 where
  op_put : Block → Op
  op_get op_contains op_touch : Bytes → Op

module _ (pl : Platform) where
  -- One operation; `none` is a fault.
  unfoldable pub apply : Paged pl → Op → Option (Paged pl)
  apply p (op_put b) = elim (put_paged pl p b) [ none ↦ none | some (q, stored) ↦ some q ]
  apply p (op_get id) = some (get_paged pl p id).0
  apply p (op_contains id) = some (contains_paged pl p id).0
  apply p (op_touch id) = some (touch_paged pl p id)

  unfoldable pub run : Paged pl → List Op → Option (Paged pl)
  unfolding apply
  run p [] = some p
  run p (op ∷ ops) = apply p op >>= λ q. run q ops

  -- Each block of `q` is one of `p` or the block of a put among the operations.
  abbrev pub Explains : Paged pl → List Op → Paged pl → Type 0
  Explains p ops q =
      (j : Bytes) (c : Block)
      → stored_in pl q j ≡ some c
      → (stored_in pl p j ≡ some c) ⊎ (In (op_put c) ops × (c.id ≡ j))

  apply_lem :
      (p : Paged pl) (op : Op)
      → IsPaged pl p
      → ((b : Block) → op ≡ op_put b → length b.payload + p.page_size ≤ 2 ^ 63)
      → (q : Paged pl) × (apply p op ≡ some q)
        × IsPaged pl q
        × Explains p (op ∷ []) q
        × (q.page_size ≡ p.page_size)
  unfolding apply
  apply_lem p (op_put b) w fit =
      let (q, stored, ran, good, same, puts) = put_paged_lem pl p b w (fit b refl) in
      (q, rw (ran, apply) refl, good, explain q stored puts, same)
    where
      inj : (x y : Block) → some x ≡ some y → x ≡ y
      inj x y h = cc

      explain :
          (q : Paged pl) (stored : Bool) → PutsPaged pl p b q stored → Explains p (op_put b ∷ []) q
      explain q false puts j c h = inl (sym (puts.0 j) ∙ h)
      explain q true puts j c h = elim (bytes_discrete b.id j) [
        | no ne ↦ inl (puts.2 j c ne h)
        | yes is_b ↦
            let same : c ≡ b = inj c b (sym h ∙ ap (stored_in pl q) (sym is_b) ∙ puts.1) in
            inr (inl (ap op_put same), ap (λ x. x.id) same ∙ is_b)
      ]
  apply_lem p (op_get id) w fit =
      let (keeps, said) = get_paged_lem pl p id w in
      (
        (get_paged pl p id).0,
        refl,
        keeps.0,
        λ j c h. inl (sym (keeps.1 j) ∙ h),
        page_size-get_paged pl p id,
      )
  apply_lem p (op_contains id) w fit =
      let (keeps, said) = contains_paged_lem pl p id w in
      (
        (contains_paged pl p id).0,
        refl,
        keeps.0,
        λ j c h. inl (sym (keeps.1 j) ∙ h),
        page_size-contains_paged pl p id,
      )
  apply_lem p (op_touch id) w fit =
      let keeps = touch_paged_lem pl p id w in
      (
        touch_paged pl p id,
        refl,
        keeps.0,
        λ j c h. inl (sym (keeps.1 j) ∙ h),
        page_size-touch_paged pl p id,
      )

  pub run_lem :
      (p : Paged pl) (ops : List Op)
      → IsPaged pl p
      → ((b : Block) → In (op_put b) ops → length b.payload + p.page_size ≤ 2 ^ 63)
      → (q : Paged pl) × (run p ops ≡ some q) × IsPaged pl q × Explains p ops q
  unfolding run
  run_lem p [] w fit = (p, refl, w, λ j c h. inl h)
  run_lem p (op ∷ ops) w fit =
      let (q, once, good, why, same) = apply_lem p op w (λ b e. fit b (inl (sym e))) in
      let (r, ran, still, why') =
        run_lem q ops good
          (λ b h. subst (λ n. length b.payload + n ≤ 2 ^ 63) (sym same) (fit b (inr h))) in
      (
        r,
        rw (once) ran,
        still,
        λ j c h. elim (why' j c h) [
          | inr (put, at) ↦ inr (inr put, at)
          | inl before ↦ elim (why j c before) [
            | inl first ↦ inl first
            | inr (inl here, at) ↦ inr (inl here, at)
            | inr (inr none_left, at) ↦ absurd none_left
          ]
        ],
      )

  -- NewPaged with a positive page size and a capacity below 2^63 of at most 2^31 pages, where the
  -- capacity and four bytes for each page can be allocated, does not panic, and any sequence of
  -- Put, Get, Contains and Touch on the store that it makes, of blocks whose payload and one page
  -- have at most 2^63 bytes together, runs without a fault, under either eviction policy. After
  -- it the occupancy is at most the capacity, and whatever block a Get finds under an id was put
  -- under that id in the sequence, unchanged.
  pub run-new_paged :
      (capacity page_size : ℕ) (pol : EvictionPolicy) (ops : List Op)
      → capacity < 2 ^ 63
      → capacity / page_size ≤ 2 ^ 31
      → 0 < page_size
      → capacity ≤ pl.max_alloc
      → capacity / page_size * 4 ≤ pl.max_alloc
      → ((b : Block) → In (op_put b) ops → length b.payload + page_size ≤ 2 ^ 63)
      → (p : Paged pl) × (q : Paged pl) × (new_paged pl capacity page_size pol ≡ some p)
        × (run p ops ≡ some q)
        × (q.stats.occupancy_bytes ≤ q.stats.capacity_bytes)
        × ((id : Bytes) (c : Block)
            → (get_paged pl q id).1 ≡ some c
            → In (op_put c) ops × (c.id ≡ id))
  run-new_paged capacity page_size pol ops small few sized room given fit =
      let (p, made, w, whole, empty, same) =
        new_paged-IsPaged pl capacity page_size pol small few sized room given in
      let (q, ran, good, why) =
        run_lem p ops w (λ b h. subst (λ n. length b.payload + n ≤ 2 ^ 63) (sym same) (fit b h)) in
      let bounded : q.stats.occupancy_bytes ≤ q.stats.capacity_bytes =
        rw (good.occupied, good.declared)
          (mul-le-mul_right q.page_size (omega (arith, good.pages_all))) in
      (
        p,
        q,
        made,
        ran,
        bounded,
        λ id c h. elim (why id c (sym (get_paged_lem pl q id good).1 ∙ h)) [
          | inl before ↦ cc (ap (block_at pl p id) (empty id), before)
          | inr put ↦ put
        ],
      )
