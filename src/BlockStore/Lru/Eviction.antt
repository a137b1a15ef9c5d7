-- ===== src/BlockStore/Lru/Eviction.antt =====
-- `Put` makes room from the least recently used end, never faults, and keeps the store valid.
use prefixmesh.Prelude.{
  ltb, ltb→lt, Bool-cases, Option-cases, length, length-append, In, Distinct, Bytes, bytes_discrete,
  ℕ, zero, suc, ◌+◌, ◌-◌, ◌%◌, ◌^◌, ◌≤◌, ◌<◌, ◌≡◌, refl, sym, ap, subst, ◌∙◌, ◌⊎◌, inl, inr, if_pos,
  if_neg, Bool, true, false, none, some, List, [], ◌∷◌, ◌++◌, append_assoc, append-nil, arith,
  dec_le,
}
use prefixmesh.BlockStore.Block.{Block}
use prefixmesh.BlockStore.Lru.{
  Entry, Lru, block_size, find_entry, move_to_front, last_entry, drop_last, evict_oldest, make_room,
  push_front, put_block, hit, miss, get_block, contains_block, touch_block,
}
use prefixmesh.BlockStore.Lru.Laws.{
  entry_ids, total_size, Sized, IsValid, move_to_front-IsValid, drop_last_facts, last_entry-none,
  Distinct-left, Sized-left,
}

-- What one eviction does.
evict_lem :
    (s : Lru) (e : Entry)
    → last_entry s.entries ≡ some e
    → IsValid s
    → (s' : Lru) × (evict_oldest s ≡ some s')
      × IsValid s'
      × (s'.cap ≡ s.cap)
      × (s.entries ≡ s'.entries ++ e ∷ [])
      × (s.used ≡ s'.used + e.size)
unfolding evict_oldest
evict_lem s e h v =
    let f = drop_last_facts s.entries e h in
    (
      record s {
        entries = drop_last s.entries;
        used = (s.used + 2 ^ 64 - e.size) % 2 ^ 64;
        stats = record (s.stats) {
          evictions = (s.stats.evictions + 1) % 2 ^ 64;
          evicted_cost_us = (s.stats.evicted_cost_us + e.block.cost_us) % 2 ^ 64;
        };
      },
      rw (h, evict_oldest),
      record {
        once =
            Distinct-left (drop_last s.entries) (e ∷ [])
              (subst (λ x. Distinct (entry_ids x)) f.0 v.once);
        sized = Sized-left (drop_last s.entries) (e ∷ []) (subst Sized f.0 v.sized);
        accounted = omega (arith, v.accounted, f.1, v.within, v.small);
        within = omega (arith, v.accounted, f.1, v.within, v.small);
        small = v.small;
      },
      refl,
      f.0,
      omega (arith, v.accounted, f.1, v.within, v.small),
    )

-- Nothing was evicted, or the entry evicted last had to go.
abbrev pub IsNeeded : ℕ → ℕ → List Entry → List Entry → Type 0
IsNeeded cap size kept [] = Unit
IsNeeded cap size kept (e ∷ evicted) = cap < total_size kept + e.size + size

abbrev pub MakesRoom : Lru → ℕ → Lru → Type 0
MakesRoom s size s' =
    IsValid s'
    × (s'.cap ≡ s.cap)
    × (s'.used + size ≤ s.cap)
    × ((evicted : List Entry) × (s.entries ≡ s'.entries ++ evicted)
        × IsNeeded s.cap size s'.entries evicted)

fits_or_not :
    (s : Lru) (size : ℕ)
    → size ≤ s.cap
    → IsValid s
    → ((ltb s.cap ((s.used + size) % 2 ^ 64) ≡ false) × (s.used + size ≤ s.cap))
      ⊎ ((ltb s.cap ((s.used + size) % 2 ^ 64) ≡ true) × (s.cap < s.used + size))
fits_or_not s size le v =
    let sum_small : (s.used + size) % 2 ^ 64 ≡ s.used + size = omega (arith, v.within, v.small) in
    elim (dec_le (s.used + size) s.cap) [
      | yes p ↦ inl (rw sum_small (ground arith), p)
      | no p ↦ inr (rw sum_small (ground arith), omega arith)
    ]

last_total :
    (s : Lru) (e : Entry) (kept : List Entry)
    → IsValid s
    → s.entries ≡ kept ++ e ∷ []
    → total_size kept + e.size ≡ s.used
last_total s e kept v h = sym (ap total_size h ∙ total_append kept) ∙ sym v.accounted
  where
    total_append : (xs : List Entry) → total_size (xs ++ e ∷ []) ≡ total_size xs + e.size
    total_append [] = omega arith
    total_append (x ∷ xs) = omega (arith, total_append xs)

IsNeeded-more :
    (cap size : ℕ) (kept evicted : List Entry) (e : Entry)
    → IsNeeded cap size kept evicted
    → (evicted ≡ [] → cap < total_size kept + e.size + size)
    → IsNeeded cap size kept (evicted ++ e ∷ [])
IsNeeded-more cap size kept [] e h k = k refl
IsNeeded-more cap size kept (x ∷ evicted) e h k = h

make_room_lem :
    (fuel : ℕ) (s : Lru) (size : ℕ)
    → length s.entries < fuel
    → size ≤ s.cap
    → IsValid s
    → (s' : Lru) × (make_room fuel s size ≡ some s') × MakesRoom s size s'
unfolding make_room
make_room_lem zero s size enough le v = absurd (omega arith)
make_room_lem (suc fuel) s size enough le v = elim (fits_or_not s size le v) [
  | inl (t, fits) ↦ (s, rw (t, make_room), (v, refl, fits, ([], sym (append-nil s.entries), tt)))
  | inr (t, over) ↦ elim (Option-cases (last_entry s.entries)) [
    | inl none_ ↦
        absurd
          (omega (arith, over, le, v.accounted, ap total_size (last_entry-none s.entries none_)))
    | inr (e, last) ↦
        let (s1, ev, v1, cap1, split, used1) = evict_lem s e last v in
        let shorter : length s1.entries < fuel =
          omega (arith, enough, ap length split, length-append s1.entries (e ∷ [])) in
        let (s2, ran, m) = make_room_lem fuel s1 size shorter (omega (arith, cap1, le)) v1 in
        let (v2, cap2, room, w) = m in
        let (gone, split2, needed) = w in
        (
          s2,
          rw (t, make_room, ev) ran,
          (
            v2,
            cap2 ∙ cap1,
            omega (arith, room, cap1),
            (
              gone ++ e ∷ [],
              split ∙ ap (λ x. x ++ e ∷ []) split2 ∙ append_assoc s2.entries gone (e ∷ []),
              IsNeeded-more s.cap size s2.entries gone e
                  (subst (λ c. IsNeeded c size s2.entries gone) cap1 needed)
                  (λ no_more. omega (
                    arith,
                    over,
                    last_total s e s1.entries v split,
                    ap total_size (split2 ∙ ap (◌++◌ s2.entries) no_more ∙ append-nil s2.entries),
                  )),
            ),
          ),
        )
  ]
]

In-entries :
    (id : Bytes) (es : List Entry)
    → In id (entry_ids es)
    → (e : Entry) × (find_entry id es ≡ some e)
unfolding find_entry
In-entries id [] h = absurd h
In-entries id (x ∷ xs) h = elim (bytes_discrete x.block.id id) [
  | yes p ↦ (x, if_pos (bytes_discrete x.block.id id) p (some x) (find_entry id xs))
  | no p ↦ elim h [
    | inl q ↦ absurd (p (sym q))
    | inr q ↦ let (e, r) = In-entries id xs q in (e, rw (if_neg _ p) r)
  ]
]

In-kept :
    (id : Bytes) (kept gone : List Entry)
    → In id (entry_ids kept)
    → In id (entry_ids (kept ++ gone))
In-kept id [] gone h = absurd h
In-kept id (k ∷ kept) gone (inl e) = inl e
In-kept id (k ∷ kept) gone (inr h) = inr (In-kept id kept gone h)

-- The outcome of a put.
abbrev pub Puts : Lru → Block → Lru → Bool → Type 0
Puts s b s' true =
    (find_entry b.id s.entries ≡ none)
    × ((kept : List Entry) × (evicted : List Entry) × (s.entries ≡ kept ++ evicted)
        × (s'.entries ≡ record { block = b; size = block_size b } ∷ kept)
        × IsNeeded s.cap (block_size b) kept evicted)
Puts s b s' false =
    ((e : Entry) × (find_entry b.id s.entries ≡ some e) × (s'.entries ≡ move_to_front s.entries e))
    ⊎ ((find_entry b.id s.entries ≡ none) × (s.cap < block_size b) × (s' ≡ s))

-- Put on a valid store does not fault and leaves a valid store. If it stored the block, the block
-- was absent and now stands in front of the entries that are left, which are the first ones, and
-- the entries evicted from the least recently used end were needed: with the last of them evicted
-- still there the block would not have fitted. If it did not, the block was present and its entry
-- is now in front, or it was absent, larger than the capacity, and nothing changed.
pub put_block_lem :
    (s : Lru) (b : Block)
    → IsValid s
    → (s' : Lru) × (stored : Bool) × (put_block s b ≡ some (s', stored))
      × IsValid s'
      × Puts s b s' stored
unfolding put_block
put_block_lem s b v = elim (Option-cases (find_entry b.id s.entries)) [
  | inr (e, found) ↦ (
    record s { entries = move_to_front s.entries e },
    false,
    rw (found, put_block),
    move_to_front-IsValid s b.id e s.stats found v,
    inl (e, found, refl),
  )
  | inl absent ↦ elim (Bool-cases (ltb s.cap (block_size b))) [
    | inl big ↦ (s, false, rw (absent, put_block, big), v, inr (absent, ltb→lt _ _ big, refl))
    | inr fits ↦
        let (s1, ran, m) =
          make_room_lem (suc (length s.entries)) s (block_size b) (omega arith) (ground arith) v in
        let (v1, cap1, room, w) = m in
        let (gone, split, needed) = w in
        (
          push_front s1 b,
          true,
          rw (absent, put_block, fits, ran),
          record {
            once = (
              λ h.
                  let (e, f) = In-entries b.id s.entries (
                    subst (λ x. In b.id (entry_ids x)) (sym split)
                      (In-kept b.id s1.entries gone h)) in
                  cc (absent, f),
              v1.once,
            );
            sized = (refl, v1.sized);
            accounted = omega (arith, v1.accounted, room, v.small);
            within = omega (arith, room, v.small, cap1);
            small = v1.small;
          },
          (absent, (s1.entries, gone, split, refl, needed)),
        )
  ]
]

pub front-Puts :
    (s s' : Lru) (b : Block)
    → Puts s b s' true
    → find_entry b.id s'.entries ≡ some (record { block = b; size = block_size b })
unfolding find_entry
front-Puts s s' b p =
    ap (find_entry b.id) p.1.3
    ∙ if_pos (bytes_discrete b.id b.id) refl (some (record { block = b; size = block_size b }))
        (find_entry b.id p.1.0)

-- Right after a Put on a valid store that stored a block, a Get of its id returns the block.
pub get-put :
    (s s' : Lru) (b : Block)
    → IsValid s
    → put_block s b ≡ some (s', true)
    → (get_block s' b.id).1 ≡ some b
unfolding get_block
get-put s s' b v h =
    let (t, stored, ran, v', p) = put_block_lem s b v in
    let same_state : t ≡ s' = cc (ran, h) in
    let same_flag : stored ≡ true = cc (ran, h) in
    let q : Puts s b s' true =
      subst (λ x. Puts s b x true) same_state (subst (Puts s b t) same_flag p) in
    rw (front-Puts s s' b q, get_block) refl

-- Get, Contains and Touch, of any id, keep a store valid.
pub reads-IsValid :
    (s : Lru) (id : Bytes)
    → IsValid s
    → IsValid (get_block s id).0 × IsValid (contains_block s id).0 × IsValid (touch_block s id)
unfolding get_block contains_block touch_block
reads-IsValid s id v = elim (Option-cases (find_entry id s.entries)) [
  | inl absent ↦ rw (absent, get_block, contains_block, touch_block) (missed, missed, v)
  | inr (e, found) ↦
      rw (found, get_block, contains_block, touch_block)
        (
          move_to_front-IsValid s id e (hit s e).stats found v,
          move_to_front-IsValid s id e (hit s e).stats found v,
          move_to_front-IsValid s id e s.stats found v,
        )
]
  where
    missed : IsValid (miss s)
    missed = record {
      once = v.once;
      sized = v.sized;
      accounted = v.accounted;
      within = v.within;
      small = v.small;
    }
