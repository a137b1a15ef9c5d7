-- ===== src/BlockStore/Paged/Contract.antt =====
-- The paged store keeps the contract of `Store`, and starts with its invariant.
use prefixmesh.Prelude.{
  ltb, leb, ◌==◌, if◌then◌else◌, lt→ltb, le→leb, Bool-cases, Option-cases, length, Bytes, count, ℕ,
  zero, suc, ◌+◌, ◌-◌, ◌*◌, ◌/◌, ◌^◌, ◌≤◌, ◌<◌, ◌≡◌, refl, sym, ap, ◌∙◌, ◌≢◌, ◌⊎◌, inl, inr, Bool,
  true, false, ◌||◌, Option, none, some, [], ◌∷◌, arith,
}
use native.Mathlib.Nat.{le-div_iff_mul-le, div-mul-le_self}
use prefixmesh.BlockStore.Block.{Block}
use prefixmesh.BlockStore.Paged.{
  Platform, PagedEntry, Paged, EvictionPolicy, with_pages, new_paged, pages_down, pages_needed,
  free_pages, put_needing, put_paged, add_entry, touch,
}
use prefixmesh.BlockStore.Paged.Pages.{fill_pages_lem}
use prefixmesh.BlockStore.Paged.Invariant.{IsPaged}
use prefixmesh.BlockStore.Paged.Eviction.{Shrinks, free_pages_lem}
use prefixmesh.BlockStore.Paged.Putting.{
  stored_in, touch-IsPaged, touch-stored, Shrinks-stored, pages_for, pages_needed-for,
  pages_needed-enough, add_entry-IsPaged, add_entry-stored, add_entry-stored_ne,
}

abbrev IsRefused : ℕ → ℕ → Bytes → Type 0
IsRefused page_size page_count payload = (payload ≡ []) ⊎ (page_count * page_size < length payload)

IsRefused-why :
    (page_size page_count : ℕ) (payload : Bytes)
    → 0 < page_size
    → ((pages_for page_size (length payload) == 0)
        || ltb page_count (pages_for page_size (length payload)))
      ≡ true
    → IsRefused page_size page_count payload
IsRefused-why page_size page_count [] h q = inl refl
IsRefused-why page_size page_count (x ∷ xs) h q =
    let need = pages_for page_size (suc (length xs)) in
    let enough = pages_needed-enough page_size (suc (length xs)) h in
    let too_many : page_count + 1 ≤ need = ground (arith, no_pages need q enough) in
    inr (
      omega (
        arith,
        (le-div_iff_mul-le {k = page_size} {x = page_count + 1}
              {y = suc (length xs) + page_size - 1} h).0
            too_many,
      ))
  where
    no_pages :
        (need : ℕ)
        → ((need == 0) || ltb page_count need) ≡ true
        → suc (length xs) ≤ 0 + need * page_size
        → page_count < need
    no_pages zero q e = absurd (omega arith)
    no_pages (suc n) q e = ground arith

count-pages_down : (n pg : ℕ) → n ≤ 2 ^ 31 → count pg (pages_down n) ≡ (if ltb pg n then 1 else 0)
count-pages_down zero pg h = ground arith
count-pages_down (suc n) pg h = ground (arith, count-pages_down n pg (omega arith))

length-pages_down : (n : ℕ) → length (pages_down n) ≡ n
length-pages_down zero = refl
length-pages_down (suc n) = omega (arith, length-pages_down n)

module _ (pl : Platform) where
  pub with_pages-IsPaged :
      (page_size n : ℕ) (pol : EvictionPolicy)
      → 0 < page_size
      → n * page_size < 2 ^ 64
      → n ≤ 2 ^ 31
      → n * 4 ≤ pl.max_alloc
      → IsPaged pl (with_pages pl page_size n pol)
  with_pages-IsPaged page_size n pol sized small few given = record {
    sized = sized;
    small = small;
    numbered = few;
    alloced = given;
    declared = omega arith;
    indexed = record { order_live = λ i id h. cc; live_order = λ id e h. cc };
    recent = record { recent_live = λ id h. absurd h; live_recent = λ id e h. cc; once = tt };
    pages_once = λ pg. omega (arith, count-pages_down n pg few);
    pages_all = omega (arith, length-pages_down n);
    occupied = omega arith;
  }

  pub new_paged-IsPaged :
      (capacity page_size : ℕ) (pol : EvictionPolicy)
      → capacity < 2 ^ 63
      → capacity / page_size ≤ 2 ^ 31
      → 0 < page_size
      → capacity ≤ pl.max_alloc
      → capacity / page_size * 4 ≤ pl.max_alloc
      → (p : Paged pl) × (new_paged pl capacity page_size pol ≡ some p)
        × IsPaged pl p
        × (p.stats.capacity_bytes ≡ capacity / page_size * page_size)
        × ((j : Bytes) → p.items j ≡ none)
        × (p.page_size ≡ page_size)
  unfolding new_paged
  new_paged-IsPaged capacity page_size pol small few sized room given =
      let n = capacity / page_size in
      let whole = div-mul-le_self capacity page_size in
      let nonzero : (page_size == 0) ≡ false = ground arith in
      (
        with_pages pl page_size n pol,
        rw
            (
              nonzero,
              lt→ltb capacity (2 ^ 63) small,
              le→leb (n * page_size) pl.max_alloc (omega (arith, whole)),
              le→leb (n * 4) pl.max_alloc given,
            )
            refl,
        with_pages-IsPaged page_size n pol sized (omega (arith, whole)) few given,
        omega (arith, whole),
        λ j. refl,
        refl,
      )

  abbrev first : Paged pl → Option (Paged pl × Bool) → Paged pl
  first r none = r
  first r (some (q, done)) = q

  free_pages-room :
      (n : ℕ) (p q : Paged pl) (need : ℕ)
      → need ≤ length p.free
      → free_pages pl (suc n) p need ≡ some (q, true)
      → q ≡ p
  unfolding free_pages
  free_pages-room n p q need h ran =
      let enough : ltb (length p.free) need ≡ false = ground arith in
      let stays : free_pages pl (suc n) p need ≡ some (p, true) = rw (enough, free_pages) refl in
      ap (λ o. first p o) (sym ran ∙ stays)

  -- What `Put` answers and does.
  abbrev pub PutsPaged : Paged pl → Block → Paged pl → Bool → Type 0
  PutsPaged p b q true =
      (p.items b.id ≡ none)
      × (stored_in pl q b.id ≡ some b)
      × ((j : Bytes) (c : Block) → b.id ≢ j → stored_in pl q j ≡ some c → stored_in pl p j ≡ some c)
      × (pages_for p.page_size (length b.payload) ≤ length p.free
          → (j : Bytes) → b.id ≢ j
          → stored_in pl q j ≡ stored_in pl p j)
  PutsPaged p b q false =
      ((j : Bytes) → stored_in pl q j ≡ stored_in pl p j)
      × (((e : PagedEntry pl) × (p.items b.id ≡ some e))
          ⊎ ((p.items b.id ≡ none) × IsRefused p.page_size p.page_count b.payload))

  module _ (p : Paged pl) (b : Block) (w : IsPaged pl p)
      (sized : length b.payload + p.page_size ≤ 2 ^ 63) where
    abbrev Result : Type 0
    Result =
        (q : Paged pl) × (stored : Bool) × (put_paged pl p b ≡ some (q, stored))
        × IsPaged pl q
        × (q.page_size ≡ p.page_size)
        × PutsPaged p b q stored

    put_present : (e : PagedEntry pl) → p.items b.id ≡ some e → Result
    unfolding put_paged
    put_present e live = (
      touch pl p b.id e,
      false,
      rw (live, put_paged) refl,
      touch-IsPaged pl p b.id e live w,
      refl,
      (λ j. touch-stored pl p b.id e j live, inl (e, live)),
    )

    abbrev need : ℕ
    need = pages_for p.page_size (length b.payload)

    needs : pages_needed p.page_size (length b.payload) ≡ some need
    needs = pages_needed-for p.page_size (length b.payload) w.sized sized

    put_refused : p.items b.id ≡ none → ((need == 0) || ltb p.page_count need) ≡ true → Result
    unfolding put_paged put_needing
    put_refused absent q = (
      p,
      false,
      rw (absent, put_paged, needs, put_needing) (rw q refl),
      w,
      refl,
      (λ j. refl, inr (absent, IsRefused-why p.page_size p.page_count b.payload w.sized q)),
    )

    fits : ((need == 0) || ltb p.page_count need) ≡ false → need ≤ p.page_count
    fits q = by need q
      where
        by : (k : ℕ) → ((k == 0) || ltb p.page_count k) ≡ false → k ≤ p.page_count
        by k h = ground arith

    put_stored : p.items b.id ≡ none → ((need == 0) || ltb p.page_count need) ≡ false → Result
    unfolding put_paged put_needing
    put_stored absent ok =
        let (q, freed, good, shrunk, room) =
          free_pages_lem pl (suc (length p.order)) p need w (fits ok) (omega arith) in
        let given : leb (need * 4) pl.max_alloc ≡ true =
          le→leb (need * 4) pl.max_alloc (omega (arith, fits ok, w.alloced)) in
        let gone : q.items b.id ≡ none = still_absent q shrunk in
        let (f, filled, fills) =
          fill_pages_lem q.page_size b.payload need 0 q.free q.arena room
            (λ pg. ground (arith, good.pages_once pg))
            (λ pg h. ground (arith, good.pages_once pg, good.numbered))
            (rw (shrunk.same_size) (pages_needed-enough p.page_size (length b.payload) w.sized)) in
        (
          add_entry pl q b f,
          true,
          rw (absent, put_paged, needs, put_needing) (rw (ok, freed, given, filled) refl),
          add_entry-IsPaged pl q b need f good gone fills,
          shrunk.same_size,
          (
            absent,
            add_entry-stored pl q b need f good gone fills,
            λ j c ne h.
                Shrinks-stored pl p q j c shrunk
                  (sym (add_entry-stored_ne pl q b need f good gone fills j ne) ∙ h),
            λ h j ne.
                add_entry-stored_ne pl q b need f good gone fills j ne
                ∙ ap (λ r. stored_in pl r j) (free_pages-room (length p.order) p q need h freed),
          ),
        )
      where
        still_absent : (q : Paged pl) → Shrinks pl p q → q.items b.id ≡ none
        still_absent q s = elim (Option-cases (q.items b.id)) [
          | inl none_there ↦ none_there
          | inr (f, there) ↦ let (e, first, same) = s.was b.id f there in cc (absent, first)
        ]

    -- Put on a paged store with its invariant (every page is free or held by one entry, the
    -- occupancy counts the held pages, and there are at most 2^31 pages, whose indices can be
    -- allocated) of a block whose payload and one page have at most 2^63 bytes together does not
    -- fault, keeps the invariant and the page size. If it stored the block, the block was absent
    -- and is now found; another block that is found was there before, unchanged, and all of them
    -- are still found if there were enough free pages. If it did not, every id finds what it
    -- found, and the block was present, or absent with an empty payload or one larger than the
    -- arena.
    pub put_paged_lem :
        (q : Paged pl) × (stored : Bool) × (put_paged pl p b ≡ some (q, stored))
        × IsPaged pl q
        × (q.page_size ≡ p.page_size)
        × PutsPaged p b q stored
    put_paged_lem = elim (Option-cases (p.items b.id)) [
      | inr (e, live) ↦ put_present e live
      | inl absent ↦ elim (Bool-cases ((need == 0) || ltb p.page_count need)) [
        | inl refused ↦ put_refused absent refused
        | inr ok ↦ put_stored absent ok
      ]
    ]
