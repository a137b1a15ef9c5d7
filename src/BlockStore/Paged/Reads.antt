-- ===== src/BlockStore/Paged/Reads.antt =====
-- `Get`, `Contains` and `Touch` of the paged store, and its operations as those of a `Store`.
use prefixmesh.Prelude.{Option-cases, Bytes, ◌≡◌, refl, inl, inr, some}
use prefixmesh.BlockStore.Block.{Store, is_present}
use prefixmesh.BlockStore.Paged.{
  Platform, PagedEntry, Paged, put_paged, get_paged, contains_paged, touch_paged, stats_paged,
  touch, hit, miss,
}
use prefixmesh.BlockStore.Paged.Invariant.{IsPaged}
use prefixmesh.BlockStore.Paged.Putting.{stored_in, touch-IsPaged, touch-stored}

module _ (pl : Platform) where
  -- The counters of hits and misses are no part of the invariant.
  hit-IsPaged : (p : Paged pl) → IsPaged pl p → IsPaged pl (hit pl p)
  hit-IsPaged p w = record {
    sized = w.sized;
    small = w.small;
    numbered = w.numbered;
    alloced = w.alloced;
    declared = w.declared;
    indexed = w.indexed;
    recent = w.recent;
    pages_once = w.pages_once;
    pages_all = w.pages_all;
    occupied = w.occupied;
  }

  miss-IsPaged : (p : Paged pl) → IsPaged pl p → IsPaged pl (miss pl p)
  miss-IsPaged p w = record {
    sized = w.sized;
    small = w.small;
    numbered = w.numbered;
    alloced = w.alloced;
    declared = w.declared;
    indexed = w.indexed;
    recent = w.recent;
    pages_once = w.pages_once;
    pages_all = w.pages_all;
    occupied = w.occupied;
  }

  module _ (p : Paged pl) (id : Bytes) (w : IsPaged pl p) where
    abbrev pub Keeps : Paged pl → Type 0
    Keeps q = IsPaged pl q × ((j : Bytes) → stored_in pl q j ≡ stored_in pl p j)

    touched : (e : PagedEntry pl) → p.items id ≡ some e → Keeps (touch pl (hit pl p) id e)
    touched e live = (
      touch-IsPaged pl (hit pl p) id e live (hit-IsPaged p w),
      λ j. touch-stored pl (hit pl p) id e j live,
    )

    pub get_paged_lem : Keeps (get_paged pl p id).0 × ((get_paged pl p id).1 ≡ stored_in pl p id)
    unfolding get_paged
    get_paged_lem = elim (Option-cases (p.items id)) [
      | inl absent ↦ rw (absent, get_paged) ((miss-IsPaged p w, λ j. refl), refl)
      | inr (e, live) ↦ rw (live, get_paged) (touched e live, refl)
    ]

    pub contains_paged_lem :
        Keeps (contains_paged pl p id).0
        × ((contains_paged pl p id).1 ≡ is_present (stored_in pl p id))
    unfolding contains_paged
    contains_paged_lem = elim (Option-cases (p.items id)) [
      | inl absent ↦ rw (absent, contains_paged) ((miss-IsPaged p w, λ j. refl), refl)
      | inr (e, live) ↦ rw (live, contains_paged) (touched e live, refl)
    ]

    pub touch_paged_lem : Keeps (touch_paged pl p id)
    unfolding touch_paged
    touch_paged_lem = elim (Option-cases (p.items id)) [
      | inl absent ↦ rw (absent, touch_paged) (w, λ j. refl)
      | inr (e, live) ↦
          rw (live, touch_paged)
            (touch-IsPaged pl p id e live w, λ j. touch-stored pl p id e j live)
    ]

  pub page_size-get_paged :
      (p : Paged pl) (id : Bytes) → (get_paged pl p id).0.page_size ≡ p.page_size
  unfolding get_paged
  page_size-get_paged p id = elim (Option-cases (p.items id)) [
    | inl absent ↦ rw (absent, get_paged) refl
    | inr (e, live) ↦ rw (live, get_paged) refl
  ]

  pub page_size-contains_paged :
      (p : Paged pl) (id : Bytes) → (contains_paged pl p id).0.page_size ≡ p.page_size
  unfolding contains_paged
  page_size-contains_paged p id = elim (Option-cases (p.items id)) [
    | inl absent ↦ rw (absent, contains_paged) refl
    | inr (e, live) ↦ rw (live, contains_paged) refl
  ]

  pub page_size-touch_paged :
      (p : Paged pl) (id : Bytes) → (touch_paged pl p id).page_size ≡ p.page_size
  unfolding touch_paged
  page_size-touch_paged p id = elim (Option-cases (p.items id)) [
    | inl absent ↦ rw (absent, touch_paged) refl
    | inr (e, live) ↦ rw (live, touch_paged) refl
  ]

  abbrev paged_store : Store (Paged pl)
  paged_store = record {
    put_one = put_paged pl;
    get_one = get_paged pl;
    contains_one = contains_paged pl;
    touch_one = touch_paged pl;
    stats_one = stats_paged pl;
  }
