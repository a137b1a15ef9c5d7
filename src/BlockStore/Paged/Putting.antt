-- ===== src/BlockStore/Paged/Putting.antt =====
-- `touch` and `Put` of the paged store.
use prefixmesh.Prelude.{
  lt→ltb, Option-cases, length, Bytes, bytes_discrete, In-get_elem?, sum_of-le, count, ℕ, ◌+◌, ◌-◌,
  ◌*◌, ◌/◌, ◌%◌, ◌^◌, ◌≤◌, ◌<◌, ◌≡◌, refl, sym, ap, ◌∙◌, ◌≢◌, inl, inr, Option, none, some, List,
  [], ◌∷◌, ◌++◌, arith,
}
use native.Mathlib.Nat.{lt-div-mul-add, mul-le-mul_right}
use prefixmesh.BlockStore.Block.{Block}
use prefixmesh.BlockStore.Paged.{
  decay, one_more, Platform, PagedEntry, Paged, set_item, pages_needed, add_entry, touch, block_of,
  Filled,
}
use prefixmesh.BlockStore.Paged.Slots.{
  set_item_self, set_item_ne, IsIndexed-add, IsIndexed-set_item,
}
use prefixmesh.BlockStore.Paged.Recency.{IsRecent-front, IsRecent-push}
use prefixmesh.BlockStore.Paged.Pages.{Fills, read_pages-same, sum-append}
use prefixmesh.BlockStore.Paged.Invariant.{
  IsPaged, IsAdditive, held, held-add, held-set_item, count-IsAdditive, length-IsAdditive, pages_of,
}
use prefixmesh.BlockStore.Paged.Eviction.{Shrinks}

grow :
    (a b c m : ℕ) → m < 2 ^ 64 → (a + b) * c ≤ m → (a * c + b * c % 2 ^ 64) % 2 ^ 64 ≡ (a + b) * c
grow a b c m s h = omega arith

-- The pages that a payload needs where nothing wraps.
abbrev pub pages_for : ℕ → ℕ → ℕ
pages_for page_size size = (size + page_size - 1) / page_size

pub pages_needed-for :
    (page_size size : ℕ)
    → 0 < page_size
    → size + page_size ≤ 2 ^ 63
    → pages_needed page_size size ≡ some (pages_for page_size size)
unfolding pages_needed
pages_needed-for page_size size h small =
    rw (lt→ltb (size + page_size - 1) (2 ^ 63) (omega arith)) refl

pub pages_needed-enough :
    (page_size size : ℕ) → 0 < page_size → size ≤ 0 + pages_for page_size size * page_size
pages_needed-enough page_size size h =
    omega (arith, lt-div-mul-add {a = size + page_size - 1} {b = page_size} h)

module _ (pl : Platform) where
  abbrev pub block_at : Paged pl → Bytes → Option (PagedEntry pl) → Option Block
  block_at p j none = none
  block_at p j (some e) = some (block_of pl p j e)

  -- The block that the store holds under an id.
  abbrev pub stored_in : Paged pl → Bytes → Option Block
  stored_in p j = block_at p j (p.items j)

  pub touch-IsPaged :
      (p : Paged pl) (id : Bytes) (e : PagedEntry pl)
      → p.items id ≡ some e
      → IsPaged pl p
      → IsPaged pl (touch pl p id e)
  touch-IsPaged p id e live w =
      let now = (p.clock + 1) % 2 ^ 64 in
      let e' : PagedEntry pl = record e {
        freq = one_more pl (decay pl e.freq ((now + 2 ^ 64 - e.last_access) % 2 ^ 64));
        last_access = now;
      } in
      record {
        sized = w.sized;
        small = w.small;
        numbered = w.numbered;
        alloced = w.alloced;
        declared = w.declared;
        indexed = IsIndexed-set_item pl p.items p.order id e e' live refl w.indexed;
        recent = IsRecent-front pl p.items p.recency id e' w.recent;
        pages_once = λ pg.
            ap (λ n. count pg p.free + n)
              (held-set_item pl (count pg) p.items p.order id e e' live refl)
            ∙ w.pages_once pg;
        pages_all =
            ap (λ n. length p.free + n) (held-set_item pl length p.items p.order id e e' live refl)
            ∙ w.pages_all;
        occupied =
            w.occupied
            ∙ ap (λ n. n * p.page_size)
                (sym (held-set_item pl length p.items p.order id e e' live refl));
      }

  pub touch-stored :
      (p : Paged pl) (id : Bytes) (e : PagedEntry pl) (j : Bytes)
      → p.items id ≡ some e
      → stored_in (touch pl p id e) j ≡ stored_in p j
  touch-stored p id e j live =
      let now = (p.clock + 1) % 2 ^ 64 in
      let e' : PagedEntry pl = record e {
        freq = one_more pl (decay pl e.freq ((now + 2 ^ 64 - e.last_access) % 2 ^ 64));
        last_access = now;
      } in
      elim (bytes_discrete id j) [
        | yes q ↦
            ap (block_at p j) (set_item_self pl p.items id j (some e') q)
            ∙ ap (block_at p j) (sym (ap p.items (sym q) ∙ live))
        | no q ↦ ap (block_at p j) (set_item_ne pl p.items id j (some e') q)
      ]

  -- What an eviction leaves is as it was.
  pub Shrinks-stored :
      (p q : Paged pl) (j : Bytes) (b : Block)
      → Shrinks pl p q
      → stored_in q j ≡ some b
      → stored_in p j ≡ some b
  Shrinks-stored p q j b s h = elim (Option-cases (q.items j)) [
    | inl gone ↦ cc (ap (block_at q j) gone, h)
    | inr (f, there) ↦
        let (e, first, same) = s.was j f there in
        let alike : block_of pl q j f ≡ block_of pl p j e =
          ap (block_of pl q j) same ∙ rw (s.same_size, s.same_arena) refl in
        ap (block_at p j) first ∙ ap some (sym alike) ∙ sym (ap (block_at q j) there) ∙ h
  ]

  module _ (p : Paged pl) (b : Block) (k : ℕ) (f : Filled) (w : IsPaged pl p)
      (absent : p.items b.id ≡ none)
      (fills : Fills p.page_size b.payload k 0 p.free p.arena f) where
    abbrev entry : PagedEntry pl
    entry = record {
      parent_id = b.parent_id;
      model_id = b.model_id;
      token_count = b.token_count;
      cost_us = b.cost_us;
      size = length b.payload;
      pages = f.taken;
      order_idx = length p.order;
      last_access = 0;
      freq = pl.floats.of_nat 0;
    }

    -- The store that `Put` touches last.
    abbrev base : Paged pl
    base = record p {
      arena = f.filled;
      free = f.left;
      order = p.order ++ b.id ∷ [];
      items = set_item pl p.items b.id (some entry);
      recency = b.id ∷ p.recency;
      stats = record (p.stats) {
        occupancy_bytes =
            (p.stats.occupancy_bytes + length f.taken * p.page_size % 2 ^ 64) % 2 ^ 64;
      };
    }

    base_live : base.items b.id ≡ some entry
    base_live = set_item_self pl p.items b.id b.id (some entry) refl

    measured :
        (g : List ℕ → ℕ)
        → IsAdditive g
        → g f.left + held pl g base.items base.order ≡ g p.free + held pl g p.items p.order
    measured g a = omega (
      arith,
      held-add pl g p.items p.order b.id entry absent w.indexed,
      sum-append g a f.taken f.left,
      ap g fills.split,
    )

    base-occupied : base.stats.occupancy_bytes ≡ held pl length base.items base.order * p.page_size
    base-occupied =
        let all = held-add pl length p.items p.order b.id entry absent w.indexed in
        rw (all, w.occupied)
          (grow (held pl length p.items p.order) (length f.taken) p.page_size
            (p.page_count * p.page_size) w.small
            (mul-le-mul_right p.page_size
              (omega (arith, all, measured length length-IsAdditive, w.pages_all))))

    base-IsPaged : IsPaged pl base
    base-IsPaged = record {
      sized = w.sized;
      small = w.small;
      numbered = w.numbered;
      alloced = w.alloced;
      declared = w.declared;
      indexed = IsIndexed-add pl p.items p.order b.id entry absent refl w.indexed;
      recent = IsRecent-push pl p.items p.recency b.id entry absent w.recent;
      pages_once = λ pg. measured (count pg) (count-IsAdditive pg) ∙ w.pages_once pg;
      pages_all = measured length length-IsAdditive ∙ w.pages_all;
      occupied = base-occupied;
    }

    -- The pages that an entry holds are not written.
    base-arena :
        (j : Bytes) (e : PagedEntry pl) (pg : ℕ)
        → p.items j ≡ some e
        → 0 < count pg e.pages
        → f.filled pg ≡ p.arena pg
    base-arena j e pg live holds =
        let inside = In-get_elem? p.order e.order_idx j (w.indexed.live_order j e live) in
        let its = sum_of-le (λ i. count pg (pages_of pl (p.items i))) p.order j inside in
        fills.others pg (
          ground (
            arith,
            its,
            ap (λ o. count pg (pages_of pl o)) live,
            w.pages_once pg,
            ap (count pg) fills.split,
            sum-append (count pg) (count-IsAdditive pg) f.taken f.left,
          ))

    base-stored_ne : (j : Bytes) → b.id ≢ j → stored_in base j ≡ stored_in p j
    base-stored_ne j ne =
        ap (block_at base j) (set_item_ne pl p.items b.id j (some entry) ne)
        ∙ elim (Option-cases (p.items j)) [
          | inl gone ↦ ap (block_at base j) gone ∙ sym (ap (block_at p j) gone)
          | inr (e, live) ↦
              ap (block_at base j) live
              ∙ ap (λ bytes. some (record (block_of pl p j e) { payload = bytes }))
                  (read_pages-same p.page_size f.filled p.arena e.size e.pages 0
                    (λ pg h. base-arena j e pg live h))
              ∙ sym (ap (block_at p j) live)
        ]

    pub add_entry-IsPaged : IsPaged pl (add_entry pl p b f)
    add_entry-IsPaged = touch-IsPaged base b.id entry base_live base-IsPaged

    pub add_entry-stored : stored_in (add_entry pl p b f) b.id ≡ some b
    add_entry-stored =
        touch-stored base b.id entry b.id base_live
        ∙ ap (block_at base b.id) base_live
        ∙ ap (λ bytes. some (record b { payload = bytes })) fills.reads

    pub add_entry-stored_ne :
        (j : Bytes) → b.id ≢ j → stored_in (add_entry pl p b f) j ≡ stored_in p j
    add_entry-stored_ne j ne = touch-stored base b.id entry j base_live ∙ base-stored_ne j ne
