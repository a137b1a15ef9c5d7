-- ===== src/BlockStore/Paged/Eviction.antt =====
-- `evictOne` and the loop of `Put` that frees pages.
use prefixmesh.Prelude.{
  ltb, Bool-cases, length, take, length-take, Bytes, set, length-set, get_elem?-lt, get_elem?-some,
  ℕ, zero, suc, ◌+◌, ◌-◌, ◌*◌, ◌%◌, ◌^◌, ◌≤◌, ◌<◌, ◌≡◌, refl, ap, ◌∙◌, inl, inr, Bool, true, false,
  Option, none, some, [], arith,
}
use prefixmesh.BlockStore.Paged.{
  Platform, PagedEntry, Paged, set_item, set_idx, release, unlink, remove_entry, evict_one,
  free_pages, victim,
}
use prefixmesh.BlockStore.Paged.Slots.{IsIndexed-remove}
use prefixmesh.BlockStore.Paged.Invariant.{IsPaged, held}
use prefixmesh.BlockStore.Paged.Removal.{
  rest-IsRecent, left_over, rest-once, rest-all, rest-occupied,
}
use prefixmesh.BlockStore.Paged.Victims.{Chosen, victim-Chosen}

module _ (pl : Platform) where
  -- The second store is the first one without some of its entries, whose pages are free again; the
  -- entries that are left differ in their place in the sampling index only.
  pub record Shrinks (p q : Paged pl) : Type 0 where
    pub same_size : q.page_size ≡ p.page_size
    pub same_count : q.page_count ≡ p.page_count
    pub same_arena : q.arena ≡ p.arena
    pub was :
        (j : Bytes) (f : PagedEntry pl)
        → q.items j ≡ some f
        → (e : PagedEntry pl) × (p.items j ≡ some e) × (f ≡ record e { order_idx = f.order_idx })

  pub Shrinks-refl : (p : Paged pl) → Shrinks p p
  Shrinks-refl p = record {
    same_size = refl;
    same_count = refl;
    same_arena = refl;
    was = λ j f h. (f, h, refl);
  }

  pub Shrinks-trans : (p q r : Paged pl) → Shrinks p q → Shrinks q r → Shrinks p r
  Shrinks-trans p q r a b = record {
    same_size = b.same_size ∙ a.same_size;
    same_count = b.same_count ∙ a.same_count;
    same_arena = b.same_arena ∙ a.same_arena;
    was = λ j g h.
        let (f, there, same) = b.was j g h in
        let (e, first, same') = a.was j f there in
        (e, first, same ∙ ap {A = PagedEntry pl} (λ x. record x { order_idx = g.order_idx }) same');
  }

  -- What an eviction makes of a store: a smaller one that keeps the invariant.
  pub record Evicts (p q : Paged pl) : Type 0 where
    pub still : IsPaged pl q
    pub shrinks : Shrinks p q
    pub fewer : length q.order < length p.order

  pub remove_entry_lem :
      (p : Paged pl) (id : Bytes) (e : PagedEntry pl)
      → IsPaged pl p
      → p.items id ≡ some e
      → (q : Paged pl) × (remove_entry pl p id e ≡ some q) × Evicts p q
  remove_entry_lem p id e w live =
      let inside = get_elem?-lt p.order e.order_idx id (w.indexed.live_order id e live) in
      let n = length p.order - 1 in
      let len : length p.order ≡ suc n = omega (arith, inside) in
      let (l, last) = get_elem?-some p.order n (omega (arith, inside)) in
      let q : Paged pl = record p {
        free = release e.pages p.free;
        recency = unlink id p.recency;
        order = take n (set p.order e.order_idx l);
        items = set_item pl (set_item pl p.items l (set_idx pl e.order_idx (p.items l))) id none;
        stats = record (p.stats) {
          occupancy_bytes =
              (p.stats.occupancy_bytes + 2 ^ 64 - length e.pages * p.page_size % 2 ^ 64) % 2 ^ 64;
          evictions = (p.stats.evictions + 1) % 2 ^ 64;
          evicted_cost_us = (p.stats.evicted_cost_us + e.cost_us) % 2 ^ 64;
        };
      } in
      (
        q,
        rw (last, remove_entry) refl,
        record {
          still = record {
            sized = w.sized;
            small = w.small;
            numbered = w.numbered;
            alloced = w.alloced;
            declared = w.declared;
            indexed = IsIndexed-remove pl p.items p.order n id l e w.indexed live len last;
            recent = rest-IsRecent pl p w n id l e live len last;
            pages_once = rest-once pl p w n id l e live len last;
            pages_all = rest-all pl p w n id l e live len last;
            occupied = rest-occupied pl p w n id l e live len last;
          };
          shrinks = record {
            same_size = refl;
            same_count = refl;
            same_arena = refl;
            was = left_over pl p w n id l e live len last;
          };
          fewer = omega (
            arith,
            inside,
            length-take n (set p.order e.order_idx l),
            length-set p.order e.order_idx l,
          );
        },
      )

  -- The generator is no part of the invariant.
  IsPaged-rng : (p : Paged pl) (r : pl.Rng) → IsPaged pl p → IsPaged pl (record p { rng = r })
  IsPaged-rng p r w = record {
    sized = w.sized;
    small = w.small;
    numbered = w.numbered;
    alloced = w.alloced;
    declared = w.declared;
    indexed = w.indexed;
    recent = w.recent;
    pages_once = w.pages_once;
    pages_all = w.pages_all;
    occupied = w.occupied;
  }

  abbrev pub EvictsOne : Paged pl → Paged pl → Bool → Type 0
  EvictsOne p q true = Evicts p q
  EvictsOne p q false = p.order ≡ []

  pub evict_one_lem :
      (p : Paged pl)
      → IsPaged pl p
      → (q : Paged pl) × (found : Bool) × (evict_one pl p ≡ some (q, found)) × EvictsOne p q found
  unfolding evict_one
  evict_one_lem p w = by_victim (victim pl p).0 refl (victim-Chosen pl p w)
    where
      by_victim :
          (v : Option (Bytes × PagedEntry pl))
          → (victim pl p).0 ≡ v
          → Chosen pl p.items p.order v
          → (q : Paged pl) × (found : Bool) × (evict_one pl p ≡ some (q, found))
            × EvictsOne p q found
      by_victim none chosen h =
          (record p { rng = (victim pl p).1 }, false, rw (chosen, evict_one) refl, h)
      by_victim (some (id, e)) chosen h =
          let p' : Paged pl = record p { rng = (victim pl p).1 } in
          let (q, removed, ev) = remove_entry_lem p' id e (IsPaged-rng p ((victim pl p).1) w) h in
          (
            q,
            true,
            rw (chosen, removed, evict_one) refl,
            record {
              still = ev.still;
              shrinks = record {
                same_size = ev.shrinks.same_size;
                same_count = ev.shrinks.same_count;
                same_arena = ev.shrinks.same_arena;
                was = ev.shrinks.was;
              };
              fewer = ev.fewer;
            },
          )

  -- A store without entries has all its pages free.
  all_free : (p : Paged pl) → IsPaged pl p → p.order ≡ [] → length p.free ≡ p.page_count
  all_free p w none_left = omega (arith, w.pages_all, ap (λ o. held pl length p.items o) none_left)

  -- The loop ends with enough free pages when the store has them at all, and takes out entries only.
  pub free_pages_lem :
      (fuel : ℕ) (p : Paged pl) (need : ℕ)
      → IsPaged pl p
      → need ≤ p.page_count
      → length p.order < fuel
      → (q : Paged pl) × (free_pages pl fuel p need ≡ some (q, true))
        × IsPaged pl q
        × Shrinks p q
        × (need ≤ length q.free)
  unfolding free_pages
  free_pages_lem zero p need w fits enough = absurd (omega arith)
  free_pages_lem (suc fuel) p need w fits enough = elim (Bool-cases (ltb (length p.free) need)) [
    | inr q ↦ (p, rw (q, free_pages) refl, w, Shrinks-refl p, ground arith)
    | inl q ↦
        let (p', found, ran, ev) = evict_one_lem p w in
        again p' found q ran ev (λ r. free_pages_lem fuel r need)
  ]
    where
      again :
          (p' : Paged pl) (found : Bool)
          → ltb (length p.free) need ≡ true
          → evict_one pl p ≡ some (p', found)
          → EvictsOne p p' found
          → ((r : Paged pl)
              → IsPaged pl r
              → need ≤ r.page_count
              → length r.order < fuel
              → (q : Paged pl) × (free_pages pl fuel r need ≡ some (q, true))
                × IsPaged pl q
                × Shrinks r q
                × (need ≤ length q.free))
          → (q : Paged pl) × (free_pages pl (suc fuel) p need ≡ some (q, true))
            × IsPaged pl q
            × Shrinks p q
            × (need ≤ length q.free)
      again p' false short ran ev go = ground (arith, all_free p w ev)
      again p' true short ran ev go =
          let (q, looped, good, shrunk, room) =
            go p' ev.still (omega (arith, ev.shrinks.same_count)) (omega (arith, ev.fewer)) in
          (
            q,
            rw (short, ran, free_pages) looped,
            good,
            Shrinks-trans p p' q ev.shrinks shrunk,
            room,
          )
