-- ===== src/BlockStore/Paged/Removal.antt =====
-- An entry leaves the paged store: each part of the invariant for what is left.
use prefixmesh.Prelude.{
  ltb, if◌then◌else◌, length, get_elem?, Bytes, bytes_discrete, count, ℕ, suc, ◌+◌, ◌-◌, ◌*◌, ◌%◌,
  ◌^◌, ◌≤◌, ◌<◌, ◌≡◌, refl, sym, ap, ◌∙◌, ◌≢◌, Option, none, some, List, arith,
}
use prefixmesh.BlockStore.Paged.{Platform, PagedEntry, Paged, set_item, set_idx, release, unlink}
use prefixmesh.BlockStore.Paged.Slots.{
  Items, set_item_self, set_item_ne, items_without, order_without,
}
use prefixmesh.BlockStore.Paged.Recency.{IsRecent, IsRecent-remove}
use native.Mathlib.Nat.{mul-le-mul_right}
use prefixmesh.BlockStore.Paged.Invariant.{
  IsPaged, held, held-remove, release-sum, count-IsAdditive, length-IsAdditive,
}

shrink :
    (a b c m : ℕ)
    → m < 2 ^ 64
    → (a + b) * c ≤ m
    → ((a + b) * c + 2 ^ 64 - b * c % 2 ^ 64) % 2 ^ 64 ≡ a * c
shrink a b c m s h = omega arith

module _ (pl : Platform) where
  module _ (p : Paged pl) (w : IsPaged pl p) (n : ℕ) (id l : Bytes) (e : PagedEntry pl)
      (live : p.items id ≡ some e) (len : length p.order ≡ suc n)
      (last : get_elem? p.order n ≡ some l) where
    abbrev rest : Items pl
    rest = items_without pl p.items p.order n id l e w.indexed live len last

    gone : rest id ≡ none
    gone =
        set_item_self pl (set_item pl p.items l (set_idx pl e.order_idx (p.items l))) id id none
          refl

    idx_of : Option (PagedEntry pl) → ℕ
    idx_of none = 0
    idx_of (some f) = f.order_idx

    set_idx-was :
        (o : Option (PagedEntry pl)) (f : PagedEntry pl)
        → set_idx pl e.order_idx o ≡ some f
        → (g : PagedEntry pl) × (o ≡ some g) × (f ≡ record g { order_idx = f.order_idx })
    set_idx-was none f h = cc
    set_idx-was (some g) f h =
        let same = inj (record g { order_idx = e.order_idx }) f h in
        (g, refl, sym same ∙ ap (λ i. record g { order_idx = i }) (ap (λ x. x.order_idx) same))
      where
        inj : (x y : PagedEntry pl) → some x ≡ some y → x ≡ y
        inj x y q = cc

    pub left_over :
        (j : Bytes) (f : PagedEntry pl)
        → rest j ≡ some f
        → (g : PagedEntry pl) × (p.items j ≡ some g) × (f ≡ record g { order_idx = f.order_idx })
    left_over j f h = elim (bytes_discrete id j) [
      | yes q ↦ cc (gone, h, q)
      | no q ↦
          let one =
            sym (
              set_item_ne pl (set_item pl p.items l (set_idx pl e.order_idx (p.items l))) id j none
                q)
            ∙ h in
          elim (bytes_discrete l j) [
            | yes r ↦
                let (g, at_l, same) = set_idx-was (p.items l) f (
                  sym (set_item_self pl p.items l j (set_idx pl e.order_idx (p.items l)) r)
                  ∙ one) in
                (g, ap p.items (sym r) ∙ at_l, same)
            | no r ↦ (
              f,
              sym (set_item_ne pl p.items l j (set_idx pl e.order_idx (p.items l)) r) ∙ one,
              refl,
            )
          ]
    ]

    stays :
        (j : Bytes) (g : PagedEntry pl)
        → id ≢ j
        → p.items j ≡ some g
        → (f : PagedEntry pl) × (rest j ≡ some f)
    stays j g ne h =
        let skip =
          set_item_ne pl (set_item pl p.items l (set_idx pl e.order_idx (p.items l))) id j none
            ne in
        elim (bytes_discrete l j) [
          | yes r ↦ (
            record g { order_idx = e.order_idx },
            skip
                ∙ set_item_self pl p.items l j (set_idx pl e.order_idx (p.items l)) r
                ∙ ap (set_idx pl e.order_idx) (ap p.items r ∙ h),
          )
          | no r ↦ (g, skip ∙ set_item_ne pl p.items l j (set_idx pl e.order_idx (p.items l)) r ∙ h)
        ]

    abbrev order_rest : List Bytes
    order_rest = order_without pl p.items p.order n id l e w.indexed live len last

    pub rest-IsRecent : IsRecent pl rest (unlink id p.recency)
    rest-IsRecent =
        IsRecent-remove pl p.items rest p.recency id gone stays
          (λ j f h. let (g, at, same) = left_over j f h in (g, at)) w.recent

    pub rest-once :
        (pg : ℕ)
        → count pg (release e.pages p.free) + held pl (count pg) rest order_rest
          ≡ (if ltb pg p.page_count then 1 else 0)
    rest-once pg =
        omega (
          arith,
          release-sum (count pg) (count-IsAdditive pg) e.pages p.free,
          held-remove pl p.items p.order n id l e w.indexed live len last (count pg),
        )
        ∙ w.pages_once pg

    pub rest-all : length (release e.pages p.free) + held pl length rest order_rest ≡ p.page_count
    rest-all = omega (
      arith,
      release-sum length length-IsAdditive e.pages p.free,
      held-remove pl p.items p.order n id l e w.indexed live len last length,
      w.pages_all,
    )

    pub rest-occupied :
        (p.stats.occupancy_bytes + 2 ^ 64 - length e.pages * p.page_size % 2 ^ 64) % 2 ^ 64
        ≡ held pl length rest order_rest * p.page_size
    rest-occupied =
        let split = held-remove pl p.items p.order n id l e w.indexed live len last length in
        rw (w.occupied, ← split)
          (shrink (held pl length rest order_rest) (length e.pages) p.page_size
            (p.page_count * p.page_size) w.small
            (mul-le-mul_right p.page_size (omega (arith, split, w.pages_all))))
