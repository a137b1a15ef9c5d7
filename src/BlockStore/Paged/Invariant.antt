-- ===== src/BlockStore/Paged/Invariant.antt =====
-- The invariant of the paged store. Every page is free or is held by one entry, and the occupancy
-- counts the pages that are held.
use prefixmesh.Prelude.{
  ltb, if◌then◌else◌, length, get_elem?, In, Bytes, bytes_discrete, sum_of, In-index, sum_of-append,
  sum_of_same, sum_of-swap, count, ℕ, suc, ◌+◌, ◌*◌, ◌^◌, ◌≤◌, ◌<◌, ◌≡◌, refl, sym, ap, ◌∙◌, ◌≢◌,
  Option, none, some, List, [], ◌∷◌, ◌++◌, arith,
}
use prefixmesh.BlockStore.Paged.{Platform, PagedEntry, Paged, set_item, set_idx, release}
use prefixmesh.BlockStore.Paged.Slots.{
  Items, set_item_self, set_item_ne, IsIndexed, IsIndexed-remove, items_without, order_without,
}
use prefixmesh.BlockStore.Paged.Recency.{IsRecent}

-- A measure of lists of pages, such as the length or how often a page stands in it.
pub record IsAdditive (g : List ℕ → ℕ) : Type 0 where
  pub on_nil : g [] ≡ 0
  pub on_cons : (pg : ℕ) (pages : List ℕ) → g (pg ∷ pages) ≡ g (pg ∷ []) + g pages

pub length-IsAdditive : IsAdditive length
length-IsAdditive = record { on_nil = refl; on_cons = λ pg pages. omega arith }

pub count-IsAdditive : (pg : ℕ) → IsAdditive (count pg)
count-IsAdditive pg = record { on_nil = refl; on_cons = λ x pages. omega arith }

pub release-sum :
    (g : List ℕ → ℕ)
    → IsAdditive g
    → (pages free : List ℕ) → g (release pages free) ≡ g pages + g free
release-sum g a [] free = omega (arith, a.on_nil)
release-sum g a (pg ∷ pages) free =
    omega (arith, release-sum g a pages (pg ∷ free), a.on_cons pg pages, a.on_cons pg free)

module _ (pl : Platform) where
  abbrev pub pages_of : Option (PagedEntry pl) → List ℕ
  pages_of none = []
  pages_of (some e) = e.pages

  -- The measure of the pages that the entries hold.
  abbrev pub held : (List ℕ → ℕ) → Items pl → List Bytes → ℕ
  held g items order = sum_of (λ id. g (pages_of (items id))) order

  pub record IsPaged (p : Paged pl) : Type 0 where
    pub sized : 0 < p.page_size
    pub small : p.page_count * p.page_size < 2 ^ 64
    pub numbered : p.page_count ≤ 2 ^ 31
    pub alloced : p.page_count * 4 ≤ pl.max_alloc
    pub declared : p.stats.capacity_bytes ≡ p.page_count * p.page_size
    pub indexed : IsIndexed pl p.items p.order
    pub recent : IsRecent pl p.items p.recency
    pub pages_once :
        (pg : ℕ)
        → count pg p.free + held (count pg) p.items p.order ≡ (if ltb pg p.page_count then 1 else 0)
    pub pages_all : length p.free + held length p.items p.order ≡ p.page_count
    pub occupied : p.stats.occupancy_bytes ≡ held length p.items p.order * p.page_size

  -- An entry is replaced by one with the same pages.
  pub pages_of-set_item :
      (items : Items pl) (id j : Bytes) (e f : PagedEntry pl)
      → items id ≡ some e
      → f.pages ≡ e.pages
      → pages_of (set_item pl items id (some f) j) ≡ pages_of (items j)
  pages_of-set_item items id j e f live same = elim (bytes_discrete id j) [
    | yes p ↦
        ap pages_of (set_item_self pl items id j (some f) p)
        ∙ same
        ∙ sym (ap pages_of (ap items (sym p) ∙ live))
    | no p ↦ ap pages_of (set_item_ne pl items id j (some f) p)
  ]

  pub held-set_item :
      (g : List ℕ → ℕ) (items : Items pl) (order : List Bytes) (id : Bytes) (e f : PagedEntry pl)
      → items id ≡ some e
      → f.pages ≡ e.pages
      → held g (set_item pl items id (some f)) order ≡ held g items order
  held-set_item g items order id e f live same =
      sum_of_same (λ j. g (pages_of (set_item pl items id (some f) j)))
        (λ j. g (pages_of (items j))) order
        (λ j h. ap g (pages_of-set_item items id j e f live same))

  -- The new entry's pages come on top.
  pub held-add :
      (g : List ℕ → ℕ) (items : Items pl) (order : List Bytes) (id : Bytes) (e : PagedEntry pl)
      → items id ≡ none
      → IsIndexed pl items order
      → held g (set_item pl items id (some e)) (order ++ id ∷ []) ≡ held g items order + g e.pages
  held-add g items order id e absent ix = omega (
    arith,
    sum_of-append at order id,
    sum_of_same at (λ j. g (pages_of (items j))) order
        (λ j h. ap (λ x. g (pages_of x)) (set_item_ne pl items id j (some e) (other j h))),
    ap (λ x. g (pages_of x)) (set_item_self pl items id id (some e) refl),
  )
    where
      at : Bytes → ℕ
      at j = g (pages_of (set_item pl items id (some e) j))

      other : (j : Bytes) → In j order → id ≢ j
      other j h p =
          let (i, at_i) = In-index j order h in
          let (f, live, idx) = ix.order_live i j at_i in cc (absent, live, p)

  module _ (items : Items pl) (order : List Bytes) (n : ℕ) (id l : Bytes) (e : PagedEntry pl)
      (ix : IsIndexed pl items order) (live : items id ≡ some e) (len : length order ≡ suc n)
      (last : get_elem? order n ≡ some l) where
    abbrev rest : Items pl
    rest = items_without pl items order n id l e ix live len last

    pub pages_of-without : (j : Bytes) → id ≢ j → pages_of (rest j) ≡ pages_of (items j)
    pages_of-without j ne =
        ap pages_of
          (set_item_ne pl (set_item pl items l (set_idx pl e.order_idx (items l))) id j none ne)
        ∙ elim (bytes_discrete l j) [
          | yes p ↦
              ap pages_of (set_item_self pl items l j (set_idx pl e.order_idx (items l)) p)
              ∙ same (items l)
              ∙ ap (λ x. pages_of (items x)) p
          | no p ↦ ap pages_of (set_item_ne pl items l j (set_idx pl e.order_idx (items l)) p)
        ]
      where
        same : (o : Option (PagedEntry pl)) → pages_of (set_idx pl e.order_idx o) ≡ pages_of o
        same none = refl
        same (some f) = refl

    pub held-remove :
        (g : List ℕ → ℕ)
        → held g rest (order_without pl items order n id l e ix live len last) + g e.pages
          ≡ held g items order
    held-remove g = omega (
      arith,
      sum_of_same (λ j. g (pages_of (rest j))) (λ j. g (pages_of (items j)))
          (order_without pl items order n id l e ix live len last)
          (λ j h. ap g (pages_of-without j (stays j h))),
      sum_of-swap (λ j. g (pages_of (items j))) n e.order_idx order id l len
          (ix.live_order id e live) last,
      ap (λ x. g (pages_of x)) live,
    )
      where
        stays : (j : Bytes) → In j (order_without pl items order n id l e ix live len last) → id ≢ j
        stays j h p =
            let (i, at) = In-index j (order_without pl items order n id l e ix live len last) h in
            let (f, there, idx) =
              (IsIndexed-remove pl items order n id l e ix live len last).order_live i j at in
            cc (
              set_item_self pl (set_item pl items l (set_idx pl e.order_idx (items l))) id j none p,
              there,
            )
