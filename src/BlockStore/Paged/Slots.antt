-- ===== src/BlockStore/Paged/Slots.antt =====
-- The sampling index of the paged store: `order` lists each entry once, at the entry's `order_idx`.
use prefixmesh.Prelude.{
  length, get_elem?, take, length-append, Bytes, bytes_discrete, set, get_elem?-lt,
  get_elem?-cut_off, get_elem?-append_old, get_elem?-append_last, get_elem?-swap, ℕ, suc, ◌<◌, ◌≡◌,
  refl, sym, ap, ◌∙◌, ◌≢◌, if_pos, if_neg, Option, none, some, List, [], ◌∷◌, ◌++◌, arith, dec_lt,
  ℕ_discrete,
}
use prefixmesh.BlockStore.Paged.{Platform, PagedEntry, set_item, set_idx}

module _ (pl : Platform) where
  abbrev pub Items : Type 0
  Items = Bytes → Option (PagedEntry pl)

  pub set_item_self :
      (items : Items) (id j : Bytes) (e : Option (PagedEntry pl))
      → id ≡ j
      → set_item pl items id e j ≡ e
  set_item_self items id j e p = if_pos (bytes_discrete id j) p e (items j)

  pub set_item_ne :
      (items : Items) (id j : Bytes) (e : Option (PagedEntry pl))
      → id ≢ j
      → set_item pl items id e j ≡ items j
  set_item_ne items id j e p = if_neg (bytes_discrete id j) p e (items j)

  pub record IsIndexed (items : Items) (order : List Bytes) : Type 0 where
    pub order_live :
        (i : ℕ) (id : Bytes)
        → get_elem? order i ≡ some id
        → (e : PagedEntry pl) × (items id ≡ some e) × (e.order_idx ≡ i)
    pub live_order :
        (id : Bytes) (e : PagedEntry pl) → items id ≡ some e → get_elem? order e.order_idx ≡ some id

  bytes_inj : (x y : Bytes) → some x ≡ some y → x ≡ y
  bytes_inj x y q = cc

  some_inj : (e f : PagedEntry pl) → some e ≡ some f → e ≡ f
  some_inj e f h = cc

  pub same_idx :
      (items : Items) (id : Bytes) (e f : PagedEntry pl)
      → items id ≡ some e
      → items id ≡ some f
      → e.order_idx ≡ f.order_idx
  same_idx items id e f h k = ap (λ x. x.order_idx) (some_inj e f (sym h ∙ k))

  -- A new entry at the end of the index.
  pub IsIndexed-add :
      (items : Items) (order : List Bytes) (id : Bytes) (e : PagedEntry pl)
      → items id ≡ none
      → e.order_idx ≡ length order
      → IsIndexed items order
      → IsIndexed (set_item pl items id (some e)) (order ++ id ∷ [])
  IsIndexed-add items order id e absent idx ix = record {
    order_live = λ i j h. elim (dec_lt i (length order)) [
      | yes lt ↦
          let (f, live, at) =
            ix.order_live i j (sym (get_elem?-append_old order (id ∷ []) i lt) ∙ h) in
          let ne : id ≢ j = λ p. cc (absent, live, p) in
          (f, set_item_ne items id j (some e) ne ∙ live, at)
      | no ge ↦
          let (i_last, is_id) = last_place i j h ge in
          (e, set_item_self items id j (some e) (sym is_id), idx ∙ sym i_last)
    ];
    live_order = λ j f h. elim (bytes_discrete id j) [
      | yes p ↦
          let same : f ≡ e = some_inj f e (sym h ∙ set_item_self items id j (some e) p) in
          ap (get_elem? (order ++ id ∷ [])) (ap (λ x. x.order_idx) same ∙ idx)
          ∙ get_elem?-append_last order id
          ∙ ap some p
      | no p ↦
          let at = ix.live_order j f (sym (set_item_ne items id j (some e) p) ∙ h) in
          get_elem?-append_old order (id ∷ []) f.order_idx (get_elem?-lt order f.order_idx j at)
          ∙ at
    ];
  }
    where
      last_place :
          (i : ℕ) (j : Bytes)
          → get_elem? (order ++ id ∷ []) i ≡ some j
          → ¬ (i < length order)
          → (i ≡ length order) × (j ≡ id)
      last_place i j h ge =
          let small = get_elem?-lt (order ++ id ∷ []) i j h in
          let i_last : i ≡ length order = omega (arith, small, length-append order (id ∷ [])) in
          (
            i_last,
            bytes_inj j id
                (sym h ∙ ap (get_elem? (order ++ id ∷ [])) i_last ∙ get_elem?-append_last order id),
          )

  -- An entry is replaced by one with the same place.
  pub IsIndexed-set_item :
      (items : Items) (order : List Bytes) (id : Bytes) (e f : PagedEntry pl)
      → items id ≡ some e
      → f.order_idx ≡ e.order_idx
      → IsIndexed items order
      → IsIndexed (set_item pl items id (some f)) order
  IsIndexed-set_item items order id e f live same ix = record {
    order_live = λ i j h.
        let (g, live_j, at) = ix.order_live i j h in
        elim (bytes_discrete id j) [
          | yes p ↦ (
            f,
            set_item_self items id j (some f) p,
            same ∙ same_idx items id e g live (ap items p ∙ live_j) ∙ at,
          )
          | no p ↦ (g, set_item_ne items id j (some f) p ∙ live_j, at)
        ];
    live_order = λ j g h. elim (bytes_discrete id j) [
      | yes p ↦
          let is_f : g ≡ f = some_inj g f (sym h ∙ set_item_self items id j (some f) p) in
          ap (get_elem? order) (ap (λ x. x.order_idx) is_f ∙ same)
          ∙ ix.live_order id e live
          ∙ ap some p
      | no p ↦ ix.live_order j g (sym (set_item_ne items id j (some f) p) ∙ h)
    ];
  }

  module _ (items : Items) (order : List Bytes) (n : ℕ) (id l : Bytes) (e : PagedEntry pl)
      (ix : IsIndexed items order) (live : items id ≡ some e) (len : length order ≡ suc n)
      (last : get_elem? order n ≡ some l) where
    abbrev pub items_without : Items
    items_without = set_item pl (set_item pl items l (set_idx pl e.order_idx (items l))) id none

    abbrev pub order_without : List Bytes
    order_without = take n (set order e.order_idx l)

    e_at : get_elem? order e.order_idx ≡ some id
    e_at = ix.live_order id e live

    e_lt : e.order_idx < length order
    e_lt = get_elem?-lt order e.order_idx id e_at

    last_ne : e.order_idx < n → id ≢ l
    last_ne lt p =
        let (f, live_l, at) = ix.order_live n l last in
        omega (arith, lt, at, same_idx items id e f live (ap items p ∙ live_l))

    pub IsIndexed-remove : IsIndexed items_without order_without
    IsIndexed-remove = record {
      order_live = λ i j h. elim (dec_lt i n) [
        | no ge ↦ cc (get_elem?-cut_off n i (set order e.order_idx l) (omega arith), h)
        | yes lt ↦ elim (ℕ_discrete e.order_idx i) [
          | yes p ↦
              let is_l : l ≡ j = moved i j lt p h in
              let (f, live_l, at) = ix.order_live n l last in
              let ne = last_ne (omega arith) in
              (
                record f { order_idx = i },
                set_item_ne (set_item pl items l (set_idx pl e.order_idx (items l))) id j none
                      (λ q. ne (q ∙ sym is_l))
                    ∙ set_item_self items l j (set_idx pl e.order_idx (items l)) is_l
                    ∙ ap (set_idx pl e.order_idx) live_l
                    ∙ ap (λ k. some (record f { order_idx = k })) p,
                refl,
              )
          | no p ↦
              let old : get_elem? order i ≡ some j = unmoved i j lt p h in
              let (f, live_j, at) = ix.order_live i j old in
              let not_id : id ≢ j =
                λ q. p (same_idx items id e f live (ap items q ∙ live_j) ∙ at) in
              let not_l : l ≢ j = λ q.
                let (g, live_l, at_l) = ix.order_live n l last in
                omega
                  (arith, lt, at, at_l, same_idx items j f g live_j (ap items (sym q) ∙ live_l)) in
              (
                f,
                set_item_ne (set_item pl items l (set_idx pl e.order_idx (items l))) id j none
                      not_id
                    ∙ set_item_ne items l j (set_idx pl e.order_idx (items l)) not_l
                    ∙ live_j,
                at,
              )
        ]
      ];
      live_order = λ j f h. elim (bytes_discrete id j) [
        | yes p ↦
            cc (
              set_item_self (set_item pl items l (set_idx pl e.order_idx (items l))) id j none p,
              h,
            )
        | no p ↦
            let one : set_item pl items l (set_idx pl e.order_idx (items l)) j ≡ some f =
              sym (set_item_ne (set_item pl items l (set_idx pl e.order_idx (items l))) id j none p)
              ∙ h in
            elim (bytes_discrete l j) [
              | yes q ↦
                  let idx : f.order_idx ≡ e.order_idx = moved_idx j f q one in
                  let inside : e.order_idx < n =
                    omega (arith, e_lt, len, not_last (λ r. p (r ∙ q))) in
                  ap (get_elem? order_without) idx ∙ swapped inside ∙ ap some q
              | no q ↦
                  let old : items j ≡ some f =
                    sym (set_item_ne items l j (set_idx pl e.order_idx (items l)) q) ∙ one in
                  let at = ix.live_order j f old in
                  let inside : f.order_idx < n = omega (
                    arith,
                    get_elem?-lt order f.order_idx j at,
                    len,
                    λ (r : f.order_idx ≡ n).
                        q (bytes_inj l j (sym last ∙ ap (get_elem? order) (sym r) ∙ at)),
                  ) in
                  kept f.order_idx inside
                    (λ r. p (bytes_inj id j (sym e_at ∙ ap (get_elem? order) r ∙ at)))
                  ∙ at
            ]
      ];
    }
      where
        swapped : e.order_idx < n → get_elem? order_without e.order_idx ≡ some l
        swapped lt = ground (arith, get_elem?-swap n e.order_idx e.order_idx order l len e_lt lt)

        kept : (i : ℕ) → i < n → e.order_idx ≢ i → get_elem? order_without i ≡ get_elem? order i
        kept i lt p = ground (arith, get_elem?-swap n e.order_idx i order l len e_lt lt)

        moved :
            (i : ℕ) (j : Bytes)
            → i < n
            → e.order_idx ≡ i
            → get_elem? order_without i ≡ some j
            → l ≡ j
        moved i j lt p h = ground (arith, get_elem?-swap n e.order_idx i order l len e_lt lt)

        unmoved :
            (i : ℕ) (j : Bytes)
            → i < n
            → e.order_idx ≢ i
            → get_elem? order_without i ≡ some j
            → get_elem? order i ≡ some j
        unmoved i j lt p h = ground (arith, get_elem?-swap n e.order_idx i order l len e_lt lt)

        not_last : id ≢ l → e.order_idx ≢ n
        not_last ne r = ne (bytes_inj id l (sym e_at ∙ ap (get_elem? order) r ∙ last))

        moved_idx :
            (j : Bytes) (f : PagedEntry pl)
            → l ≡ j
            → set_item pl items l (set_idx pl e.order_idx (items l)) j ≡ some f
            → f.order_idx ≡ e.order_idx
        moved_idx j f q h =
            let (g, live_l, at) = ix.order_live n l last in
            ap (λ x. x.order_idx)
              (some_inj f (record g { order_idx = e.order_idx })
                (sym h
                  ∙ set_item_self items l j (set_idx pl e.order_idx (items l)) q
                  ∙ ap (set_idx pl e.order_idx) live_l))
