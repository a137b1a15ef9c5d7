-- ===== src/BlockStore/Paged/Recency.antt =====
-- The recency list of the paged store: it lists the ids that have an entry, each once.
use prefixmesh.Prelude.{
  In, Distinct, Bytes, bytes_discrete, ◌≡◌, refl, sym, subst, ◌∙◌, ◌≢◌, inl, inr, if_pos, if_neg,
  none, some, List, [], ◌∷◌,
}
use prefixmesh.BlockStore.Paged.{Platform, PagedEntry, set_item, unlink, last_of}
use prefixmesh.BlockStore.Paged.Slots.{Items, set_item_self, set_item_ne}

pub In-unlink : (id x : Bytes) (xs : List Bytes) → In x (unlink id xs) → In x xs
In-unlink id x [] h = h
In-unlink id x (y ∷ xs) h = elim (bytes_discrete y id) [
  | yes p ↦ inr (subst (In x) (if_pos (bytes_discrete y id) p xs (y ∷ unlink id xs)) h)
  | no p ↦ elim (subst (In x) (if_neg (bytes_discrete y id) p xs (y ∷ unlink id xs)) h) [
    | inl e ↦ inl e
    | inr k ↦ inr (In-unlink id x xs k)
  ]
]

pub unlink-In : (id x : Bytes) (xs : List Bytes) → id ≢ x → In x xs → In x (unlink id xs)
unlink-In id x [] ne h = h
unlink-In id x (y ∷ xs) ne h = elim (bytes_discrete y id) [
  | yes p ↦ elim h [
    | inl e ↦ absurd (ne (sym p ∙ sym e))
    | inr k ↦ subst (In x) (sym (if_pos (bytes_discrete y id) p xs (y ∷ unlink id xs))) k
  ]
  | no p ↦ elim h [
    | inl e ↦ subst (In x) (sym (if_neg (bytes_discrete y id) p xs (y ∷ unlink id xs))) (inl e)
    | inr k ↦
        subst (In x) (sym (if_neg (bytes_discrete y id) p xs (y ∷ unlink id xs)))
          (inr (unlink-In id x xs ne k))
  ]
]

pub unlink-gone : (id : Bytes) (xs : List Bytes) → Distinct xs → In id (unlink id xs) → ⊥
unlink-gone id [] d h = h
unlink-gone id (y ∷ xs) (fresh, d) h = elim (bytes_discrete y id) [
  | yes p ↦
      let k = subst (In id) (if_pos (bytes_discrete y id) p xs (y ∷ unlink id xs)) h in
      fresh (subst (λ z. In z xs) (sym p) k)
  | no p ↦ elim (subst (In id) (if_neg (bytes_discrete y id) p xs (y ∷ unlink id xs)) h) [
    | inl e ↦ p (sym e)
    | inr k ↦ unlink-gone id xs d k
  ]
]

pub Distinct-unlink : (id : Bytes) (xs : List Bytes) → Distinct xs → Distinct (unlink id xs)
Distinct-unlink id [] d = d
Distinct-unlink id (y ∷ xs) (fresh, d) = elim (bytes_discrete y id) [
  | yes p ↦ subst Distinct (sym (if_pos (bytes_discrete y id) p xs (y ∷ unlink id xs))) d
  | no p ↦
      subst Distinct (sym (if_neg (bytes_discrete y id) p xs (y ∷ unlink id xs)))
        (λ h. fresh (In-unlink id y xs h), Distinct-unlink id xs d)
]

pub last_of-some :
    (xs : List Bytes) (x : Bytes) → In x xs → (l : Bytes) × (last_of xs ≡ some l) × In l xs
last_of-some [] x h = absurd h
last_of-some (y ∷ []) x h = (y, refl, inl refl)
last_of-some (y ∷ z ∷ xs) x h = let (l, e, k) = last_of-some (z ∷ xs) z (inl refl) in (l, e, inr k)

pub last_of-In : (xs : List Bytes) (l : Bytes) → last_of xs ≡ some l → In l xs
last_of-In [] l h = cc
last_of-In (y ∷ []) l h = inl (cc)
last_of-In (y ∷ z ∷ xs) l h = inr (last_of-In (z ∷ xs) l h)

module _ (pl : Platform) where
  pub record IsRecent (items : Items pl) (recency : List Bytes) : Type 0 where
    pub recent_live : (id : Bytes) → In id recency → (e : PagedEntry pl) × (items id ≡ some e)
    pub live_recent : (id : Bytes) (e : PagedEntry pl) → items id ≡ some e → In id recency
    pub once : Distinct recency

  pub IsRecent-front :
      (items : Items pl) (recency : List Bytes) (id : Bytes) (e : PagedEntry pl)
      → IsRecent items recency
      → IsRecent (set_item pl items id (some e)) (id ∷ unlink id recency)
  IsRecent-front items recency id e r = record {
    recent_live = λ j h. elim (bytes_discrete id j) [
      | yes p ↦ (e, set_item_self pl items id j (some e) p)
      | no p ↦ elim h [
        | inl q ↦ absurd (p (sym q))
        | inr k ↦
            let (f, live) = r.recent_live j (In-unlink id j recency k) in
            (f, set_item_ne pl items id j (some e) p ∙ live)
      ]
    ];
    live_recent = λ j f h. elim (bytes_discrete id j) [
      | yes p ↦ inl (sym p)
      | no p ↦ inr (
          unlink-In id j recency p
            (r.live_recent j f (sym (set_item_ne pl items id j (some e) p) ∙ h)))
    ];
    once = (unlink-gone id recency (r.once), Distinct-unlink id recency (r.once));
  }

  -- A new entry in front.
  pub IsRecent-push :
      (items : Items pl) (recency : List Bytes) (id : Bytes) (e : PagedEntry pl)
      → items id ≡ none
      → IsRecent items recency
      → IsRecent (set_item pl items id (some e)) (id ∷ recency)
  IsRecent-push items recency id e absent r = record {
    recent_live = λ j h. elim (bytes_discrete id j) [
      | yes p ↦ (e, set_item_self pl items id j (some e) p)
      | no p ↦ elim h [
        | inl q ↦ absurd (p (sym q))
        | inr k ↦
            let (f, live) = r.recent_live j k in (f, set_item_ne pl items id j (some e) p ∙ live)
      ]
    ];
    live_recent = λ j f h. elim (bytes_discrete id j) [
      | yes p ↦ inl (sym p)
      | no p ↦ inr (r.live_recent j f (sym (set_item_ne pl items id j (some e) p) ∙ h))
    ];
    once = (λ h. let (f, live) = r.recent_live id h in cc (absent, live), r.once);
  }

  -- An entry leaves; the items that stay may have changed otherwise.
  pub IsRecent-remove :
      (items without : Items pl) (recency : List Bytes) (id : Bytes)
      → without id ≡ none
      → ((j : Bytes) (e : PagedEntry pl)
          → id ≢ j
          → items j ≡ some e
          → (f : PagedEntry pl) × (without j ≡ some f))
      → ((j : Bytes) (e : PagedEntry pl)
          → without j ≡ some e
          → (f : PagedEntry pl) × (items j ≡ some f))
      → IsRecent items recency
      → IsRecent without (unlink id recency)
  IsRecent-remove items without recency id gone stays was r = record {
    recent_live = λ j h.
        let (e, live) = r.recent_live j (In-unlink id j recency h) in
        stays j e
          (λ p. unlink-gone id recency (r.once) (subst (λ z. In z (unlink id recency)) (sym p) h))
          live;
    live_recent = λ j f h.
        let (e, live) = was j f h in
        unlink-In id j recency (λ p. cc (gone, h, p)) (r.live_recent j e live);
    once = Distinct-unlink id recency (r.once);
  }
