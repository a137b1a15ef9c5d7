-- ===== src/BlockStore/Lru/Laws.antt =====
-- The entries of an LRU store under moves, reads and removals.
use prefixmesh.Prelude.{
  In, Distinct, In-append_left, Bytes, bytes_discrete, ℕ, ◌+◌, ◌^◌, ◌≤◌, ◌<◌, ◌≡◌, refl, sym, ap,
  subst, ◌∙◌, ◌≢◌, inl, inr, ite, if_pos, if_neg, none, some, List, [], ◌∷◌, ◌++◌, arith,
}
use prefixmesh.BlockStore.Block.{Stats}
use prefixmesh.BlockStore.Lru.{
  Entry, Lru, block_size, find_entry, remove_entry, move_to_front, last_entry, drop_last,
}

abbrev pub entry_ids : List Entry → List Bytes
entry_ids [] = []
entry_ids (e ∷ es) = e.block.id ∷ entry_ids es

abbrev pub total_size : List Entry → ℕ
total_size [] = 0
total_size (e ∷ es) = e.size + total_size es

abbrev pub Sized : List Entry → Type 0
Sized [] = Unit
Sized (e ∷ es) = (e.size ≡ block_size e.block) × Sized es

-- No block twice, each entry charged for its block, the total kept in `used` and within `cap`. The
-- capacity leaves room for a sum of two sizes in a uint64.
pub record IsValid (s : Lru) : Type 0 where
  pub once : Distinct (entry_ids s.entries)
  pub sized : Sized s.entries
  pub accounted : s.used ≡ total_size s.entries
  pub within : s.used ≤ s.cap
  pub small : s.cap < 2 ^ 63

pub find_entry_id :
    (id : Bytes) (es : List Entry) (e : Entry) → find_entry id es ≡ some e → e.block.id ≡ id
unfolding find_entry
find_entry_id id [] e h = cc
find_entry_id id (x ∷ xs) e h = elim (bytes_discrete x.block.id id) [
  | yes p ↦ ap (λ y. y.block.id) (some_inj (sym (rw (if_pos _ p) at h))) ∙ p
  | no p ↦ find_entry_id id xs e (rw (if_neg _ p) at h)
]
  where
    some_inj : some e ≡ some x → e ≡ x
    some_inj q = cc

In-remove :
    (id j : Bytes) (es : List Entry) → In j (entry_ids (remove_entry id es)) → In j (entry_ids es)
unfolding remove_entry
In-remove id j [] h = h
In-remove id j (x ∷ xs) h = elim (bytes_discrete x.block.id id) [
  | yes p ↦ inr (rw (if_pos _ p) at h)
  | no p ↦ elim (rw (if_neg _ p) at h) [ inl q ↦ inl q | inr q ↦ inr (In-remove id j xs q) ]
]

remove_absent :
    (id : Bytes) (es : List Entry)
    → Distinct (entry_ids es)
    → In id (entry_ids (remove_entry id es))
    → ⊥
unfolding remove_entry
remove_absent id [] d h = h
remove_absent id (x ∷ xs) d h = elim (bytes_discrete x.block.id id) [
  | yes p ↦ d.0 (subst (λ y. In y (entry_ids xs)) (sym p) (rw (if_pos _ p) at h))
  | no p ↦ elim (rw (if_neg _ p) at h) [ inl q ↦ p (sym q) | inr q ↦ remove_absent id xs d.1 q ]
]

Distinct-remove :
    (id : Bytes) (es : List Entry)
    → Distinct (entry_ids es)
    → Distinct (entry_ids (remove_entry id es))
unfolding remove_entry
Distinct-remove id [] d = tt
Distinct-remove id (x ∷ xs) d = elim (bytes_discrete x.block.id id) [
  | yes p ↦ rw (if_pos _ p) d.1
  | no p ↦ rw (if_neg _ p) (λ h. d.0 (In-remove id x.block.id xs h), Distinct-remove id xs d.1)
]

Sized-remove : (id : Bytes) (es : List Entry) → Sized es → Sized (remove_entry id es)
unfolding remove_entry
Sized-remove id [] h = tt
Sized-remove id (x ∷ xs) h = elim (bytes_discrete x.block.id id) [
  | yes p ↦ rw (if_pos _ p) h.1
  | no p ↦ rw (if_neg _ p) (h.0, Sized-remove id xs h.1)
]

find-Sized :
    (id : Bytes) (es : List Entry) (e : Entry)
    → find_entry id es ≡ some e
    → Sized es
    → e.size ≡ block_size e.block
unfolding find_entry
find-Sized id [] e h s = cc
find-Sized id (x ∷ xs) e h s = elim (bytes_discrete x.block.id id) [
  | yes p ↦ subst (λ y. y.size ≡ block_size y.block) (some_inj (rw (if_pos _ p) at h)) s.0
  | no p ↦ find-Sized id xs e (rw (if_neg _ p) at h) s.1
]
  where
    some_inj : some x ≡ some e → x ≡ e
    some_inj q = cc

total_size-remove :
    (id : Bytes) (es : List Entry) (e : Entry)
    → find_entry id es ≡ some e
    → e.size + total_size (remove_entry id es) ≡ total_size es
unfolding find_entry remove_entry
total_size-remove id [] e h = cc
total_size-remove id (x ∷ xs) e h = elim (bytes_discrete x.block.id id) [
  | yes p ↦ rw (if_pos _ p) (ap (λ y. y.size + total_size xs) (some_inj (rw (if_pos _ p) at h)))
  | no p ↦ rw (if_neg _ p) (omega (arith, total_size-remove id xs e (rw (if_neg _ p) at h)))
]
  where
    some_inj : some x ≡ some e → e ≡ x
    some_inj q = cc

find-remove_ne :
    (id j : Bytes) (es : List Entry) → id ≢ j → find_entry j (remove_entry id es) ≡ find_entry j es
unfolding find_entry remove_entry
find-remove_ne id j [] h = refl
find-remove_ne id j (x ∷ xs) h = elim (bytes_discrete x.block.id id) [
  | yes p ↦
      rw (if_pos _ p)
        (sym (if_neg (bytes_discrete x.block.id j) (λ q. h (sym p ∙ q)) (some x) (find_entry j xs)))
  | no p ↦
      rw (if_neg _ p) (ap (ite (bytes_discrete x.block.id j) (some x)) (find-remove_ne id j xs h))
]

-- A move to the front keeps every lookup.
pub find-move_to_front :
    (id j : Bytes) (es : List Entry) (e : Entry)
    → find_entry id es ≡ some e
    → find_entry j (move_to_front es e) ≡ find_entry j es
unfolding find_entry
find-move_to_front id j es e h = elim (bytes_discrete e.block.id j) [
  | yes p ↦
      if_pos (bytes_discrete e.block.id j) p (some e) (find_entry j (remove_entry e.block.id es))
      ∙ sym h
      ∙ ap (λ y. find_entry y es) (sym (find_entry_id id es e h) ∙ p)
  | no p ↦
      if_neg (bytes_discrete e.block.id j) p (some e) (find_entry j (remove_entry e.block.id es))
      ∙ find-remove_ne e.block.id j es p
]

pub move_to_front-IsValid :
    (s : Lru) (id : Bytes) (e : Entry) (st : Stats)
    → find_entry id s.entries ≡ some e
    → IsValid s
    → IsValid (record s { entries = move_to_front s.entries e; stats = st })
move_to_front-IsValid s id e st h v = record {
  once = (remove_absent e.block.id s.entries v.once, Distinct-remove e.block.id s.entries v.once);
  sized = (find-Sized id s.entries e h v.sized, Sized-remove e.block.id s.entries v.sized);
  accounted =
      v.accounted
      ∙ sym (
          total_size-remove e.block.id s.entries e
            (ap (λ y. find_entry y s.entries) (find_entry_id id s.entries e h) ∙ h));
  within = v.within;
  small = v.small;
}

-- The end of the list.
pub drop_last_facts :
    (es : List Entry) (e : Entry)
    → last_entry es ≡ some e
    → (es ≡ drop_last es ++ e ∷ []) × (total_size es ≡ total_size (drop_last es) + e.size)
unfolding last_entry drop_last
drop_last_facts [] e h = cc
drop_last_facts (x ∷ []) e h =
    (ap (λ y. y ∷ []) (some_inj h), ap (λ y. y.size + 0) (some_inj h) ∙ omega arith)
  where
    some_inj : some x ≡ some e → x ≡ e
    some_inj q = cc
drop_last_facts (x ∷ y ∷ es) e h =
    let r = drop_last_facts (y ∷ es) e h in (ap (◌∷◌ x) r.0, omega (arith, r.1))

pub last_entry-none : (es : List Entry) → last_entry es ≡ none → es ≡ []
unfolding last_entry
last_entry-none [] h = refl
last_entry-none (x ∷ []) h = cc
last_entry-none (x ∷ y ∷ es) h = absurd (last_of_cons y es h)
  where
    last_of_cons : (z : Entry) (zs : List Entry) → last_entry (z ∷ zs) ≡ none → ⊥
    last_of_cons z [] q = cc
    last_of_cons z (w ∷ zs) q = last_of_cons w zs q

pub entry_ids-append : (xs ys : List Entry) → entry_ids (xs ++ ys) ≡ entry_ids xs ++ entry_ids ys
entry_ids-append [] ys = refl
entry_ids-append (x ∷ xs) ys = ap (◌∷◌ x.block.id) (entry_ids-append xs ys)

pub Distinct-left : (xs ys : List Entry) → Distinct (entry_ids (xs ++ ys)) → Distinct (entry_ids xs)
Distinct-left [] ys d = tt
Distinct-left (x ∷ xs) ys d = (
  λ h. d.0 (
      subst (In x.block.id) (sym (entry_ids-append xs ys))
        (In-append_left x.block.id (entry_ids xs) (entry_ids ys) h)),
  Distinct-left xs ys d.1,
)

pub Sized-left : (xs ys : List Entry) → Sized (xs ++ ys) → Sized xs
Sized-left [] ys h = tt
Sized-left (x ∷ xs) ys h = (h.0, Sized-left xs ys h.1)
