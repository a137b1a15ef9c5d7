-- ===== src/Prefetch/Deletions.antt =====
-- What the deletions of sweepLocked leave, and facts on lists with keys.
use prefixmesh.Prelude.{
  length, In, Distinct, In-append_left, In-append_right, keys, find, delete, find-delete_ne,
  In-of_find, find_of_In, find-delete_self, Distinct-delete, Bytes, bytes_discrete, suc, ◌+◌, ◌≡◌,
  refl, sym, ap, subst, ◌∙◌, ◌≢◌, ◌⊎◌, inl, inr, if_pos, if_neg, none, List, [], ◌∷◌, ◌++◌, arith,
}
use prefixmesh.Prefetch.Planner.{delete_all}

pub delete_all-none :
    {A : Type 0} (i : Bytes) (ids : List Bytes) (m : List (Bytes × A))
    → Distinct (keys m)
    → In i ids ⊎ (find bytes_discrete i m ≡ none)
    → find bytes_discrete i (delete_all ids m) ≡ none
unfolding delete_all
delete_all-none i [] m d (inl h) = absurd h
delete_all-none i [] m d (inr h) = h
delete_all-none i (k ∷ ks) m d h =
    delete_all-none i ks (delete bytes_discrete k m) (Distinct-delete bytes_discrete k m d)
      (elim (bytes_discrete k i) [
        | yes e ↦ inr (
            subst (λ x. find bytes_discrete x (delete bytes_discrete k m) ≡ none) e
              (find-delete_self bytes_discrete k m d))
        | no e ↦ elim h [
          | inl (inl p) ↦ absurd (e (sym p))
          | inl (inr p) ↦ inl p
          | inr p ↦ inr (find-delete_ne bytes_discrete k i m e ∙ p)
        ]
      ])

pub delete_all-ne :
    {A : Type 0} (i : Bytes) (ids : List Bytes) (m : List (Bytes × A))
    → (In i ids → ⊥)
    → find bytes_discrete i (delete_all ids m) ≡ find bytes_discrete i m
unfolding delete_all
delete_all-ne i [] m h = refl
delete_all-ne i (k ∷ ks) m h =
    delete_all-ne i ks (delete bytes_discrete k m) (λ p. h (inr p))
    ∙ find-delete_ne bytes_discrete k i m (λ e. h (inl (sym e)))

length-delete :
    {A : Type 0} (k : Bytes) (m : List (Bytes × A))
    → In k (keys m)
    → length (delete bytes_discrete k m) + 1 ≡ length m
unfolding delete
length-delete k [] h = absurd h
length-delete k ((i, w) ∷ m) h = elim (bytes_discrete i k) [
  | yes e ↦ rw (if_pos _ e) (ground arith)
  | no e ↦ elim h [
    | inl p ↦ absurd (e (sym p))
    | inr p ↦ let same = length-delete k m p in rw (if_neg _ e) (omega arith)
  ]
]

In-delete_ne :
    {A : Type 0} (k j : Bytes) (m : List (Bytes × A))
    → k ≢ j
    → In j (keys m)
    → In j (keys (delete bytes_discrete k m))
In-delete_ne k j m ne h =
    let (v, q) = find_of_In bytes_discrete j m h in
    In-of_find bytes_discrete j v (delete bytes_discrete k m)
      (find-delete_ne bytes_discrete k j m ne ∙ q)

pub length-delete_all :
    {A : Type 0} (ids : List Bytes) (m : List (Bytes × A))
    → Distinct ids
    → ((i : Bytes) → In i ids → In i (keys m))
    → length (delete_all ids m) + length ids ≡ length m
unfolding delete_all
length-delete_all [] m d within = omega arith
length-delete_all (k ∷ ks) m d within =
    let shorter = length-delete k m (within k (inl refl)) in
    let rest =
      length-delete_all ks (delete bytes_discrete k m) d.1 (λ i p.
        In-delete_ne k i m (λ e. d.0 (subst (λ x. In x ks) (sym e) p)) (within i (inr p))) in
    omega arith

pub keys-append : {A : Type 0} (xs ys : List (Bytes × A)) → keys (xs ++ ys) ≡ keys xs ++ keys ys
keys-append [] ys = refl
keys-append ((k, v) ∷ xs) ys = ap (λ ks. k ∷ ks) (keys-append xs ys)

pub length-keys : {A : Type 0} (xs : List (Bytes × A)) → length (keys xs) ≡ length xs
length-keys [] = refl
length-keys ((k, v) ∷ xs) = ap suc (length-keys xs)

pub In-keys : {A : Type 0} (x : Bytes × A) (xs : List (Bytes × A)) → In x xs → In x.0 (keys xs)
In-keys x [] h = h
In-keys x ((k, v) ∷ xs) (inl e) = inl (ap (λ p. p.0) e)
In-keys x ((k, v) ∷ xs) (inr h) = inr (In-keys x xs h)

pub Distinct-split :
    (xs ys : List Bytes) → Distinct (xs ++ ys) → Distinct xs × ((a : Bytes) → In a xs → In a ys → ⊥)
Distinct-split [] ys d = (tt, λ a h i. h)
Distinct-split (x ∷ xs) ys d =
    let (left, apart) = Distinct-split xs ys d.1 in
    (
      (λ h. d.0 (In-append_left x xs ys h), left),
      λ a h i. elim h [
        | inl e ↦ d.0 (In-append_right x xs ys (subst (λ z. In z ys) e i))
        | inr p ↦ apart a p i
      ],
    )

pub keys-In :
    {A : Type 0} (k : Bytes) (xs : List (Bytes × A))
    → In k (keys xs)
    → (x : Bytes × A) × In x xs × (x.0 ≡ k)
keys-In k [] h = absurd h
keys-In k ((j, v) ∷ xs) (inl e) = ((j, v), inl refl, sym e)
keys-In k ((j, v) ∷ xs) (inr h) = let (x, i, e) = keys-In k xs h in (x, inr i, e)
