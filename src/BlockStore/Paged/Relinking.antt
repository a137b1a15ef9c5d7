-- ===== src/BlockStore/Paged/Relinking.antt =====
-- The pointer operations of the recency list do what the operations on lists do.
use prefixmesh.Prelude.{
  Bool-cases, In, Distinct, In-append_left, In-append_right, Bytes, bytes_discrete, ◌≡◌, refl, sym,
  ap, subst, ◌∙◌, ◌≢◌, inl, inr, if_pos, if_neg, true, false, Option, none, some, List, [], ◌∷◌,
  ◌++◌,
}
use prefixmesh.BlockStore.Paged.{unlink}
use prefixmesh.BlockStore.Paged.Recency.{Distinct-unlink, unlink-gone}
use prefixmesh.BlockStore.Paged.Links.{
  Node, Links, set_node, set_next, set_prev, or_else, points_at, end_after, push_front, remove,
  move_front, first_or, last_or, Chain, Represents, set_node_self, set_node_ne, Chain-frame,
  Chain-split, Chain-append,
}

set_next_ne :
    (nodes : Bytes → Node) (o v : Option Bytes) (j : Bytes)
    → o ≢ some j
    → set_next nodes o v j ≡ nodes j
set_next_ne nodes none v j h = refl
set_next_ne nodes (some a) v j h =
    set_node_ne nodes a j (record (nodes a) { next = v }) (λ p. h (ap some p))

set_prev_ne :
    (nodes : Bytes → Node) (o v : Option Bytes) (j : Bytes)
    → o ≢ some j
    → set_prev nodes o v j ≡ nodes j
set_prev_ne nodes none v j h = refl
set_prev_ne nodes (some a) v j h =
    set_node_ne nodes a j (record (nodes a) { prev = v }) (λ p. h (ap some p))

last_or-In : (xs : List Bytes) (j : Bytes) → last_or xs none ≡ some j → In j xs
last_or-In [] j h = cc
last_or-In (x ∷ xs) j h = from x xs h
  where
    from : (y : Bytes) (ys : List Bytes) → last_or ys (some y) ≡ some j → In j (y ∷ ys)
    from y [] q = inl (cc)
    from y (z ∷ zs) q = inr (from z zs q)

first_or-In : (xs : List Bytes) (j : Bytes) → first_or xs none ≡ some j → In j xs
first_or-In [] j h = cc
first_or-In (x ∷ xs) j h = inl (cc)

Distinct-split :
    (xs ys : List Bytes)
    → Distinct (xs ++ ys)
    → Distinct xs × Distinct ys × ((x : Bytes) → In x xs → In x ys → ⊥)
Distinct-split [] ys d = (tt, d, λ x h k. h)
Distinct-split (x ∷ xs) ys (fresh, d) =
    let (left, right, apart) = Distinct-split xs ys d in
    (
      (λ h. fresh (In-append_left x xs ys h), left),
      right,
      λ y h k. elim h [
        | inl e ↦ fresh (In-append_right x xs ys (subst (λ z. In z ys) e k))
        | inr h' ↦ apart y h' k
      ],
    )

-- The last entry of a chain gets a new successor.
Chain-set_next :
    (nodes : Bytes → Node) (p : Option Bytes) (xs : List Bytes) (n v : Option Bytes)
    → Distinct xs
    → Chain nodes p xs n
    → Chain (set_next nodes (last_or xs none) v) p xs v
Chain-set_next nodes p [] n v d c = tt
Chain-set_next nodes p (x ∷ []) n v d (here, rest) = (
  set_node_self nodes x x (record (nodes x) { next = v }) refl
      ∙ ap {A = Node} (λ m. record m { next = v }) here,
  tt,
)
Chain-set_next nodes p (x ∷ y ∷ ys) n v (fresh, d) (here, rest) = (
  set_next_ne nodes (last_or (y ∷ ys) none) v x (λ q. fresh (last_or-In (y ∷ ys) x q)) ∙ here,
  Chain-set_next nodes (some x) (y ∷ ys) n v d rest,
)

-- The first entry of a chain gets a new predecessor.
Chain-set_prev :
    (nodes : Bytes → Node) (p : Option Bytes) (xs : List Bytes) (n v : Option Bytes)
    → Distinct xs
    → Chain nodes p xs n
    → Chain (set_prev nodes (first_or xs none) v) v xs n
Chain-set_prev nodes p [] n v d c = tt
Chain-set_prev nodes p (x ∷ xs) n v (fresh, d) (here, rest) = (
  set_node_self nodes x x (record (nodes x) { prev = v }) refl
      ∙ ap {A = Node} (λ m. record m { prev = v }) here,
  Chain-frame nodes (set_prev nodes (some x) v) (some x) xs n
      (λ y h.
        set_node_ne nodes x y (record (nodes x) { prev = v })
          (λ q. fresh (subst (λ z. In z xs) (sym q) h)))
      rest,
)

last_or-append :
    (xs ys : List Bytes) (p : Option Bytes) → last_or (xs ++ ys) p ≡ last_or ys (last_or xs p)
last_or-append [] ys p = refl
last_or-append (x ∷ xs) ys p = last_or-append xs ys (some x)

last_or-some : (xs : List Bytes) (x : Bytes) → (z : Bytes) × (last_or xs (some x) ≡ some z)
last_or-some [] x = (x, refl)
last_or-some (y ∷ ys) x = last_or-some ys y

unlink-append :
    (e : Bytes) (xs ys : List Bytes) → (In e xs → ⊥) → unlink e (xs ++ e ∷ ys) ≡ xs ++ ys
unlink-append e [] ys h = if_pos (bytes_discrete e e) refl ys (e ∷ unlink e ys)
unlink-append e (x ∷ xs) ys h =
    if_neg (bytes_discrete x e) (λ p. h (inl (sym p))) (xs ++ e ∷ ys) (x ∷ unlink e (xs ++ e ∷ ys))
    ∙ ap (λ t. x ∷ t) (unlink-append e xs ys (λ k. h (inr k)))

In-split :
    (e : Bytes) (xs : List Bytes)
    → In e xs
    → (es : List Bytes) × (bs : List Bytes) × (xs ≡ es ++ e ∷ bs)
In-split e [] h = absurd h
In-split e (x ∷ xs) (inl p) = ([], xs, ap (λ y. y ∷ xs) (sym p))
In-split e (x ∷ xs) (inr h) = let (es, bs, p) = In-split e xs h in (x ∷ es, bs, ap (λ t. x ∷ t) p)

points_at_self : (o : Option Bytes) (e : Bytes) → o ≡ some e → points_at o e ≡ true
points_at_self none e h = cc
points_at_self (some x) e h = if_pos (bytes_discrete x e) (cc) true false

points_at-some : (o : Option Bytes) (e : Bytes) → points_at o e ≡ true → o ≡ some e
points_at-some none e h = cc
points_at-some (some x) e h = elim (bytes_discrete x e) [
  | yes p ↦ ap some p
  | no p ↦ cc (if_neg (bytes_discrete x e) p true false, h)
]

module _ (l : Links) (e : Bytes) (es bs : List Bytes) (r : Represents l (es ++ e ∷ bs)) where
  abbrev a : Option Bytes
  a = last_or es none

  abbrev c : Option Bytes
  c = first_or bs none

  around :
      Chain l.nodes none es (some e)
      × (l.nodes e ≡ record { prev = a; next = c })
      × Chain l.nodes (some e) bs none
  around =
      let (front, back) = Chain-split l.nodes none es (e ∷ bs) none r.chained in
      (front, back.0, back.1)

  parts :
      Distinct es
      × (In e bs → ⊥)
      × Distinct bs
      × ((x : Bytes) → In x es → In x bs → ⊥)
      × (In e es → ⊥)
  parts =
      let (left, right, apart) = Distinct-split es (e ∷ bs) r.distinct in
      (left, right.0, right.1, λ x h k. apart x h (inr k), λ h. apart e h (inl refl))

  abbrev one : Bytes → Node
  one = set_next l.nodes a c

  abbrev two : Bytes → Node
  two = set_prev one c a

  abbrev three : Bytes → Node
  three = set_node two e (record { prev = none; next = none })

  one_e : one e ≡ record { prev = a; next = c }
  one_e = set_next_ne l.nodes a c e (λ q. parts.4 (last_or-In es e q)) ∙ around.1

  opened :
      remove l e
      ≡ record { nodes = three; head = end_after a l.head e c; tail = end_after c l.tail e a }
  unfolding remove
  opened = rw (around.1, one_e) refl

  es-Chain : Chain three none es c
  es-Chain =
      Chain-frame two three none es c
        (λ x h.
          set_node_ne two e x (record { prev = none; next = none })
            (λ q. parts.4 (subst (λ z. In z es) (sym q) h)))
        (Chain-frame one two none es c
          (λ x h. set_prev_ne one c a x (λ q. parts.3 x h (first_or-In bs x q)))
          (Chain-set_next l.nodes none es (some e) c parts.0 around.0))

  bs-Chain : Chain three a bs none
  bs-Chain =
      Chain-frame two three a bs none
        (λ x h.
          set_node_ne two e x (record { prev = none; next = none })
            (λ q. parts.1 (subst (λ z. In z bs) (sym q) h)))
        (Chain-set_prev one (some e) bs none a parts.2 (
          Chain-frame l.nodes one (some e) bs none
            (λ x h. set_next_ne l.nodes a c x (λ q. parts.3 x (last_or-In es x q) h)) around.2))

  head_after :
      (xs : List Bytes)
      → es ≡ xs
      → end_after (last_or xs none) l.head e c ≡ first_or (xs ++ bs) none
  head_after [] p =
      rw (points_at_self l.head e (r.at_head ∙ ap (λ t. first_or (t ++ e ∷ bs) none) p)) refl
  head_after (x ∷ xs) p =
      let (z, last) = last_or-some xs x in
      ap (λ o. end_after o l.head e c) last ∙ r.at_head ∙ ap (λ t. first_or (t ++ e ∷ bs) none) p

  tail_after :
      (ys : List Bytes)
      → bs ≡ ys
      → end_after (first_or ys none) l.tail e a ≡ last_or (es ++ ys) none
  tail_after [] p =
      let at = r.at_tail ∙ last_or-append es (e ∷ bs) none ∙ ap (λ t. last_or t (some e)) p in
      rw (points_at_self l.tail e at) (sym (last_or-append es [] none))
  tail_after (y ∷ ys) p =
      r.at_tail
      ∙ last_or-append es (e ∷ bs) none
      ∙ ap (λ t. last_or t (some e)) p
      ∙ sym (last_or-append es (y ∷ ys) none)

  remove_between : Represents (remove l e) (es ++ bs)
  remove_between =
      subst (λ m. Represents m (es ++ bs)) (sym opened)
        (record {
          chained = Chain-append three none es bs none es-Chain bs-Chain;
          at_head = head_after es refl;
          at_tail = tail_after bs refl;
          distinct =
              subst Distinct (unlink-append e es bs parts.4)
                (Distinct-unlink e (es ++ e ∷ bs) r.distinct);
        })

  pub remove_split : Represents (remove l e) (unlink e (es ++ e ∷ bs))
  remove_split =
      subst (Represents (remove l e)) (sym (unlink-append e es bs parts.4)) remove_between

pub remove_lem :
    (l : Links) (e : Bytes) (xs : List Bytes)
    → Represents l xs
    → In e xs
    → Represents (remove l e) (unlink e xs)
remove_lem l e xs r h =
    let (es, bs, p) = In-split e xs h in
    subst (λ t. Represents (remove l e) (unlink e t)) (sym p)
      (remove_split l e es bs (subst (Represents l) p r))

pub push_front_lem :
    (l : Links) (e : Bytes) (xs : List Bytes)
    → Represents l xs
    → (In e xs → ⊥)
    → Represents (push_front l e) (e ∷ xs)
unfolding push_front
push_front_lem l e xs r fresh =
    let n : Node = record { prev = none; next = first_or xs none } in
    let nodes = set_node l.nodes e n in
    let alone =
      Chain-frame l.nodes nodes none xs none
        (λ x h. set_node_ne l.nodes e x n (λ q. fresh (subst (λ z. In z xs) (sym q) h)))
        r.chained in
    let here : set_prev nodes (first_or xs none) (some e) e ≡ n =
      set_prev_ne nodes (first_or xs none) (some e) e (λ q. fresh (first_or-In xs e q))
      ∙ set_node_self l.nodes e e n refl in
    record {
      chained =
          subst
            (λ o.
              Chain (set_prev (set_node l.nodes e (record { prev = none; next = o })) o (some e))
                none (e ∷ xs) none)
            (sym r.at_head) (here, Chain-set_prev nodes none xs none (some e) r.distinct alone);
      at_head = refl;
      at_tail = ap (λ o. or_else o e) r.at_tail ∙ tail_is xs;
      distinct = (fresh, r.distinct);
    }
  where
    tail_is : (ys : List Bytes) → or_else (last_or ys none) e ≡ last_or ys (some e)
    tail_is [] = refl
    tail_is (y ∷ ys) = let (z, last) = last_or-some ys y in ap (λ o. or_else o e) last ∙ sym last

pub move_front_lem :
    (l : Links) (e : Bytes) (xs : List Bytes)
    → Represents l xs
    → In e xs
    → Represents (move_front l e) (e ∷ unlink e xs)
unfolding move_front
move_front_lem l e xs r h = elim (Bool-cases (points_at l.head e)) [
  | inr q ↦ rw q (
      push_front_lem (remove l e) e (unlink e xs) (remove_lem l e xs r h)
        (unlink-gone e xs r.distinct))
  | inl q ↦ rw q (subst (Represents l) (in_front q xs r.at_head) r)
]
  where
    in_front :
        points_at l.head e ≡ true
        → (ys : List Bytes) → l.head ≡ first_or ys none
        → ys ≡ e ∷ unlink e ys
    in_front q [] p = cc (p, points_at-some l.head e q)
    in_front q (y ∷ ys) p =
        let y_is : y ≡ e = cc (p, points_at-some l.head e q) in
        ap (λ t. t ∷ ys) y_is
        ∙ ap (λ t. e ∷ t) (sym (if_pos (bytes_discrete y e) y_is ys (y ∷ unlink e ys)))
