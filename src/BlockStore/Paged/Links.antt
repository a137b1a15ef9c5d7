-- ===== src/BlockStore/Paged/Links.antt =====
-- lruPushFront, lruRemove and lruMoveFront on the pointers. The links of the entries are a heap from the
-- entry's id; a chain of links stands for the list of the ids that it passes.
use prefixmesh.Prelude.{
  if◌then◌else◌, In, Distinct, Bytes, bytes_discrete, ◌≡◌, refl, ap, ◌∙◌, ◌≢◌, inl, inr, ite,
  if_pos, if_neg, Bool, true, false, Option, none, some, List, [], ◌∷◌, ◌++◌,
}

pub record Node : Type 0 where
  pub prev : Option Bytes
  pub next : Option Bytes

pub record Links : Type 0 where
  pub nodes : Bytes → Node
  pub head : Option Bytes
  pub tail : Option Bytes

abbrev pub set_node : (Bytes → Node) → Bytes → Node → Bytes → Node
set_node nodes id n j = ite (bytes_discrete id j) n (nodes j)

-- A write through a pointer that is not nil.
abbrev pub set_next : (Bytes → Node) → Option Bytes → Option Bytes → Bytes → Node
set_next nodes none v = nodes
set_next nodes (some a) v = set_node nodes a (record (nodes a) { next = v })

abbrev pub set_prev : (Bytes → Node) → Option Bytes → Option Bytes → Bytes → Node
set_prev nodes none v = nodes
set_prev nodes (some a) v = set_node nodes a (record (nodes a) { prev = v })

abbrev pub or_else : Option Bytes → Bytes → Option Bytes
or_else none e = some e
or_else (some x) e = some x

abbrev pub points_at : Option Bytes → Bytes → Bool
points_at none e = false
points_at (some x) e = ite (bytes_discrete x e) true false

-- `lruPushFront`
unfoldable pub push_front : Links → Bytes → Links
push_front l e = record {
  nodes = set_prev (set_node (l.nodes) e (record { prev = none; next = l.head })) l.head (some e);
  head = some e;
  tail = or_else l.tail e;
}

-- `p.head == e` moves the head, when the entry has no predecessor; the same for the tail.
abbrev pub end_after : Option Bytes → Option Bytes → Bytes → Option Bytes → Option Bytes
end_after (some a) old e new = old
end_after none old e new = if points_at old e then new else old

-- `lruRemove`
unfoldable pub remove : Links → Bytes → Links
remove l e =
    let first = set_next l.nodes (l.nodes e).prev (l.nodes e).next in
    let second = set_prev first (first e).next (first e).prev in
    record {
      nodes = set_node second e (record { prev = none; next = none });
      head = end_after (l.nodes e).prev l.head e (l.nodes e).next;
      tail = end_after (first e).next l.tail e (first e).prev;
    }

-- `lruMoveFront`
unfoldable pub move_front : Links → Bytes → Links
unfolding push_front remove
move_front l e = if points_at l.head e then l else push_front (remove l e) e

abbrev pub first_or : List Bytes → Option Bytes → Option Bytes
first_or [] n = n
first_or (x ∷ xs) n = some x

abbrev pub last_or : List Bytes → Option Bytes → Option Bytes
last_or [] p = p
last_or (x ∷ xs) p = last_or xs (some x)

-- The links of `xs`, between the entries `p` and `n`.
abbrev pub Chain : (Bytes → Node) → Option Bytes → List Bytes → Option Bytes → Type 0
Chain nodes p [] n = Unit
Chain nodes p (x ∷ xs) n =
    (nodes x ≡ record { prev = p; next = first_or xs n }) × Chain nodes (some x) xs n

pub record Represents (l : Links) (xs : List Bytes) : Type 0 where
  pub chained : Chain l.nodes none xs none
  pub at_head : l.head ≡ first_or xs none
  pub at_tail : l.tail ≡ last_or xs none
  pub distinct : Distinct xs

pub set_node_self :
    (nodes : Bytes → Node) (id j : Bytes) (n : Node) → id ≡ j → set_node nodes id n j ≡ n
set_node_self nodes id j n p = if_pos (bytes_discrete id j) p n (nodes j)

pub set_node_ne :
    (nodes : Bytes → Node) (id j : Bytes) (n : Node) → id ≢ j → set_node nodes id n j ≡ nodes j
set_node_ne nodes id j n p = if_neg (bytes_discrete id j) p n (nodes j)

-- Links elsewhere do not matter.
pub Chain-frame :
    (a b : Bytes → Node) (p : Option Bytes) (xs : List Bytes) (n : Option Bytes)
    → ((x : Bytes) → In x xs → b x ≡ a x)
    → Chain a p xs n
    → Chain b p xs n
Chain-frame a b p [] n h c = tt
Chain-frame a b p (x ∷ xs) n h (here, rest) =
    (h x (inl refl) ∙ here, Chain-frame a b (some x) xs n (λ y k. h y (inr k)) rest)

pub Chain-split :
    (a : Bytes → Node) (p : Option Bytes) (xs ys : List Bytes) (n : Option Bytes)
    → Chain a p (xs ++ ys) n
    → Chain a p xs (first_or ys n) × Chain a (last_or xs p) ys n
Chain-split a p [] ys n c = (tt, c)
Chain-split a p (x ∷ xs) ys n (here, rest) =
    let (front, back) = Chain-split a (some x) xs ys n rest in
    ((here ∙ ap (λ t. record { prev = p; next = t }) (first_or-append xs), front), back)
  where
    first_or-append : (zs : List Bytes) → first_or (zs ++ ys) n ≡ first_or zs (first_or ys n)
    first_or-append [] = refl
    first_or-append (z ∷ zs) = refl

pub Chain-append :
    (a : Bytes → Node) (p : Option Bytes) (xs ys : List Bytes) (n : Option Bytes)
    → Chain a p xs (first_or ys n)
    → Chain a (last_or xs p) ys n
    → Chain a p (xs ++ ys) n
Chain-append a p [] ys n c d = d
Chain-append a p (x ∷ xs) ys n (here, rest) d = (
  here ∙ ap (λ t. record { prev = p; next = t }) (first_or-append xs),
  Chain-append a (some x) xs ys n rest d,
)
  where
    first_or-append : (zs : List Bytes) → first_or zs (first_or ys n) ≡ first_or (zs ++ ys) n
    first_or-append [] = refl
    first_or-append (z ∷ zs) = refl
