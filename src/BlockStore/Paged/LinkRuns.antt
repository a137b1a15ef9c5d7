-- ===== src/BlockStore/Paged/LinkRuns.antt =====
-- The recency list over any sequence of pointer operations.
use prefixmesh.Prelude.{In, Bytes, ◌≡◌, refl, ◌∙◌, none, some, List, [], ◌∷◌}
use prefixmesh.BlockStore.Paged.{unlink, last_of}
use prefixmesh.BlockStore.Paged.Links.{Links, push_front, remove, move_front, last_or, Represents}
use prefixmesh.BlockStore.Paged.Relinking.{remove_lem, push_front_lem, move_front_lem}

abbrev pub no_links : Links
no_links = record { nodes = λ _. record { prev = none; next = none }; head = none; tail = none }

-- The links that the operations make from none, with the list that stands for them: the store pushes
-- entries that are not in the list, and moves and removes entries that are.
pub data Reaches : Links → List Bytes → Type 0 where
  start : Reaches no_links []
  pushed :
      (l : Links) (xs : List Bytes) (e : Bytes)
      → Reaches l xs
      → (In e xs → ⊥)
      → Reaches (push_front l e) (e ∷ xs)
  removed :
      (l : Links) (xs : List Bytes) (e : Bytes)
      → Reaches l xs
      → In e xs
      → Reaches (remove l e) (unlink e xs)
  moved :
      (l : Links) (xs : List Bytes) (e : Bytes)
      → Reaches l xs
      → In e xs
      → Reaches (move_front l e) (e ∷ unlink e xs)

reached : (l : Links) (xs : List Bytes) → Reaches l xs → Represents l xs
reached l xs start = record { chained = tt; at_head = refl; at_tail = refl; distinct = tt }
reached l xs (pushed k ys e r fresh) = push_front_lem k e ys (reached k ys r) fresh
reached l xs (removed k ys e r h) = remove_lem k e ys (reached k ys r) h
reached l xs (moved k ys e r h) = move_front_lem k e ys (reached k ys r) h

last_or-last_of : (xs : List Bytes) → last_or xs none ≡ last_of xs
last_or-last_of [] = refl
last_or-last_of (x ∷ xs) = from x xs
  where
    from : (y : Bytes) (ys : List Bytes) → last_or ys (some y) ≡ last_of (y ∷ ys)
    from y [] = refl
    from y (z ∷ zs) = from z zs

-- From the empty list on, as long as entries are pushed only when they are not in the list and
-- removed or moved only when they are, the links that lruPushFront, lruRemove and lruMoveFront
-- leave stand, in both directions, for the list with the entry put in front, taken out, or moved
-- to the front, and the tail is its last entry.
pub Reaches-Represents :
    (l : Links) (xs : List Bytes) → Reaches l xs → Represents l xs × (l.tail ≡ last_of xs)
Reaches-Represents l xs r = let rep = reached l xs r in (rep, rep.at_tail ∙ last_or-last_of xs)
