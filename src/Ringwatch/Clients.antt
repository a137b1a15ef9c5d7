-- ===== src/Ringwatch/Clients.antt =====
-- Which nodes a watcher has clients for, and at which address.
use prefixmesh.Prelude.{
  Option-cases, find, find-put, string_discrete, ℕ, String, ◌≡◌, refl, sym, ap, subst, ◌∙◌, inl,
  inr, ite, if_pos, if_neg, Bool, true, false, Option, none, some, List, [], ◌∷◌,
}
use prefixmesh.Directory.State
use prefixmesh.Ringwatch.Watcher.{
  Watcher, node_map, is_stale, dial_one, dial_all, close_gone, client_of, apply_ring,
}

abbrev pub or_else : Option String → Option String → Option String
or_else (some a) o = some a
or_else none o = o

-- The entry that a map gives, for the keys of another map.
abbrev pub only_if : Option String → Option String → Option String
only_if none o = none
only_if (some a) o = o

find-close_gone :
    (nodes cs : List (String × String)) (id : String)
    → find string_discrete id (close_gone nodes cs)
      ≡ only_if (find string_discrete id nodes) (find string_discrete id cs)
unfolding find close_gone
find-close_gone nodes [] id = elim (Option-cases (find string_discrete id nodes)) [
  | inl e ↦ rw (e) refl
  | inr (a, e) ↦ rw (e) refl
]
find-close_gone nodes ((k, addr) ∷ cs) id = elim (string_discrete k id) [
  | no p ↦ rw (if_neg _ p) (elim (Option-cases (find string_discrete k nodes)) [
    | inl e ↦ rw (e, close_gone) (find-close_gone nodes cs id)
    | inr (a, e) ↦ rw (e, close_gone, if_neg (string_discrete k id) p) (find-close_gone nodes cs id)
  ])
  | yes p ↦ rw (if_pos _ p) (elim (Option-cases (find string_discrete k nodes)) [
    | inl e ↦
        let gone : find string_discrete id nodes ≡ none =
          subst (λ x. find string_discrete x nodes ≡ none) p e in
        rw (e, close_gone, gone)
          (find-close_gone nodes cs id ∙ ap (λ o. only_if o (find string_discrete id cs)) gone)
    | inr (a, e) ↦
        let here : find string_discrete id nodes ≡ some a =
          subst (λ x. find string_discrete x nodes ≡ some a) p e in
        rw (e, close_gone, here, if_pos (string_discrete k id) p) refl
  ])
]

or_else-none : (o : Option String) → o ≡ or_else o none
or_else-none none = refl
or_else-none (some a) = refl

module _ {P : Type 0} where
  kept :
      (d : Dec P) (a old : String) (o : Option String)
      → (P → o ≡ some old)
      → o ≡ or_else o (ite d (some a) none)
  kept (yes p) a old o h = h p ∙ ap (λ x. or_else x (some a)) (sym (h p))
  kept (no p) a old o h = or_else-none o

  added :
      (d : Dec P) (a : String) (o : Option String)
      → (P → o ≡ none)
      → ite d (some a) o ≡ or_else o (ite d (some a) none)
  added (yes p) a o h = ap (λ x. or_else x (some a)) (sym (h p))
  added (no p) a o h = or_else-none o

  in_turn :
      (d : Dec P) (a : String) (o r : Option String)
      → or_else (or_else o (ite d (some a) none)) r ≡ or_else o (ite d (some a) r)
  in_turn (yes p) a none r = refl
  in_turn (yes p) a (some b) r = refl
  in_turn (no p) a none r = refl
  in_turn (no p) a (some b) r = refl

find-dial_one :
    (dial : String → Bool) (all : (a : String) → dial a ≡ true) (k addr id : String)
    (cs : List (String × String))
    → find string_discrete id (dial_one dial k addr cs)
      ≡ or_else (find string_discrete id cs) (ite (string_discrete k id) (some addr) none)
find-dial_one dial all k addr id cs = elim (Option-cases (find string_discrete k cs)) [
  | inr (old, e) ↦
      rw (e, dial_one)
        (kept (string_discrete k id) addr old (find string_discrete id cs)
          (λ p. subst (λ x. find string_discrete x cs ≡ some old) p e))
  | inl e ↦
      rw (e, dial_one, all addr)
        (find-put string_discrete k id addr cs
          ∙ added (string_discrete k id) addr (find string_discrete id cs)
              (λ p. subst (λ x. find string_discrete x cs ≡ none) p e))
]

find-dial_all :
    (dial : String → Bool) (all : (a : String) → dial a ≡ true) (id : String)
    (ns cs : List (String × String))
    → find string_discrete id (dial_all dial ns cs)
      ≡ or_else (find string_discrete id cs) (find string_discrete id ns)
unfolding find dial_all
find-dial_all dial all id [] cs = or_else-none (find string_discrete id cs)
find-dial_all dial all id ((k, addr) ∷ ns) cs =
    find-dial_all dial all id ns (dial_one dial k addr cs)
    ∙ ap (λ o. or_else o (find string_discrete id ns)) (find-dial_one dial all k addr id cs)
    ∙ in_turn (string_discrete k id) addr (find string_discrete id cs) (find string_discrete id ns)

-- After a ring update that is not stale, at a watcher that dials the nodes and whose dials all
-- succeed, there is a client for exactly the nodes of the update; a node that had a client keeps
-- that one, with the address that it was dialed at, and any other node has one for its address in
-- the update.
pub clients_after :
    (vnode_point : String → ℕ → ℕ) (dial : String → Bool) (w : Watcher) (msg : State.Ring)
    (id : String)
    → ((a : String) → dial a ≡ true)
    → w.dial_nodes ≡ true
    → is_stale w.ring msg.epoch ≡ false
    → client_of (apply_ring vnode_point dial w msg) id
      ≡ only_if
          (find string_discrete id (node_map msg.nodes []))
          (or_else (client_of w id) (find string_discrete id (node_map msg.nodes [])))
unfolding apply_ring client_of
clients_after vnode_point dial w msg id all dials fresh_ =
    let nodes = node_map msg.nodes [] in
    rw (fresh_, dials)
      (find-close_gone nodes (dial_all dial nodes w.clients) id
        ∙ ap (only_if (find string_discrete id nodes)) (find-dial_all dial all id nodes w.clients))
