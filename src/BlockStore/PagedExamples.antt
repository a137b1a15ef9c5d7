-- ===== src/BlockStore/PagedExamples.antt =====
-- Tests of the paged store, and each of its theorems at a concrete store.
use prefixmesh.Prelude.{
  ltb, leb, ◌==◌, length, In, string_discrete, Bytes, bytes_discrete, ℕ, ◌+◌, ◌-◌, ◌*◌, ◌/◌, ◌%◌,
  ◌^◌, ◌≤◌, min, ◌≡◌, refl, inl, inr, Bool, Option, none, some, List, [], ◌∷◌, arith, Floats,
}
use native.Mathlib.Nat.{mod-lt}
use prefixmesh.BlockStore.Block.{Block}
use prefixmesh.BlockStore.Paged.{
  Platform, Paged, touch_paged, with_pages, evict_lru, evict_cost, put_paged, get_paged, new_paged,
  parse_policy, unlink, last_of,
}
use prefixmesh.BlockStore.Paged.Links.{Represents, push_front, move_front}
use prefixmesh.BlockStore.Paged.LinkRuns.{
  no_links, Reaches, start, pushed, moved, Reaches-Represents,
}
use prefixmesh.BlockStore.Paged.Invariant.{IsPaged}
use prefixmesh.BlockStore.Paged.Contract.{PutsPaged, put_paged_lem, with_pages-IsPaged}
use prefixmesh.BlockStore.Paged.Runs.{Op, op_put, op_touch, apply, run, run-new_paged}

-- Whole numbers in place of floats, without decay.
abbrev whole_floats : Floats
whole_floats = record {
  Float = ℕ;
  of_nat = λ n. n;
  seconds = λ n. n / 1000000000;
  single = λ f. f;
  add = λ a b. a + b;
  sub = λ a b. a - b;
  mul = λ a b. a * b;
  div = λ a b. a / (b + 1);
  neg = λ a. a;
  exp2 = λ a. 1;
  lesser = min;
  less = ltb;
  less_eq = leb;
  equal = λ a b. a == b;
}

abbrev whole : Platform
whole = record {
  max_alloc = 1000000;
  floats = whole_floats;
  Rng = ℕ;
  seed = 1;
  intn = λ r n. (r % n, r + 1);
  intn-lt = λ r n h. mod-lt r h;
}

abbrev block : ℕ → Bytes → Block
block i payload = record {
  id = i ∷ [];
  parent_id = [];
  model_id = "m";
  payload = payload;
  token_count = 1;
  cost_us = i;
}

-- Three pages of two bytes: the third block evicts the first under "lru".
abbrev ops : List Op
ops =
    op_put (block 1 (10 ∷ 11 ∷ 12 ∷ []))
    ∷ op_put (block 2 (20 ∷ []))
    ∷ op_touch (1 ∷ [])
    ∷ op_put (block 3 (30 ∷ 31 ∷ []))
    ∷ []

after : Paged whole → Option (Paged whole) → Paged whole
after p none = p
after p (some q) = q

abbrev empty : Paged whole
empty = with_pages whole 2 3 evict_lru

empty-IsPaged : IsPaged whole empty
empty-IsPaged =
    with_pages-IsPaged whole 2 3 evict_lru (omega arith) (omega arith) (omega arith) (omega arith)

touched_stays :
    (get_paged whole (after empty (run whole empty ops)) (1 ∷ [])).1
    ≡ some (block 1 (10 ∷ 11 ∷ 12 ∷ []))
unfolding run apply put_paged get_paged touch_paged after bytes_discrete
touched_stays = refl

untouched_goes : (get_paged whole (after empty (run whole empty ops)) (2 ∷ [])).1 ≡ none
unfolding run apply put_paged get_paged touch_paged after bytes_discrete
untouched_goes = refl

cost_policy :
    (after empty (run whole (with_pages whole 2 3 evict_cost) ops)).stats.occupancy_bytes ≡ 6
unfolding run apply put_paged get_paged touch_paged after bytes_discrete
cost_policy = refl

no_page_size : new_paged whole 7 0 evict_lru ≡ none
unfolding new_paged
no_page_size = refl

policies : (parse_policy "cost" ≡ some evict_cost) × (parse_policy "lfu" ≡ none)
unfolding parse_policy string_discrete
policies = (refl, refl)

-- A page of 2^63 - 1 bytes: two bytes need -1 pages.
huge_page :
    put_paged whole (with_pages whole (2 ^ 63 - 1) 0 evict_lru) (block 1 (1 ∷ 2 ∷ [])) ≡ none
unfolding put_paged
huge_page = refl

no_room : new_paged whole 2000000 2 evict_lru ≡ none
unfolding new_paged
no_room = refl

put_is : (b c : Block) → op_put b ≡ op_put c → b ≡ c
put_is b c h = cc

ops_fit : (b : Block) → In (op_put b) ops → length b.payload + 2 ≤ 2 ^ 63
ops_fit b (inl e) = rw (put_is b (block 1 (10 ∷ 11 ∷ 12 ∷ [])) e) (omega arith)
ops_fit b (inr (inl e)) = rw (put_is b (block 2 (20 ∷ [])) e) (omega arith)
ops_fit b (inr (inr (inl e))) = cc
ops_fit b (inr (inr (inr (inl e)))) = rw (put_is b (block 3 (30 ∷ 31 ∷ [])) e) (omega arith)
ops_fit b (inr (inr (inr (inr h)))) = absurd h

put_paged_lem_example :
    (q : Paged whole) × (stored : Bool) × (put_paged whole empty (block 1 (10 ∷ 11 ∷ 12 ∷ []))
      ≡ some (q, stored))
    × IsPaged whole q
    × (q.page_size ≡ 2)
    × PutsPaged whole empty (block 1 (10 ∷ 11 ∷ 12 ∷ [])) q stored
put_paged_lem_example =
    put_paged_lem whole empty (block 1 (10 ∷ 11 ∷ 12 ∷ [])) empty-IsPaged (omega arith)

run-new_paged_example :
    (p : Paged whole) × (q : Paged whole) × (new_paged whole 7 2 evict_lru ≡ some p)
    × (run whole p ops ≡ some q)
    × (q.stats.occupancy_bytes ≤ q.stats.capacity_bytes)
    × ((id : Bytes) (c : Block)
        → (get_paged whole q id).1 ≡ some c
        → In (op_put c) ops × (c.id ≡ id))
run-new_paged_example =
    run-new_paged whole 7 2 evict_lru ops (omega arith) (omega arith) (omega arith) (omega arith)
      (omega arith) ops_fit

two_links :
    Reaches
      (move_front (push_front (push_front no_links (1 ∷ [])) (2 ∷ [])) (1 ∷ []))
      ((1 ∷ []) ∷ unlink (1 ∷ []) ((2 ∷ []) ∷ (1 ∷ []) ∷ []))
two_links =
    moved (push_front (push_front no_links (1 ∷ [])) (2 ∷ [])) ((2 ∷ []) ∷ (1 ∷ []) ∷ []) (1 ∷ [])
      (pushed (push_front no_links (1 ∷ [])) ((1 ∷ []) ∷ []) (2 ∷ [])
        (pushed no_links [] (1 ∷ []) start (λ h. h)) (λ h. elim h [ inl p ↦ cc | inr k ↦ k ]))
      (inr (inl refl))

Reaches-Represents_example :
    Represents
      (move_front (push_front (push_front no_links (1 ∷ [])) (2 ∷ [])) (1 ∷ []))
      ((1 ∷ []) ∷ unlink (1 ∷ []) ((2 ∷ []) ∷ (1 ∷ []) ∷ []))
    × ((move_front (push_front (push_front no_links (1 ∷ [])) (2 ∷ [])) (1 ∷ [])).tail
        ≡ last_of ((1 ∷ []) ∷ unlink (1 ∷ []) ((2 ∷ []) ∷ (1 ∷ []) ∷ [])))
Reaches-Represents_example =
    Reaches-Represents (move_front (push_front (push_front no_links (1 ∷ [])) (2 ∷ [])) (1 ∷ []))
      ((1 ∷ []) ∷ unlink (1 ∷ []) ((2 ∷ []) ∷ (1 ∷ []) ∷ [])) two_links
