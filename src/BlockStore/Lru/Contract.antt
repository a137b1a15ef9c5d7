-- ===== src/BlockStore/Lru/Contract.antt =====
-- The LRU store keeps the contract of `Store`.
use prefixmesh.Prelude.{
  Option-cases, Bytes, ◌≡◌, refl, ap, ◌∙◌, inl, inr, Bool, true, false, Option, none, some,
}
use prefixmesh.BlockStore.Block.{Block, Store, StoreLaws, is_present}
use prefixmesh.BlockStore.Lru.{
  Entry, Lru, find_entry, put_block, get_block, contains_block, touch_block, stats_of,
}
use prefixmesh.BlockStore.Lru.Laws.{IsValid, find-move_to_front}
use prefixmesh.BlockStore.Lru.Eviction.{Puts, front-Puts, put_block_lem, reads-IsValid}

abbrev pub block_in : Option Entry → Option Block
block_in none = none
block_in (some e) = some e.block

abbrev pub lru_store : Store Lru
lru_store = record {
  put_one = put_block;
  get_one = get_block;
  contains_one = contains_block;
  touch_one = touch_block;
  stats_one = stats_of;
}

abbrev pub lookup : Lru → Bytes → Option Block
lookup s id = block_in (find_entry id s.entries)

pub get_keeps :
    (s : Lru) (id : Bytes)
    → ((get_block s id).1 ≡ lookup s id) × ((j : Bytes) → lookup (get_block s id).0 j ≡ lookup s j)
unfolding get_block
get_keeps s id = elim (Option-cases (find_entry id s.entries)) [
  | inl absent ↦ rw (absent, get_block) (refl, λ j. refl)
  | inr (e, found) ↦
      rw (found, get_block) (refl, λ j. ap block_in (find-move_to_front id j s.entries e found))
]

pub contains_keeps :
    (s : Lru) (id : Bytes)
    → ((contains_block s id).1 ≡ is_present (lookup s id))
      × ((j : Bytes) → lookup (contains_block s id).0 j ≡ lookup s j)
unfolding contains_block
contains_keeps s id = elim (Option-cases (find_entry id s.entries)) [
  | inl absent ↦ rw (absent, contains_block) (refl, λ j. refl)
  | inr (e, found) ↦
      rw (found, contains_block)
        (refl, λ j. ap block_in (find-move_to_front id j s.entries e found))
]

pub touch_keeps : (s : Lru) (id j : Bytes) → lookup (touch_block s id) j ≡ lookup s j
unfolding touch_block
touch_keeps s id j = elim (Option-cases (find_entry id s.entries)) [
  | inl absent ↦ rw (absent, touch_block) refl
  | inr (e, found) ↦
      rw (found, touch_block) (ap block_in (find-move_to_front id j s.entries e found))
]

pub Puts-stored :
    (s s' : Lru) (b : Block) (stored : Bool)
    → Puts s b s' stored
    → stored ≡ true
    → lookup s' b.id ≡ some b
Puts-stored s s' b true p h = ap block_in (front-Puts s s' b p)
Puts-stored s s' b false p h = cc

pub Puts-refused :
    (s s' : Lru) (b : Block) (stored : Bool)
    → Puts s b s' stored
    → stored ≡ false
    → (j : Bytes) → lookup s' j ≡ lookup s j
Puts-refused s s' b true p h j = cc
Puts-refused s s' b false (inl (e, found, moved)) h j =
    ap (λ es. block_in (find_entry j es)) moved
    ∙ ap block_in (find-move_to_front b.id j s.entries e found)
Puts-refused s s' b false (inr (absent, big, same)) h j = ap (λ x. lookup x j) same

-- Every valid LRU store keeps the contract: `Get`, `Contains` and `Touch` tell what is stored and
-- lose none of it, and `Put` does not fault, has stored the block when it says so, and otherwise
-- leaves every block findable.
abbrev pub lru_laws : StoreLaws lru_store
lru_laws = record {
  IsGood = IsValid;
  stored_block = lookup;
  get_lem = λ s id v. let k = get_keeps s id in ((reads-IsValid s id v).0, k.0, k.1);
  contains_lem = λ s id v. let k = contains_keeps s id in ((reads-IsValid s id v).1, k.0, k.1);
  touch_lem = λ s id v. ((reads-IsValid s id v).2, touch_keeps s id);
  put_lem = λ s b v.
      let (s', stored, ran, good, p) = put_block_lem s b v in
      (s', stored, ran, good, Puts-stored s s' b stored p, Puts-refused s s' b stored p);
}
