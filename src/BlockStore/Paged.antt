-- ===== src/BlockStore/Paged.antt =====
-- internal/blockstore/paged.go. A pointer to an entry is the id of its block: an id has at most one
-- entry at a time. `recency` is the intrusive list, most recent first (Links shows that the pointer
-- code keeps it), `order` the sampling index. The arena is given by its pages: a copy to
-- `arena[pg*pageSize:]` is of a page's length at most, so it stays within the page. The end of the
-- slice `free` is the head of the list. The floats and the random generator are parameters.
use prefixmesh.Prelude.{
  ltb, leb, ◌==◌, if◌then◌else◌, length, get_elem?, take, drop, string_discrete, Bytes,
  bytes_discrete, set, ℕ, zero, suc, ◌+◌, ◌-◌, ◌*◌, ◌/◌, ◌%◌, ◌^◌, ◌<◌, min, String, ite, Bool,
  true, false, ◌&&◌, ◌||◌, Option, none, some, List, [], ◌∷◌, ◌++◌, ℕ_discrete, Floats,
}
use prefixmesh.BlockStore.Block.{Block, Stats, no_stats}
pub mod Links
pub mod Relinking
pub mod LinkRuns
pub mod Slots
pub mod Recency
pub mod Pages
pub mod Invariant
pub mod Victims
pub mod Removal
pub mod Eviction
pub mod Putting
pub mod Contract
pub mod Reads
pub mod Runs

-- float64, math/rand, and the most bytes that a `make` is given; one of more is a panic.
pub record Platform : Type 1 where
  pub max_alloc : ℕ
  pub floats : Floats
  pub Rng : Type 0
  pub seed : Rng
  pub intn : Rng → ℕ → ℕ × Rng
  pub intn-lt : (r : Rng) (n : ℕ) → 0 < n → (intn r n).0 < n

pub data EvictionPolicy : Type 0 where
  evict_lru evict_cost : EvictionPolicy

-- `ParsePolicy`
unfoldable pub parse_policy : String → Option EvictionPolicy
parse_policy s =
    ite (string_discrete s "lru") (some evict_lru)
      (ite (string_discrete s "cost") (some evict_cost) none)

abbrev pub evict_sample : ℕ
evict_sample = 16

abbrev frecency_half_life : ℕ
frecency_half_life = 4096

-- `make([]byte, n)`
abbrev zero_bytes : ℕ → Bytes
zero_bytes zero = []
zero_bytes (suc n) = 0 ∷ zero_bytes n

-- `copy(dst, src)` of no more than `dst` holds.
abbrev pub copy_to : Bytes → Bytes → Bytes
copy_to dst src = src ++ drop (length src) dst

-- The indices of the free pages at the start, as the 32 bits of an int32.
abbrev pub pages_down : ℕ → List ℕ
pages_down zero = []
pages_down (suc n) = n % 2 ^ 32 ∷ pages_down n

-- `append(p.free, pages...)`
abbrev pub release : List ℕ → List ℕ → List ℕ
release [] free = free
release (pg ∷ pages) free = release pages (pg ∷ free)

-- The sum is an int: from 2^63 on it is negative, and the quotient rounds to 0. `none` is a negative
-- quotient.
unfoldable pub pages_needed : ℕ → ℕ → Option ℕ
pages_needed page_size size =
    let sum = size + page_size - 1 in
    if ltb sum (2 ^ 63)
    then some (sum / page_size)
    else if (2 ^ 64 - sum) / page_size == 0
    then some 0
    else none

-- The list as lruPushFront, lruRemove and lruMoveFront leave it.
abbrev pub unlink : Bytes → List Bytes → List Bytes
unlink id [] = []
unlink id (x ∷ xs) = ite (bytes_discrete x id) xs (x ∷ unlink id xs)

abbrev pub last_of : List Bytes → Option Bytes
last_of [] = none
last_of (x ∷ []) = some x
last_of (x ∷ y ∷ xs) = last_of (y ∷ xs)

pub record Filled : Type 0 where
  pub taken : List ℕ
  pub left : List ℕ
  pub filled : ℕ → Bytes

-- The loop of `Put` that takes `k` more pages, from the byte `lo` of the payload on. `none` is the
-- fault of an empty `free`, or of the negative index that a page from 2^31 on has.
unfoldable pub fill_pages : ℕ → Bytes → ℕ → ℕ → List ℕ → (ℕ → Bytes) → Option Filled
fill_pages page_size payload zero lo free arena =
    some (record { taken = []; left = free; filled = arena })
fill_pages page_size payload (suc k) lo [] arena = none
fill_pages page_size payload (suc k) lo (pg ∷ free) arena =
    let rest = fill_pages page_size payload k (lo + page_size) free (λ a.
      ite (ℕ_discrete pg a)
        (copy_to (arena pg) (take (min (lo + page_size) (length payload) - lo) (drop lo payload)))
        (arena a)) in
    elim (ltb pg (2 ^ 31)) [
      | false ↦ none
      | true ↦ elim rest [ none ↦ none | some f ↦ some (record f { taken = pg ∷ f.taken }) ]
    ]

-- The loop of `Get`, from the byte `lo` of the payload on.
abbrev pub read_pages : ℕ → (ℕ → Bytes) → ℕ → List ℕ → ℕ → Bytes
read_pages page_size arena size [] lo = []
read_pages page_size arena size (pg ∷ pages) lo =
    take (min (lo + page_size) size - lo) (arena pg)
    ++ read_pages page_size arena size pages (lo + page_size)

module _ (pl : Platform) where
  open pl use {Rng, seed, intn}
  open (pl.floats) use {Float, of_nat, add, mul, div, neg, exp2, less}

  -- `f * math.Exp2(-age/frecencyHalfLife)`
  abbrev pub decay : Float → ℕ → Float
  decay f age = mul f (exp2 (div (neg (of_nat age)) (of_nat frecency_half_life)))

  -- `1 + f`
  abbrev pub one_more : Float → Float
  one_more f = add (of_nat 1) f

  -- `f * float64(costUS) / float64(held)`
  abbrev weigh : Float → ℕ → ℕ → Float
  weigh f cost_us held = div (mul f (of_nat cost_us)) (of_nat held)

  -- `pagedEntry`, without the id, under which it is kept, and the links.
  pub record PagedEntry : Type 0 where
    pub parent_id : Bytes
    pub model_id : String
    pub token_count : ℕ
    pub cost_us : ℕ
    pub size : ℕ
    pub pages : List ℕ
    pub order_idx : ℕ
    pub last_access : ℕ
    pub freq : Float

  pub record Paged : Type 0 where
    pub page_size : ℕ
    pub page_count : ℕ
    pub arena : ℕ → Bytes
    pub free : List ℕ
    pub items : Bytes → Option PagedEntry
    pub order : List Bytes
    pub recency : List Bytes
    pub clock : ℕ
    pub rng : Rng
    pub pol : EvictionPolicy
    pub stats : Stats

  abbrev pub with_pages : ℕ → ℕ → EvictionPolicy → Paged
  with_pages page_size n pol = record {
    page_size = page_size;
    page_count = n;
    arena = λ _. zero_bytes page_size;
    free = pages_down n;
    items = λ _. none;
    order = [];
    recency = [];
    clock = 0;
    rng = seed;
    pol = pol;
    stats = record no_stats { capacity_bytes = n * page_size % 2 ^ 64 };
  }

  -- `make([]int32, n)`
  abbrev fits_int32s : ℕ → Bool
  fits_int32s n = leb (n * 4) pl.max_alloc

  -- The two `make`s of `NewPaged`; `none` is a panic.
  abbrev make_arena : ℕ → ℕ → EvictionPolicy → Option Paged
  make_arena page_size n pol =
      if leb (n * page_size) pl.max_alloc && fits_int32s n
      then some (with_pages page_size n pol)
      else none

  -- `NewPaged`; `none` is a panic. From 2^63 on `int(capacityBytes)` is negative: the quotient rounds
  -- to 0, and a `make` of a negative length panics.
  unfoldable pub new_paged : ℕ → ℕ → EvictionPolicy → Option Paged
  new_paged capacity_bytes page_size pol =
      if page_size == 0
      then none
      else if ltb capacity_bytes (2 ^ 63)
      then make_arena page_size (capacity_bytes / page_size) pol
      else if (2 ^ 64 - capacity_bytes) / page_size == 0
      then make_arena page_size 0 pol
      else none

  -- A map write and a delete.
  abbrev pub set_item :
      (Bytes → Option PagedEntry) → Bytes → Option PagedEntry → Bytes → Option PagedEntry
  set_item items id e j = ite (bytes_discrete id j) e (items j)

  -- `touch` of the entry of `id`.
  abbrev pub touch : Paged → Bytes → PagedEntry → Paged
  touch p id e =
      let now = (p.clock + 1) % 2 ^ 64 in
      let age = (now + 2 ^ 64 - e.last_access) % 2 ^ 64 in
      record p {
        clock = now;
        items =
            set_item p.items id
              (some (record e { freq = one_more (decay e.freq age); last_access = now }));
        recency = id ∷ unlink id p.recency;
      }

  -- The score of a candidate in `evictOne`.
  abbrev pub score_now : Paged → PagedEntry → Float
  score_now p e =
      weigh (decay e.freq ((p.clock + 2 ^ 64 - e.last_access) % 2 ^ 64)) e.cost_us
        (length e.pages * p.page_size)

  abbrev pub better :
      Float
      → Bytes
      → PagedEntry
      → Option (Bytes × PagedEntry × Float)
      → Option (Bytes × PagedEntry × Float)
  better score id e none = some (id, e, score)
  better score id e (some (b, f, best)) =
      if less score best then some (id, e, score) else some (b, f, best)

  abbrev pub consider :
      Paged
      → Option Bytes
      → Option (Bytes × PagedEntry × Float)
      → Option (Bytes × PagedEntry × Float)
  consider p none best = best
  consider p (some id) best = elim (p.items id) [
    | none ↦ best
    | some e ↦ better (score_now p e) id e best
  ]

  -- The sampling loop, with `rounds` rounds left.
  unfoldable pub sample :
      Paged
      → ℕ
      → Rng
      → Option (Bytes × PagedEntry × Float)
      → Option (Bytes × PagedEntry × Float) × Rng
  sample p zero r best = (best, r)
  sample p (suc rounds) r best =
      let drawn = intn r (length p.order) in
      sample p rounds drawn.1 (consider p (get_elem? p.order drawn.0) best)

  abbrev pub with_entry : Paged → Option Bytes → Option (Bytes × PagedEntry)
  with_entry p none = none
  with_entry p (some id) = elim (p.items id) [ none ↦ none | some e ↦ some (id, e) ]

  abbrev pub without_score : Option (Bytes × PagedEntry × Float) → Option (Bytes × PagedEntry)
  without_score none = none
  without_score (some (id, e, score)) = some (id, e)

  -- The choice of the victim, with the generator after it.
  unfoldable pub victim : Paged → Option (Bytes × PagedEntry) × Rng
  unfolding sample
  victim p = elim (p.pol) [
    | evict_lru ↦ (with_entry p (last_of p.recency), p.rng)
    | evict_cost ↦
        let drawn = sample p (min evict_sample (length p.order)) p.rng none in
        (without_score drawn.0, drawn.1)
  ]

  abbrev pub set_idx : ℕ → Option PagedEntry → Option PagedEntry
  set_idx i none = none
  set_idx i (some e) = some (record e { order_idx = i })

  -- The rest of `evictOne`: the victim leaves the list, the index, the map, and its pages are free.
  -- The last element of `order` takes its place; without one the source would fault.
  abbrev pub remove_entry : Paged → Bytes → PagedEntry → Option Paged
  remove_entry p id e = elim (get_elem? p.order (length p.order - 1)) [
    | none ↦ none
    | some last ↦ some (record p {
      free = release e.pages p.free;
      recency = unlink id p.recency;
      order = take (length p.order - 1) (set p.order e.order_idx last);
      items = set_item (set_item p.items last (set_idx e.order_idx (p.items last))) id none;
      stats = record (p.stats) {
        occupancy_bytes =
            (p.stats.occupancy_bytes + 2 ^ 64 - length e.pages * p.page_size % 2 ^ 64) % 2 ^ 64;
        evictions = (p.stats.evictions + 1) % 2 ^ 64;
        evicted_cost_us = (p.stats.evicted_cost_us + e.cost_us) % 2 ^ 64;
      };
    })
  ]

  -- `evictOne`: whether there was a victim. `none` is a fault.
  unfoldable pub evict_one : Paged → Option (Paged × Bool)
  unfolding victim
  evict_one p = elim ((victim p).0) [
    | none ↦ some (record p { rng = (victim p).1 }, false)
    | some (id, e) ↦ elim (remove_entry (record p { rng = (victim p).1 }) id e) [
      | none ↦ none
      | some p' ↦ some (p', true)
    ]
  ]

  -- `for len(p.free) < need`; an eviction takes an entry away. `none` is a fault.
  unfoldable pub free_pages : ℕ → Paged → ℕ → Option (Paged × Bool)
  unfolding evict_one
  free_pages zero p need = none
  free_pages (suc fuel) p need = elim (ltb (length p.free) need) [
    | false ↦ some (p, true)
    | true ↦ elim (evict_one p) [
      | none ↦ none
      | some (p', false) ↦ some (p', false)
      | some (p', true) ↦ free_pages fuel p' need
    ]
  ]

  -- The end of `Put`.
  abbrev pub add_entry : Paged → Block → Filled → Paged
  add_entry p b f =
      let e : PagedEntry = record {
        parent_id = b.parent_id;
        model_id = b.model_id;
        token_count = b.token_count;
        cost_us = b.cost_us;
        size = length b.payload;
        pages = f.taken;
        order_idx = length p.order;
        last_access = 0;
        freq = of_nat 0;
      } in
      let q =
        touch
          (record p {
            arena = f.filled;
            free = f.left;
            order = p.order ++ b.id ∷ [];
            items = set_item p.items b.id (some e);
            recency = b.id ∷ p.recency;
          })
          b.id e in
      record q {
        stats = record (p.stats) {
          occupancy_bytes =
              (p.stats.occupancy_bytes + length f.taken * p.page_size % 2 ^ 64) % 2 ^ 64;
        };
      }

  -- `Put` of an absent block that needs `need` pages, or a negative number of them: no negative
  -- number is 0 or more than there are, or than are free, and `make` panics.
  unfoldable pub put_needing : Paged → Block → Option ℕ → Option (Paged × Bool)
  unfolding free_pages fill_pages
  put_needing p b none = none
  put_needing p b (some need) =
      if (need == 0) || ltb p.page_count need
      then some (p, false)
      else elim (free_pages (suc (length p.order)) p need) [
        | none ↦ none
        | some (q, false) ↦ some (q, false)
        | some (q, true) ↦
            let filled = fill_pages q.page_size b.payload need 0 q.free q.arena in
            elim (fits_int32s need) [
              | false ↦ none
              | true ↦ elim filled [ none ↦ none | some f ↦ some (add_entry q b f, true) ]
            ]
      ]

  -- `Put`; `none` is a fault.
  unfoldable pub put_paged : Paged → Block → Option (Paged × Bool)
  unfolding put_needing pages_needed
  put_paged p b = elim (p.items b.id) [
    | some e ↦ some (touch p b.id e, false)
    | none ↦ put_needing p b (pages_needed p.page_size (length b.payload))
  ]

  abbrev pub block_of : Paged → Bytes → PagedEntry → Block
  block_of p id e = record {
    id = id;
    parent_id = e.parent_id;
    model_id = e.model_id;
    payload = read_pages p.page_size p.arena e.size e.pages 0;
    token_count = e.token_count;
    cost_us = e.cost_us;
  }

  abbrev pub hit : Paged → Paged
  hit p = record p { stats = record (p.stats) { hits = (p.stats.hits + 1) % 2 ^ 64 } }

  abbrev pub miss : Paged → Paged
  miss p = record p { stats = record (p.stats) { misses = (p.stats.misses + 1) % 2 ^ 64 } }

  -- `Get`
  unfoldable pub get_paged : Paged → Bytes → Paged × Option Block
  get_paged p id = elim (p.items id) [
    | none ↦ (miss p, none)
    | some e ↦ (touch (hit p) id e, some (block_of p id e))
  ]

  -- `Contains`
  unfoldable pub contains_paged : Paged → Bytes → Paged × Bool
  contains_paged p id = elim (p.items id) [
    | none ↦ (miss p, false)
    | some e ↦ (touch (hit p) id e, true)
  ]

  -- `Touch`
  unfoldable pub touch_paged : Paged → Bytes → Paged
  touch_paged p id = elim (p.items id) [ none ↦ p | some e ↦ touch p id e ]

  -- `Stats`
  unfoldable pub stats_paged : Paged → Stats
  stats_paged p = p.stats
