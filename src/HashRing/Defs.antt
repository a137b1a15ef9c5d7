-- ===== src/HashRing/Defs.antt =====
-- internal/hashring/ring.go. The point of a virtual node, the first eight bytes of the SHA-256 of
-- "id#i", is the parameter `vnode_point`.
use Prim.Native.Nat.{Ordering}
use Prim.Native.String.{compare}
use prefixmesh.Prelude.{
  ltb, leb, ◌==◌, if◌then◌else◌, length, get_elem?, take, find, string_discrete, Bytes, ℕ, zero,
  suc, ◌+◌, ◌*◌, ◌%◌, String, ite, Bool, true, false, ◌||◌, Option, none, some, List, [], ◌∷◌, ◌++◌,
}

abbrev pub default_vnodes : ℕ
default_vnodes = 128

pub record Vnode : Type 0 where
  pub point : ℕ
  pub node_id : String

pub record Ring : Type 0 where
  pub epoch : ℕ
  pub vnodes : List Vnode
  pub addrs : List (String × String)

-- The comparison of `sort.Slice`: by point, then by node id.
abbrev pub before : Vnode → Vnode → Bool
before a b =
    if a.point == b.point
    then elim (compare a.node_id b.node_id) [ Ordering.lt ↦ true | _ ↦ false ]
    else ltb a.point b.point

-- `sort.Slice`, as an insertion sort: with this comparison only equal entries are left unordered.
unfoldable pub insert : Vnode → List Vnode → List Vnode
insert v [] = v ∷ []
insert v (w ∷ ws) = if before w v then w ∷ insert v ws else v ∷ w ∷ ws

unfoldable pub sort : List Vnode → List Vnode
unfolding insert
sort [] = []
sort (v ∷ vs) = insert v (sort vs)

module _ (vnode_point : String → ℕ → ℕ) where
  -- The inner loop of `New`, for the `k` virtual nodes from `i` on.
  unfoldable pub node_vnodes : String → ℕ → ℕ → List Vnode
  node_vnodes id zero i = []
  node_vnodes id (suc k) i =
      record { point = vnode_point id i; node_id = id } ∷ node_vnodes id k (suc i)

  -- The outer loop, over the map of nodes.
  unfoldable pub all_vnodes : ℕ → List (String × String) → List Vnode
  unfolding node_vnodes
  all_vnodes k [] = []
  all_vnodes k ((id, addr) ∷ nodes) = node_vnodes id k 0 ++ all_vnodes k nodes

  -- `New`. A count of virtual nodes that is not positive stands for the default.
  unfoldable pub new_ring : ℕ → List (String × String) → ℕ → Ring
  unfolding all_vnodes sort
  new_ring epoch nodes vnodes_per_node =
      let k = if vnodes_per_node == 0 then default_vnodes else vnodes_per_node in
      record { epoch = epoch; vnodes = sort (all_vnodes k nodes); addrs = nodes }

-- `binary.BigEndian.Uint64(blockID[:8])`. The callers pass ids of 32 bytes.
abbrev big_endian : ℕ → Bytes → ℕ
big_endian acc [] = acc
big_endian acc (b ∷ bs) = big_endian (acc * 256 + b) bs

unfoldable pub key_of : Bytes → ℕ
key_of block_id = big_endian 0 (take 8 block_id)

-- `sort.Search`: the first index whose point is not below the key, or the length.
unfoldable pub search_point : ℕ → List Vnode → ℕ
search_point key [] = 0
search_point key (v ∷ vs) = if leb key v.point then 0 else suc (search_point key vs)

-- `seen`, which holds what `out` holds.
abbrev pub seen : String → List String → Bool
seen id [] = false
seen id (x ∷ xs) = ite (string_discrete x id) true (seen id xs)

-- One round of the loop of `Owners`.
abbrev pub visit : ℕ → List String → Option Vnode → List String
visit n out none = out
visit n out (some v) =
    if ltb (length out) n then (if seen v.node_id out then out else out ++ v.node_id ∷ []) else out

-- The loop of `Owners`, with `rounds` rounds left; `out` no longer changes once it is long enough.
unfoldable pub collect : List Vnode → ℕ → ℕ → ℕ → ℕ → List String → List String
collect vs i n zero scanned out = out
collect vs i n (suc rounds) scanned out =
    collect vs i n rounds (suc scanned) (visit n out (get_elem? vs ((i + scanned) % length vs)))

-- `Owners`
unfoldable pub owners : Ring → Bytes → ℕ → List String
unfolding collect search_point key_of
owners r block_id n =
    if length r.vnodes == 0 || n == 0
    then []
    else collect r.vnodes (search_point (key_of block_id) r.vnodes)
        (if ltb (length r.addrs) n then length r.addrs else n) (length r.vnodes) 0 []

-- `Owner`: the node and its address.
abbrev first_owner : Ring → List String → Option (String × String)
first_owner r [] = none
first_owner r (id ∷ ids) = elim (find string_discrete id r.addrs) [
  | none ↦ some (id, "")
  | some addr ↦ some (id, addr)
]

unfoldable pub owner : Ring → Bytes → Option (String × String)
unfolding owners
owner r block_id = first_owner r (owners r block_id 1)

-- `Nodes` and `Size`
unfoldable pub nodes : Ring → List (String × String)
nodes r = r.addrs

unfoldable pub size : Ring → ℕ
size r = length r.addrs
