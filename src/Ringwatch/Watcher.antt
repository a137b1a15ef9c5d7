-- ===== src/Ringwatch/Watcher.antt =====
-- internal/ringwatch/watcher.go: the state of a watcher under ring updates. `conns` and `clients`
-- are one map, from a node to the address that was dialed for it; `dial` tells whether
-- `grpc.NewClient` succeeds. `notified` lists the calls of `onRing`, the latest first.
use prefixmesh.Prelude.{
  leb, ◌==◌, if◌then◌else◌, find, put, string_discrete, ℕ, String, Bool, false, not, ◌&&◌, Option,
  none, some, List, [], ◌∷◌,
}
use prefixmesh.HashRing.Defs
use prefixmesh.Directory.State

pub record Watcher : Type 0 where
  pub dial_nodes : Bool
  pub ring : Option Defs.Ring
  pub clients : List (String × String)
  pub notified : List State.Ring

-- `New`
unfoldable pub new_watcher : Bool → Watcher
new_watcher dial_nodes = record {
  dial_nodes = dial_nodes;
  ring = none;
  clients = [];
  notified = [];
}

-- `nodes[n.NodeId] = n.Addr` for each node.
unfoldable pub node_map : List State.NodeInfo → List (String × String) → List (String × String)
node_map [] acc = acc
node_map (n ∷ ns) acc = node_map ns (put string_discrete n.node_id n.addr acc)

abbrev pub is_stale : Option Defs.Ring → ℕ → Bool
is_stale none epoch = false
is_stale (some r) epoch = leb epoch r.epoch && not (epoch == 0)

-- One round of the loop that dials: a node that has a connection keeps it.
abbrev pub dial_one :
    (String → Bool) → String → String → List (String × String) → List (String × String)
dial_one dial id addr cs = elim (find string_discrete id cs) [
  | some old ↦ cs
  | none ↦ if dial addr then put string_discrete id addr cs else cs
]

unfoldable pub dial_all :
    (String → Bool) → List (String × String) → List (String × String) → List (String × String)
dial_all dial [] cs = cs
dial_all dial ((id, addr) ∷ ns) cs = dial_all dial ns (dial_one dial id addr cs)

-- The loop that closes the connections of nodes that are no members.
unfoldable pub close_gone : List (String × String) → List (String × String) → List (String × String)
close_gone nodes [] = []
close_gone nodes ((id, addr) ∷ cs) = elim (find string_discrete id nodes) [
  | none ↦ close_gone nodes cs
  | some a ↦ (id, addr) ∷ close_gone nodes cs
]

-- `Epoch`
abbrev pub epoch_of : Option Defs.Ring → ℕ
epoch_of none = 0
epoch_of (some r) = r.epoch

-- `Client`
unfoldable pub client_of : Watcher → String → Option String
client_of w id = find string_discrete id w.clients

module _ (vnode_point : String → ℕ → ℕ) (dial : String → Bool) where
  -- `apply`
  unfoldable pub apply_ring : Watcher → State.Ring → Watcher
  unfolding node_map dial_all close_gone
  apply_ring w msg =
      let nodes = node_map msg.nodes [] in
      if is_stale w.ring msg.epoch then w else record w {
        ring = some (Defs.new_ring vnode_point msg.epoch nodes msg.vnodes_per_node);
        clients =
            if w.dial_nodes then close_gone nodes (dial_all dial nodes w.clients) else w.clients;
        notified = msg ∷ w.notified;
      }

  -- The updates of a stream, and of those after it.
  unfoldable pub apply_rings : Watcher → List State.Ring → Watcher
  unfolding apply_ring
  apply_rings w [] = w
  apply_rings w (msg ∷ msgs) = apply_rings (apply_ring w msg) msgs
