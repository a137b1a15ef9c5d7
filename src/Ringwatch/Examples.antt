-- ===== src/Ringwatch/Examples.antt =====
-- A watcher that has seen epoch 4 with one member.
use prefixmesh.Prelude.{
  find, put, string_discrete, ℕ, ◌<◌, String, ◌≡◌, refl, ◌↔◌, Bool, true, some, [], ◌∷◌,
}
use prefixmesh.Directory.State
use prefixmesh.Ringwatch.Watcher.{Watcher, node_map, epoch_of, client_of, apply_ring}
use prefixmesh.Ringwatch.Clients.{only_if, or_else, clients_after}
use prefixmesh.Ringwatch.Epochs.{epoch-back_iff}

abbrev point : String → ℕ → ℕ
point id i = i

abbrev reachable : String → Bool
reachable addr = true

abbrev member_at : String → State.NodeInfo
member_at addr = record { node_id = "cn-1"; addr = addr; capacity_bytes = 1 }

abbrev update_to : ℕ → String → State.Ring
update_to epoch addr = record { epoch = epoch; nodes = member_at addr ∷ []; vnodes_per_node = 2 }

abbrev seen_four : Watcher
seen_four = record {
  dial_nodes = true;
  ring = some (record { epoch = 4; vnodes = []; addrs = [] });
  clients = ("cn-1", "10.0.0.1:1") ∷ [];
  notified = [];
}

clients_after_example :
    client_of (apply_ring point reachable seen_four (update_to 5 "10.0.0.2:1")) "cn-1"
    ≡ only_if (find string_discrete "cn-1" (node_map (member_at "10.0.0.2:1" ∷ []) [])) (
        or_else
          (client_of seen_four "cn-1")
          (find string_discrete "cn-1" (node_map (member_at "10.0.0.2:1" ∷ []) [])))
clients_after_example =
    clients_after point reachable seen_four (update_to 5 "10.0.0.2:1") "cn-1" (λ a. refl) refl refl

abbrev empty_update : State.Ring
empty_update = record { epoch = 0; nodes = []; vnodes_per_node = 128 }

epoch-back_iff_example :
    (epoch_of (apply_ring point reachable seen_four empty_update).ring < epoch_of seen_four.ring)
    ↔ ((empty_update.epoch ≡ 0) × (0 < epoch_of seen_four.ring))
epoch-back_iff_example = epoch-back_iff point reachable seen_four empty_update

-- The client of a member that has moved is still the one for its old address.
moved_member :
    client_of (apply_ring point reachable seen_four (update_to 5 "10.0.0.2:1")) "cn-1"
    ≡ some "10.0.0.1:1"
unfolding apply_ring node_map client_of find put string_discrete
moved_member =
    clients_after point reachable seen_four (update_to 5 "10.0.0.2:1") "cn-1" (λ a. refl) refl refl
