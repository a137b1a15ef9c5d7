-- ===== src/Directory/State.antt =====
-- internal/directory/state.go: the state machine that the paxos log feeds. A raw command is a
-- value of `Raw`, and `decode`, which stands for `proto.Unmarshal`, gives its command or fails.
use prefixmesh.Prelude.{
  if◌then◌else◌, keys, values, find, put, delete, string_discrete, ℕ, ◌+◌, ◌%◌, ◌^◌, String, ite,
  Bool, true, false, Option, none, some, List, [], ◌∷◌, ℕ_discrete,
}

-- The protobuf messages `NodeInfo`, `RebalanceLease`, `ClusterCommand` and `Ring`.
pub record NodeInfo : Type 0 where
  pub node_id : String
  pub addr : String
  pub capacity_bytes : ℕ

pub record RebalanceLease : Type 0 where
  pub lease_id : String
  pub old_owner : String
  pub new_owner : String
  pub from_epoch : ℕ
  pub expires_unix_ms : ℕ

pub data ClusterCommand : Type 0 where
  node_join : NodeInfo → ClusterCommand
  node_leave node_dead : String → ClusterCommand
  lease_grant : RebalanceLease → ClusterCommand
  lease_release : String → ClusterCommand
  noop : Bool → ClusterCommand
  unset : ClusterCommand

pub record Ring : Type 0 where
  pub epoch : ℕ
  pub nodes : List NodeInfo
  pub vnodes_per_node : ℕ

-- `StateMachine`. A watcher's channel, named by a number, holds at most one signal: `true` where
-- one is pending. `joins` lists the calls of `onJoin`, the latest first.
pub record StateMachine : Type 0 where
  pub epoch : ℕ
  pub members : List (String × NodeInfo)
  pub watch : List (ℕ × Bool)
  pub joins : List String

-- hashring.DefaultVNodes
abbrev pub default_vnodes : ℕ
default_vnodes = 128

unfoldable pub new_state_machine : StateMachine
new_state_machine = record { epoch = 0; members = []; watch = []; joins = [] }

abbrev pub is_member : StateMachine → String → Bool
is_member sm id = elim (find string_discrete id sm.members) [ none ↦ false | some info ↦ true ]

-- The `changed` branches: the map is written, the epoch rises, every watcher has a signal.
abbrev pub signal_all : List (ℕ × Bool) → List (ℕ × Bool)
signal_all [] = []
signal_all ((ch, pending) ∷ ws) = (ch, true) ∷ signal_all ws

abbrev pub changed : StateMachine → List (String × NodeInfo) → List String → StateMachine
changed sm members joins = record {
  epoch = (sm.epoch + 1) % 2 ^ 64;
  members = members;
  watch = signal_all sm.watch;
  joins = joins;
}

abbrev pub remove : StateMachine → String → StateMachine
remove sm id =
    if is_member sm id then changed sm (delete string_discrete id sm.members) sm.joins else sm

abbrev pub join : StateMachine → NodeInfo → StateMachine
join sm info =
    let joined =
      changed sm (put string_discrete info.node_id info sm.members) (info.node_id ∷ sm.joins) in
    elim (find string_discrete info.node_id sm.members) [
      | none ↦ joined
      | some prev ↦ ite (string_discrete prev.addr info.addr) sm joined
    ]

unfoldable pub apply_command : StateMachine → ClusterCommand → StateMachine
apply_command sm (node_join info) = join sm info
apply_command sm (node_leave id) = remove sm id
apply_command sm (node_dead id) = remove sm id
apply_command sm (noop b) = sm
apply_command sm _ = sm

module _ {Raw : Type 0} (decode : Raw → Option ClusterCommand) where
  -- `StateMachine.Apply`: a command that cannot be decoded is skipped.
  unfoldable pub apply : StateMachine → ℕ → Raw → StateMachine
  unfolding apply_command
  apply sm slot raw = elim (decode raw) [ none ↦ sm | some cmd ↦ apply_command sm cmd ]

-- `StateMachine.Ring`
unfoldable pub ring : StateMachine → Ring
ring sm = record { epoch = sm.epoch; nodes = values sm.members; vnodes_per_node = default_vnodes }

-- `StateMachine.HasMember`
unfoldable pub has_member : StateMachine → String → Bool
has_member sm id = is_member sm id

-- `StateMachine.Members`
unfoldable pub members_of : StateMachine → List String
members_of sm = keys sm.members

-- `Subscribe`, which makes the channel `ch`, and `Unsubscribe`.
unfoldable pub subscribe : StateMachine → ℕ → StateMachine
subscribe sm ch = record sm { watch = put ℕ_discrete ch false sm.watch }

unfoldable pub unsubscribe : StateMachine → ℕ → StateMachine
unsubscribe sm ch = record sm { watch = delete ℕ_discrete ch sm.watch }
