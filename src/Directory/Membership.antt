-- ===== src/Directory/Membership.antt =====
-- What a command does to the membership, the epoch and the watchers.
use mathlib.Core.Option
use prefixmesh.Prelude.{
  Option-cases, Distinct, keys, find, put, delete, find-put, find-delete_ne, find-delete_self,
  Distinct-delete, Distinct-put, string_discrete, ℕ, ◌+◌, ◌%◌, ◌^◌, String, ◌≡◌, refl, sym, ap,
  subst, ◌∙◌, ◌≢◌, ◌⊎◌, inl, inr, ite, if_pos, if_neg, Bool, true, Option, none, some, List, [],
  ◌∷◌, arith,
}
use prefixmesh.Directory.State.{
  NodeInfo, ClusterCommand, node_join, node_leave, node_dead, lease_grant, lease_release, noop,
  unset, StateMachine, changed, signal_all, remove, join, apply_command,
}

-- Each member stands once, under its own node id.
pub record IsMembership (members : List (String × NodeInfo)) : Type 0 where
  pub once : Distinct (keys members)
  pub own_id :
      (id : String) (info : NodeInfo)
      → find string_discrete id members ≡ some info
      → info.node_id ≡ id

-- The address of a member: a ring is made of these and the epoch.
abbrev pub addr_of : StateMachine → String → Option String
addr_of sm id = Option.map (λ info. info.addr) (find string_discrete id sm.members)

-- What a command is meant to do to the address of a node.
abbrev pub address_after : ClusterCommand → String → Option String → Option String
address_after (node_join info) id old = ite (string_discrete info.node_id id) (some info.addr) old
address_after (node_leave gone) id old = ite (string_discrete gone id) none old
address_after (node_dead gone) id old = ite (string_discrete gone id) none old
address_after _ id old = old

find-delete :
    (gone id : String) (m : List (String × NodeInfo))
    → Distinct (keys m)
    → find string_discrete id (delete string_discrete gone m)
      ≡ ite (string_discrete gone id) none (find string_discrete id m)
find-delete gone id m d = elim (string_discrete gone id) [
  | yes e ↦
      subst (λ x. find string_discrete x (delete string_discrete gone m) ≡ none) e
        (find-delete_self string_discrete gone m d)
      ∙ sym (if_pos (string_discrete gone id) e none (find string_discrete id m))
  | no e ↦
      find-delete_ne string_discrete gone id m e
      ∙ sym (if_neg (string_discrete gone id) e none (find string_discrete id m))
]

remove_address :
    (sm : StateMachine) (gone id : String)
    → IsMembership sm.members
    → addr_of (remove sm gone) id ≡ ite (string_discrete gone id) none (addr_of sm id)
remove_address sm gone id i = elim (Option-cases (find string_discrete gone sm.members)) [
  | inl e ↦ ground (arith, e)
  | inr (info, e) ↦ ground (arith, e, find-delete gone id sm.members i.once)
]

join_address :
    (sm : StateMachine) (info : NodeInfo) (id : String)
    → addr_of (join sm info) id
      ≡ ite (string_discrete info.node_id id) (some info.addr) (addr_of sm id)
join_address sm info id = ground (arith, find-put string_discrete info.node_id id info sm.members)

-- Over a well-formed membership a join sets the address of its node, a leave and a death remove
-- their node, and every other node and every other command changes no address.
pub addr_of-apply_command :
    (sm : StateMachine) (cmd : ClusterCommand) (id : String)
    → IsMembership sm.members
    → addr_of (apply_command sm cmd) id ≡ address_after cmd id (addr_of sm id)
unfolding apply_command
addr_of-apply_command sm (node_join info) id i = join_address sm info id
addr_of-apply_command sm (node_leave gone) id i = remove_address sm gone id i
addr_of-apply_command sm (node_dead gone) id i = remove_address sm gone id i
addr_of-apply_command sm (noop b) id i = refl
addr_of-apply_command sm (lease_grant lease) id i = refl
addr_of-apply_command sm (lease_release lease) id i = refl
addr_of-apply_command sm unset id i = refl

remove_cases :
    (sm : StateMachine) (gone : String)
    → (remove sm gone ≡ sm)
      ⊎ ((info : NodeInfo) × (find string_discrete gone sm.members ≡ some info)
          × (remove sm gone ≡ changed sm (delete string_discrete gone sm.members) sm.joins))
remove_cases sm gone = ground arith

abbrev joined_members : StateMachine → NodeInfo → List (String × NodeInfo)
joined_members sm info = put string_discrete info.node_id info sm.members

join_cases :
    (sm : StateMachine) (info : NodeInfo)
    → (join sm info ≡ sm)
      ⊎ ((join sm info ≡ changed sm (joined_members sm info) (info.node_id ∷ sm.joins))
          × (addr_of sm info.node_id ≢ some info.addr))
join_cases sm info = ground arith

remove-IsMembership :
    (sm : StateMachine) (gone : String)
    → IsMembership sm.members
    → IsMembership (remove sm gone).members
remove-IsMembership sm gone i = elim (remove_cases sm gone) [
  | inl e ↦ subst (λ x. IsMembership x.members) (sym e) i
  | inr (info, f, e) ↦
      subst (λ x. IsMembership x.members) (sym e)
        (record {
          once = Distinct-delete string_discrete gone sm.members i.once;
          own_id = λ id x h. elim (string_discrete gone id) [
            | yes q ↦ absurd (ground (arith, find-delete gone id sm.members i.once))
            | no q ↦ i.own_id id x (sym (find-delete_ne string_discrete gone id sm.members q) ∙ h)
          ];
        })
]

joined-IsMembership :
    (sm : StateMachine) (info : NodeInfo)
    → IsMembership sm.members
    → IsMembership (joined_members sm info)
joined-IsMembership sm info i = record {
  once = Distinct-put string_discrete info.node_id info sm.members i.once;
  own_id = λ id x h.
      let p = sym (find-put string_discrete info.node_id id info sm.members) ∙ h in
      elim (string_discrete info.node_id id) [
        | yes q ↦ ground (arith, p)
        | no q ↦ i.own_id id x (ground (arith, p))
      ];
}

join-IsMembership :
    (sm : StateMachine) (info : NodeInfo)
    → IsMembership sm.members
    → IsMembership (join sm info).members
join-IsMembership sm info i = elim (join_cases sm info) [
  | inl e ↦ subst (λ x. IsMembership x.members) (sym e) i
  | inr (e, f) ↦ subst (λ x. IsMembership x.members) (sym e) (joined-IsMembership sm info i)
]

-- Every command keeps the membership well formed.
pub apply_command-IsMembership :
    (sm : StateMachine) (cmd : ClusterCommand)
    → IsMembership sm.members
    → IsMembership (apply_command sm cmd).members
unfolding apply_command
apply_command-IsMembership sm (node_join info) i = join-IsMembership sm info i
apply_command-IsMembership sm (node_leave gone) i = remove-IsMembership sm gone i
apply_command-IsMembership sm (node_dead gone) i = remove-IsMembership sm gone i
apply_command-IsMembership sm (noop b) i = i
apply_command-IsMembership sm (lease_grant lease) i = i
apply_command-IsMembership sm (lease_release lease) i = i
apply_command-IsMembership sm unset i = i

-- A watcher is subscribed and has a signal waiting.
abbrev AllSignalled : List (ℕ × Bool) → Type 0
AllSignalled [] = Unit
AllSignalled ((ch, pending) ∷ ws) = (pending ≡ true) × AllSignalled ws

signal_all-AllSignalled : (ws : List (ℕ × Bool)) → AllSignalled (signal_all ws)
signal_all-AllSignalled [] = tt
signal_all-AllSignalled ((ch, pending) ∷ ws) = (refl, signal_all-AllSignalled ws)

-- A command either leaves the state machine as it is, or moves the epoch on by one, keeps the
-- watchers and leaves each with a signal, after the address of some node has changed.
abbrev pub Effect : StateMachine → StateMachine → Type 0
Effect sm sm' =
    (sm' ≡ sm)
    ⊎ ((sm'.epoch ≡ (sm.epoch + 1) % 2 ^ 64)
        × AllSignalled sm'.watch
        × (keys sm'.watch ≡ keys sm.watch)
        × ((id : String) × (addr_of sm' id ≢ addr_of sm id)))

keys-signal_all : (ws : List (ℕ × Bool)) → keys (signal_all ws) ≡ keys ws
keys-signal_all [] = refl
keys-signal_all ((ch, pending) ∷ ws) = ap (◌∷◌ ch) (keys-signal_all ws)

changed-Effect :
    (sm : StateMachine) (members : List (String × NodeInfo)) (joins : List String) (id : String)
    → addr_of (changed sm members joins) id ≢ addr_of sm id
    → Effect sm (changed sm members joins)
changed-Effect sm members joins id h =
    inr (refl, signal_all-AllSignalled sm.watch, keys-signal_all sm.watch, (id, h))

remove-Effect :
    (sm : StateMachine) (gone : String) → IsMembership sm.members → Effect sm (remove sm gone)
remove-Effect sm gone i = elim (remove_cases sm gone) [
  | inl e ↦ inl e
  | inr (info, f, e) ↦
      subst (Effect sm) (sym e)
        (changed-Effect sm _ _ gone (ground (arith, f, find-delete gone gone sm.members i.once)))
]

join-Effect : (sm : StateMachine) (info : NodeInfo) → Effect sm (join sm info)
join-Effect sm info = elim (join_cases sm info) [
  | inl e ↦ inl e
  | inr (e, f) ↦ subst (Effect sm) (sym e) (
      changed-Effect sm _ _ info.node_id
        (ground (arith, f, find-put string_discrete info.node_id info.node_id info sm.members)))
]

-- Over a well-formed membership a command changes nothing at all, or the epoch goes up by one (as
-- a uint64), every watcher has a signal, the same watchers are subscribed and some node's address
-- differs.
pub apply_command-Effect :
    (sm : StateMachine) (cmd : ClusterCommand)
    → IsMembership sm.members
    → Effect sm (apply_command sm cmd)
unfolding apply_command
apply_command-Effect sm (node_join info) i = join-Effect sm info
apply_command-Effect sm (node_leave gone) i = remove-Effect sm gone i
apply_command-Effect sm (node_dead gone) i = remove-Effect sm gone i
apply_command-Effect sm (noop b) i = inl refl
apply_command-Effect sm (lease_grant lease) i = inl refl
apply_command-Effect sm (lease_release lease) i = inl refl
apply_command-Effect sm unset i = inl refl

-- Over a well-formed membership the second application of a command right after the first changes
-- nothing at all.
pub apply_command_twice :
    (sm : StateMachine) (cmd : ClusterCommand)
    → IsMembership sm.members
    → apply_command (apply_command sm cmd) cmd ≡ apply_command sm cmd
apply_command_twice sm cmd i =
    elim (apply_command-Effect once_ cmd (apply_command-IsMembership sm cmd i)) [
      | inl same ↦ same
      | inr (e, s, k, (id, differs)) ↦ absurd (
          differs (
            addr_of-apply_command once_ cmd id (apply_command-IsMembership sm cmd i)
            ∙ ap (address_after cmd id) (addr_of-apply_command sm cmd id i)
            ∙ address_after_twice cmd id (addr_of sm id)
            ∙ sym (addr_of-apply_command sm cmd id i)))
    ]
  where
    once_ : StateMachine
    once_ = apply_command sm cmd

    address_after_twice :
        (c : ClusterCommand) (id : String) (old : Option String)
        → address_after c id (address_after c id old) ≡ address_after c id old
    address_after_twice (node_join info) id old = ground arith
    address_after_twice (node_leave gone) id old = ground arith
    address_after_twice (node_dead gone) id old = ground arith
    address_after_twice (noop b) id old = refl
    address_after_twice (lease_grant lease) id old = refl
    address_after_twice (lease_release lease) id old = refl
    address_after_twice unset id old = refl
