-- ===== src/CacheNode/Warmer.antt =====
-- internal/cachenode/warmer.go over a `Store`. float64, proto.Unmarshal, the dial of a source and its
-- reply are parameters. Durations are in nanoseconds. `clients` lists the addresses with a client.
use prefixmesh.Prelude.{
  ltb, ◌==◌, if◌then◌else◌, length, string_discrete, Bytes, ℕ, ◌+◌, ◌-◌, ◌/◌, ◌%◌, ◌^◌, String, ite,
  Bool, true, false, not, ◌&&◌, Option, none, some, List, [], ◌∷◌, Floats,
}
use prefixmesh.BlockStore.Block.{Store}
use prefixmesh.CacheNode.Server.{WireBlock, from_proto, hash_size}
use prefixmesh.Directory.Monitor.{is_empty}

-- pmv1.WarmCommand, as far as it is read. A deadline that is not positive stands as 0.
pub record Command : Type 0 where
  pub block_id : Bytes
  pub source_node : String
  pub target_node : String
  pub deadline_unix_ms : ℕ

-- What the call of GetBlocks on a source gives: an error, or a response with its block.
pub data Reply : Type 0 where
  lost : Reply
  received : Option WireBlock → Reply

abbrev pub is_in : String → List String → Bool
is_in a [] = false
is_in a (x ∷ xs) = ite (string_discrete x a) true (is_in a xs)

abbrev pub same_text : String → String → Bool
same_text a b = ite (string_discrete a b) true false

-- The two guards of `Handle`: is the command for this node, and is it stale?
abbrev pub is_for : String → Command → Bool
is_for self cmd = same_text cmd.target_node self && (length cmd.block_id == hash_size)

abbrev pub is_late : ℕ → Command → Bool
is_late now cmd = ltb 0 cmd.deadline_unix_ms && ltb cmd.deadline_unix_ms (now / 1000000)

module _ (fl : Floats) where
  open fl use {Float, of_nat, seconds, add, sub, mul, lesser, less, less_eq}

  pub record Warmer : Type 0 where
    pub self : String
    pub tokens : Float
    pub last_ref : ℕ
    pub rate : Float
    pub clients : List String
    pub executed : ℕ
    pub skipped_present : ℕ
    pub dropped : ℕ

  -- `NewWarmer` at the time `now`
  unfoldable pub new_warmer : String → Float → ℕ → Warmer
  new_warmer self rate_per_sec now =
      let rate = if less_eq rate_per_sec (of_nat 0) then of_nat 200 else rate_per_sec in
      record {
        self = self;
        tokens = rate;
        last_ref = now;
        rate = rate;
        clients = [];
        executed = 0;
        skipped_present = 0;
        dropped = 0;
      }

  -- `Counters`
  unfoldable pub counters : Warmer → ℕ × ℕ × ℕ
  counters w = (w.executed, w.skipped_present, w.dropped)

  -- `allow`
  abbrev pub refilled : Warmer → ℕ → Float
  refilled w now = lesser w.rate (add w.tokens (mul (seconds (now - w.last_ref)) w.rate))

  abbrev pub below_one : Float → Bool
  below_one t = less t (of_nat 1)

  abbrev pub minus_one : Float → Float
  minus_one t = sub t (of_nat 1)

  unfoldable pub allow : Warmer → ℕ → Warmer × Bool
  allow w now =
      if below_one (refilled w now)
      then (record w { tokens = refilled w now; last_ref = now }, false)
      else (record w { tokens = minus_one (refilled w now); last_ref = now }, true)

  -- `client`
  unfoldable pub client : (String → Bool) → Warmer → String → Warmer × Bool
  client dial w addr =
      if is_in addr w.clients
      then (w, true)
      else if dial addr
      then (record w { clients = addr ∷ w.clients }, true)
      else (w, false)

  abbrev pub drop_one : Warmer → Warmer
  drop_one w = record w { dropped = (w.dropped + 1) % 2 ^ 64 }

  abbrev pub skip_one : Warmer → Warmer
  skip_one w = record w { skipped_present = (w.skipped_present + 1) % 2 ^ 64 }

  abbrev pub execute_one : Warmer → Warmer
  execute_one w = record w { executed = (w.executed + 1) % 2 ^ 64 }

  module _ {S : Type 0} (st : Store S) (unmarshal : Bytes → Option Command) (dial : String → Bool)
      (fetch : String → Bytes → Reply) where
    -- The end of `Handle`, from the response of the source on. `none` is a fault of the store.
    abbrev pub store_reply : Warmer → S → Reply → Option (Warmer × S)
    store_reply w s lost = some (w, s)
    store_reply w s (received block) = elim (from_proto block) [
      | none ↦ some (w, s)
      | some b ↦ elim (st.put_one s b) [
        | none ↦ none
        | some (s', stored) ↦ some (execute_one w, s')
      ]
    ]

    -- What follows the call of `client`, and what follows that of `allow`.
    abbrev pub after_client : Warmer × Bool → S → Command → Option (Warmer × S)
    after_client (w, false) s cmd = some (w, s)
    after_client (w, true) s cmd = store_reply w s (fetch cmd.source_node cmd.block_id)

    unfoldable pub after_allow : Warmer × Bool → S → Command → Option (Warmer × S)
    unfolding client
    after_allow (w, false) s cmd = some (drop_one w, s)
    after_allow (w, true) s cmd = after_client (client dial w cmd.source_node) s cmd

    unfoldable pub fetch_and_store : Warmer → S → ℕ → Command → Option (Warmer × S)
    unfolding allow after_allow
    fetch_and_store w s now cmd = after_allow (allow w now) s cmd

    unfoldable pub handle_command : Warmer → S → ℕ → Command → Option (Warmer × S)
    unfolding fetch_and_store
    handle_command w s now cmd =
        if not (is_for w.self cmd)
        then some (w, s)
        else if is_late now cmd
        then some (drop_one w, s)
        else elim ((st.contains_one s cmd.block_id).1) [
          | true ↦ some (skip_one w, (st.contains_one s cmd.block_id).0)
          | false ↦
              if is_empty cmd.source_node
              then some (w, (st.contains_one s cmd.block_id).0)
              else fetch_and_store w (st.contains_one s cmd.block_id).0 now cmd
        ]

    -- `Handle` at the time `now`, in nanoseconds since 1970.
    unfoldable pub handle : Warmer → S → ℕ → Bytes → Option (Warmer × S)
    unfolding handle_command
    handle w s now value = elim (unmarshal value) [
      | none ↦ some (w, s)
      | some cmd ↦ handle_command w s now cmd
    ]
