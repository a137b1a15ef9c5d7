-- ===== src/CacheNode/Warming.antt =====
-- What the warmer does to a store that keeps its contract.
use prefixmesh.Prelude.{
  length, Bytes, ℕ, ◌+◌, ◌/◌, ◌%◌, ◌^◌, ◌≤◌, String, ◌≡◌, ◌⊎◌, Bool, true, false, Option, none,
  some, Floats,
}
use prefixmesh.BlockStore.Block.{Block, Store, StoreLaws}
use prefixmesh.CacheNode.Server.{WireBlock, from_proto, hash_size}
use prefixmesh.CacheNode.Warmer.{
  below_one, minus_one, Command, Reply, received, Warmer, refilled, is_for, is_late,
}

module _ (fl : Floats) {S : Type 0} (st : Store S) (laws : StoreLaws st)
    (unmarshal : Bytes → Option Command) (dial : String → Bool)
    (fetch : String → Bytes → Reply) where
  -- The command was carried out: it was for this node and in time, the block was absent, the bucket
  -- had a token, and the block that the source sent went to the store.
  pub record IsExecuted (w : Warmer fl) (s : S) (now : ℕ) (value : Bytes) (w' : Warmer fl) (s' : S)
      : Type 0 where
    pub cmd : Command
    pub parsed : unmarshal value ≡ some cmd
    pub addressed : (cmd.target_node ≡ w.self) × (length cmd.block_id ≡ hash_size)
    pub timely : (cmd.deadline_unix_ms ≡ 0) ⊎ (now / 1000000 ≤ cmd.deadline_unix_ms)
    pub absent : laws.stored_block s cmd.block_id ≡ none
    pub affordable : below_one fl (refilled fl w now) ≡ false
    pub block : Block
    pub wire : Option WireBlock
    pub sent : fetch cmd.source_node cmd.block_id ≡ received wire
    pub valid : from_proto wire ≡ some block
    pub stored :
        (laws.stored_block s' block.id ≡ some block)
        ⊎ ((j : Bytes) → laws.stored_block s' j ≡ laws.stored_block s j)
    pub spent : w'.tokens ≡ minus_one fl (refilled fl w now)
    pub counted : w'.executed ≡ (w.executed + 1) % 2 ^ 64

  -- The store is as it was, and the counter of executed commands too.
  abbrev pub IsIdle : Warmer fl → S → Warmer fl → S → Type 0
  IsIdle w s w' s' =
      ((j : Bytes) → laws.stored_block s' j ≡ laws.stored_block s j) × (w'.executed ≡ w.executed)

  abbrev pub Handled : Warmer fl → S → ℕ → Bytes → Option (Warmer fl × S) → Type 0
  Handled w s now value out =
      (w' : Warmer fl) × (s' : S) × (out ≡ some (w', s'))
      × laws.IsGood s'
      × (IsIdle w s w' s' ⊎ IsExecuted w s now value w' s')

  module _ (w : Warmer fl) (s s1 : S) (now : ℕ) (value : Bytes) (cmd : Command)
      (parsed : unmarshal value ≡ some cmd) (addressed : is_for w.self cmd ≡ true)
      (timely : is_late now cmd ≡ false) (absent : laws.stored_block s cmd.block_id ≡ none)
      (good : laws.IsGood s1)
      (keeps : (j : Bytes) → laws.stored_block s1 j ≡ laws.stored_block s j) where
    abbrev paid : Warmer fl
    paid = record w { tokens = minus_one fl (refilled fl w now); last_ref = now }
