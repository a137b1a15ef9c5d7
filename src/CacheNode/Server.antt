-- ===== src/CacheNode/Server.antt =====
-- internal/cachenode/server.go over a `Store`. A handler returns the store's new state with its
-- answer. The messages are records; a nil block of a message is `none`. An error keeps its code.
use prefixmesh.Prelude.{
  leb, ◌==◌, if◌then◌else◌, ◌>>=◌, length, Bytes, ℕ, ◌+◌, ◌%◌, ◌^◌, String, Bool, true, false,
  Option, none, some, List, [], ◌∷◌, ◌++◌,
}
use prefixmesh.BlockStore.Block.{Block, Store}

-- chain.HashSize
abbrev pub hash_size : ℕ
hash_size = 32

pub data RpcError : Type 0 where
  failed_precondition invalid_argument stream_failed : RpcError

pub data Answer (A : Type 0) : Type 0 where
  failed : RpcError → Answer A
  answered : A → Answer A

-- pmv1.Block
pub record WireBlock : Type 0 where
  pub block_id : Bytes
  pub parent_id : Bytes
  pub model_id : String
  pub payload : Bytes
  pub token_count : ℕ
  pub cost_us : ℕ

pub record IdsRequest : Type 0 where
  pub ring_epoch : ℕ
  pub block_ids : List Bytes

pub record PutRequest : Type 0 where
  pub ring_epoch : ℕ
  pub block : Option WireBlock

pub record PutResponse : Type 0 where
  pub stored : ℕ
  pub existing : ℕ

-- `checkEpoch`. The node's epoch is `none` where nothing enforces it.
unfoldable pub check_epoch : Option ℕ → ℕ → Bool
check_epoch none caller = true
check_epoch (some mine) caller = if caller == 0 then true else leb mine caller

-- `toID`
unfoldable pub to_id : Bytes → Option Bytes
to_id b = if length b == hash_size then some b else none

-- `toProto`
unfoldable pub to_proto : Block → WireBlock
to_proto b = record {
  block_id = b.id;
  parent_id = b.parent_id;
  model_id = b.model_id;
  payload = b.payload;
  token_count = b.token_count;
  cost_us = b.cost_us;
}

-- `fromProto`; `none` stands for its InvalidArgument.
unfoldable pub from_proto : Option WireBlock → Option Block
unfolding to_id
from_proto none = none
from_proto (some p) = do
  id ← to_id p.block_id
  parent ← to_id p.parent_id
  some (record {
    id = id;
    parent_id = parent;
    model_id = p.model_id;
    payload = p.payload;
    token_count = p.token_count;
    cost_us = p.cost_us;
  })

-- `stored++` or `existing++`
abbrev pub count : Bool → PutResponse → PutResponse
count true acc = record acc { stored = (acc.stored + 1) % 2 ^ 32 }
count false acc = record acc { existing = (acc.existing + 1) % 2 ^ 32 }

module _ {S : Type 0} (st : Store S) where
  -- The loop of `Contains`, `present` filled from the front.
  unfoldable pub contains_ids : S → List Bytes → S × Answer (List Bool)
  unfolding to_id
  contains_ids s [] = (s, answered [])
  contains_ids s (raw ∷ raws) = elim (to_id raw) [
    | none ↦ (s, failed invalid_argument)
    | some id ↦
        let here = st.contains_one s id in
        let rest = contains_ids here.0 raws in
        (rest.0, elim (rest.1) [ failed e ↦ failed e | answered ps ↦ answered (here.1 ∷ ps) ])
  ]

  -- `Contains`
  unfoldable pub contains : Option ℕ → S → IdsRequest → S × Answer (List Bool)
  unfolding check_epoch contains_ids
  contains mine s req =
      if check_epoch mine req.ring_epoch
      then contains_ids s req.block_ids
      else (s, failed failed_precondition)

  -- The loop of `GetBlocks`. `send n` tells whether the stream takes its n-th message; what was sent
  -- so far is `out`. The error is the one returned, if any.
  unfoldable pub get_ids :
      (ℕ → Bool) → S → List WireBlock → List Bytes → S × List WireBlock × Option RpcError
  unfolding to_id to_proto
  get_ids send s out [] = (s, out, none)
  get_ids send s out (raw ∷ raws) = elim (to_id raw) [
    | none ↦ (s, out, some invalid_argument)
    | some id ↦
        let r = st.get_one s id in
        let missed = get_ids send r.0 out raws in
        elim (r.1) [
          | none ↦ missed
          | some b ↦
              let sent = get_ids send r.0 (out ++ to_proto b ∷ []) raws in
              elim (send (length out)) [ false ↦ (r.0, out, some stream_failed) | true ↦ sent ]
        ]
  ]

  -- `GetBlocks`
  unfoldable pub get_blocks :
      (ℕ → Bool) → Option ℕ → S → IdsRequest → S × List WireBlock × Option RpcError
  unfolding check_epoch get_ids
  get_blocks send mine s req =
      if check_epoch mine req.ring_epoch
      then get_ids send s [] req.block_ids
      else (s, [], some failed_precondition)

  -- The loop of `PutBlocks`. The stream brings the requests and then ends, with EOF where `eof`.
  -- `none` is a fault of the store.
  unfoldable pub put_requests :
      Bool → Option ℕ → S → PutResponse → List PutRequest → Option (S × Answer PutResponse)
  unfolding check_epoch from_proto
  put_requests eof mine s acc [] = some (s, if eof then answered acc else failed stream_failed)
  put_requests eof mine s acc (req ∷ reqs) = elim (check_epoch mine req.ring_epoch) [
    | false ↦ some (s, failed failed_precondition)
    | true ↦ elim (from_proto req.block) [
      | none ↦ some (s, failed invalid_argument)
      | some b ↦ elim (st.put_one s b) [
        | none ↦ none
        | some (s', stored) ↦ put_requests eof mine s' (count stored acc) reqs
      ]
    ]
  ]

  -- `PutBlocks`
  unfoldable pub put_blocks :
      Bool → Option ℕ → S → List PutRequest → Option (S × Answer PutResponse)
  unfolding put_requests
  put_blocks eof mine s reqs = put_requests eof mine s (record { stored = 0; existing = 0 }) reqs

  -- The loop of `Touch`.
  unfoldable pub touch_ids : S → List Bytes → S × Option RpcError
  unfolding to_id
  touch_ids s [] = (s, none)
  touch_ids s (raw ∷ raws) = elim (to_id raw) [
    | none ↦ (s, some invalid_argument)
    | some id ↦ touch_ids (st.touch_one s id) raws
  ]

  -- `Touch`
  unfoldable pub touch : Option ℕ → S → IdsRequest → S × Option RpcError
  unfolding check_epoch touch_ids
  touch mine s req =
      if check_epoch mine req.ring_epoch
      then touch_ids s req.block_ids
      else (s, some failed_precondition)
