-- ===== src/CacheNode/Epochs.antt =====
-- The epoch protocol of the cache node's handlers, and the two conversions of blocks.
use prefixmesh.Prelude.{
  length, Bytes, ℕ, ◌≤◌, ◌<◌, ◌≡◌, refl, ◌⊎◌, Bool, true, false, some, List, [], ◌∷◌, arith,
}
use prefixmesh.BlockStore.Block.{Block, Store}
use prefixmesh.CacheNode.Server.{
  hash_size, failed_precondition, failed, IdsRequest, PutRequest, check_epoch, to_id, to_proto,
  from_proto, contains, get_blocks, put_requests, put_blocks, touch,
}

refuses : (mine caller : ℕ) → 0 < caller → caller < mine → check_epoch (some mine) caller ≡ false
unfolding check_epoch
refuses mine caller pos older = ground arith

-- A caller whose ring epoch is not zero and below the node's is refused with FailedPrecondition
-- by Contains, GetBlocks, Touch and a PutBlocks whose first request it is, and none of them
-- changes the store.
pub stale_refused :
    {S : Type 0} (st : Store S) (s : S) (send : ℕ → Bool) (mine : ℕ) (req : IdsRequest)
    (first : PutRequest) (rest : List PutRequest) (eof : Bool)
    → 0 < req.ring_epoch
    → req.ring_epoch < mine
    → first.ring_epoch ≡ req.ring_epoch
    → (contains st (some mine) s req ≡ (s, failed failed_precondition))
      × (get_blocks st send (some mine) s req ≡ (s, [], some failed_precondition))
      × (touch st (some mine) s req ≡ (s, some failed_precondition))
      × (put_blocks st eof (some mine) s (first ∷ rest) ≡ some (s, failed failed_precondition))
unfolding contains get_blocks touch put_blocks put_requests
stale_refused st s send mine req first rest eof pos older same =
    let e = refuses mine req.ring_epoch pos older in
    (rw (e) refl, rw (e) refl, rw (e) refl, rw (same, put_requests, e) refl)

-- A caller at the node's epoch or ahead of it passes the check, and so does one that names no epoch.
fresh_passes :
    (mine caller : ℕ) → (mine ≤ caller) ⊎ (caller ≡ 0) → check_epoch (some mine) caller ≡ true
unfolding check_epoch
fresh_passes mine caller h = ground arith

pub to_id-sized : (b : Bytes) → length b ≡ hash_size → to_id b ≡ some b
unfolding to_id
to_id-sized b h = rw (h) refl

-- A block with an id and a parent id of 32 bytes survives toProto and fromProto.
from_proto-to_proto :
    (b : Block)
    → length b.id ≡ hash_size
    → length b.parent_id ≡ hash_size
    → from_proto (some (to_proto b)) ≡ some b
unfolding from_proto to_proto
from_proto-to_proto b h k = rw (to_id-sized b.id h, to_id-sized b.parent_id k) refl
