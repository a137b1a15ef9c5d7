-- ===== src/Chain/Defs.antt =====
-- internal/chain/chain.go.
use prefixmesh.Prelude.{
  ltb, ◌==◌, if◌then◌else◌, length, take, drop, Bytes, ℕ, zero, suc, ◌+◌, ◌-◌, ◌/◌, ◌%◌, ◌^◌, min,
  Option, none, some, List, [], ◌∷◌, ◌++◌,
}

abbrev pub hash_size : ℕ
hash_size = 32

-- `binary.BigEndian.PutUint32` of a uint32.
unfoldable pub put_uint32 : ℕ → Bytes
put_uint32 t = t / 2 ^ 24 % 256 ∷ t / 2 ^ 16 % 256 ∷ t / 2 ^ 8 % 256 ∷ t % 256 ∷ []

-- What the loop of `Next` writes to the hash.
unfoldable pub encode_tokens : List ℕ → Bytes
unfolding put_uint32
encode_tokens [] = []
encode_tokens (t ∷ ts) = put_uint32 t ++ encode_tokens ts

-- `tokens[start:end]`
abbrev pub slice {ℓ} : {A : Type ℓ} → List A → ℕ → ℕ → List A
slice xs start end_ = take (end_ - start) (drop start xs)

-- The loop of `Chunk` from `start`; it ends when `start` reaches the length, and each round adds
-- a block size that is positive, so the length is fuel enough.
unfoldable pub chunk_from : ℕ → List ℕ → ℕ → ℕ → List (List ℕ)
chunk_from zero tokens block_size start = []
chunk_from (suc fuel) tokens block_size start =
    let rest = chunk_from fuel tokens block_size (start + block_size) in
    if ltb start (length tokens)
    then slice tokens start (min (start + block_size) (length tokens)) ∷ rest
    else []

-- `Chunk`; `none` where it panics. A block size is an int; the negative ones panic like 0.
unfoldable pub chunk : List ℕ → ℕ → Option (List (List ℕ))
unfolding chunk_from
chunk tokens block_size =
    if block_size == 0 then none else some (chunk_from (length tokens) tokens block_size 0)

module _ (sha256 : Bytes → Bytes) where
  -- `Root`: the block size is written as a uint32.
  unfoldable pub root : Bytes → ℕ → Bytes
  unfolding put_uint32
  root model_id block_size = sha256 (model_id ++ put_uint32 (block_size % 2 ^ 32))

  -- `Next`
  unfoldable pub next_id : Bytes → List ℕ → Bytes
  unfolding encode_tokens
  next_id parent tokens = sha256 (parent ++ encode_tokens tokens)

  -- The loop of `Build`.
  unfoldable pub build_from : Bytes → List (List ℕ) → List Bytes
  unfolding next_id
  build_from parent [] = []
  build_from parent (blk ∷ blks) = next_id parent blk ∷ build_from (next_id parent blk) blks

  -- `Build`
  unfoldable pub build : Bytes → ℕ → List ℕ → Option (List Bytes)
  unfolding build_from root
  build model_id block_size tokens = elim (chunk tokens block_size) [
    | none ↦ none
    | some blocks ↦ some (build_from (root model_id block_size) blocks)
  ]
