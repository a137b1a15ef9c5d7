-- ===== src/Chain/Examples.antt =====
-- Tests and instances, over a toy hash that folds its input into 32 equal bytes.
use prefixmesh.Prelude.{
  length, Bytes, ℕ, zero, suc, ◌+◌, ◌*◌, ◌%◌, ◌≡◌, refl, ◌⊎◌, none, some, List, [], ◌∷◌, ◌++◌,
  arith,
}
use prefixmesh.Chain.Defs.{chunk, build, root, next_id, encode_tokens}
use prefixmesh.Chain.Chunks.{concat, chunk_cuts, build_prefix, IsCut}
use prefixmesh.Chain.Identity.{last_id-injective, root-injective, root-next_id, Collision}

abbrev sum_bytes : Bytes → ℕ
sum_bytes [] = 1
sum_bytes (b ∷ bs) = (b + 3 * sum_bytes bs) % 256

abbrev fill : ℕ → ℕ → Bytes
fill zero b = []
fill (suc n) b = b ∷ fill n b

abbrev toy_hash : Bytes → Bytes
toy_hash x = fill 32 (sum_bytes x)

-- Five tokens in blocks of two.
five_tokens : chunk (1 ∷ 2 ∷ 3 ∷ 4 ∷ 5 ∷ []) 2 ≡ some ((1 ∷ 2 ∷ []) ∷ (3 ∷ 4 ∷ []) ∷ (5 ∷ []) ∷ [])
unfolding chunk
five_tokens = refl

no_tokens : chunk [] 2 ≡ some []
unfolding chunk
no_tokens = refl

no_block_size : chunk (1 ∷ []) 0 ≡ none
unfolding chunk
no_block_size = refl

build_prefix_example :
    (ids : List Bytes) × (rest : List Bytes) × (build toy_hash (65 ∷ []) 2 (1 ∷ 2 ∷ []) ≡ some ids)
    × (build toy_hash (65 ∷ []) 2 (1 ∷ 2 ∷ 3 ∷ []) ≡ some (ids ++ rest))
    × (length ids ≡ 1)
build_prefix_example = build_prefix toy_hash (65 ∷ []) 1 2 (1 ∷ 2 ∷ []) (3 ∷ []) (omega arith) refl

chunk_cuts_example :
    (blocks : List (List ℕ)) × (chunk (1 ∷ 2 ∷ 3 ∷ []) 2 ≡ some blocks)
    × (concat blocks ≡ 1 ∷ 2 ∷ 3 ∷ [])
    × IsCut 2 blocks
chunk_cuts_example = chunk_cuts (1 ∷ 2 ∷ 3 ∷ []) 2 (omega arith)

last_id-injective_example :
    ((root toy_hash [] 2 ≡ root toy_hash [] 2)
      × (◌≡◌ {A = List (List ℕ)} ((7 ∷ []) ∷ []) ((7 ∷ []) ∷ [])))
    ⊎ Collision toy_hash
unfolding root
last_id-injective_example =
    last_id-injective toy_hash (λ x. refl) (root toy_hash [] 2) (root toy_hash [] 2) ((7 ∷ []) ∷ [])
      ((7 ∷ []) ∷ []) refl refl (omega arith) (omega arith) refl refl

root-injective_example :
    ((◌≡◌ {A = Bytes} (65 ∷ []) (65 ∷ [])) × (◌≡◌ {A = ℕ} 2 2)) ⊎ Collision toy_hash
root-injective_example =
    root-injective toy_hash (65 ∷ []) (65 ∷ []) 2 2 (omega arith) (omega arith) refl

root-next_id_example :
    root toy_hash (fill 32 9 ++ encode_tokens (1 ∷ [])) 128
    ≡ next_id toy_hash (fill 32 9) (1 ∷ 128 ∷ [])
root-next_id_example = root-next_id toy_hash (fill 32 9) (1 ∷ []) 128 (omega arith)
