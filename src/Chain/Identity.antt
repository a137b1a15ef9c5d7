-- ===== src/Chain/Identity.antt =====
-- What an id says of the prompt that it stands for.
use prefixmesh.Prelude.{
  length, length-append, Bytes, bytes_discrete, ℕ, ◌%◌, ◌^◌, ◌<◌, ◌≡◌, refl, sym, ap, ◌∙◌, ◌≢◌, ◌⊎◌,
  inl, inr, List, [], ◌∷◌, ◌++◌, append_assoc, append-nil, arith,
}
use prefixmesh.Chain.Defs.{put_uint32, encode_tokens, root, next_id}

abbrev pub Words : List ℕ → Type 0
Words [] = Unit
Words (t ∷ ts) = (t < 2 ^ 32) × Words ts

abbrev pub WordBlocks : List (List ℕ) → Type 0
WordBlocks [] = Unit
WordBlocks (b ∷ bs) = Words b × WordBlocks bs

put_uint32-injective :
    (s t : ℕ) (xs ys : Bytes)
    → s < 2 ^ 32
    → t < 2 ^ 32
    → put_uint32 s ++ xs ≡ put_uint32 t ++ ys
    → (s ≡ t) × (xs ≡ ys)
unfolding put_uint32
put_uint32-injective s t xs ys hs ht e = (ground (arith, e), ground (arith, e))

encode_tokens-injective :
    (xs ys : List ℕ) → Words xs → Words ys → encode_tokens xs ≡ encode_tokens ys → xs ≡ ys
unfolding encode_tokens put_uint32
encode_tokens-injective [] [] hx hy e = refl
encode_tokens-injective [] (y ∷ ys) hx hy e = cc
encode_tokens-injective (x ∷ xs) [] hx hy e = cc
encode_tokens-injective (x ∷ xs) (y ∷ ys) hx hy e =
    let p = put_uint32-injective x y _ _ hx.0 hy.0 e in
    ground (arith, p.0, encode_tokens-injective xs ys hx.1 hy.1 p.1)

append-injective :
    {A : Type 0} (ps qs xs ys : List A)
    → length ps ≡ length qs
    → ps ++ xs ≡ qs ++ ys
    → (ps ≡ qs) × (xs ≡ ys)
append-injective [] [] xs ys h e = (refl, e)
append-injective [] (q ∷ qs) xs ys h e = absurd (omega arith)
append-injective (p ∷ ps) [] xs ys h e = absurd (omega arith)
append-injective (p ∷ ps) (q ∷ qs) xs ys h e =
    let r = append-injective ps qs xs ys (omega arith) (cc) in (ground (arith, r.0, e), r.1)

encode_tokens-append :
    (ts : List ℕ) (t : ℕ) → encode_tokens (ts ++ t ∷ []) ≡ encode_tokens ts ++ put_uint32 t
unfolding encode_tokens
encode_tokens-append [] t = append-nil (put_uint32 t)
encode_tokens-append (x ∷ ts) t =
    ap (◌++◌ (put_uint32 x)) (encode_tokens-append ts t)
    ∙ sym (append_assoc (put_uint32 x) (encode_tokens ts) (put_uint32 t))

module _ (sha256 : Bytes → Bytes) where
  -- Two inputs that the hash does not tell apart.
  abbrev pub Collision : Type 0
  Collision = (x : Bytes) × (y : Bytes) × (x ≢ y) × (sha256 x ≡ sha256 y)

  same_input : (x y : Bytes) → sha256 x ≡ sha256 y → (x ≡ y) ⊎ Collision
  same_input x y e = elim (bytes_discrete x y) [ yes p ↦ inl p | no p ↦ inr (x, y, p, e) ]

  -- The id of the last block of a chain that starts at `parent`.
  unfoldable pub last_id : Bytes → List (List ℕ) → Bytes
  unfolding next_id
  last_id parent [] = parent
  last_id parent (b ∷ bs) = last_id (next_id sha256 parent b) bs

  module _ (hash_length : (x : Bytes) → length (sha256 x) ≡ 32) where
    next_id-injective :
        (p q : Bytes) (b c : List ℕ)
        → length p ≡ 32
        → length q ≡ 32
        → Words b
        → Words c
        → next_id sha256 p b ≡ next_id sha256 q c
        → ((p ≡ q) × (b ≡ c)) ⊎ Collision
    unfolding next_id
    next_id-injective p q b c hp hq wb wc e = elim (same_input _ _ e) [
      | inr col ↦ inr col
      | inl same ↦
          let r = append-injective p q _ _ (hp ∙ sym hq) same in
          inl (r.0, encode_tokens-injective b c wb wc r.1)
    ]

    -- For a hash with 32 bytes of output, two chains of equally many blocks of uint32 tokens that
    -- start at parents of 32 bytes and end in one id have the same parent and the same blocks, or
    -- show a collision of the hash.
    pub last_id-injective :
        (p q : Bytes) (bs cs : List (List ℕ))
        → length p ≡ 32
        → length q ≡ 32
        → WordBlocks bs
        → WordBlocks cs
        → length bs ≡ length cs
        → last_id p bs ≡ last_id q cs
        → ((p ≡ q) × (bs ≡ cs)) ⊎ Collision
    unfolding last_id
    last_id-injective p q [] [] hp hq wb wc l e = inl (e, refl)
    last_id-injective p q [] (c ∷ cs) hp hq wb wc l e = absurd (omega arith)
    last_id-injective p q (b ∷ bs) [] hp hq wb wc l e = absurd (omega arith)
    last_id-injective p q (b ∷ bs) (c ∷ cs) hp hq wb wc l e =
        elim (last_id-injective (next_id sha256 p b) (next_id sha256 q c) bs cs (next_length p b)
          (next_length q c) wb.1 wc.1 (omega arith) e) [
            | inr col ↦ inr col
            | inl (same, rest) ↦ elim (next_id-injective p q b c hp hq wb.0 wc.0 same) [
              | inr col ↦ inr col
              | inl (pq, bc) ↦ inl (pq, cc)
            ]
          ]
      where
        next_length : (r : Bytes) (d : List ℕ) → length (next_id sha256 r d) ≡ 32
        next_length r d = hash_length _

  -- If the roots of two models with block sizes below 2^32 are equal, the models and the block
  -- sizes are, or there is a collision of the hash.
  pub root-injective :
      (m m' : Bytes) (size size' : ℕ)
      → size < 2 ^ 32
      → size' < 2 ^ 32
      → root sha256 m size ≡ root sha256 m' size'
      → ((m ≡ m') × (size ≡ size')) ⊎ Collision
  unfolding root put_uint32
  root-injective m m' size size' h h' e = elim (same_input _ _ e) [
    | inr col ↦ inr col
    | inl same ↦
        let r =
          append-injective m m' _ _
            (omega (
              arith,
              ap length same,
              length-append m (put_uint32 (size % 2 ^ 32)),
              length-append m' (put_uint32 (size' % 2 ^ 32)),
            ))
            same in
        inl (r.0, ground (arith, r.1))
  ]

  -- For every block size below 2^32 the root of the model whose id is the bytes of a parent id
  -- followed by the encoding of some tokens is the id that follows this parent for those tokens
  -- with the block size as one more token.
  pub root-next_id :
      (parent : Bytes) (tokens : List ℕ) (size : ℕ)
      → size < 2 ^ 32
      → root sha256 (parent ++ encode_tokens tokens) size
        ≡ next_id sha256 parent (tokens ++ size ∷ [])
  unfolding root next_id
  root-next_id parent tokens size h = ap sha256 (
      append_assoc parent (encode_tokens tokens) (put_uint32 (size % 2 ^ 32))
      ∙ ap (λ x. parent ++ (encode_tokens tokens ++ put_uint32 x)) (omega arith)
      ∙ ap (◌++◌ parent) (sym (encode_tokens-append tokens size)))
