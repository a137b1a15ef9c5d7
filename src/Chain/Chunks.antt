-- ===== src/Chain/Chunks.antt =====
-- What `Chunk` returns, and that a prompt's ids begin with those of its whole-block prefixes.
use native.Mathlib.Nat.{zero-add, suc-add}
use mathlib.Core.Path.{ap₂}
use prefixmesh.Prelude.{
  lt→ltb, length, take, drop, length-append, take-append-drop, length-take, length-drop, Bytes, ℕ,
  zero, suc, ◌+◌, ◌*◌, ◌≤◌, ◌<◌, min, ◌≡◌, refl, ap, ◌∙◌, some, List, [], ◌∷◌, ◌++◌, arith, dec_lt,
}
use prefixmesh.Chain.Defs.{slice, chunk_from, chunk, build_from, build, root, next_id}

abbrev pub concat : List (List ℕ) → List ℕ
concat [] = []
concat (b ∷ bs) = b ++ concat bs

drop-drop : (n m : ℕ) (xs : List ℕ) → drop (n + m) xs ≡ drop m (drop n xs)
drop-drop zero m xs = rw zero-add
drop-drop (suc n) m [] = rw suc-add (drop-nil m)
  where
    drop-nil : (k : ℕ) → [] ≡ drop {A = ℕ} k []
    drop-nil zero = refl
    drop-nil (suc k) = refl
drop-drop (suc n) m (x ∷ xs) = rw suc-add (drop-drop n m xs)

drop_all : (n : ℕ) (xs : List ℕ) → length xs ≤ n → drop n xs ≡ []
drop_all zero [] h = refl
drop_all zero (x ∷ xs) h = absurd (omega arith)
drop_all (suc n) [] h = refl
drop_all (suc n) (x ∷ xs) h = drop_all n xs (omega arith)

take-min : (n : ℕ) (xs : List ℕ) → take (min n (length xs)) xs ≡ take n xs
take-min zero [] = refl
take-min zero (x ∷ xs) = rw min_zero
  where
    min_zero : min 0 (suc (length xs)) ≡ 0
    min_zero = omega arith
take-min (suc n) [] = rw min_nil
  where
    min_nil : min (suc n) 0 ≡ 0
    min_nil = omega arith
take-min (suc n) (x ∷ xs) = rw min_step (ap (◌∷◌ x) (take-min n xs))
  where
    min_step : min (suc n) (suc (length xs)) ≡ suc (min n (length xs))
    min_step = omega arith

-- One block of the loop.
slice-take :
    (tokens : List ℕ) (size start : ℕ)
    → start < length tokens
    → slice tokens start (min (start + size) (length tokens)) ≡ take size (drop start tokens)
slice-take tokens size start h =
    rw (← take-min size (drop start tokens), length-drop)
      (ap (λ k. take k (drop start tokens)) (omega arith))

-- A plain recursion that gives the same blocks: cut off a block until nothing is left.
abbrev pub blocks_of : ℕ → ℕ → List ℕ → List (List ℕ)
blocks_of zero size ts = []
blocks_of (suc fuel) size [] = []
blocks_of (suc fuel) size (t ∷ ts) = take size (t ∷ ts) ∷ blocks_of fuel size (drop size (t ∷ ts))

chunk_from-blocks_of :
    (fuel size start : ℕ) (tokens : List ℕ)
    → chunk_from fuel tokens size start ≡ blocks_of fuel size (drop start tokens)
unfolding chunk_from
chunk_from-blocks_of zero size start tokens = refl
chunk_from-blocks_of (suc fuel) size start tokens = elim (dec_lt start (length tokens)) [
  | yes lt ↦
      rw
        (
          lt→ltb start (length tokens) lt,
          slice-take,
          chunk_from-blocks_of fuel size (start + size) tokens,
          drop-drop,
        )
        (blocks_step fuel size (drop start tokens) (omega (arith, length-drop start tokens)))
  | no ge ↦ rw (drop_all start tokens (omega arith)) (ground arith)
]
  where
    blocks_step :
        (f k : ℕ) (xs : List ℕ)
        → 0 < length xs
        → take k xs ∷ blocks_of f k (drop k xs) ≡ blocks_of (suc f) k xs
    blocks_step f k [] h = absurd (omega arith)
    blocks_step f k (x ∷ xs) h = refl

concat-blocks_of :
    (fuel size : ℕ) (ts : List ℕ)
    → 0 < size
    → length ts ≤ fuel
    → concat (blocks_of fuel size ts) ≡ ts
concat-blocks_of zero size [] pos h = refl
concat-blocks_of zero size (t ∷ ts) pos h = absurd (omega arith)
concat-blocks_of (suc fuel) size [] pos h = refl
concat-blocks_of (suc fuel) size (t ∷ ts) pos h =
    ap (◌++◌ (take size (t ∷ ts))) (
      concat-blocks_of fuel size (drop size (t ∷ ts)) pos
        (omega (arith, length-drop size (t ∷ ts))))
    ∙ take-append-drop size (t ∷ ts)

-- Every block but the last is full, and the last has a token at least.
abbrev pub IsCut : ℕ → List (List ℕ) → Type 0
IsCut size [] = Unit
IsCut size (b ∷ []) = (0 < length b) × (length b ≤ size)
IsCut size (b ∷ c ∷ bs) = (length b ≡ size) × IsCut size (c ∷ bs)

IsCut-blocks_of : (fuel size : ℕ) (ts : List ℕ) → 0 < size → IsCut size (blocks_of fuel size ts)
IsCut-blocks_of zero size ts pos = tt
IsCut-blocks_of (suc fuel) size [] pos = tt
IsCut-blocks_of (suc fuel) size (t ∷ ts) pos =
    cons_cut (take size (t ∷ ts)) fuel (drop size (t ∷ ts))
      (omega (arith, length-take size (t ∷ ts))) (omega (arith, length-take size (t ∷ ts)))
      (λ more. omega (arith, length-take size (t ∷ ts), length-drop size (t ∷ ts), more))
      (IsCut-blocks_of fuel size (drop size (t ∷ ts)) pos)
  where
    cons_cut :
        (b : List ℕ) (f : ℕ) (rest : List ℕ)
        → 0 < length b
        → length b ≤ size
        → (0 < length rest → length b ≡ size)
        → IsCut size (blocks_of f size rest)
        → IsCut size (b ∷ blocks_of f size rest)
    cons_cut b zero rest p q full c = (p, q)
    cons_cut b (suc f) [] p q full c = (p, q)
    cons_cut b (suc f) (r ∷ rs) p q full c = (full (omega arith), c)

-- For a positive block size Chunk does not panic; put together, its blocks give back the prompt,
-- each of them is full but the last, and the last is not empty.
pub chunk_cuts :
    (tokens : List ℕ) (size : ℕ)
    → 0 < size
    → (blocks : List (List ℕ)) × (chunk tokens size ≡ some blocks)
      × (concat blocks ≡ tokens)
      × IsCut size blocks
unfolding chunk
chunk_cuts tokens size pos = (
  blocks_of (length tokens) size tokens,
  ground (arith, chunk_from-blocks_of (length tokens) size 0 tokens),
  concat-blocks_of (length tokens) size tokens pos (omega arith),
  IsCut-blocks_of (length tokens) size tokens pos,
)

take-append : (n : ℕ) (xs ys : List ℕ) → n ≤ length xs → take n (xs ++ ys) ≡ take n xs
take-append zero xs ys h = refl
take-append (suc n) [] ys h = absurd (omega arith)
take-append (suc n) (x ∷ xs) ys h = ap (◌∷◌ x) (take-append n xs ys (omega arith))

drop-append : (n : ℕ) (xs ys : List ℕ) → n ≤ length xs → drop n (xs ++ ys) ≡ drop n xs ++ ys
drop-append zero xs ys h = refl
drop-append (suc n) [] ys h = absurd (omega arith)
drop-append (suc n) (x ∷ xs) ys h = drop-append n xs ys (omega arith)

blocks_of-fuel :
    (f g size : ℕ) (ts : List ℕ)
    → 0 < size
    → length ts ≤ f
    → length ts ≤ g
    → blocks_of f size ts ≡ blocks_of g size ts
blocks_of-fuel zero zero size ts pos hf hg = refl
blocks_of-fuel zero (suc g) size [] pos hf hg = refl
blocks_of-fuel zero (suc g) size (t ∷ ts) pos hf hg = absurd (omega arith)
blocks_of-fuel (suc f) zero size [] pos hf hg = refl
blocks_of-fuel (suc f) zero size (t ∷ ts) pos hf hg = absurd (omega arith)
blocks_of-fuel (suc f) (suc g) size [] pos hf hg = refl
blocks_of-fuel (suc f) (suc g) size (t ∷ ts) pos hf hg = ap (◌∷◌ (take size (t ∷ ts))) (
    blocks_of-fuel f g size (drop size (t ∷ ts)) pos (omega (arith, length-drop size (t ∷ ts)))
      (omega (arith, length-drop size (t ∷ ts))))

-- A prefix of `k` whole blocks is cut as it is in the longer prompt.
blocks_of-append :
    (k size : ℕ) (xs ys : List ℕ)
    → 0 < size
    → length xs ≡ k * size
    → blocks_of (length (xs ++ ys)) size (xs ++ ys)
      ≡ blocks_of (length xs) size xs ++ blocks_of (length ys) size ys
blocks_of-append k size [] ys pos h = refl
blocks_of-append zero size (x ∷ xs) ys pos h = absurd (omega arith)
blocks_of-append (suc k) size (x ∷ xs) ys pos h = ap₂ ◌∷◌ (take-append size (x ∷ xs) ys fits) (
    ap (blocks_of (length (xs ++ ys)) size) (drop-append size (x ∷ xs) ys fits)
    ∙ blocks_of-fuel (length (xs ++ ys)) (length (rest ++ ys)) size (rest ++ ys) pos
        (omega (arith, length-append rest ys, length-append xs ys, length-drop size (x ∷ xs)))
        (omega arith)
    ∙ blocks_of-append k size rest ys pos (omega (arith, length-drop size (x ∷ xs)))
    ∙ ap (λ bs. bs ++ blocks_of (length ys) size ys)
        (blocks_of-fuel (length rest) (length xs) size rest pos (omega arith)
          (omega (arith, length-drop size (x ∷ xs)))))
  where
    rest : List ℕ
    rest = drop size (x ∷ xs)

    fits : size ≤ length (x ∷ xs)
    fits = omega arith

length-blocks_of :
    (k size : ℕ) (xs : List ℕ)
    → 0 < size
    → length xs ≡ k * size
    → length (blocks_of (length xs) size xs) ≡ k
length-blocks_of zero size [] pos h = refl
length-blocks_of zero size (x ∷ xs) pos h = absurd (omega arith)
length-blocks_of (suc k) size [] pos h = absurd (omega arith)
length-blocks_of (suc k) size (x ∷ xs) pos h =
    ap (λ bs. suc (length bs))
      (blocks_of-fuel (length xs) (length rest) size rest pos
        (omega (arith, length-drop size (x ∷ xs))) (omega arith))
    ∙ ap suc (length-blocks_of k size rest pos (omega (arith, length-drop size (x ∷ xs))))
  where
    rest : List ℕ
    rest = drop size (x ∷ xs)

pub chunk-blocks_of :
    (tokens : List ℕ) (size : ℕ)
    → 0 < size
    → chunk tokens size ≡ some (blocks_of (length tokens) size tokens)
unfolding chunk
chunk-blocks_of tokens size pos = ground (arith, chunk_from-blocks_of (length tokens) size 0 tokens)

module _ (sha256 : Bytes → Bytes) where
  length-build_from : (p : Bytes) (bs : List (List ℕ)) → length (build_from sha256 p bs) ≡ length bs
  unfolding build_from
  length-build_from p [] = refl
  length-build_from p (b ∷ bs) = ap suc (length-build_from (next_id sha256 p b) bs)

  build_from-append :
      (p : Bytes) (bs cs : List (List ℕ))
      → (rest : List Bytes) × (build_from sha256 p (bs ++ cs) ≡ build_from sha256 p bs ++ rest)
  unfolding build_from
  build_from-append p [] cs = (build_from sha256 p cs, refl)
  build_from-append p (b ∷ bs) cs =
      let (rest, e) = build_from-append (next_id sha256 p b) bs cs in
      (rest, ap (◌∷◌ (next_id sha256 p b)) e)

  -- For a positive block size, a prompt of exactly k blocks has k ids, and every prompt that
  -- begins with it has a chain that begins with those ids.
  pub build_prefix :
      (model_id : Bytes) (k size : ℕ) (xs ys : List ℕ)
      → 0 < size
      → length xs ≡ k * size
      → (ids : List Bytes) × (rest : List Bytes) × (build sha256 model_id size xs ≡ some ids)
        × (build sha256 model_id size (xs ++ ys) ≡ some (ids ++ rest))
        × (length ids ≡ k)
  unfolding build
  build_prefix model_id k size xs ys pos h =
      let bs = blocks_of (length xs) size xs in
      let cs = blocks_of (length ys) size ys in
      let p = root sha256 model_id size in
      let (rest, e) = build_from-append p bs cs in
      (
        build_from sha256 p bs,
        rest,
        rw (chunk-blocks_of xs size pos, build),
        rw (chunk-blocks_of (xs ++ ys) size pos, blocks_of-append k size xs ys pos h, build)
            (ap some e),
        length-build_from p bs ∙ length-blocks_of k size xs pos h,
      )
