-- ===== src/BlockStore/Paged/Pages.antt =====
-- The pages of a payload: what the loop of `Put` writes is what the loop of `Get` reads.
use prefixmesh.Prelude.{
  lt→ltb, length, take, drop, take-append-drop, length-take, length-drop, Bytes, count, ℕ, zero,
  suc, ◌+◌, ◌-◌, ◌*◌, ◌^◌, ◌≤◌, ◌<◌, min, ◌≡◌, refl, sym, ap, ◌∙◌, ite, if_pos, if_neg, some, List,
  [], ◌∷◌, ◌++◌, arith, dec_le, ℕ_discrete,
}
use prefixmesh.BlockStore.Paged.{Filled, fill_pages, read_pages, copy_to}
use prefixmesh.BlockStore.Paged.Invariant.{IsAdditive, count-IsAdditive}

pub sum-append : (g : List ℕ → ℕ) → IsAdditive g → (xs ys : List ℕ) → g (xs ++ ys) ≡ g xs + g ys
sum-append g a [] ys = omega (arith, a.on_nil)
sum-append g a (x ∷ xs) ys =
    omega (arith, sum-append g a xs ys, a.on_cons x xs, a.on_cons x (xs ++ ys))

module _ {A : Type 0} where
  take-append : (xs ys : List A) (n : ℕ) → n ≡ length xs → take n (xs ++ ys) ≡ xs
  take-append [] ys zero h = refl
  take-append [] ys (suc n) h = absurd (omega arith)
  take-append (x ∷ xs) ys zero h = absurd (omega arith)
  take-append (x ∷ xs) ys (suc n) h = ap (λ t. x ∷ t) (take-append xs ys n (omega arith))

  drop-all : (n : ℕ) (xs : List A) → length xs ≤ n → drop n xs ≡ []
  drop-all zero [] h = refl
  drop-all zero (x ∷ xs) h = absurd (omega arith)
  drop-all (suc n) [] h = refl
  drop-all (suc n) (x ∷ xs) h = drop-all n xs (omega arith)

  -- A slice up to `hi` or the end, and the rest from `hi` on.
  drop-drop : (n m : ℕ) (xs : List A) → drop (n + m) xs ≡ drop m (drop n xs)
  drop-drop n m [] =
      drop-all (n + m) [] (omega arith)
      ∙ sym (drop-all m (drop n []) (omega (arith, length-drop {A = A} n [])))
  drop-drop zero m (x ∷ xs) = ap (λ k. drop k (x ∷ xs)) (omega arith)
  drop-drop (suc n) m (x ∷ xs) = ap (λ k. drop k (x ∷ xs)) shift ∙ drop-drop n m xs
    where
      shift : suc n + m ≡ suc (n + m)
      shift = omega arith

  -- A slice up to `lo + n` or the end, and the rest from `lo + n` on.
  take-drop :
      (lo n : ℕ) (xs : List A)
      → take (min (lo + n) (length xs) - lo) (drop lo xs) ++ drop (lo + n) xs ≡ drop lo xs
  take-drop lo n xs =
      ap (λ t. take (min (lo + n) (length xs) - lo) (drop lo xs) ++ t) tail
      ∙ take-append-drop (min (lo + n) (length xs) - lo) (drop lo xs)
    where
      tail : drop (lo + n) xs ≡ drop (min (lo + n) (length xs) - lo) (drop lo xs)
      tail = elim (dec_le (lo + n) (length xs)) [
        | yes le ↦ drop-drop lo n xs ∙ ap (λ k. drop k (drop lo xs)) (omega arith)
        | no gt ↦
            drop-all (lo + n) xs (omega arith)
            ∙ sym (
                drop-all (min (lo + n) (length xs) - lo) (drop lo xs)
                  (omega (arith, length-drop lo xs)))
      ]

-- The part of the payload that one page takes.
abbrev part : ℕ → Bytes → ℕ → Bytes
part page_size payload lo = take (min (lo + page_size) (length payload) - lo) (drop lo payload)

length-part :
    (page_size : ℕ) (payload : Bytes) (lo : ℕ)
    → min (lo + page_size) (length payload) - lo ≡ length (part page_size payload lo)
length-part page_size payload lo = omega (
  arith,
  length-take (min (lo + page_size) (length payload) - lo) (drop lo payload),
  length-drop lo payload,
)

pub read_pages-same :
    (page_size : ℕ) (a b : ℕ → Bytes) (size : ℕ) (pages : List ℕ) (lo : ℕ)
    → ((pg : ℕ) → 0 < count pg pages → a pg ≡ b pg)
    → read_pages page_size a size pages lo ≡ read_pages page_size b size pages lo
read_pages-same page_size a b size [] lo h = refl
read_pages-same page_size a b size (pg ∷ pages) lo h =
    rw
      (
        h pg (ground arith),
        read_pages-same page_size a b size pages (lo + page_size) (λ x k. h x (ground arith)),
      )
      refl

pub record Fills (page_size : ℕ) (payload : Bytes) (k lo : ℕ) (free : List ℕ) (arena : ℕ → Bytes)
    (f : Filled) : Type 0 where
  pub split : f.taken ++ f.left ≡ free
  pub enough : length f.taken ≡ k
  pub others : (pg : ℕ) → count pg f.taken ≡ 0 → f.filled pg ≡ arena pg
  pub reads : read_pages page_size f.filled (length payload) f.taken lo ≡ drop lo payload

pub fill_pages_lem :
    (page_size : ℕ) (payload : Bytes) (k lo : ℕ) (free : List ℕ) (arena : ℕ → Bytes)
    → k ≤ length free
    → ((pg : ℕ) → count pg free ≤ 1)
    → ((pg : ℕ) → 0 < count pg free → pg < 2 ^ 31)
    → length payload ≤ lo + k * page_size
    → (f : Filled) × (fill_pages page_size payload k lo free arena ≡ some f)
      × Fills page_size payload k lo free arena f
unfolding fill_pages
fill_pages_lem page_size payload zero lo free arena h once small fits = (
  record { taken = []; left = free; filled = arena },
  refl,
  record {
    split = refl;
    enough = refl;
    others = λ pg z. refl;
    reads = sym (drop-all lo payload (omega arith));
  },
)
fill_pages_lem page_size payload (suc k) lo [] arena h once small fits = absurd (omega arith)
fill_pages_lem page_size payload (suc k) lo (pg ∷ free) arena h once small fits =
    let written : ℕ → Bytes =
      λ a. ite (ℕ_discrete pg a) (copy_to (arena pg) (part page_size payload lo)) (arena a) in
    let (f, ran, fills) =
      fill_pages_lem page_size payload k (lo + page_size) free written (omega arith)
        (λ x. let one = once x in ground arith) (λ x k. small x (ground arith)) (omega arith) in
    let here : f.filled pg ≡ copy_to (arena pg) (part page_size payload lo) =
      fills.others pg (
        ground (
          arith,
          once pg,
          ap (count pg) fills.split,
          sum-append (count pg) (count-IsAdditive pg) f.taken f.left,
        ))
      ∙ if_pos (ℕ_discrete pg pg) refl (copy_to (arena pg) (part page_size payload lo))
          (arena pg) in
    let slice : take (min (lo + page_size) (length payload) - lo) (f.filled pg)
        ≡ part page_size payload lo =
      ap (take (min (lo + page_size) (length payload) - lo)) here
      ∙ take-append (part page_size payload lo)
          (drop (length (part page_size payload lo)) (arena pg))
          (min (lo + page_size) (length payload) - lo) (length-part page_size payload lo) in
    let f' : Filled = record f { taken = pg ∷ f.taken } in
    (
      f',
      rw (lt→ltb pg (2 ^ 31) (small pg (ground arith)), ran, fill_pages) refl,
      record {
        split = ap (λ t. pg ∷ t) fills.split;
        enough = ap suc fills.enough;
        others = λ x z.
            fills.others x (ground arith)
            ∙ if_neg (ℕ_discrete pg x) (λ q. ground (arith, q))
                (copy_to (arena pg) (part page_size payload lo)) (arena x);
        reads =
            ap (λ t. t ++ read_pages page_size f.filled (length payload) f.taken (lo + page_size))
              slice
            ∙ ap (λ t. part page_size payload lo ++ t) fills.reads
            ∙ take-drop lo page_size payload;
      },
    )
