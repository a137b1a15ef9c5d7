-- ===== src/Prelude/Arrays.antt =====
-- Go slices written and grown in place: a write at an index, sums over the elements, and the removal
-- that moves the last element into the gap.
use Prim.Native.Nat.{ℕ, zero, suc, ◌+◌, ◌≤◌, ◌<◌}
use mathlib.Core.Path.{◌≡◌, refl, sym, ap, ◌∙◌}
use mathlib.Core.Logic.{◌≢◌, inl, inr}
use mathlib.Core.List.{List, [], ◌∷◌, ◌++◌}
use mathlib.Core.Option.{none, some}
use native.Mathlib.Decide.{ℕ_discrete}
use native.Mathlib.Omega.{arith}
use prefixmesh.Prelude.Tests.{◌==◌, if◌then◌else◌}
use prefixmesh.Prelude.Lists.{length, get_elem?, take, In}

module _ {A : Type 0} where
  -- A write out of range is a fault in the source; here it changes nothing.
  abbrev pub set : List A → ℕ → A → List A
  set [] i v = []
  set (x ∷ xs) zero v = v ∷ xs
  set (x ∷ xs) (suc i) v = x ∷ set xs i v

  abbrev pub sum_of : (A → ℕ) → List A → ℕ
  sum_of f [] = 0
  sum_of f (x ∷ xs) = f x + sum_of f xs

  pub length-set : (xs : List A) (i : ℕ) (v : A) → length (set xs i v) ≡ length xs
  length-set [] i v = refl
  length-set (x ∷ xs) zero v = refl
  length-set (x ∷ xs) (suc i) v = ap suc (length-set xs i v)

  pub get_elem?-set_self :
      (xs : List A) (i : ℕ) (v : A) → i < length xs → get_elem? (set xs i v) i ≡ some v
  get_elem?-set_self [] i v h = absurd (omega arith)
  get_elem?-set_self (x ∷ xs) zero v h = refl
  get_elem?-set_self (x ∷ xs) (suc i) v h = get_elem?-set_self xs i v (omega arith)

  pub get_elem?-set_ne :
      (xs : List A) (i j : ℕ) (v : A) → i ≢ j → get_elem? (set xs i v) j ≡ get_elem? xs j
  get_elem?-set_ne [] i j v h = refl
  get_elem?-set_ne (x ∷ xs) zero zero v h = absurd (h refl)
  get_elem?-set_ne (x ∷ xs) zero (suc j) v h = refl
  get_elem?-set_ne (x ∷ xs) (suc i) zero v h = refl
  get_elem?-set_ne (x ∷ xs) (suc i) (suc j) v h = get_elem?-set_ne xs i j v (λ e. h (ap suc e))

  pub get_elem?-lt : (xs : List A) (i : ℕ) (x : A) → get_elem? xs i ≡ some x → i < length xs
  get_elem?-lt [] i x h = cc
  get_elem?-lt (y ∷ xs) zero x h = omega arith
  get_elem?-lt (y ∷ xs) (suc i) x h = omega (arith, get_elem?-lt xs i x h)

  pub get_elem?-some : (xs : List A) (i : ℕ) → i < length xs → (x : A) × (get_elem? xs i ≡ some x)
  get_elem?-some [] i h = absurd (omega arith)
  get_elem?-some (y ∷ xs) zero h = (y, refl)
  get_elem?-some (y ∷ xs) (suc i) h = get_elem?-some xs i (omega arith)

  pub In-get_elem? : (xs : List A) (i : ℕ) (x : A) → get_elem? xs i ≡ some x → In x xs
  In-get_elem? [] i x h = cc
  In-get_elem? (y ∷ xs) zero x h = inl (cc)
  In-get_elem? (y ∷ xs) (suc i) x h = inr (In-get_elem? xs i x h)

  pub In-index : (x : A) (xs : List A) → In x xs → (i : ℕ) × (get_elem? xs i ≡ some x)
  In-index x [] h = absurd h
  In-index x (y ∷ xs) (inl e) = (0, ap some (sym e))
  In-index x (y ∷ xs) (inr h) = let (i, e) = In-index x xs h in (suc i, e)

  pub get_elem?-cut : (n j : ℕ) (xs : List A) → j < n → get_elem? (take n xs) j ≡ get_elem? xs j
  get_elem?-cut zero j xs h = absurd (omega arith)
  get_elem?-cut (suc n) j [] h = refl
  get_elem?-cut (suc n) zero (x ∷ xs) h = refl
  get_elem?-cut (suc n) (suc j) (x ∷ xs) h = get_elem?-cut n j xs (omega arith)

  pub get_elem?-cut_off : (n j : ℕ) (xs : List A) → n ≤ j → get_elem? (take n xs) j ≡ none
  get_elem?-cut_off zero j xs h = refl
  get_elem?-cut_off (suc n) j [] h = refl
  get_elem?-cut_off (suc n) zero (x ∷ xs) h = absurd (omega arith)
  get_elem?-cut_off (suc n) (suc j) (x ∷ xs) h = get_elem?-cut_off n j xs (omega arith)

  pub get_elem?-append_old :
      (xs ys : List A) (j : ℕ) → j < length xs → get_elem? (xs ++ ys) j ≡ get_elem? xs j
  get_elem?-append_old [] ys j h = absurd (omega arith)
  get_elem?-append_old (x ∷ xs) ys zero h = refl
  get_elem?-append_old (x ∷ xs) ys (suc j) h = get_elem?-append_old xs ys j (omega arith)

  pub get_elem?-append_last : (xs : List A) (x : A) → get_elem? (xs ++ x ∷ []) (length xs) ≡ some x
  get_elem?-append_last [] x = refl
  get_elem?-append_last (y ∷ xs) x = get_elem?-append_last xs x

  pub sum_of-append :
      (f : A → ℕ) (xs : List A) (x : A) → sum_of f (xs ++ x ∷ []) ≡ sum_of f xs + f x
  sum_of-append f [] x = omega arith
  sum_of-append f (y ∷ xs) x = omega (arith, sum_of-append f xs x)

  pub sum_of_same :
      (f g : A → ℕ) (xs : List A) → ((x : A) → In x xs → f x ≡ g x) → sum_of f xs ≡ sum_of g xs
  sum_of_same f g [] h = refl
  sum_of_same f g (x ∷ xs) h =
      omega (arith, h x (inl refl), sum_of_same f g xs (λ y k. h y (inr k)))

  pub sum_of-le : (f : A → ℕ) (xs : List A) (x : A) → In x xs → f x ≤ sum_of f xs
  sum_of-le f [] x h = absurd h
  sum_of-le f (y ∷ xs) x (inl e) = omega (arith, ap f e)
  sum_of-le f (y ∷ xs) x (inr h) = omega (arith, sum_of-le f xs x h)

  sum_of-set :
      (f : A → ℕ) (xs : List A) (i : ℕ) (x v : A)
      → get_elem? xs i ≡ some x
      → sum_of f (set xs i v) + f x ≡ sum_of f xs + f v
  sum_of-set f [] i x v h = cc
  sum_of-set f (y ∷ xs) zero x v h = omega (arith, ap f (inj h))
    where
      inj : some y ≡ some x → y ≡ x
      inj q = cc
  sum_of-set f (y ∷ xs) (suc i) x v h = omega (arith, sum_of-set f xs i x v h)

  sum_of-take :
      (f : A → ℕ) (n : ℕ) (xs : List A) (l : A)
      → length xs ≡ suc n
      → get_elem? xs n ≡ some l
      → sum_of f (take n xs) + f l ≡ sum_of f xs
  sum_of-take f n [] l e h = cc
  sum_of-take f zero (y ∷ []) l e h = omega (arith, ap f (inj h))
    where
      inj : some y ≡ some l → y ≡ l
      inj q = cc
  sum_of-take f zero (y ∷ z ∷ xs) l e h = absurd (omega arith)
  sum_of-take f (suc n) (y ∷ xs) l e h = omega (arith, sum_of-take f n xs l (omega arith) h)

  -- The element at the gap becomes the last one.
  pub get_elem?-swap :
      (n i j : ℕ) (xs : List A) (l : A)
      → length xs ≡ suc n
      → i < length xs
      → j < n
      → get_elem? (take n (set xs i l)) j ≡ (if i == j then some l else get_elem? xs j)
  get_elem?-swap n i j xs l e lt h = elim (ℕ_discrete i j) [
    | yes p ↦
        rw (get_elem?-cut n j (set xs i l) h, ← p, get_elem?-set_self xs i l lt) (ground arith)
    | no p ↦ rw (get_elem?-cut n j (set xs i l) h, get_elem?-set_ne xs i j l p) (ground arith)
  ]

  pub sum_of-swap :
      (f : A → ℕ) (n i : ℕ) (xs : List A) (x l : A)
      → length xs ≡ suc n
      → get_elem? xs i ≡ some x
      → get_elem? xs n ≡ some l
      → sum_of f (take n (set xs i l)) + f x ≡ sum_of f xs
  sum_of-swap f n i xs x l e at last = omega (
    arith,
    sum_of-set f xs i x l at,
    sum_of-take f n (set xs i l) l (length-set xs i l ∙ e) last',
  )
    where
      last' : get_elem? (set xs i l) n ≡ some l
      last' = elim (ℕ_discrete i n) [
        | yes p ↦ rw (← p) (get_elem?-set_self xs i l (get_elem?-lt xs i x at))
        | no p ↦ get_elem?-set_ne xs i n l p ∙ last
      ]

-- How often a number stands in a list.
abbrev pub count : ℕ → List ℕ → ℕ
count p [] = 0
count p (x ∷ xs) = (if p == x then 1 else 0) + count p xs

pub count-pos : (p : ℕ) (xs : List ℕ) → In p xs → 0 < count p xs
count-pos p [] h = absurd h
count-pos p (x ∷ xs) (inl e) = ground arith
count-pos p (x ∷ xs) (inr h) = omega (arith, count-pos p xs h)
