-- ===== src/Prelude/Counting.antt =====
-- A list without repetition is no longer than one that holds its elements.
use Prim.Native.Nat.{suc, ◌≤◌}
use mathlib.Core.Path.{◌≡◌, refl, sym, ap, subst}
use mathlib.Core.Logic.{◌≢◌, inl, inr, ite, if_pos, if_neg}
use mathlib.Core.List.{List, [], ◌∷◌}
use native.Mathlib.Omega.{arith}
use prefixmesh.Prelude.Lists.{length, In, Distinct}

module _ {A : Type 0} (dec : Discrete A) where
  erase_one : A → List A → List A
  erase_one a [] = []
  erase_one a (x ∷ xs) = ite (dec a x) xs (x ∷ erase_one a xs)

  length-erase_one : (a : A) (xs : List A) → In a xs → length xs ≡ suc (length (erase_one a xs))
  unfolding erase_one
  length-erase_one a [] h = absurd h
  length-erase_one a (x ∷ xs) h = elim (dec a x) [
    | yes e ↦ rw (if_pos _ e)
    | no e ↦ elim h [
      | inl p ↦ absurd (e p)
      | inr p ↦ rw (if_neg _ e) (ap suc (length-erase_one a xs p))
    ]
  ]

  In-erase_one : (a b : A) (xs : List A) → a ≢ b → In b xs → In b (erase_one a xs)
  unfolding erase_one
  In-erase_one a b [] ne h = h
  In-erase_one a b (x ∷ xs) ne h = elim (dec a x) [
    | yes e ↦ elim h [
      | inl p ↦ absurd (ne (subst (λ y. y ≡ b) (sym e) (sym p)))
      | inr p ↦ rw (if_pos _ e) p
    ]
    | no e ↦ elim h [
      | inl p ↦ rw (if_neg _ e) (inl p)
      | inr p ↦ rw (if_neg _ e) (inr (In-erase_one a b xs ne p))
    ]
  ]

  pub length-le_of_subset :
      (xs ys : List A) → Distinct xs → ((a : A) → In a xs → In a ys) → length xs ≤ length ys
  length-le_of_subset [] ys d h = omega arith
  length-le_of_subset (x ∷ xs) ys d h = omega (
    arith,
    length-erase_one x ys (h x (inl refl)),
    length-le_of_subset xs (erase_one x ys) d.1
        (λ a i. In-erase_one x a ys (λ e. d.0 (subst (λ y. In y xs) (sym e) i)) (h a (inr i))),
  )
