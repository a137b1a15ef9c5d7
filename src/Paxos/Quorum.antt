-- ===== src/Paxos/Quorum.antt =====
-- Sets of replicas as lists without repetition, and the majorities of node.go: two of them meet.
use prefixmesh.Prelude.{
  ◌==◌, if◌then◌else◌, ==_iff, Bool-cases, length, length-append, In, Distinct, Distinct-append, ℕ,
  zero, suc, ◌≤◌, ◌<◌, ◌≡◌, refl, ap, subst, ◌⊎◌, inl, inr, List, [], ◌∷◌, ◌++◌, arith, ℕ_discrete,
}
use prefixmesh.Paxos.Node.{majority}

abbrev pub Below : ℕ → List ℕ → Type 0
Below n [] = Unit
Below n (x ∷ xs) = (x < n) × Below n xs

pub record IsQuorum (n : ℕ) (q : List ℕ) : Type 0 where
  pub distinct : Distinct q
  pub below : Below n q
  pub many : majority n ≤ length q

without : ℕ → List ℕ → List ℕ
without a [] = []
without a (x ∷ xs) = if a == x then without a xs else x ∷ without a xs

In-without : (a x : ℕ) (xs : List ℕ) → In x (without a xs) → In x xs
unfolding without
In-without a x [] h = h
In-without a x (y ∷ ys) h = ground (arith, In-without a x ys)

Distinct-without : (a : ℕ) (xs : List ℕ) → Distinct xs → Distinct (without a xs)
unfolding without
Distinct-without a [] d = tt
Distinct-without a (x ∷ xs) d = elim (Bool-cases (a == x)) [
  | inl e ↦ rw e (Distinct-without a xs d.1)
  | inr e ↦ rw e (λ h. d.0 (In-without a x xs h), Distinct-without a xs d.1)
]

without_absent : (a : ℕ) (xs : List ℕ) → (In a xs → ⊥) → without a xs ≡ xs
unfolding without
without_absent a [] h = refl
without_absent a (x ∷ xs) h = elim (Bool-cases (a == x)) [
  | inl e ↦ absurd (h (inl ((==_iff a x).0 e)))
  | inr e ↦ rw e (ap (◌∷◌ x) (without_absent a xs (λ i. h (inr i))))
]

length-without : (a : ℕ) (xs : List ℕ) → Distinct xs → length xs ≤ suc (length (without a xs))
unfolding without
length-without a [] d = omega arith
length-without a (x ∷ xs) d = elim (Bool-cases (a == x)) [
  | inl e ↦ rw e (
      omega (
        arith,
        ap length (without_absent a xs (λ h. d.0 (subst (λ y. In y xs) ((==_iff a x).0 e) h))),
      ))
  | inr e ↦ rw e (omega (arith, length-without a xs d.1))
]

Below-without : (n : ℕ) (xs : List ℕ) → Below (suc n) xs → Below n (without n xs)
unfolding without
Below-without n [] b = tt
Below-without n (x ∷ xs) b = elim (Bool-cases (n == x)) [
  | inl e ↦ rw e (Below-without n xs b.1)
  | inr e ↦ rw e (ground arith, Below-without n xs b.1)
]

length-le_of_Below : (n : ℕ) (xs : List ℕ) → Distinct xs → Below n xs → length xs ≤ n
length-le_of_Below n [] d b = omega arith
length-le_of_Below zero (x ∷ xs) d b = absurd (omega arith)
length-le_of_Below (suc n) (x ∷ xs) d b = omega (
  arith,
  length-without n (x ∷ xs) d,
  length-le_of_Below n (without n (x ∷ xs)) (Distinct-without n (x ∷ xs) d)
      (Below-without n (x ∷ xs) b),
)

Below-append : (n : ℕ) (xs ys : List ℕ) → Below n xs → Below n ys → Below n (xs ++ ys)
Below-append n [] ys b c = c
Below-append n (x ∷ xs) ys b c = (b.0, Below-append n xs ys b.1 c)

is_In : (a : ℕ) (xs : List ℕ) → In a xs ⊎ (In a xs → ⊥)
is_In a [] = inr (λ h. h)
is_In a (x ∷ xs) = elim (ℕ_discrete a x) [
  | yes e ↦ inl (inl e)
  | no e ↦ elim (is_In a xs) [
    | inl h ↦ inl (inr h)
    | inr h ↦ inr (λ i. elim i [ inl l ↦ e l | inr r ↦ h r ])
  ]
]

meet : (xs ys : List ℕ) → ((a : ℕ) × In a xs × In a ys) ⊎ ((a : ℕ) → In a xs → In a ys → ⊥)
meet [] ys = inr (λ a h k. h)
meet (x ∷ xs) ys = elim (is_In x ys) [
  | inl h ↦ inl (x, inl refl, h)
  | inr h ↦ elim (meet xs ys) [
    | inl (a, i, j) ↦ inl (a, inr i, j)
    | inr apart ↦
        inr (λ a i j. elim i [ inl e ↦ h (subst (λ y. In y ys) e j) | inr k ↦ apart a k j ])
  ]
]

-- Two majorities have a replica in common.
pub quorums_meet : (n : ℕ) (p q : List ℕ) → IsQuorum n p → IsQuorum n q → (a : ℕ) × In a p × In a q
unfolding majority
quorums_meet n p q hp hq = elim (meet p q) [
  | inl found ↦ found
  | inr apart ↦ absurd (
      omega (
        arith,
        hp.many,
        hq.many,
        length-append p q,
        length-le_of_Below n (p ++ q) (Distinct-append p q hp.distinct hq.distinct apart)
            (Below-append n p q hp.below hq.below),
      ))
]

pub Below-mem : (n a : ℕ) (xs : List ℕ) → Below n xs → In a xs → a < n
Below-mem n a [] b h = absurd h
Below-mem n a (x ∷ xs) b (inl e) = omega arith
Below-mem n a (x ∷ xs) b (inr h) = Below-mem n a xs b.1 h
