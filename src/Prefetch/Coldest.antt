-- ===== src/Prefetch/Coldest.antt =====
-- The sort of sweepLocked: the coldest candidates come first.
use prefixmesh.Prelude.{
  Bool-cases, length, In, Distinct, In-append_right, keys, Bytes, suc, ◌≡◌, refl, sym, ap, subst,
  ◌∙◌, ◌↔◌, inl, inr, true, false, List, [], ◌∷◌, ◌++◌, arith, Floats,
}
use prefixmesh.Prefetch.Planner.{insert_cold, sort_cold}
use prefixmesh.Prefetch.Deletions.{In-keys, keys-In}

-- What is known of the order of the floats: a number is equal to itself, a NaN is not.
pub record IsOrder (fl : Floats) : Type 0 where
  pub asym : (a b : fl.Float) → fl.less a b ≡ true → fl.less b a ≡ false
  pub trans :
      (a b c : fl.Float)
      → fl.equal b b ≡ true
      → fl.less a b ≡ false
      → fl.less b c ≡ false
      → fl.less a c ≡ false

module _ (fl : Floats) (order : IsOrder fl) where
  abbrev pub Candidates : Type 0
  Candidates = List (Bytes × fl.Float)

  abbrev pub AllNumbers : Candidates → Type 0
  AllNumbers cs = (c : Bytes × fl.Float) → In c cs → fl.equal c.1 c.1 ≡ true

  abbrev pub IsCold : Candidates → Type 0
  IsCold [] = Unit
  IsCold (c ∷ cs) = ((d : Bytes × fl.Float) → In d cs → fl.less d.1 c.1 ≡ false) × IsCold cs

  In-insert_cold :
      (x c : Bytes × fl.Float) (cs : Candidates) → In x (insert_cold fl c cs) ↔ In x (c ∷ cs)
  unfolding insert_cold
  In-insert_cold x c [] = (λ h. h, λ h. h)
  In-insert_cold x c (d ∷ ds) =
      let (to, back) = In-insert_cold x c ds in
      elim (Bool-cases (fl.less d.1 c.1)) [
        | inl e ↦ rw e (
          λ h. elim h [
            | inl p ↦ inr (inl p)
            | inr p ↦ elim (to p) [ inl q ↦ inl q | inr q ↦ inr (inr q) ]
          ],
          λ h. elim h [
            | inl p ↦ inr (back (inl p))
            | inr p ↦ elim p [ inl q ↦ inl q | inr q ↦ inr (back (inr q)) ]
          ],
        )
        | inr e ↦ rw e (λ h. h, λ h. h)
      ]

  insert_cold-IsCold :
      (c : Bytes × fl.Float) (cs : Candidates)
      → AllNumbers cs
      → IsCold cs
      → IsCold (insert_cold fl c cs)
  unfolding insert_cold
  insert_cold-IsCold c [] num cold = (λ d h. absurd h, tt)
  insert_cold-IsCold c (d ∷ ds) num cold = elim (Bool-cases (fl.less d.1 c.1)) [
    | inl e ↦ rw e (
      λ x h. elim ((In-insert_cold x c ds).0 h) [
        | inl p ↦ subst (λ z. fl.less z.1 d.1 ≡ false) (sym p) (order.asym d.1 c.1 e)
        | inr p ↦ cold.0 x p
      ],
      insert_cold-IsCold c ds (λ x h. num x (inr h)) cold.1,
    )
    | inr e ↦ rw e (
      λ x h. elim h [
        | inl p ↦ subst (λ z. fl.less z.1 c.1 ≡ false) (sym p) e
        | inr p ↦ order.trans x.1 d.1 c.1 (num d (inl refl)) (cold.0 x p) e
      ],
      cold,
    )
  ]

  pub In-sort_cold : (x : Bytes × fl.Float) (cs : Candidates) → In x (sort_cold fl cs) ↔ In x cs
  unfolding sort_cold
  In-sort_cold x [] = (λ h. h, λ h. h)
  In-sort_cold x (c ∷ cs) =
      let (to, back) = In-sort_cold x cs in
      let (out, into) = In-insert_cold x c (sort_cold fl cs) in
      (
        λ h. elim (out h) [ inl p ↦ inl p | inr p ↦ inr (to p) ],
        λ h. into (elim h [ inl p ↦ inl p | inr p ↦ inr (back p) ]),
      )

  pub sort_cold-IsCold : (cs : Candidates) → AllNumbers cs → IsCold (sort_cold fl cs)
  unfolding sort_cold
  sort_cold-IsCold [] num = tt
  sort_cold-IsCold (c ∷ cs) num =
      insert_cold-IsCold c (sort_cold fl cs) (λ x h. num x (inr ((In-sort_cold x cs).0 h)))
        (sort_cold-IsCold cs (λ x h. num x (inr h)))

  length-insert_cold :
      (c : Bytes × fl.Float) (cs : Candidates) → length (insert_cold fl c cs) ≡ suc (length cs)
  unfolding insert_cold
  length-insert_cold c [] = refl
  length-insert_cold c (d ∷ ds) = ground (arith, length-insert_cold c ds)

  pub length-sort_cold : (cs : Candidates) → length (sort_cold fl cs) ≡ length cs
  unfolding sort_cold
  length-sort_cold [] = refl
  length-sort_cold (c ∷ cs) = length-insert_cold c (sort_cold fl cs) ∙ ap suc (length-sort_cold cs)

  -- The candidates of the front are not warmer than those of the back.
  pub IsCold-append :
      (xs ys : Candidates)
      → IsCold (xs ++ ys)
      → (a b : Bytes × fl.Float) → In a xs
      → In b ys
      → fl.less b.1 a.1 ≡ false
  IsCold-append [] ys cold a b h i = absurd h
  IsCold-append (x ∷ xs) ys cold a b (inl e) i =
      subst (λ z. fl.less b.1 z.1 ≡ false) (sym e) (cold.0 b (In-append_right b xs ys i))
  IsCold-append (x ∷ xs) ys cold a b (inr h) i = IsCold-append xs ys cold.1 a b h i

  Distinct-insert_cold :
      (c : Bytes × fl.Float) (cs : Candidates)
      → (In c.0 (keys cs) → ⊥)
      → Distinct (keys cs)
      → Distinct (keys (insert_cold fl c cs))
  unfolding insert_cold
  Distinct-insert_cold c [] new d = (λ h. h, tt)
  Distinct-insert_cold c (e ∷ es) new d = elim (Bool-cases (fl.less e.1 c.1)) [
    | inl q ↦ rw q (
      λ h.
          let (x, i, same) = keys-In e.0 (insert_cold fl c es) h in
          elim ((In-insert_cold x c es).0 i) [
            | inl p ↦ new (inl (ap (λ y. y.0) (sym p) ∙ same))
            | inr p ↦ d.0 (subst (λ k. In k (keys es)) same (In-keys x es p))
          ],
      Distinct-insert_cold c es (λ h. new (inr h)) d.1,
    )
    | inr q ↦ rw q (new, d)
  ]

  pub Distinct-sort_cold :
      (cs : Candidates) → Distinct (keys cs) → Distinct (keys (sort_cold fl cs))
  unfolding sort_cold
  Distinct-sort_cold [] d = tt
  Distinct-sort_cold (c ∷ cs) d =
      Distinct-insert_cold c (sort_cold fl cs)
        (λ h.
          let (x, i, same) = keys-In c.0 (sort_cold fl cs) h in
          d.0 (subst (λ k. In k (keys cs)) same (In-keys x cs ((In-sort_cold x cs).0 i))))
        (Distinct-sort_cold cs d.1)
