-- ===== src/HashRing/Walk.antt =====
-- The walk around the ring, and the loop of `Owners` as a walk.
use native.Mathlib.Nat.{mod-eq_of_lt}
use prefixmesh.Prelude.{
  ltb, if◌then◌else◌, ltb→lt, Bool-cases, length, get_elem?, take, drop, length-append, length-take,
  length-drop, ℕ, zero, suc, ◌+◌, ◌-◌, ◌%◌, ◌≤◌, ◌<◌, String, ◌≡◌, refl, sym, ap, ◌∙◌, inl, inr,
  false, some, List, [], ◌∷◌, ◌++◌, append_assoc, append-nil, arith, dec_lt,
}
use prefixmesh.HashRing.Defs.{Vnode, seen, visit, collect}

module _ {A : Type 0} where
  get_elem?-drop : (i k : ℕ) (xs : List A) → get_elem? xs (i + k) ≡ get_elem? (drop i xs) k
  get_elem?-drop zero k xs = ap (get_elem? xs) (omega arith)
  get_elem?-drop (suc i) k [] = refl
  get_elem?-drop (suc i) k (x ∷ xs) = ap (get_elem? (x ∷ xs)) (suc_plus i k) ∙ get_elem?-drop i k xs
    where
      suc_plus : (a b : ℕ) → suc a + b ≡ suc (a + b)
      suc_plus a b = omega arith

  get_elem?-take : (i k : ℕ) (xs : List A) → k < i → get_elem? (take i xs) k ≡ get_elem? xs k
  get_elem?-take zero k xs h = absurd (omega arith)
  get_elem?-take (suc i) k [] h = refl
  get_elem?-take (suc i) zero (x ∷ xs) h = refl
  get_elem?-take (suc i) (suc k) (x ∷ xs) h = get_elem?-take i k xs (omega arith)

  get_elem?-append_left :
      (xs ys : List A) (k : ℕ) → k < length xs → get_elem? (xs ++ ys) k ≡ get_elem? xs k
  get_elem?-append_left [] ys k h = absurd (omega arith)
  get_elem?-append_left (x ∷ xs) ys zero h = refl
  get_elem?-append_left (x ∷ xs) ys (suc k) h = get_elem?-append_left xs ys k (omega arith)

  get_elem?-append_right :
      (xs ys : List A) (k : ℕ) → get_elem? (xs ++ ys) (length xs + k) ≡ get_elem? ys k
  get_elem?-append_right [] ys k = ap (get_elem? ys) (omega arith)
  get_elem?-append_right (x ∷ xs) ys k =
      ap (get_elem? (x ∷ (xs ++ ys))) (suc_plus (length xs) k) ∙ get_elem?-append_right xs ys k
    where
      suc_plus : (a b : ℕ) → suc a + b ≡ suc (a + b)
      suc_plus a b = omega arith

  abbrev pub rotate : ℕ → List A → List A
  rotate i xs = drop i xs ++ take i xs

  length-rotate : (i : ℕ) (xs : List A) → i ≤ length xs → length (rotate i xs) ≡ length xs
  length-rotate i xs h =
      omega (arith, length-append (drop i xs) (take i xs), length-drop i xs, length-take i xs)

  -- The index arithmetic of the loop reads the rotated list in order.
  get_elem?-rotate :
      (i k : ℕ) (xs : List A)
      → i ≤ length xs
      → k < length xs
      → get_elem? xs ((i + k) % length xs) ≡ get_elem? (rotate i xs) k
  get_elem?-rotate i k xs hi hk = elim (dec_lt (i + k) (length xs)) [
    | yes lt ↦
        ap (get_elem? xs) (mod-eq_of_lt lt)
        ∙ get_elem?-drop i k xs
        ∙ sym (get_elem?-append_left (drop i xs) (take i xs) k (omega (arith, length-drop i xs)))
    | no ge ↦
        let m = i + k - length xs in
        ap (get_elem? xs) (wrapped (i + k) (length xs) (omega arith) (omega arith))
        ∙ sym (get_elem?-take i m xs (omega arith))
        ∙ sym (get_elem?-append_right (drop i xs) (take i xs) m)
        ∙ ap (get_elem? (rotate i xs)) (omega (arith, length-drop i xs))
  ]
    where
      wrapped : (a b : ℕ) → b ≤ a → a < b + b → a % b ≡ a - b
      wrapped a b h h' = grind arith

-- The loop over a list in order.
abbrev visit_all : ℕ → List String → List Vnode → List String
visit_all n out [] = out
visit_all n out (v ∷ vs) = visit_all n (visit n out (some v)) vs

drop_next :
    (k : ℕ) (vs : List Vnode)
    → k < length vs
    → (v : Vnode) × (get_elem? vs k ≡ some v) × (drop k vs ≡ v ∷ drop (suc k) vs)
drop_next k [] h = absurd (omega arith)
drop_next zero (v ∷ vs) h = (v, refl, refl)
drop_next (suc k) (v ∷ vs) h = drop_next k vs (omega arith)

drop_all : (vs : List Vnode) (k : ℕ) → length vs ≤ k → drop k vs ≡ []
drop_all [] zero h = refl
drop_all [] (suc k) h = refl
drop_all (v ∷ vs) zero h = absurd (omega arith)
drop_all (v ∷ vs) (suc k) h = drop_all vs k (omega arith)

collect-visit_all :
    (vs : List Vnode) (i n rounds scanned : ℕ) (out : List String)
    → i ≤ length vs
    → scanned + rounds ≡ length vs
    → collect vs i n rounds scanned out ≡ visit_all n out (drop scanned (rotate i vs))
unfolding collect
collect-visit_all vs i n zero scanned out hi e =
    ap (visit_all n out)
      (sym (drop_all (rotate i vs) scanned (omega (arith, length-rotate i vs hi))))
collect-visit_all vs i n (suc rounds) scanned out hi e =
    let (v, got, cut) = drop_next scanned (rotate i vs) (omega (arith, length-rotate i vs hi)) in
    collect-visit_all vs i n rounds (suc scanned) _ hi (omega arith)
    ∙ ap (λ o. visit_all n (visit n out o) (drop (suc scanned) (rotate i vs)))
        (get_elem?-rotate i scanned vs hi (omega arith) ∙ got)
    ∙ ap (visit_all n out) (sym cut)

-- The first visits of the nodes along a list, those of `old` left out.
abbrev pub fresh : List String → List Vnode → List String
fresh old [] = []
fresh old (v ∷ vs) =
    if seen v.node_id old then fresh old vs else v.node_id ∷ fresh (old ++ v.node_id ∷ []) vs

pub take-zero : {A : Type 0} (k : ℕ) (xs : List A) → k ≡ 0 → take k xs ≡ []
take-zero zero xs e = refl
take-zero (suc k) xs e = absurd (omega arith)

visit_all_full :
    (n : ℕ) (out : List String) (vs : List Vnode) → n ≤ length out → visit_all n out vs ≡ out
visit_all_full n out [] h = refl
visit_all_full n out (v ∷ vs) h = elim (Bool-cases (ltb (length out) n)) [
  | inl lt ↦ absurd (omega (arith, ltb→lt _ _ lt))
  | inr ge ↦ rw ge (visit_all_full n out vs h)
]

visit_all-fresh :
    (n : ℕ) (out : List String) (vs : List Vnode)
    → visit_all n out vs ≡ out ++ take (n - length out) (fresh out vs)
visit_all-fresh n out [] =
    ap (λ x. x) (sym (append-nil out)) ∙ ap (◌++◌ out) (take_nil (n - length out))
  where
    take_nil : (k : ℕ) → [] ≡ take {A = String} k []
    take_nil zero = refl
    take_nil (suc k) = refl
visit_all-fresh n out (v ∷ vs) = elim (Bool-cases (ltb (length out) n)) [
  | inr ge ↦ rw ge (
      visit_all_full n out vs (omega (arith, not_lt ge))
      ∙ sym (append-nil out)
      ∙ ap (◌++◌ out) (sym (take-zero (n - length out) _ (omega (arith, not_lt ge)))))
  | inl lt ↦ elim (Bool-cases (seen v.node_id out)) [
    | inl old ↦ rw (lt, old) (visit_all-fresh n out vs)
    | inr new ↦
        rw (lt, new)
          (visit_all-fresh n (out ++ v.node_id ∷ []) vs
            ∙ append_assoc out (v.node_id ∷ []) _
            ∙ ap (◌++◌ out) (
                take_cons n (length out) (length (out ++ v.node_id ∷ [])) v.node_id
                  (fresh (out ++ v.node_id ∷ []) vs) (ltb→lt _ _ lt)
                  (omega (arith, length-append out (v.node_id ∷ [])))))
  ]
]
  where
    not_lt : ltb (length out) n ≡ false → n ≤ length out
    not_lt e = ground arith

    take_cons :
        (a b c : ℕ) (x : String) (xs : List String)
        → b < a
        → c ≡ suc b
        → x ∷ take (a - c) xs ≡ take (a - b) (x ∷ xs)
    take_cons a b c x xs lt e = ap (λ k. take k (x ∷ xs)) (sucs a b c lt e)
      where
        sucs : (p q r : ℕ) → q < p → r ≡ suc q → suc (p - r) ≡ p - q
        sucs p q r h f = omega arith

-- The loop of `Owners` is the first `n` nodes of the walk that starts at index `i`.
pub collect-fresh :
    (vs : List Vnode) (i n : ℕ)
    → i ≤ length vs
    → collect vs i n (length vs) 0 [] ≡ take n (fresh [] (rotate i vs))
collect-fresh vs i n h =
    collect-visit_all vs i n (length vs) 0 [] h (omega arith)
    ∙ visit_all-fresh n [] (rotate i vs)
    ∙ ap (λ k. take k (fresh [] (rotate i vs))) (omega arith)
