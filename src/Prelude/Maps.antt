-- ===== src/Prelude/Maps.antt =====
-- Go maps as association lists: a key stands once, a write replaces its value, a new key goes to
-- the end. Go leaves the order in which `range` visits a map open; nothing proved depends on it.
use mathlib.Core.Path.{◌≡◌, refl, sym, subst}
use mathlib.Core.Logic.{◌≢◌, ◌⊎◌, inl, inr, ite, if_pos, if_neg}
use mathlib.Core.List.{List, [], ◌∷◌}
use mathlib.Core.Option.{Option, none, some}
use native.Mathlib.Omega.{arith}
use prefixmesh.Prelude.Lists.{In, Distinct}

module _ {K : Type 0} {V : Type 0} where
  abbrev pub keys : List (K × V) → List K
  keys [] = []
  keys ((k, v) ∷ m) = k ∷ keys m

  abbrev pub values : List (K × V) → List V
  values [] = []
  values ((k, v) ∷ m) = v ∷ values m

module _ {K : Type 0} (dec : Discrete K) {V : Type 0} where
  -- `m[k]`, with `none` where the key is missing.
  unfoldable pub find : K → List (K × V) → Option V
  find k [] = none
  find k ((j, v) ∷ m) = ite (dec j k) (some v) (find k m)

  -- `m[k] = v`
  unfoldable pub put : K → V → List (K × V) → List (K × V)
  put k v [] = (k, v) ∷ []
  put k v ((j, w) ∷ m) = ite (dec j k) ((k, v) ∷ m) ((j, w) ∷ put k v m)

  -- `delete(m, k)`
  unfoldable pub delete : K → List (K × V) → List (K × V)
  delete k [] = []
  delete k ((j, w) ∷ m) = ite (dec j k) m ((j, w) ∷ delete k m)

  pub find-put :
      (k j : K) (v : V) (m : List (K × V)) → find j (put k v m) ≡ ite (dec k j) (some v) (find j m)
  unfolding find put
  find-put k j v [] = refl
  find-put k j v ((i, w) ∷ m) = ground (arith, find-put k j v m)

  pub find-delete_ne : (k j : K) (m : List (K × V)) → k ≢ j → find j (delete k m) ≡ find j m
  unfolding find delete
  find-delete_ne k j [] h = refl
  find-delete_ne k j ((i, w) ∷ m) h = ground (arith, find-delete_ne k j m h)

  pub find-eq-none : (k : K) (m : List (K × V)) → (In k (keys m) → ⊥) → find k m ≡ none
  unfolding find
  find-eq-none k [] h = refl
  find-eq-none k ((i, w) ∷ m) h = elim (dec i k) [
    | yes e ↦ absurd (h (inl (sym e)))
    | no e ↦ rw (if_neg _ e) (find-eq-none k m (λ i. h (inr i)))
  ]

  pub In-of_find : (k : K) (v : V) (m : List (K × V)) → find k m ≡ some v → In k (keys m)
  unfolding find
  In-of_find k v [] h = cc
  In-of_find k v ((i, w) ∷ m) h = elim (dec i k) [
    | yes e ↦ inl (sym e)
    | no e ↦ inr (In-of_find k v m (rw (if_neg _ e) at h))
  ]

  pub find_of_In : (k : K) (m : List (K × V)) → In k (keys m) → (v : V) × (find k m ≡ some v)
  unfolding find
  find_of_In k [] h = absurd h
  find_of_In k ((i, w) ∷ m) h = elim (dec i k) [
    | yes e ↦ (w, if_pos (dec i k) e (some w) (find k m))
    | no e ↦ elim h [
      | inl p ↦ absurd (e (sym p))
      | inr p ↦ let (v, q) = find_of_In k m p in (v, rw (if_neg _ e) q)
    ]
  ]

  pub find-delete_self : (k : K) (m : List (K × V)) → Distinct (keys m) → find k (delete k m) ≡ none
  unfolding find delete
  find-delete_self k [] d = refl
  find-delete_self k ((i, w) ∷ m) d = elim (dec i k) [
    | yes e ↦ rw (if_pos _ e) (find-eq-none k m (subst (λ x. In x (keys m) → ⊥) e d.0))
    | no e ↦ rw (if_neg _ e, if_neg _ e) (find-delete_self k m d.1)
  ]

  pub In-delete : (k j : K) (m : List (K × V)) → In j (keys (delete k m)) → In j (keys m)
  unfolding delete
  In-delete k j [] h = h
  In-delete k j ((i, w) ∷ m) h = elim (dec i k) [
    | yes e ↦ inr (rw (if_pos _ e) at h)
    | no e ↦ elim (rw (if_neg _ e) at h) [ inl p ↦ inl p | inr p ↦ inr (In-delete k j m p) ]
  ]

  pub Distinct-delete :
      (k : K) (m : List (K × V)) → Distinct (keys m) → Distinct (keys (delete k m))
  unfolding delete
  Distinct-delete k [] d = tt
  Distinct-delete k ((i, w) ∷ m) d = elim (dec i k) [
    | yes e ↦ rw (if_pos _ e) d.1
    | no e ↦ rw (if_neg _ e) (λ h. d.0 (In-delete k i m h), Distinct-delete k m d.1)
  ]

  pub In-put :
      (k j : K) (v : V) (m : List (K × V)) → In j (keys (put k v m)) → (j ≡ k) ⊎ In j (keys m)
  unfolding put
  In-put k j v [] (inl e) = inl e
  In-put k j v [] (inr h) = inr h
  In-put k j v ((i, w) ∷ m) h = elim (dec i k) [
    | yes e ↦ elim (rw (if_pos _ e) at h) [ inl p ↦ inl p | inr p ↦ inr (inr p) ]
    | no e ↦ elim (rw (if_neg _ e) at h) [
      | inl p ↦ inr (inl p)
      | inr p ↦ elim (In-put k j v m p) [ inl q ↦ inl q | inr q ↦ inr (inr q) ]
    ]
  ]

  pub Distinct-put :
      (k : K) (v : V) (m : List (K × V)) → Distinct (keys m) → Distinct (keys (put k v m))
  unfolding put
  Distinct-put k v [] d = (λ h. h, tt)
  Distinct-put k v ((i, w) ∷ m) d = elim (dec i k) [
    | yes e ↦ rw (if_pos _ e) (subst (λ x. In x (keys m) → ⊥) e d.0, d.1)
    | no e ↦
        rw (if_neg _ e)
          (λ h. elim (In-put k i v m h) [ inl p ↦ e p | inr p ↦ d.0 p ], Distinct-put k v m d.1)
  ]
