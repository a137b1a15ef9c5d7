-- ===== src/BlockStore/Paged/Victims.antt =====
-- The choice of a victim in `evictOne`, by either policy.
use prefixmesh.Prelude.{
  Bool-cases, Option-cases, length, get_elem?, Bytes, get_elem?-some, ℕ, zero, suc, ◌<◌, min, ◌≡◌,
  refl, sym, ap, subst, ◌∙◌, ◌⊎◌, inl, inr, Option, none, some, List, [], ◌∷◌, arith,
}
use prefixmesh.BlockStore.Paged.{
  Platform, PagedEntry, Paged, EvictionPolicy, evict_lru, evict_cost, evict_sample, better,
  consider, score_now, sample, victim, with_entry, without_score, last_of,
}
use prefixmesh.BlockStore.Paged.Slots.{Items, IsIndexed}
use prefixmesh.BlockStore.Paged.Recency.{last_of-some, last_of-In}
use prefixmesh.BlockStore.Paged.Invariant.{IsPaged}

module _ (pl : Platform) where
  open pl use {Rng, intn, intn-lt}
  open (pl.floats) use {Float, less}

  abbrev Candidate : Type 0
  Candidate = Option (Bytes × PagedEntry pl × Float)

  abbrev IsLive : Items pl → Candidate → Type 0
  IsLive items none = Unit
  IsLive items (some (id, e, score)) = items id ≡ some e

  abbrev IsFound : Candidate → Type 0
  IsFound none = ⊥
  IsFound (some c) = Unit

  better-IsLive :
      (items : Items pl) (score : Float) (id : Bytes) (e : PagedEntry pl) (best : Candidate)
      → items id ≡ some e
      → IsLive items best
      → IsLive items (better pl score id e best) × IsFound (better pl score id e best)
  better-IsLive items score id e none live h = (live, tt)
  better-IsLive items score id e (some (b, f, s)) live h = elim (Bool-cases (less score s)) [
    | inl p ↦ rw p (live, tt)
    | inr p ↦ rw p (h, tt)
  ]

  consider-IsLive :
      (p : Paged pl) (id : Bytes) (best : Candidate) (e : PagedEntry pl)
      → p.items id ≡ some e
      → IsLive p.items best
      → IsLive p.items (consider pl p (some id) best) × IsFound (consider pl p (some id) best)
  consider-IsLive p id best e live h =
      let opened : consider pl p (some id) best ≡ better pl (score_now pl p e) id e best =
        rw (live, consider) refl in
      subst (λ c. IsLive p.items c × IsFound c) (sym opened)
        (better-IsLive p.items (score_now pl p e) id e best live h)

  sample-IsLive :
      (p : Paged pl) (rounds : ℕ) (r : Rng) (best : Candidate)
      → IsIndexed pl p.items p.order
      → 0 < length p.order
      → IsLive p.items best
      → IsFound best ⊎ (0 < rounds)
      → IsLive p.items (sample pl p rounds r best).0 × IsFound (sample pl p rounds r best).0
  unfolding sample
  sample-IsLive p zero r best ix some_one h (inl found) = (h, found)
  sample-IsLive p zero r best ix some_one h (inr pos) = absurd (omega arith)
  sample-IsLive p (suc rounds) r best ix some_one h start =
      let (id, at) =
        get_elem?-some p.order (intn r (length p.order)).0 (intn-lt r (length p.order) some_one) in
      let (e, live, idx) = ix.order_live (intn r (length p.order)).0 id at in
      let (next_live, found) = consider-IsLive p id best e live h in
      subst
        (λ o.
          let c = (sample pl p rounds (intn r (length p.order)).1 (consider pl p o best)).0 in
          IsLive p.items c × IsFound c)
        (sym at)
        (sample-IsLive p rounds (intn r (length p.order)).1 (consider pl p (some id) best) ix
          some_one next_live (inl found))

  abbrev pub Chosen : Items pl → List Bytes → Option (Bytes × PagedEntry pl) → Type 0
  Chosen items order none = order ≡ []
  Chosen items order (some (id, e)) = items id ≡ some e

  without_score-Chosen :
      (items : Items pl) (order : List Bytes) (c : Candidate)
      → IsLive items c
      → IsFound c
      → Chosen items order (without_score pl c)
  without_score-Chosen items order none h found = absurd found
  without_score-Chosen items order (some (id, e, score)) h found = h

  -- Either policy finds a victim unless the store is empty, and the victim is an entry of the store.
  pub victim-Chosen : (p : Paged pl) → IsPaged pl p → Chosen p.items p.order (victim pl p).0
  unfolding victim
  victim-Chosen p w = by_policy p.pol refl
    where
      tail_is :
          (l : Bytes) (f : PagedEntry pl) (order : List Bytes)
          → last_of p.recency ≡ some l
          → p.items l ≡ some f
          → Chosen p.items order (with_entry pl p (last_of p.recency))
      tail_is l f order last live =
          let opened : with_entry pl p (some l) ≡ some (l, f) = rw (live, with_entry) refl in
          subst (Chosen p.items order) (sym (ap (with_entry pl p) last ∙ opened)) live

      chosen_tail :
          (order : List Bytes)
          → p.order ≡ order
          → Chosen p.items order (with_entry pl p (last_of p.recency))
      chosen_tail [] q = elim (Option-cases (last_of p.recency)) [
        | inl none_left ↦ rw none_left refl
        | inr (l, last) ↦
            let (e, live) = w.recent.recent_live l (last_of-In p.recency l last) in
            tail_is l e [] last live
      ]
      chosen_tail (x ∷ xs) q =
          let (e, live, idx) = w.indexed.order_live 0 x (ap (λ o. get_elem? o 0) q) in
          let (l, last, inside) = last_of-some p.recency x (w.recent.live_recent x e live) in
          let (f, live_l) = w.recent.recent_live l inside in tail_is l f (x ∷ xs) last live_l

      drawn :
          (order : List Bytes)
          → p.order ≡ order
          → Chosen p.items order
              (without_score pl (sample pl p (min evict_sample (length p.order)) p.rng none).0)
      drawn [] q = rw q refl
      drawn (x ∷ xs) q =
          let some_one : 0 < length p.order = omega (arith, ap length q) in
          let (live, found) =
            sample-IsLive p (min evict_sample (length p.order)) p.rng none w.indexed some_one tt
              (inr (omega arith)) in
          without_score-Chosen p.items (x ∷ xs)
            ((sample pl p (min evict_sample (length p.order)) p.rng none).0) live found

      by_policy : (pol : EvictionPolicy) → p.pol ≡ pol → Chosen p.items p.order (victim pl p).0
      by_policy evict_lru q = rw q (chosen_tail p.order refl)
      by_policy evict_cost q = rw q (drawn p.order refl)
