-- ===== src/Prefetch/Sweep.antt =====
-- sweepLocked drops the coldest half of the tracked blocks.
use prefixmesh.Prelude.{
  length, take, drop, take-append-drop, length-take, In, Distinct, In-append_left, In-append, keys,
  find, Bytes, bytes_discrete, ℕ, ◌+◌, ◌/◌, min, ◌≡◌, refl, sym, ap, subst, ◌∙◌, ◌⊎◌, inl, inr,
  if_pos, if_neg, true, false, Option, none, some, List, [], ◌∷◌, ◌++◌, arith, Floats,
}
use prefixmesh.Prefetch.Planner.{BlockStat, Config, demand_at, candidates, sort_cold, sweep}
use prefixmesh.Prefetch.Deletions.{
  delete_all-none, delete_all-ne, length-delete_all, keys-append, length-keys, In-keys, keys-In,
  Distinct-split,
}
use prefixmesh.Prefetch.Coldest.{
  IsOrder, In-sort_cold, sort_cold-IsCold, length-sort_cold, IsCold-append, Distinct-sort_cold,
  IsCold, AllNumbers,
}

none_some : {A B : Type 0} {a : A} → Path (Option A) none (some a) → B
none_some h = cc

cut_half : (n k : ℕ) → k ≡ min (n / 2) n → n / 2 ≡ k
cut_half n k h = ground arith

module _ (fl : Floats) (order : IsOrder fl) (cfg : Config fl) (now : ℕ) where
  abbrev Blocks : Type 0
  Blocks = List (Bytes × BlockStat fl)

  abbrev pub demand_of : BlockStat fl → fl.Float
  demand_of st = demand_at fl cfg now st

  keys-candidates : (m : Blocks) → keys (candidates fl cfg now m) ≡ keys m
  unfolding candidates
  keys-candidates [] = refl
  keys-candidates ((k, st) ∷ m) = ap (λ ks. k ∷ ks) (keys-candidates m)

  In-candidates :
      (i : Bytes) (st : BlockStat fl) (m : Blocks)
      → find bytes_discrete i m ≡ some st
      → In (i, demand_of st) (candidates fl cfg now m)
  unfolding candidates find
  In-candidates i st [] h = cc
  In-candidates i st ((k, v) ∷ m) h = elim (bytes_discrete k i) [
    | yes e ↦
        let found : some v ≡ some st = rw (if_pos _ e) at h in
        let same : v ≡ st = cc in inl (rw (e, same) refl)
    | no e ↦ inr (In-candidates i st m (rw (if_neg _ e) at h))
  ]

  candidates-In :
      (c : Bytes × fl.Float) (m : Blocks)
      → In c (candidates fl cfg now m)
      → (x : Bytes × BlockStat fl) × In x m × (c.1 ≡ demand_of x.1)
  unfolding candidates
  candidates-In c [] h = absurd h
  candidates-In c ((k, v) ∷ m) (inl e) = ((k, v), inl refl, ap (λ p. p.1) e)
  candidates-In c ((k, v) ∷ m) (inr h) = let (x, i, e) = candidates-In c m h in (x, inr i, e)

  module _ (m : Blocks) (distinct : Distinct (keys m)) where
    abbrev all : List (Bytes × fl.Float)
    all = sort_cold fl (candidates fl cfg now m)

    abbrev half : ℕ
    half = length all / 2

    length-all : length all ≡ length m
    length-all =
        length-sort_cold fl order (candidates fl cfg now m)
        ∙ sym (length-keys (candidates fl cfg now m))
        ∙ ap length (keys-candidates m)
        ∙ length-keys m

    split : Distinct (keys (take half all) ++ keys (drop half all))
    split =
        subst Distinct
          (ap keys (sym (take-append-drop half all)) ∙ keys-append (take half all) (drop half all))
          (Distinct-sort_cold fl order (candidates fl cfg now m)
            (subst Distinct (sym (keys-candidates m)) distinct))

    -- A dropped block is in front, and one that stays is not.
    front_or_back :
        (i : Bytes) (st : BlockStat fl)
        → find bytes_discrete i m ≡ some st
        → In (i, demand_of st) (take half all) ⊎ In (i, demand_of st) (drop half all)
    front_or_back i st h =
        In-append (i, demand_of st) (take half all) (drop half all)
          (subst (In (i, demand_of st)) (sym (take-append-drop half all)) (
            (In-sort_cold fl order (i, demand_of st) (candidates fl cfg now m)).1
              (In-candidates i st m h)))

    within : (i : Bytes) → In i (keys (take half all)) → In i (keys m)
    within i h =
        let (x, front, same) = keys-In i (take half all) h in
        let every =
          subst (In x) (take-append-drop half all) (In-append_left x (take half all) _ front) in
        let known = (In-sort_cold fl order x (candidates fl cfg now m)).0 every in
        subst (In i) (keys-candidates m) (
          subst (λ k. In k (keys (candidates fl cfg now m))) same
            (In-keys x (candidates fl cfg now m) known))

    size : length (sweep fl cfg now m) + length m / 2 ≡ length m
    unfolding sweep
    size =
        ap (λ n. length (sweep fl cfg now m) + n)
          (ap (λ n. n / 2) (sym length-all) ∙ halved ∙ sym (length-keys (take half all)))
        ∙ length-delete_all (keys (take half all)) m
            (Distinct-split (keys (take half all)) (keys (drop half all)) split).0 within
      where
        halved : half ≡ length (take half all)
        halved =
            let cut = length-take half all in cut_half (length all) (length (take half all)) cut

    dropped :
        (i : Bytes)
        → In i (keys (take half all))
        → find bytes_discrete i (sweep fl cfg now m) ≡ none
    unfolding sweep
    dropped i h = delete_all-none i (keys (take half all)) m distinct (inl h)

    stays :
        (i : Bytes)
        → (In i (keys (take half all)) → ⊥)
        → find bytes_discrete i (sweep fl cfg now m) ≡ find bytes_discrete i m
    unfolding sweep
    stays i h = delete_all-ne i (keys (take half all)) m h

    apart : (i : Bytes) → In i (keys (drop half all)) → In i (keys (take half all)) → ⊥
    apart i back front =
        (Distinct-split (keys (take half all)) (keys (drop half all)) split).1 i front back

    kept :
        (i : Bytes) (st : BlockStat fl)
        → find bytes_discrete i (sweep fl cfg now m) ≡ some st
        → find bytes_discrete i m ≡ some st
    kept i st h = sym (stays i (λ front. none_some (sym (dropped i front) ∙ h))) ∙ h

    -- If no two tracked blocks have one id, no decayed demand is a NaN, and sweepLocked drops one
    -- block and leaves another, then the one that it leaves is as it was before, and its decayed
    -- demand is not less than that of the one it drops; all but half of the blocks (rounded down)
    -- are left.
    pub sweep_lem :
        ((x : Bytes × BlockStat fl) → In x m → fl.equal (demand_of x.1) (demand_of x.1) ≡ true)
        → (i j : Bytes) (lost left : BlockStat fl) → find bytes_discrete i m ≡ some lost
        → find bytes_discrete i (sweep fl cfg now m) ≡ none
        → find bytes_discrete j (sweep fl cfg now m) ≡ some left
        → (find bytes_discrete j m ≡ some left)
          × (fl.less (demand_of left) (demand_of lost) ≡ false)
          × (length (sweep fl cfg now m) + length m / 2 ≡ length m)
    sweep_lem num i j lost left was gone here = (
      kept j left here,
      elim (front_or_back i lost was) [
        | inr back ↦
            none_some (
              sym gone ∙ stays i (apart i (In-keys (i, demand_of lost) (drop half all) back)) ∙ was)
        | inl front ↦ elim (front_or_back j left (kept j left here)) [
          | inl cold ↦
              none_some (sym (dropped j (In-keys (j, demand_of left) (take half all) cold)) ∙ here)
          | inr warm ↦
              IsCold-append fl order (take half all) (drop half all)
                (subst (IsCold fl order) (sym (take-append-drop half all))
                  (sort_cold-IsCold fl order (candidates fl cfg now m) numbers))
                (i, demand_of lost) (j, demand_of left) front warm
        ]
      ],
      size,
    )
      where
        numbers : AllNumbers fl order (candidates fl cfg now m)
        numbers c h =
            let (x, i, same) = candidates-In c m h in
            subst (λ f. fl.equal f f ≡ true) (sym same) (num x i)
