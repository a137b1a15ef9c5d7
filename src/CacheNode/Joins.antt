-- ===== src/CacheNode/Joins.antt =====
-- `join` of the agent succeeds as soon as a directory accepts.
use prefixmesh.Prelude.{
  Bool-cases, Option-cases, In, ℕ, zero, suc, ◌+◌, ◌≤◌, ◌<◌, ◌≡◌, refl, sym, ap, ◌∙◌, inl, inr,
  Bool, true, false, none, some, List, [], ◌∷◌, arith, ℕ_discrete,
}
use prefixmesh.CacheNode.Agent.{try_all, join}

module _ {C : Type 0} where
  try_all-some :
      (accepts : C → Bool) (cs : List C) (c : C)
      → try_all accepts cs ≡ some c
      → In c cs × (accepts c ≡ true)
  unfolding try_all
  try_all-some accepts [] c h = cc
  try_all-some accepts (x ∷ xs) c h = elim (Bool-cases (accepts x)) [
    | inl p ↦ let same = inj x c (rw p at h) in (inl (sym same), ap accepts (sym same) ∙ p)
    | inr p ↦ let (inside, ok) = try_all-some accepts xs c (rw p at h) in (inr inside, ok)
  ]
    where
      inj : (y z : C) → some y ≡ some z → y ≡ z
      inj y z q = cc

  try_all-none :
      (accepts : C → Bool) (cs : List C) (c : C)
      → try_all accepts cs ≡ none
      → In c cs
      → accepts c ≡ false
  unfolding try_all
  try_all-none accepts [] c h k = absurd k
  try_all-none accepts (x ∷ xs) c h k = elim (Bool-cases (accepts x)) [
    | inl p ↦ cc (rw p at h)
    | inr p ↦ elim k [
      | inl same ↦ ap accepts same ∙ p
      | inr inside ↦ try_all-none accepts xs c (rw p at h) inside
    ]
  ]

  -- Joined in round `n` by `c`, and by nobody in the rounds from `k` to it.
  pub record IsFirst (accepts : ℕ → C → Bool) (cs : List C) (k n : ℕ) (c : C) : Type 0 where
    pub listed : In c cs
    pub accepted : accepts n c ≡ true
    pub from : k ≤ n
    pub before : (i : ℕ) (d : C) → k ≤ i → i < n → In d cs → accepts i d ≡ false

  join_from :
      (accepts : ℕ → C → Bool) (cs : List C) (rounds k i : ℕ) (d : C)
      → k ≤ i
      → i < k + rounds
      → In d cs
      → accepts i d ≡ true
      → (n : ℕ) × (c : C) × (join accepts cs rounds k ≡ some (n, c))
        × (n ≤ i)
        × IsFirst accepts cs k n c
  unfolding join
  join_from accepts cs zero k i d le lt listed ok = absurd (omega arith)
  join_from accepts cs (suc rounds) k i d le lt listed ok =
      elim (Option-cases (try_all (accepts k) cs)) [
        | inr (c, found) ↦
            let (inside, accepted) = try_all-some (accepts k) cs c found in
            (
              k,
              c,
              rw (found, join) refl,
              le,
              record {
                listed = inside;
                accepted = accepted;
                from = omega arith;
                before = λ j e a b. absurd (omega arith);
              },
            )
        | inl nobody ↦
            let none_at : (e : C) → In e cs → accepts k e ≡ false =
              λ e h. try_all-none (accepts k) cs e nobody h in
            let later : suc k ≤ i = elim (ℕ_discrete k i) [
              | yes same ↦ cc (none_at d listed, ok, same)
              | no ne ↦ omega arith
            ] in
            let (n, c, ran, soon, first) =
              join_from accepts cs rounds (suc k) i d later (omega arith) listed ok in
            (
              n,
              c,
              rw (nobody, join) ran,
              soon,
              record {
                listed = first.listed;
                accepted = first.accepted;
                from = omega (arith, first.from);
                before = λ j e a b h. elim (ℕ_discrete k j) [
                  | yes same ↦ ap (λ m. accepts m e) (sym same) ∙ none_at e h
                  | no ne ↦ first.before j e (omega arith) b h
                ];
              },
            )
      ]

  -- If some directory would accept a Join in a round that begins before the context ends, join
  -- succeeds: with a directory that accepts, in a round not later than that, and no directory
  -- accepts in a round before.
  pub join_lem :
      (accepts : ℕ → C → Bool) (cs : List C) (rounds i : ℕ) (d : C)
      → i < rounds
      → In d cs
      → accepts i d ≡ true
      → (n : ℕ) × (c : C) × (join accepts cs rounds 0 ≡ some (n, c))
        × (n ≤ i)
        × IsFirst accepts cs 0 n c
  join_lem accepts cs rounds i d lt listed ok =
      join_from accepts cs rounds 0 i d (omega arith) (omega arith) listed ok
