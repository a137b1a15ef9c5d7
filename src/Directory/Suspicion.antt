-- ===== src/Directory/Suspicion.antt =====
-- What a proposal to declare a node dead rests on.
use prefixmesh.Prelude.{
  Bool-cases, length, In, find, find-put, string_discrete, ℕ, suc, ◌+◌, ◌≤◌, String, ◌≡◌, refl, sym,
  subst, ◌∙◌, ◌≢◌, ◌↔◌, inl, inr, if_pos, if_neg, Bool, true, false, ◌&&◌, Option, none, some, List,
  [], ◌∷◌, arith,
}
use prefixmesh.Paxos.Node.{majority}
use prefixmesh.Directory.Monitor.{
  HbTracker, record_beat, expired, count_suspects, quorum_suspects, detect,
}

-- The peers that said that they suspect the node.
abbrev pub suspecting : List (Option Bool) → ℕ
suspecting [] = 0
suspecting (some true ∷ rs) = suc (suspecting rs)
suspecting (some false ∷ rs) = suspecting rs
suspecting (none ∷ rs) = suspecting rs

count_suspects_lem : (k : ℕ) (rs : List (Option Bool)) → count_suspects k rs ≡ k + suspecting rs
unfolding count_suspects
count_suspects_lem k [] = omega arith
count_suspects_lem k (some true ∷ rs) = omega (arith, count_suspects_lem (suc k) rs)
count_suspects_lem k (some false ∷ rs) = count_suspects_lem k rs
count_suspects_lem k (none ∷ rs) = count_suspects_lem k rs

-- A quorum is a majority of the replicas, this one among them.
quorum_iff :
    (rs : List (Option Bool))
    → (quorum_suspects rs ≡ true) ↔ (majority (length rs + 1) ≤ 1 + suspecting rs)
unfolding quorum_suspects majority
quorum_iff rs = rw (count_suspects_lem 1 rs, quorum_suspects) (ground arith)

both_true : (a b : Bool) → (a && b) ≡ true → (a ≡ true) × (b ≡ true)
both_true true true h = (refl, refl)
both_true true false h = cc
both_true false b h = cc

module _ (dead_after : ℕ) (h : HbTracker) (now : ℕ) (replies : String → List (Option Bool)) where
  -- This replica and a majority of the replicas suspect the node.
  abbrev pub Suspected : String → Type 0
  Suspected id =
      (expired dead_after h id now ≡ true)
      × (majority (length (replies id) + 1) ≤ 1 + suspecting (replies id))

  proposed :
      (members : List String) (id : String)
      → In id (detect dead_after h now replies members)
      → In id members × Suspected id
  unfolding detect
  proposed [] id k = absurd k
  proposed (m ∷ ms) id k =
      elim (Bool-cases (expired dead_after h m now && quorum_suspects (replies m))) [
        | inr c ↦ let r = proposed ms id (rw (c) at k) in (inr r.0, r.1)
        | inl c ↦ elim (rw (c) at k) [
          | inr q ↦ let r = proposed ms id q in (inr r.0, r.1)
          | inl e ↦
              let both = both_true _ _ c in
              (inl e, subst Suspected (sym e) (both.0, (quorum_iff (replies m)).0 both.1))
        ]
      ]

  proposes :
      (members : List String) (id : String)
      → In id members
      → Suspected id
      → In id (detect dead_after h now replies members)
  unfolding detect
  proposes [] id k s = absurd k
  proposes (m ∷ ms) id (inl e) s =
      let both : (expired dead_after h m now && quorum_suspects (replies m)) ≡ true =
        rw (← e, s.0, (quorum_iff (replies id)).1 s.1) refl in
      rw (both) (inl e)
  proposes (m ∷ ms) id (inr k) s =
      elim (Bool-cases (expired dead_after h m now && quorum_suspects (replies m))) [
        | inr c ↦ rw (c) (proposes ms id k s)
        | inl c ↦ rw (c) (inr (proposes ms id k s))
      ]

  -- One round of the failure detector proposes NodeDead for a node if and only if the node is a
  -- member, its last heartbeat at this replica is longer than DeadAfter ago, and a majority of
  -- the replicas, this one among them, suspects it, where an error from a peer counts as no
  -- suspicion.
  pub detect_iff :
      (members : List String) (id : String)
      → In id (detect dead_after h now replies members) ↔ (In id members × Suspected id)
  detect_iff members id = (proposed members id, λ k. proposes members id k.0 k.1)

-- A node whose heartbeat was recorded at a time no longer than DeadAfter ago has not expired, and
-- recording it changes for no other node whether it has expired.
expired-record_beat :
    (dead_after : ℕ) (h : HbTracker) (id other : String) (t now : ℕ)
    → now ≤ t + dead_after
    → (expired dead_after (record_beat h id t) id now ≡ false)
      × (id ≢ other
          → expired dead_after (record_beat h id t) other now ≡ expired dead_after h other now)
unfolding expired record_beat
expired-record_beat dead_after h id other t now le = (
  rw
      (
        find-put string_discrete id id t h
            ∙ if_pos (string_discrete id id) refl (some t) (find string_discrete id h),
        expired,
      )
      (ground arith),
  λ ne.
      rw
        (
          find-put string_discrete id other t h
              ∙ if_neg (string_discrete id other) ne (some t) (find string_discrete other h),
          expired,
        )
        refl,
)
