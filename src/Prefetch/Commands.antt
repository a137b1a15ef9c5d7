-- ===== src/Prefetch/Commands.antt =====
-- The commands that OnRing issues for a ring.
use prefixmesh.Prelude.{
  Bool-cases, Option-cases, In, In-append_left, In-append_right, In-append, find, string_discrete,
  Bytes, ℕ, String, ◌≡◌, refl, sym, ap, subst, ◌∙◌, ◌≢◌, ◌↔◌, ◌⊎◌, inl, inr, if_pos, Bool, true,
  false, some, List, [], ◌∷◌, Floats,
}
use prefixmesh.HashRing.Defs
use prefixmesh.HashRing.Fresh.{seen-In, In-seen}
use prefixmesh.Directory.Monitor.{is_empty}
use prefixmesh.Prefetch.Planner.{
  BlockStat, Config, WarmCommand, Warm, source_from, targets_of, address_of, plan_block,
  plan_blocks, command_of, issue_targets, issue_all,
}

pub In-targets_of :
    (t : String) (olds news : List String)
    → In t (targets_of olds news) ↔ (In t news × (In t olds → ⊥))
unfolding targets_of
In-targets_of t olds [] = (λ h. absurd h, λ h. h.0)
In-targets_of t olds (o ∷ os) =
    let (there, back) = In-targets_of t olds os in
    elim (Bool-cases (Defs.seen o olds)) [
      | inl old ↦ rw old (
        λ h. let (new, fresh) = there h in (inr new, fresh),
        λ h. elim (h.0) [
          | inl p ↦ absurd (h.1 (subst (λ x. In x olds) (sym p) (In-seen o olds old)))
          | inr k ↦ back (k, h.1)
        ],
      )
      | inr fresh ↦ rw fresh (
        λ h. elim h [
          | inl p ↦ (inl p, λ k. seen-In o olds fresh (subst (λ x. In x olds) p k))
          | inr k ↦ let (new, away) = there k in (inr new, away)
        ],
        λ h. elim (h.0) [ inl p ↦ inl p | inr k ↦ inr (back (k, h.1)) ],
      )
    ]

is_empty-some : (s : String) → is_empty s ≡ false → s ≢ ""
is_empty-some s h p = cc (if_pos (string_discrete s "") p true false, h)

-- The source is the address of an old owner that is still a member.
pub source_from-owner :
    (members : List (String × String)) (olds : List String) (source : String)
    → is_empty (source_from members olds source) ≡ false
    → (source_from members olds source ≡ source)
      ⊎ ((o : String) × In o olds
          × (find string_discrete o members ≡ some (source_from members olds source)))
unfolding source_from
source_from-owner members [] source h = inl refl
source_from-owner members (o ∷ os) source h = elim (Bool-cases (is_empty source)) [
  | inr given ↦ rw given (elim (source_from-owner members os source (rw given at h)) [
    | inl same ↦ inl same
    | inr (x, inside, at) ↦ inr (x, inr inside, at)
  ])
  | inl blank ↦
      rw blank
        (elim (source_from-owner members os (address_of (find string_discrete o members))
          (rw blank at h)) [
            | inr (x, inside, at) ↦ inr (x, inr inside, at)
            | inl same ↦ inr (o, inl refl, found same (rw blank at h))
          ])
]
  where
    found :
        source_from members os (address_of (find string_discrete o members))
          ≡ address_of (find string_discrete o members)
        → is_empty (source_from members os (address_of (find string_discrete o members))) ≡ false
        → find string_discrete o members
          ≡ some (source_from members os (address_of (find string_discrete o members)))
    found same k = elim (Option-cases (find string_discrete o members)) [
      | inl gone ↦ absurd (
          is_empty-some (source_from members os (address_of (find string_discrete o members))) k
            (same ∙ ap address_of gone))
      | inr (addr, there) ↦ there ∙ ap some (sym (same ∙ ap address_of there))
    ]

module _ (fl : Floats) (cfg : Config fl) (now : ℕ) where
  pub In-issue_targets :
      (marshals : WarmCommand fl → Bool) (c : WarmCommand fl) (w : Warm fl) (ts : List String)
      → In c (issue_targets fl marshals cfg now w ts)
        ↔ ((t : String) × In t ts × (c ≡ command_of fl cfg now w t) × (marshals c ≡ true))
  unfolding issue_targets
  In-issue_targets marshals c w [] = (λ h. absurd h, λ h. h.1)
  In-issue_targets marshals c w (t ∷ ts) =
      let (there, back) = In-issue_targets marshals c w ts in
      elim (Bool-cases (marshals (command_of fl cfg now w t))) [
        | inl ok ↦ rw ok (
          λ h. elim h [
            | inl p ↦ (t, inl refl, p, ap marshals p ∙ ok)
            | inr k ↦ let (u, inside, is_u, good) = there k in (u, inr inside, is_u, good)
          ],
          λ h.
              let (u, inside, is_u, good) = h in
              elim inside [
                | inl p ↦ inl (is_u ∙ ap (command_of fl cfg now w) p)
                | inr k ↦ inr (back (u, k, is_u, good))
              ],
        )
        | inr bad ↦ rw bad (
          λ h. let (u, inside, is_u, good) = there h in (u, inr inside, is_u, good),
          λ h.
              let (u, inside, is_u, good) = h in
              elim inside [
                | inl p ↦ cc (bad, good, ap marshals (is_u ∙ ap (command_of fl cfg now w) p))
                | inr k ↦ back (u, k, is_u, good)
              ],
        )
      ]

  pub In-issue_all :
      (marshals : WarmCommand fl → Bool) (c : WarmCommand fl) (ws : List (Warm fl))
      → In c (issue_all fl marshals cfg now ws)
        ↔ ((w : Warm fl) × In w ws × In c (issue_targets fl marshals cfg now w w.targets))
  unfolding issue_all
  In-issue_all marshals c [] = (λ h. absurd h, λ h. h.1)
  In-issue_all marshals c (w ∷ ws) =
      let (there, back) = In-issue_all marshals c ws in
      let front = issue_targets fl marshals cfg now w w.targets in
      (
        λ h. elim (In-append c front (issue_all fl marshals cfg now ws) h) [
          | inl k ↦ (w, inl refl, k)
          | inr k ↦ let (v, inside, its) = there k in (v, inr inside, its)
        ],
        λ h.
            let (v, inside, its) = h in
            elim inside [
              | inl p ↦
                  In-append_left c front (issue_all fl marshals cfg now ws)
                    (subst (λ x. In c (issue_targets fl marshals cfg now x x.targets)) p its)
              | inr k ↦
                  In-append_right c front (issue_all fl marshals cfg now ws) (back (v, k, its))
            ],
      )

  module _ (old new : Defs.Ring) where
    pub In-plan_blocks :
        (w : Warm fl) (blocks : List (Bytes × BlockStat fl))
        → In w (plan_blocks fl cfg now old new blocks) ↔ (
            (id : Bytes) × (st : BlockStat fl) × In (id, st) blocks
            × (plan_block fl cfg now old new id st ≡ some w))
    unfolding plan_blocks
    In-plan_blocks w [] = (λ h. absurd h, λ h. h.2)
    In-plan_blocks w ((id, st) ∷ blocks) =
        let (there, back) = In-plan_blocks w blocks in
        elim (Option-cases (plan_block fl cfg now old new id st)) [
          | inl idle ↦ rw idle (
            λ h. let (j, f, inside, planned) = there h in (j, f, inr inside, planned),
            λ h.
                let (j, f, inside, planned) = h in
                elim inside [
                  | inl p ↦ cc (idle, planned, ap (λ x. x.0) p, ap (λ x. x.1) p)
                  | inr k ↦ back (j, f, k, planned)
                ],
          )
          | inr (v, is_v) ↦ rw is_v (
            λ h. elim h [
              | inl p ↦ (id, st, inl refl, is_v ∙ ap some (sym p))
              | inr k ↦ let (j, f, inside, planned) = there k in (j, f, inr inside, planned)
            ],
            λ h.
                let (j, f, inside, planned) = h in
                elim inside [
                  | inl p ↦ inl (cc (is_v, planned, ap (λ x. x.0) p, ap (λ x. x.1) p))
                  | inr k ↦ inr (back (j, f, k, planned))
                ],
          )
        ]
