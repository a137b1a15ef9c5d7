-- ===== src/Directory/Watching.antt =====
-- A watcher is told of every epoch, and of each of them once.
use prefixmesh.Prelude.{
  ◌==◌, if◌then◌else◌, Bool-cases, In, ℕ, ◌≤◌, ◌<◌, ◌≡◌, refl, sym, ap, subst, ◌∙◌, ◌⊎◌, inl, inr,
  true, false, not, ◌&&◌, List, [], ◌∷◌, ◌++◌, append_assoc, append-nil, arith,
}
use prefixmesh.Directory.State.{Ring}
use prefixmesh.Directory.Watch.{Stream, new_stream, send_ring, unless_failed, watch_ring}

-- The epochs do not fall, from `low` on.
abbrev pub IsRising : ℕ → List Ring → Type 0
IsRising low [] = Unit
IsRising low (r ∷ rs) = (low ≤ r.epoch) × IsRising r.epoch rs

-- Each epoch is above the one before, which may be 0 repeatedly.
abbrev pub IsClimbing : ℕ → List Ring → Type 0
IsClimbing low [] = Unit
IsClimbing low (r ∷ rs) = ((low < r.epoch) ⊎ (low ≡ 0)) × IsClimbing r.epoch rs

-- What is sent after the epoch `last`.
abbrev still_new : ℕ → List Ring → List Ring
still_new last [] = []
still_new last (r ∷ rs) =
    if (r.epoch == last) && not (last == 0) then still_new last rs else r ∷ still_new r.epoch rs

watch_ring-sent :
    (w : Stream) (rs : List Ring)
    → (watch_ring (λ n. true) w rs).0.sent ≡ w.sent ++ still_new w.last_sent rs
      × ((watch_ring (λ n. true) w rs).1 ≡ true)
unfolding watch_ring send_ring
watch_ring-sent w [] = (sym (append-nil w.sent), refl)
watch_ring-sent w (r ∷ rs) =
    elim (Bool-cases ((r.epoch == w.last_sent) && not (w.last_sent == 0))) [
      | inl old ↦
          let step : send_ring (λ n. true) w r ≡ (w, true) = rw (old, send_ring) refl in
          subst
            (λ st.
              ((unless_failed st (watch_ring (λ n. true) st.0 rs)).0.sent
                ≡ w.sent ++ still_new w.last_sent (r ∷ rs))
              × ((unless_failed st (watch_ring (λ n. true) st.0 rs)).1 ≡ true))
            (sym step) (rw old (watch_ring-sent w rs))
      | inr new ↦
          let next : Stream = record { last_sent = r.epoch; sent = w.sent ++ r ∷ [] } in
          let (out, ok) = watch_ring-sent next rs in
          let step : send_ring (λ n. true) w r ≡ (next, true) = rw (new, send_ring) refl in
          subst
            (λ st.
              ((unless_failed st (watch_ring (λ n. true) st.0 rs)).0.sent
                ≡ w.sent ++ still_new w.last_sent (r ∷ rs))
              × ((unless_failed st (watch_ring (λ n. true) st.0 rs)).1 ≡ true))
            (sym step) (rw new (out ∙ append_assoc w.sent (r ∷ []) (still_new r.epoch rs), ok))
    ]

still_new-IsClimbing :
    (last : ℕ) (rs : List Ring) → IsRising last rs → IsClimbing last (still_new last rs)
still_new-IsClimbing last [] up = tt
still_new-IsClimbing last (r ∷ rs) (le, up) =
    elim (Bool-cases ((r.epoch == last) && not (last == 0))) [
      | inl old ↦ rw old (still_new-IsClimbing last rs (subst (λ n. IsRising n rs) (same old) up))
      | inr new ↦ rw new (above new, still_new-IsClimbing r.epoch rs up)
    ]
  where
    same : ((r.epoch == last) && not (last == 0)) ≡ true → r.epoch ≡ last
    same h = ground arith

    above : ((r.epoch == last) && not (last == 0)) ≡ false → (last < r.epoch) ⊎ (last ≡ 0)
    above h = ground arith

-- Every epoch that is read is that of a ring in `seen` or is sent.
still_new-told :
    (last : ℕ) (rs : List Ring) (r : Ring)
    → In r rs
    → ((r.epoch ≡ last) × (0 < last))
      ⊎ ((s : Ring) × In s (still_new last rs) × (s.epoch ≡ r.epoch))
still_new-told last [] r h = absurd h
still_new-told last (q ∷ rs) r h = elim (Bool-cases ((q.epoch == last) && not (last == 0))) [
  | inl old ↦ rw old (elim h [ inl p ↦ inl (was p old) | inr k ↦ still_new-told last rs r k ])
  | inr new ↦ rw new (elim h [
    | inl p ↦ inr (q, inl refl, ap (λ x. x.epoch) (sym p))
    | inr k ↦ elim (still_new-told q.epoch rs r k) [
      | inl (same, pos) ↦ inr (q, inl refl, sym same)
      | inr (s, inside, at) ↦ inr (s, inr inside, at)
    ]
  ])
]
  where
    was : r ≡ q → ((q.epoch == last) && not (last == 0)) ≡ true → (r.epoch ≡ last) × (0 < last)
    was p o = ground (arith, ap (λ x. x.epoch) p)

-- If the epochs of the rings that WatchRing reads do not fall and the stream takes every message,
-- it ends without an error; each ring sent has an epoch above that of the one before, or follows
-- one with the epoch 0; and every epoch that was read was sent.
pub watch_ring_lem :
    (rs : List Ring)
    → IsRising 0 rs
    → ((watch_ring (λ n. true) new_stream rs).1 ≡ true)
      × IsClimbing 0 (watch_ring (λ n. true) new_stream rs).0.sent
      × ((r : Ring)
          → In r rs
          → (s : Ring) × In s (watch_ring (λ n. true) new_stream rs).0.sent × (s.epoch ≡ r.epoch))
watch_ring_lem rs up =
    let (out, ok) = watch_ring-sent new_stream rs in
    (
      ok,
      subst (IsClimbing 0) (sym out) (still_new-IsClimbing 0 rs up),
      λ r h. elim (still_new-told 0 rs r h) [
        | inl (same, pos) ↦ absurd (omega arith)
        | inr (s, inside, at) ↦ (s, subst (In s) (sym out) inside, at)
      ],
    )
