-- ===== src/Gateway/Soundness.antt =====
-- The fan-out's marks rest on the answers of owners, in every round.
use prefixmesh.Prelude.{
  Bool-cases, Option-cases, get_elem?, In, Bytes, ℕ, zero, suc, ◌+◌, ◌≤◌, ◌<◌, String, ◌≡◌, refl,
  sym, ap, subst, ◌∙◌, inl, inr, Bool, true, false, ◌||◌, some, List, [], ◌∷◌, arith,
}
use prefixmesh.HashRing.Defs.{Ring, owners}
use prefixmesh.Gateway.Fanout.{
  Batch, Reply, rpc_error, present_list, Probe, ids_of, has_batch, route_one, route_all,
  finish_batch, finish_all, probe_replica, probe_rounds,
}
use prefixmesh.Gateway.Evidence.{
  Confirmed, Evidence, IsIndexed, IsProbe, IsIndexed-append, mark_batch_sound, IsBatch, AreBatches,
  place_good,
}

-- The goroutines end in some order: `finish` invents no batch.
abbrev pub IsOrder : (List Batch → List Batch) → Type 0
IsOrder finish = (bs : List Batch) (b : Batch) → In b (finish bs) → In b bs

module _ (ring : Ring) (client : String → Bool) (rpc : ℕ → String → List Bytes → Reply)
    (finish : List Batch → List Batch) (is_order : IsOrder finish) (chain_ids : List Bytes)
    (rf : ℕ) where
  abbrev IsRouted : ℕ → List Batch × List (ℕ × Bytes) → Type 0
  IsRouted replica r = AreBatches ring chain_ids replica r.0 × IsIndexed chain_ids r.1

  route_one_good :
      (replica : ℕ) (x : ℕ × Bytes) (r : List Batch × List (ℕ × Bytes))
      → get_elem? chain_ids x.0 ≡ some x.1
      → IsRouted replica r
      → IsRouted replica (route_one ring client rpc finish replica x r)
  unfolding route_one
  route_one_good replica x (bs, un) at good =
      elim (Option-cases (get_elem? (owners ring x.1 (replica + 1)) replica)) [
        | inl nobody ↦ rw (nobody, route_one) good
        | inr (n, own) ↦ elim (Bool-cases (has_batch n bs || client n)) [
          | inl ask ↦
              rw (own, route_one, ask)
                (place_good ring chain_ids replica n x bs at own good.0, good.1)
          | inr skip ↦
              rw (own, route_one, skip)
                (
                  good.0,
                  IsIndexed-append chain_ids un (x ∷ []) good.1 (λ y h. elim h [
                    | inl e ↦ subst (λ z. get_elem? chain_ids z.0 ≡ some z.1) (sym e) at
                    | inr f ↦ absurd f
                  ]),
                )
        ]
      ]

  route_all_good :
      (replica : ℕ) (xs : List (ℕ × Bytes)) (r : List Batch × List (ℕ × Bytes))
      → IsIndexed chain_ids xs
      → IsRouted replica r
      → IsRouted replica (route_all ring client rpc finish replica xs r)
  unfolding route_all
  route_all_good replica [] r at good = good
  route_all_good replica (x ∷ xs) r at good =
      route_all_good replica xs (route_one ring client rpc finish replica x r) (λ y h. at y (inr h))
        (route_one_good replica x r (at x (inl refl)) good)

  abbrev pub Ev : Bytes → String → Type 0
  Ev = Evidence ring rpc rf

  finish_batch_sound :
      (replica : ℕ) (b : Batch) (p : Probe)
      → replica < rf
      → IsBatch ring chain_ids replica b
      → IsProbe chain_ids Ev p
      → IsProbe chain_ids Ev (finish_batch ring client rpc finish replica b p)
  unfolding finish_batch
  finish_batch_sound replica b p lt good ok = go (rpc replica b.node (ids_of b.asked)) refl
    where
      owned :
          (id : Bytes) (ps : List Bool) (xs : List (ℕ × Bytes))
          → ((x : ℕ × Bytes)
              → In x xs
              → get_elem? (owners ring x.1 (replica + 1)) replica ≡ some b.node)
          → Confirmed id (ids_of xs) ps
          → get_elem? (owners ring id (replica + 1)) replica ≡ some b.node
      owned id ps [] all h = absurd h
      owned id [] (x ∷ xs) all h = absurd h
      owned id (true ∷ ps) (x ∷ xs) all (inl e) =
          ap (λ y. get_elem? (owners ring y (replica + 1)) replica) e ∙ all x (inl refl)
      owned id (true ∷ ps) (x ∷ xs) all (inr h) = owned id ps xs (λ y k. all y (inr k)) h
      owned id (false ∷ ps) (x ∷ xs) all h = owned id ps xs (λ y k. all y (inr k)) h

      go :
          (r : Reply)
          → rpc replica b.node (ids_of b.asked) ≡ r
          → IsProbe chain_ids Ev (finish_batch ring client rpc finish replica b p)
      go (rpc_error stale) e =
          rw (e, finish_batch)
            (ok.0, IsIndexed-append chain_ids p.retry b.asked ok.1 (λ x h. (good x h).0))
      go (present_list ps) e =
          rw (e, finish_batch)
            (mark_batch_sound chain_ids Ev b.node b.asked ps p (λ x h. (good x h).0)
              (λ id h. (
                replica,
                ids_of b.asked,
                ps,
                lt,
                owned id ps b.asked (λ x k. (good x k).1) h,
                e,
                h,
              ))
              ok)

  finish_all_sound :
      (replica : ℕ) (bs : List Batch) (p : Probe)
      → replica < rf
      → AreBatches ring chain_ids replica bs
      → IsProbe chain_ids Ev p
      → IsProbe chain_ids Ev (finish_all ring client rpc finish replica bs p)
  unfolding finish_all
  finish_all_sound replica [] p lt good ok = ok
  finish_all_sound replica (b ∷ bs) p lt good ok =
      finish_all_sound replica bs (finish_batch ring client rpc finish replica b p) lt
        (λ c h. good c (inr h)) (finish_batch_sound replica b p lt (good b (inl refl)) ok)

  probe_replica_sound :
      (replica : ℕ) (p : Probe)
      → replica < rf
      → IsProbe chain_ids Ev p
      → IsProbe chain_ids Ev (probe_replica ring client rpc finish replica p)
  unfolding probe_replica
  probe_replica_sound replica p lt ok =
      let routed = route_all ring client rpc finish replica p.retry ([], []) in
      let good = route_all_good replica p.retry ([], []) ok.1 (λ b h. absurd h, λ x h. absurd h) in
      finish_all_sound replica (finish routed.0) (record p { retry = routed.1 }) lt
        (λ b h. good.0 b (is_order routed.0 b h)) (ok.0, good.1)

  pub probe_rounds_sound :
      (left replica : ℕ) (p : Probe)
      → left + replica ≤ rf
      → IsProbe chain_ids Ev p
      → IsProbe chain_ids Ev (probe_rounds ring client rpc finish left replica p)
  unfolding probe_rounds
  probe_rounds_sound zero replica p le ok = ok
  probe_rounds_sound (suc left) replica p le ok = go p.retry refl (
      probe_rounds_sound left (suc replica) (probe_replica ring client rpc finish replica p)
        (omega (arith, le)) (probe_replica_sound replica p (omega (arith, le)) ok))
    where
      go :
          (xs : List (ℕ × Bytes))
          → p.retry ≡ xs
          → IsProbe chain_ids Ev (
              probe_rounds ring client rpc finish left
                (suc replica)
                (probe_replica ring client rpc finish replica p))
          → IsProbe chain_ids Ev (probe_rounds ring client rpc finish (suc left) replica p)
      go [] e next = rw (e, probe_rounds) ok
      go (x ∷ xs) e next = rw (e, probe_rounds) next
