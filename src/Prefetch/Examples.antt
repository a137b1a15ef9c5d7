-- ===== src/Prefetch/Examples.antt =====
-- A prefetcher over two rings: a member leaves, and its block gets a new owner.
use prefixmesh.Prelude.{
  ltb, leb, ◌==◌, length, get_elem?, In, Distinct, keys, find, put, delete, string_discrete, Bytes,
  bytes_discrete, ℕ, zero, suc, ◌+◌, ◌*◌, ◌/◌, ◌<◌, min, String, ◌≡◌, refl, sym, ap, subst, ◌≢◌,
  ◌↔◌, inl, inr, ite, true, false, Option, none, some, List, [], ◌∷◌, arith, Floats,
}
use prefixmesh.HashRing.Defs
use prefixmesh.Directory.State
use prefixmesh.Ringwatch.Watcher.{node_map}
use prefixmesh.Prefetch.Planner.{
  BlockStat, demand_at, sweep, AccessEvent, Config, WarmCommand, Prefetcher, new_prefetcher,
  handle_access, on_ring,
}
use prefixmesh.Prefetch.Wanted.{IsWanted}
use prefixmesh.Prefetch.Coldest.{IsOrder}
use prefixmesh.Prefetch.Sweep.{sweep_lem}
use prefixmesh.Prefetch.Plans.{ring_of, on_ring_iff, on_ring-source}

abbrev whole : Floats
whole = record {
  Float = ℕ;
  of_nat = λ n. n;
  seconds = λ n. n / 1000000000;
  single = λ f. f;
  add = λ a b. a + b;
  sub = λ a b. b;
  mul = λ a b. a * b;
  div = λ a b. a / (b + 1);
  neg = λ a. a;
  exp2 = λ a. 1;
  lesser = min;
  less = ltb;
  less_eq = leb;
  equal = λ a b. a == b;
}

abbrev point : String → ℕ → ℕ
point id i = ite (string_discrete id "a") 100 (ite (string_discrete id "b") 200 300)

abbrev id_of : ℕ → Bytes
id_of n =
    0 ∷ 0 ∷ 0 ∷ 0 ∷ 0 ∷ 0 ∷ 0 ∷ n ∷ 0 ∷ 0 ∷ 0 ∷ 0 ∷ 0 ∷ 0 ∷ 0 ∷ 0 ∷ 0 ∷ 0 ∷ 0 ∷ 0 ∷ 0 ∷ 0 ∷ 0 ∷ 0
    ∷ 0 ∷ 0 ∷ 0 ∷ 0 ∷ 0 ∷ 0 ∷ 0 ∷ 0 ∷ []

abbrev member : String → String → State.NodeInfo
member id addr = record { node_id = id; addr = addr; capacity_bytes = 1 }

abbrev first_ring : State.Ring
first_ring = record {
  epoch = 1;
  nodes = member "a" "a:1" ∷ member "b" "b:1" ∷ member "c" "c:1" ∷ [];
  vnodes_per_node = 1;
}

abbrev second_ring : State.Ring
second_ring = record {
  epoch = 2;
  nodes = member "b" "b:1" ∷ member "c" "c:1" ∷ [];
  vnodes_per_node = 1;
}

abbrev unset : Config whole
unset = record { rf = 0; demand_threshold = 0; half_life = 0; max_tracked = 0; warm_deadline = 0 }

abbrev seen_event : Bytes → Option AccessEvent
seen_event value = some (record { model_id = "m"; chain = id_of 50 ∷ [] })

-- One hit is below the threshold, two are not.
abbrev seen_times : ℕ → Prefetcher whole
seen_times zero = new_prefetcher whole unset
seen_times (suc n) = handle_access whole seen_event [] (seen_times n) 7000000 []

abbrev planned_on : ℕ → Prefetcher whole
planned_on hits = record (seen_times hits) {
  ring = some (ring_of whole (λ c. true) point first_ring);
}

abbrev wanted : WarmCommand whole
wanted = record {
  block_id = id_of 50;
  parent_id = [];
  model_id = "m";
  source_node = "b:1";
  target_node = "c";
  conf = 1;
  deadline_unix_ms = 30007;
}

issued : (on_ring whole (λ c. true) point (planned_on 2) 7000000 second_ring).1 ≡ wanted ∷ []
unfolding on_ring handle_access new_prefetcher Defs.new_ring Defs.owners Defs.nodes node_map put
    find bytes_discrete string_discrete
issued = refl

not_in_demand : (on_ring whole (λ c. true) point (planned_on 1) 7000000 second_ring).1 ≡ []
unfolding on_ring handle_access new_prefetcher Defs.new_ring Defs.owners Defs.nodes node_map put
    find bytes_discrete string_discrete
not_in_demand = refl

on_ring_iff_example :
    In wanted (on_ring whole (λ c. true) point (planned_on 2) 7000000 second_ring).1 ↔ (
      IsWanted whole
        (planned_on 2).cfg
        7000000
        (ring_of whole (λ c. true) point first_ring)
        (ring_of whole (λ c. true) point second_ring)
        (planned_on 2).blocks
        wanted
      × (true ≡ true))
unfolding Defs.new_ring
on_ring_iff_example =
    on_ring_iff whole (λ c. true) point (planned_on 2) 7000000 second_ring
      (ring_of whole (λ c. true) point first_ring) wanted refl (omega arith)

wanted-issued : In wanted (on_ring whole (λ c. true) point (planned_on 2) 7000000 second_ring).1
wanted-issued = subst (In wanted) (sym issued) (inl refl)

on_ring-source_example :
    In "c" (keys (node_map second_ring.nodes []))
    × ((old : Defs.Ring) × (o : String) × ((planned_on 2).ring ≡ some old)
        × (old.epoch < 2)
        × In o (Defs.owners old (id_of 50) (planned_on 2).cfg.rf)
        × (find string_discrete o (node_map second_ring.nodes []) ≡ some "b:1")
        × (o ≢ "c"))
on_ring-source_example =
    on_ring-source whole (λ c. true) point (planned_on 2) 7000000 second_ring wanted wanted-issued

abbrev seen_at : ℕ → BlockStat whole
seen_at hits = record { demand = hits; last_seen = 0; parent = []; model_id = "m" }

abbrev tracked : List (Bytes × BlockStat whole)
tracked = (id_of 1, seen_at 5) ∷ (id_of 2, seen_at 1) ∷ (id_of 3, seen_at 3) ∷ []

coldest_dropped :
    sweep whole unset 7000000 tracked ≡ (id_of 1, seen_at 5) ∷ (id_of 3, seen_at 3) ∷ []
unfolding sweep bytes_discrete delete
coldest_dropped = refl

whole_order : IsOrder whole
whole_order = record { asym = λ a b h. ground arith; trans = λ a b c n h i. ground arith }

abbrev eighth : Bytes → ℕ
eighth b = elim (get_elem? b 7) [ none ↦ 0 | some n ↦ n ]

ids_differ : (a b : ℕ) → a ≢ b → id_of a ≢ id_of b
ids_differ a b h e = h (ap eighth e)

==-refl : (n : ℕ) → (n == n) ≡ true
==-refl n = ground arith

tracked-Distinct : Distinct (keys tracked)
tracked-Distinct = (
  λ h. elim h [
    | inl e ↦ ids_differ 1 2 (omega arith) e
    | inr p ↦ elim p [ inl e ↦ ids_differ 1 3 (omega arith) e | inr q ↦ q ]
  ],
  (λ h. elim h [ inl e ↦ ids_differ 2 3 (omega arith) e | inr q ↦ q ], (λ h. h, tt)),
)

swept :
    (i : Bytes)
    → find bytes_discrete i (sweep whole unset 7000000 tracked)
      ≡ find bytes_discrete i ((id_of 1, seen_at 5) ∷ (id_of 3, seen_at 3) ∷ [])
swept i = ap (find bytes_discrete i) coldest_dropped

gone_2 : find bytes_discrete (id_of 2) (sweep whole unset 7000000 tracked) ≡ none
unfolding find bytes_discrete
gone_2 = swept (id_of 2)

left_3 : find bytes_discrete (id_of 3) (sweep whole unset 7000000 tracked) ≡ some (seen_at 3)
unfolding find bytes_discrete
left_3 = swept (id_of 3)

tracked_2 : find bytes_discrete (id_of 2) tracked ≡ some (seen_at 1)
unfolding find bytes_discrete
tracked_2 = refl

sweep_lem_example :
    (find bytes_discrete (id_of 3) tracked ≡ some (seen_at 3))
    × (ltb (demand_at whole unset 7000000 (seen_at 3)) (demand_at whole unset 7000000 (seen_at 1))
        ≡ false)
    × (length (sweep whole unset 7000000 tracked) + 1 ≡ 3)
sweep_lem_example =
    sweep_lem whole whole_order unset 7000000 tracked tracked-Distinct
      (λ x i. ==-refl (demand_at whole unset 7000000 x.1)) (id_of 2) (id_of 3) (seen_at 1)
      (seen_at 3) tracked_2 gone_2 left_3
