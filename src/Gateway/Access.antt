-- ===== src/Gateway/Access.antt =====
-- emitAccess of internal/gateway/server.go, and `Static`, a ring source that does not change.
use prefixmesh.Prelude.{
  if◌then◌else◌, length, get_elem?, find, string_discrete, Bytes, get_elem?-some, ℕ, zero, suc, ◌%◌,
  ◌^◌, ◌≤◌, String, ◌≡◌, refl, Bool, true, false, Option, none, some, List, [], ◌∷◌, arith,
}
use prefixmesh.HashRing.Defs
use prefixmesh.Gateway.Matching.{MatchResponse}

-- pmv1.AccessEvent; bytes that are not set are [].
pub record AccessEvent : Type 0 where
  pub chain_head : Bytes
  pub model_id : String
  pub depth_requested : ℕ
  pub depth_matched : ℕ
  pub deepest_hit : Bytes
  pub next_miss : Bytes
  pub ts_unix_ms : ℕ
  pub chain : List Bytes

-- `req.Chain[d-1]`, if the depth is positive; `none` is a fault.
abbrev pub deepest_of : List Bytes → ℕ → Option Bytes
deepest_of chain zero = some []
deepest_of chain (suc d) = get_elem? chain d

-- `req.Chain[d]`, below the end.
abbrev pub miss_of : List Bytes → ℕ → Bytes
miss_of [] d = []
miss_of (id ∷ ids) zero = id
miss_of (id ∷ ids) (suc d) = miss_of ids d

-- The event of a request for a chain that begins with `head`, given the deepest hit; `none` is a
-- fault.
abbrev pub event_of :
    String → Bytes → List Bytes → MatchResponse → ℕ → Option Bytes → Option AccessEvent
event_of model_id head chain resp now none = none
event_of model_id head chain resp now (some hit) = some (record {
  chain_head = head;
  model_id = model_id;
  depth_requested = length chain % 2 ^ 32;
  depth_matched = resp.matched_depth;
  deepest_hit = hit;
  next_miss = miss_of chain resp.matched_depth;
  ts_unix_ms = now;
  chain = chain;
})

-- The key and the event that are produced, if proto.Marshal succeeds.
abbrev pub produce_event :
    (AccessEvent → Bool) → Bytes → Option AccessEvent → Option (Option (Bytes × AccessEvent))
produce_event marshals head none = none
produce_event marshals head (some ev) = some (if marshals ev then some (head, ev) else none)

-- `emitAccess`: what it produces, if anything. `none` is a fault, `on` is whether there is a producer.
unfoldable pub emit_access :
    (AccessEvent → Bool)
    → Bool
    → String
    → List Bytes
    → MatchResponse
    → ℕ
    → Option (Option (Bytes × AccessEvent))
emit_access marshals on model_id [] resp now = some none
emit_access marshals false model_id (head ∷ ids) resp now = some none
emit_access marshals true model_id (head ∷ ids) resp now =
    produce_event marshals head
      (event_of model_id head (head ∷ ids) resp now (deepest_of (head ∷ ids) resp.matched_depth))

-- `Static` with its `Ring` and `Client`
pub record Static (C : Type 0) : Type 0 where
  pub fixed : Option Defs.Ring
  pub clients : List (String × C)

unfoldable pub static_ring : {C : Type 0} → Static C → Option Defs.Ring
static_ring s = s.fixed

unfoldable pub static_client : {C : Type 0} → Static C → String → Option C
static_client s id = find string_discrete id s.clients

-- With a depth that is within the chain, as every answer of Match has, there is no fault.
emit_access-runs :
    (marshals : AccessEvent → Bool) (on : Bool) (model_id : String) (chain : List Bytes)
    (resp : MatchResponse) (now : ℕ)
    → resp.matched_depth ≤ length chain
    → (out : Option (Bytes × AccessEvent)) × (emit_access marshals on model_id chain resp now
        ≡ some out)
unfolding emit_access
emit_access-runs marshals on model_id [] resp now h = (none, refl)
emit_access-runs marshals false model_id (head ∷ ids) resp now h = (none, refl)
emit_access-runs marshals true model_id (head ∷ ids) resp now h =
    let (hit, at) = within resp.matched_depth h in
    produced (deepest_of (head ∷ ids) resp.matched_depth) hit at
  where
    within :
        (d : ℕ) → d ≤ length (head ∷ ids) → (hit : Bytes) × (deepest_of (head ∷ ids) d ≡ some hit)
    within zero le = ([], refl)
    within (suc d) le = get_elem?-some (head ∷ ids) d (omega arith)

    produced :
        (o : Option Bytes) (hit : Bytes)
        → o ≡ some hit
        → (out : Option (Bytes × AccessEvent)) × (produce_event marshals head
              (event_of model_id head (head ∷ ids) resp now o)
            ≡ some out)
    produced none hit e = cc
    produced (some x) hit e = (_, refl)
