-- ===== src/Sources/Answers.antt =====
-- What the registry answers.
use hermes_drop.Base.{
  ℕ, ◌+◌, ◌-◌, ◌≤◌, ◌<◌, ◌≡◌, refl, sym, ap, ◌∙◌, Option, none, some, arith, if◌then◌else◌,
  option_eq, string_eq, nat_eq,
}
use hermes_drop.Base.{Text, text_eq}
use hermes_drop.Base.Dict
use hermes_drop.Base.Dict.{Dict, NodupKeys}
use hermes_drop.Routing.{RoutingTuple, routing_eq}
use hermes_drop.Sources.{
  Source, SourceEntry, SessionEnv, Registry, routing_tuple_for_source, purge, put, by_routing_tuple,
  peek_routing_tuple, expired,
}
use hermes_drop.Sources.Index.{lookup-store_self, EveryEntry-lookup}
use hermes_drop.Sources.Invariant.{IsRegistry, OfLane}

-- What becomes of a lookup when the entry is too old.
abbrev fresh_only : ℕ → ℕ → Option SourceEntry → Option SourceEntry
fresh_only ttl now none = none
fresh_only ttl now (some entry) = if expired ttl now entry then none else some entry

peek-fresh_only :
    (key : RoutingTuple) (now : ℕ) (r : Registry)
    → peek_routing_tuple (some key) now r
      ≡ fresh_only r.ttl_seconds now (Dict.lookup key r.by_tuple)
unfolding peek_routing_tuple
peek-fresh_only key now r = ground arith

get-fresh_only :
    (key : RoutingTuple) (now : ℕ) (r : Registry)
    → (by_routing_tuple (some key) now r).0
      ≡ fresh_only r.ttl_seconds now (Dict.lookup key r.by_tuple)
unfolding by_routing_tuple
get-fresh_only key now r = ground arith

-- The gate's read, which changes nothing, gives the answer of the resolver's read.
pub peek-by_routing_tuple :
    (key : Option RoutingTuple) (now : ℕ) (r : Registry)
    → peek_routing_tuple key now r ≡ (by_routing_tuple key now r).0
unfolding peek_routing_tuple by_routing_tuple
peek-by_routing_tuple none now r = refl
peek-by_routing_tuple (some key) now r = peek-fresh_only key now r ∙ sym (get-fresh_only key now r)

-- A source that was stored is what its lane answers with, up to and including the moment at
-- which its time to live is used up, in a registry that holds any entry at all.
pub by_routing_tuple-put :
    (source : Source) (gateway : Option ℕ) (key : Option Text) (env : SessionEnv) (now later : ℕ)
    (r : Registry)
    → 0 < r.maxlen
    → later ≤ now + r.ttl_seconds
    → let (entry, stored) = put source gateway key env now r in
      (by_routing_tuple (some (routing_tuple_for_source source)) later stored).0 ≡ some entry
unfolding put purge expired
by_routing_tuple-put source gateway key env now later r room early =
    let (entry, stored) = put source gateway key env now r in
    get-fresh_only (routing_tuple_for_source source) later stored
    ∙ ap (fresh_only r.ttl_seconds later) (
        lookup-store_self r.maxlen (routing_tuple_for_source source) entry (purge now r).by_tuple
          room)
    ∙ ground arith

-- An answer is the entry that stands under the lane: its source has that very routing tuple, and
-- it is not older than the time to live.
by_routing_tuple-some :
    (key : RoutingTuple) (now : ℕ) (r : Registry) (entry : SourceEntry)
    → IsRegistry r
    → (by_routing_tuple (some key) now r).0 ≡ some entry
    → (routing_tuple_for_source entry.source ≡ key) × (now - entry.stored_at ≤ r.ttl_seconds)
unfolding expired
by_routing_tuple-some key now r entry v h =
    let e = sym (get-fresh_only key now r) ∙ h in
    (
      EveryEntry-lookup OfLane key entry r.by_tuple v.lanes.placed (ground (arith, e)),
      ground (arith, e),
    )
