-- ===== src/Origin/Verified.antt =====
-- The origins that integrations/hermes-drop/drop/origin.py accepts, and its refusals.
use hermes_drop.Base.{
  ℕ, ◌≡◌, refl, ◌≢◌, ◌⊎◌, inl, inr, Option, none, some, arith, option_eq, string_eq, nat_eq,
  Option-cases,
}
use hermes_drop.Base.{text_eq}
use hermes_drop.Routing.{RoutingTuple, routing_eq}
use hermes_drop.Sources.{
  Source, SourceEntry, SessionEnv, Registry, routing_tuple_for_source, routing_tuple_from_context,
  session_key_from_context, by_routing_tuple, by_session_key,
}
use hermes_drop.Origin.{
  Tier, routing_tuple, session_key, origin_mismatch, AdapterAnswer, adapter_found, Origin, resolved,
  refused, find_source, anchor, verify, resolve_origin,
}

-- What it takes to be accepted: the bound lane is the source's own, and the runner has an adapter
-- for that source.
pub record IsVerified (env : SessionEnv) (runner : Option ℕ) (adapter_for : Source → AdapterAnswer)
    (o : Origin) : Type 0 where
  pub bound : routing_tuple_from_context env ≡ some o.lane
  pub own : routing_tuple_for_source o.source ≡ o.lane
  pub served : runner ≡ some o.runner
  pub answered : adapter_for o.source ≡ adapter_found o.adapter

module _ (env : SessionEnv) (runner : Option ℕ) (adapter_for : Source → AdapterAnswer) where
  verify-IsVerified :
      (context : Option RoutingTuple) (source : Source) (tier : Tier) (o : Origin)
      → routing_tuple_from_context env ≡ context
      → (given : Option ℕ) → runner ≡ given
      → verify context given adapter_for source tier ≡ resolved o
      → IsVerified env runner adapter_for o
  unfolding verify
  verify-IsVerified none source tier o c given g h = absurd (ground arith)
  verify-IsVerified (some bound) source tier o c none g h = absurd (ground arith)
  verify-IsVerified (some bound) source tier o c (some n) g h = ground arith

-- An accepted origin is verified: the lane that the session is bound to is the routing tuple of
-- its own source, and the runner at hand gave the adapter for that very source.
pub resolve_origin-IsVerified :
    (turn : Option Source) (env : SessionEnv) (runner : Option ℕ)
    (adapter_for : Source → AdapterAnswer) (now : ℕ) (r : Registry) (o : Origin)
    → (resolve_origin turn env runner adapter_for now r).0 ≡ resolved o
    → IsVerified env runner adapter_for o
unfolding resolve_origin
resolve_origin-IsVerified turn env runner adapter_for now r o h =
    elim (Option-cases (find_source turn env now r).0) [
      | inl absent ↦ absurd (ground arith)
      | inr ((source, tier), found) ↦
          verify-IsVerified env runner adapter_for (routing_tuple_from_context env) source tier o
            refl runner refl (ground arith)
    ]

-- The other way round: where some tier finds a source whose routing tuple is the bound lane, and
-- the runner has an adapter for it, that source is the origin, with that adapter and that tier.
resolve_origin_verified :
    (turn : Option Source) (env : SessionEnv) (runner : ℕ) (adapter_for : Source → AdapterAnswer)
    (now : ℕ) (r : Registry) (source : Source) (tier : Tier) (adapter : ℕ)
    → (find_source turn env now r).0 ≡ some (source, tier)
    → routing_tuple_from_context env ≡ some (routing_tuple_for_source source)
    → adapter_for source ≡ adapter_found adapter
    → (o : Origin) × ((resolve_origin turn env (some runner) adapter_for now r).0 ≡ resolved o)
      × (o.source ≡ source)
      × (o.adapter ≡ adapter)
      × (o.tier ≡ tier)
unfolding resolve_origin verify
resolve_origin_verified turn env runner adapter_for now r source tier adapter found bound answered =
    (
      record {
        source = source;
        adapter = adapter;
        runner = runner;
        lane = routing_tuple_for_source source;
        reply_anchor = anchor source.message_id;
        tier = tier;
      },
      ground arith,
      refl,
      refl,
      refl,
    )

-- With a source captured in this turn for another lane than the bound one, the answer is a
-- refusal for the mismatch: the registry is not asked for a source that would fit.
resolve_origin_mismatch :
    (captured : Source) (env : SessionEnv) (runner : Option ℕ)
    (adapter_for : Source → AdapterAnswer) (now : ℕ) (r : Registry) (bound : RoutingTuple)
    → routing_tuple_from_context env ≡ some bound
    → routing_tuple_for_source captured ≢ bound
    → resolve_origin (some captured) env runner adapter_for now r ≡ (refused origin_mismatch, r)
unfolding resolve_origin find_source verify
resolve_origin_mismatch captured env none adapter_for now r bound c differ = ground arith
resolve_origin_mismatch captured env (some runner) adapter_for now r bound c differ = ground arith

-- A source that comes from the registry stood in it: under the bound lane, or under the session
-- key, and nowhere else is a source made up.
pub find_source-some :
    (env : SessionEnv) (now : ℕ) (r : Registry) (source : Source) (tier : Tier)
    → (find_source none env now r).0 ≡ some (source, tier)
    → (entry : SourceEntry) × (entry.source ≡ source)
      × (((tier ≡ routing_tuple)
            × ((by_routing_tuple (routing_tuple_from_context env) now r).0 ≡ some entry))
          ⊎ ((tier ≡ session_key)
              × ((by_session_key
                    (session_key_from_context env)
                    now
                    (by_routing_tuple (routing_tuple_from_context env) now r).1).0
                  ≡ some entry)))
unfolding find_source
find_source-some env now r source tier h =
    let lane = by_routing_tuple (routing_tuple_from_context env) now r in
    elim (Option-cases lane.0) [
      | inl absent ↦
          elim (Option-cases (by_session_key (session_key_from_context env) now lane.1).0) [
            | inl nothing ↦ absurd (ground arith)
            | inr (entry, found) ↦ (entry, ground arith, ground arith)
          ]
      | inr (entry, found) ↦ (entry, ground arith, ground arith)
    ]
