-- ===== src/Origin.antt =====
-- drop/origin.py: the origin of a call, found in three tiers and then verified, or a refusal.
-- The runner's adapter lookup is an argument.
pub mod Verified
use hermes_drop.Base.{
  ℕ, suc, zero, ◌+◌, ◌-◌, ◌*◌, ◌/◌, ◌%◌, ◌≤◌, ◌<◌, max, min, String, ◌<>◌, ◌≡◌, refl, sym, ap, ◌∙◌,
  ◌≢◌, ◌↔◌, ◌⊎◌, inl, inr, Bool, true, false, not, ◌&&◌, ◌||◌, Option, none, some, List, [], ◌∷◌,
  ◌++◌, map, arith, if◌then◌else◌, Eq, ◌==◌, contains, option_eq, string_eq, nat_eq, Bool-cases,
  Option-cases, ltb, leb, ltb→lt, leb→le, length, keep, any, All, length-append, length-keep-le,
  keep-All,
}
use hermes_drop.Base.{Text, text_eq}
use hermes_drop.Routing.{RoutingTuple, routing_eq}
use hermes_drop.Sources.{
  Source, SourceEntry, SessionEnv, Registry, routing_tuple_for_source, routing_tuple_from_context,
  session_key_from_context, by_routing_tuple, by_session_key, is_blank,
}

pub data Tier : Type 0 where
  turn_contextvar routing_tuple session_key : Tier

pub data OriginError : Type 0 where
  no_origin origin_mismatch origin_unverified gateway_unavailable no_adapter : OriginError

-- `runner._adapter_for_source(source)`
pub data AdapterAnswer : Type 0 where
  adapter_raised adapter_none : AdapterAnswer
  adapter_found : ℕ → AdapterAnswer

pub record Origin : Type 0 where
  pub source : Source
  pub adapter : ℕ
  pub runner : ℕ
  pub lane : RoutingTuple
  pub reply_anchor : Option Text
  pub tier : Tier

pub data Resolution : Type 0 where
  resolved : Origin → Resolution
  refused : OriginError → Resolution

-- The three lookups. A lookup in the registry is a use of it, and changes it.
abbrev third_tier : Text → ℕ → Registry → Option (Source × Tier) × Registry
third_tier key now r =
    if is_blank key
    then (none, r)
    else let (found, r') = by_session_key key now r in
      (elim found [ none ↦ none | some entry ↦ some (entry.source, session_key) ], r')

abbrev second_tier : Option RoutingTuple → Text → ℕ → Registry → Option (Source × Tier) × Registry
second_tier lane key now r =
    let (found, r') = by_routing_tuple lane now r in
    elim found [
      | none ↦ third_tier key now r'
      | some entry ↦ (some (entry.source, routing_tuple), r')
    ]

unfoldable pub find_source :
    Option Source → SessionEnv → ℕ → Registry → Option (Source × Tier) × Registry
find_source (some captured) env now r = (some (captured, turn_contextvar), r)
find_source none env now r =
    second_tier (routing_tuple_from_context env) (session_key_from_context env) now r

-- `str(source.message_id) if source.message_id else None`
abbrev pub anchor : Option Text → Option Text
anchor none = none
anchor (some []) = none
anchor (some (c ∷ cs)) = some (c ∷ cs)

-- What follows the lookups: the verification against the bound lane, the runner, the adapter.
unfoldable pub verify :
    Option RoutingTuple → Option ℕ → (Source → AdapterAnswer) → Source → Tier → Resolution
verify none runner adapter_for source tier = refused origin_unverified
verify (some bound) none adapter_for source tier =
    if routing_tuple_for_source source == bound
    then refused gateway_unavailable
    else refused origin_mismatch
verify (some bound) (some runner) adapter_for source tier =
    if routing_tuple_for_source source == bound
    then elim (adapter_for source) [
      | adapter_raised ↦ refused no_adapter
      | adapter_none ↦ refused no_adapter
      | adapter_found adapter ↦ resolved (record {
        source = source;
        adapter = adapter;
        runner = runner;
        lane = routing_tuple_for_source source;
        reply_anchor = anchor source.message_id;
        tier = tier;
      })
    ]
    else refused origin_mismatch

unfoldable pub resolve_origin :
    Option Source
    → SessionEnv
    → Option ℕ
    → (Source → AdapterAnswer)
    → ℕ
    → Registry
    → Resolution × Registry
resolve_origin turn env runner adapter_for now r =
    let (found, r') = find_source turn env now r in
    (
      elim found [
        | none ↦ refused no_origin
        | some (source, tier) ↦
            verify (routing_tuple_from_context env) runner adapter_for source tier
      ],
      r',
    )
