-- ===== src/Sources.antt =====
-- drop/sources.py: the registry of live message sources, and the routing tuples that key it.
-- Times are readings of the monotonic clock.
pub mod Index
pub mod Invariant
pub mod Answers
use hermes_drop.Base.{
  ℕ, suc, zero, ◌+◌, ◌-◌, ◌*◌, ◌/◌, ◌%◌, ◌≤◌, ◌<◌, max, min, String, ◌<>◌, ◌≡◌, refl, sym, ap, ◌∙◌,
  ◌≢◌, ◌↔◌, ◌⊎◌, inl, inr, Bool, true, false, not, ◌&&◌, ◌||◌, Option, none, some, List, [], ◌∷◌,
  ◌++◌, map, arith, if◌then◌else◌, Eq, ◌==◌, contains, option_eq, string_eq, nat_eq, Bool-cases,
  Option-cases, ltb, leb, ltb→lt, leb→le, length, keep, any, All, length-append, length-keep-le,
  keep-All,
}
use hermes_drop.Base.{Text, text_eq, codes, strip}
use hermes_drop.Base.Dict
use hermes_drop.Base.Dict.{Dict}
use hermes_drop.Routing.{RoutingTuple, routing_eq}

-- The attributes of a session source that this plugin reads. `ident` tells two objects apart.
pub record Source : Type 0 where
  pub ident : ℕ
  pub platform : Option Text
  pub profile : Option Text
  pub chat_id : Option Text
  pub thread_id : Option Text
  pub message_id : Option Text

-- `str(value or "")`
abbrev pub or_empty : Option Text → Text
or_empty none = []
or_empty (some s) = s

unfoldable pub routing_tuple_for_source : Source → RoutingTuple
routing_tuple_for_source s = record {
  platform = or_empty s.platform;
  profile = or_empty s.profile;
  chat_id = or_empty s.chat_id;
  thread_id = or_empty s.thread_id;
}

-- What `get_session_env` gives for the session's five variables.
pub record SessionEnv : Type 0 where
  pub platform : Text
  pub chat_id : Text
  pub profile : Text
  pub thread_id : Text
  pub session_key : Text

abbrev pub is_blank : Text → Bool
is_blank [] = true
is_blank (_ ∷ _) = false

unfoldable pub routing_tuple_from_context : SessionEnv → Option RoutingTuple
routing_tuple_from_context env =
    if is_blank (strip env.platform) || is_blank (strip env.chat_id)
    then none
    else some (record {
      platform = strip env.platform;
      profile = strip env.profile;
      chat_id = strip env.chat_id;
      thread_id = strip env.thread_id;
    })

unfoldable pub session_key_from_context : SessionEnv → Text
session_key_from_context env = strip env.session_key

-- `serial` is the identity of the entry object, which `_drop` compares by.
pub record SourceEntry : Type 0 where
  pub serial : ℕ
  pub source : Source
  pub runner_ref : Option ℕ
  pub session_key : Text
  pub stored_at : ℕ

pub record Registry : Type 0 where
  pub maxlen : ℕ
  pub ttl_seconds : ℕ
  pub by_tuple : Dict RoutingTuple SourceEntry
  pub by_key : Dict Text SourceEntry
  pub created : ℕ

abbrev pub new_registry : ℕ → ℕ → Registry
new_registry maxlen ttl_seconds = record {
  maxlen = maxlen;
  ttl_seconds = ttl_seconds;
  by_tuple = [];
  by_key = [];
  created = 0;
}

unfoldable pub expired : ℕ → ℕ → SourceEntry → Bool
expired ttl now entry = ltb ttl (now - entry.stored_at)

module _ {K : Type 0} ⦃e : Eq K⦄ where
  -- `OrderedDict.move_to_end`
  unfoldable pub move_to_end : K → Dict K SourceEntry → Dict K SourceEntry
  move_to_end k d = elim (Dict.lookup k d) [
    | none ↦ d
    | some entry ↦ Dict.erase k d ++ ((k, entry) ∷ [])
  ]

  -- `_trim`: the oldest entries go while there are too many.
  unfoldable pub trim : ℕ → Dict K SourceEntry → Dict K SourceEntry
  trim maxlen [] = []
  trim maxlen (x ∷ d) =
      let rest = trim maxlen d in if ltb maxlen (length (x ∷ d)) then rest else x ∷ d

  -- The three statements with which `put` stores an entry in an index.
  unfoldable pub store : ℕ → K → SourceEntry → Dict K SourceEntry → Dict K SourceEntry
  unfolding move_to_end trim
  store maxlen k entry d = trim maxlen (move_to_end k (Dict.insert k entry d))

  -- The entries of an index whose value passes a test; the keys of a dict are distinct.
  unfoldable pub keep_entries : (SourceEntry → Bool) → Dict K SourceEntry → Dict K SourceEntry
  unfolding keep
  keep_entries p d = keep (λ (_, entry). p entry) d

unfoldable pub purge : ℕ → Registry → Registry
unfolding keep_entries expired
purge now r = record r {
  by_tuple = keep_entries (λ e. not (expired r.ttl_seconds now e)) r.by_tuple;
  by_key = keep_entries (λ e. not (expired r.ttl_seconds now e)) r.by_key;
}

-- `_drop`: the entry goes from both indices, wherever it stands.
unfoldable pub drop : SourceEntry → Registry → Registry
unfolding keep_entries
drop entry r = record r {
  by_tuple = keep_entries (λ e. not (e.serial == entry.serial)) r.by_tuple;
  by_key = keep_entries (λ e. not (e.serial == entry.serial)) r.by_key;
}

-- The session key of a call: the one that is given, or the bound session's.
unfoldable pub key_of_call : Option Text → SessionEnv → Text
unfolding session_key_from_context
key_of_call none env = session_key_from_context env
key_of_call (some session_key) env = strip session_key

unfoldable pub put :
    Source → Option ℕ → Option Text → SessionEnv → ℕ → Registry → SourceEntry × Registry
put source gateway session_key env now r =
    let key = key_of_call session_key env in
    let purged = purge now r in
    let entry : SourceEntry = record {
      serial = r.created;
      source = source;
      runner_ref = gateway;
      session_key = key;
      stored_at = now;
    } in
    (
      entry,
      record purged {
        by_tuple = store r.maxlen (routing_tuple_for_source source) entry purged.by_tuple;
        by_key = if is_blank key then purged.by_key else store r.maxlen key entry purged.by_key;
        created = r.created + 1;
      },
    )

unfoldable pub by_routing_tuple : Option RoutingTuple → ℕ → Registry → Option SourceEntry × Registry
by_routing_tuple none now r = (none, r)
by_routing_tuple (some key) now r = elim (Dict.lookup key r.by_tuple) [
  | none ↦ (none, r)
  | some entry ↦
      if expired r.ttl_seconds now entry
      then (none, drop entry r)
      else (some entry, record r { by_tuple = move_to_end key r.by_tuple })
]

unfoldable pub peek_routing_tuple : Option RoutingTuple → ℕ → Registry → Option SourceEntry
peek_routing_tuple none now r = none
peek_routing_tuple (some key) now r = elim (Dict.lookup key r.by_tuple) [
  | none ↦ none
  | some entry ↦ if expired r.ttl_seconds now entry then none else some entry
]

unfoldable pub by_session_key : Text → ℕ → Registry → Option SourceEntry × Registry
by_session_key [] now r = (none, r)
by_session_key (c ∷ cs) now r = elim (Dict.lookup (strip (c ∷ cs)) r.by_key) [
  | none ↦ (none, r)
  | some entry ↦
      if expired r.ttl_seconds now entry
      then (none, drop entry r)
      else (some entry, record r { by_key = move_to_end (strip (c ∷ cs)) r.by_key })
]

unfoldable pub forget_routing_tuple : RoutingTuple → Registry → Registry
forget_routing_tuple key r = record r { by_tuple = Dict.erase key r.by_tuple }

unfoldable pub clear : Registry → Registry
clear r = record r { by_tuple = []; by_key = [] }
