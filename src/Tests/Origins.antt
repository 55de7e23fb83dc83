-- ===== src/Tests/Origins.antt =====
-- The source registry and the origin at concrete data.
use hermes_drop.Base.{
  ◌≡◌, refl, ◌≢◌, false, none, some, [], ◌∷◌, arith, ◌==◌, option_eq, string_eq, nat_eq,
}
use hermes_drop.Base.{codes, text_eq, is_space, lstrip, strip}
use hermes_drop.Base.Dict
use hermes_drop.Routing.{RoutingTuple, routing_eq}
use hermes_drop.Sources.{
  Source, SourceEntry, SessionEnv, Registry, new_registry, routing_tuple_for_source,
  routing_tuple_from_context, session_key_from_context, by_routing_tuple, put, purge, store,
  move_to_end, trim, expired, keep_entries, key_of_call,
}
use hermes_drop.Sources.Invariant.{
  IsRegistry, puts, asks_lane, forgets, run, run-IsRegistry, new_registry-IsRegistry,
}
use hermes_drop.Sources.Answers.{by_routing_tuple-put}
use hermes_drop.Origin.{
  turn_contextvar, routing_tuple, Origin, resolved, AdapterAnswer, adapter_found, find_source,
  verify, resolve_origin,
}
use hermes_drop.Origin.Verified.{IsVerified, resolve_origin-IsVerified}

abbrev lane : RoutingTuple
lane = record { platform = codes "telegram"; profile = []; chat_id = codes "7"; thread_id = [] }

abbrev source : Source
source = record {
  ident = 1;
  platform = some (codes "telegram");
  profile = none;
  chat_id = some (codes "7");
  thread_id = none;
  message_id = some (codes "12");
}

abbrev stranger : Source
stranger = record source { chat_id = some (codes "8") }

abbrev env : SessionEnv
env = record {
  platform = codes "telegram";
  chat_id = codes " 7";
  profile = [];
  thread_id = [];
  session_key = codes "k";
}

abbrev adapters : Source → AdapterAnswer
adapters _ = adapter_found 5

abbrev entry : SourceEntry
entry = record {
  serial = 0;
  source = source;
  runner_ref = some 3;
  session_key = codes "k";
  stored_at = 10;
}

abbrev registry : Registry
registry = record {
  maxlen = 2;
  ttl_seconds = 60;
  by_tuple = (lane, entry) ∷ [];
  by_key = (codes "k", entry) ∷ [];
  created = 1;
}

stored : put source (some 3) (some (codes "k")) env 10 (new_registry 2 60) ≡ (entry, registry)
unfolding put purge store move_to_end trim keep_entries key_of_call strip lstrip is_space
    Dict.insert routing_tuple_for_source text_eq routing_eq nat_eq Dict.lookup Dict.erase
stored = refl

run-IsRegistry_example : IsRegistry (
    run
      (puts source (some 3) none env 10 ∷ asks_lane (some lane) 20 ∷ forgets lane ∷ [])
      (new_registry 2 60))
run-IsRegistry_example =
    run-IsRegistry (puts source (some 3) none env 10 ∷ asks_lane (some lane) 20 ∷ forgets lane ∷ [])
      (new_registry 2 60) (new_registry-IsRegistry 2 60)

own_lane : routing_tuple_for_source source ≡ lane
unfolding routing_tuple_for_source
own_lane = refl

registry-IsRegistry : IsRegistry registry
unfolding Dict.lookup
registry-IsRegistry = record {
  lanes = record { distinct = (refl, tt); bounded = omega arith; placed = (own_lane, tt) };
  session_keys = record { distinct = (refl, tt); bounded = omega arith; placed = (refl, tt) };
}

by_routing_tuple-put_example :
    let (kept, after) = put source (some 3) (some (codes "k")) env 10 (new_registry 2 60) in
    (by_routing_tuple (some (routing_tuple_for_source source)) 70 after).0 ≡ some kept
by_routing_tuple-put_example =
    by_routing_tuple-put source (some 3) (some (codes "k")) env 10 70 (new_registry 2 60)
      (omega arith) (omega arith)

answered : (by_routing_tuple (some lane) 20 registry).0 ≡ some entry
unfolding by_routing_tuple Dict.lookup routing_eq expired
answered = refl

abbrev origin : Origin
origin = record {
  source = source;
  adapter = 5;
  runner = 3;
  lane = lane;
  reply_anchor = some (codes "12");
  tier = turn_contextvar;
}

bound : routing_tuple_from_context env ≡ some lane
unfolding routing_tuple_from_context strip is_space nat_eq
bound = refl

accepted : (resolve_origin (some source) env (some 3) adapters 20 registry).0 ≡ resolved origin
unfolding resolve_origin find_source verify routing_tuple_from_context routing_tuple_for_source
    strip is_space nat_eq routing_eq
accepted = refl

resolve_origin-IsVerified_example : IsVerified env (some 3) adapters origin
resolve_origin-IsVerified_example =
    resolve_origin-IsVerified (some source) env (some 3) adapters 20 registry origin accepted

from_turn : (find_source (some source) env 20 registry).0 ≡ some (source, turn_contextvar)
unfolding find_source
from_turn = refl

own_bound : routing_tuple_from_context env ≡ some (routing_tuple_for_source source)
own_bound = rw (bound, own_lane) refl

unequal : (a b : RoutingTuple) → (a == b) ≡ false → a ≢ b
unequal a b h = ground arith

differs : routing_tuple_for_source stranger ≢ lane
unfolding routing_tuple_for_source routing_eq
differs p = unequal (routing_tuple_for_source stranger) lane refl p

from_registry : (find_source none env 20 registry).0 ≡ some (source, routing_tuple)
unfolding find_source by_routing_tuple routing_tuple_from_context session_key_from_context strip
    is_space nat_eq Dict.lookup routing_eq expired
from_registry = refl
