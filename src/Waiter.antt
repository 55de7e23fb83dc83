-- ===== src/Waiter.antt =====
-- drop/waiter.py: the wait for one drop, parked on the broker until it answers.
pub mod Outcome
pub mod Verdict
pub mod Tasks
pub mod Members
pub mod Exclusive
use hermes_drop.Base.{
  ℕ, suc, zero, ◌+◌, ◌-◌, ◌*◌, ◌/◌, ◌%◌, ◌≤◌, ◌<◌, max, min, String, ◌<>◌, ◌≡◌, refl, sym, ap, ◌∙◌,
  ◌≢◌, ◌↔◌, ◌⊎◌, inl, inr, Bool, true, false, not, ◌&&◌, ◌||◌, Option, none, some, List, [], ◌∷◌,
  ◌++◌, map, arith, if◌then◌else◌, Eq, ◌==◌, contains, option_eq, string_eq, nat_eq, Bool-cases,
  Option-cases, ltb, leb, ltb→lt, leb→le, length, keep, any, All, length-append, length-keep-le,
  keep-All,
}
use hermes_drop.Base.{Text, text_eq, codes}
use hermes_drop.Base.Dict
use hermes_drop.Base.Dict.{Dict}
use hermes_drop.Base.Exec.{
  Exec, Result, ok, raised, pure, raise, gets, modify, ◌>>=◌, ◌>>◌, except, for_each,
}
use hermes_drop.Routing.{RoutingTuple, routing_eq}
use hermes_drop.Journal.Entry.{
  Key, key_eq, Value, null, flag, number, string, composite, Entry, drop_id, state, message_id,
  expires_at_ms, announced_at, announce_attempts, claimed_at, edit_failed, notice_received,
  notice_expired, payload_kind, waiting, received, expired, transport_failed, get, is_terminal,
  is_unhashable, is_state, is_set, text_of, routing_tuple_of,
}
use hermes_drop.Journal.Store.{
  Directory, get_drop, attempts, max_announce_attempts, terminal_unannounced, is_pending, entries,
}
use hermes_drop.World.{
  Effect, edited, journalled, woken, armed, Await, await_raised, submitted, await_unavailable,
  await_other, Outside, World, Action, ask, show, note, set_directory, is_truthy, list_entries,
  update_drop, update_status, list_unannounced, required, number_or_raise,
}
use hermes_drop.Sources.{SessionEnv, Registry, put}
use hermes_drop.Origin.{Origin}
use hermes_drop.Reconciler.Edits.{set_registry}
use hermes_drop.Reconciler.Finalize.{Finalized, gone, duplicate, done, finalize_terminal}

-- What the wait returns: the result of a transition, or `waiter_failed`.
pub data Waited : Type 0 where
  waited : Finalized → Waited
  waiter_failed : Waited

-- `str(response.get("payload_kind") or "text")`
abbrev pub kind_of : Option Text → Text
kind_of none = codes "text"
kind_of (some []) = codes "text"
kind_of (some (c ∷ cs)) = c ∷ cs

-- The verdict of `_park`: the state, and the kind of the payload.
abbrev pub parked_verdict : Await → Text × Text
parked_verdict await_raised = (transport_failed, [])
parked_verdict (submitted kind) = (received, kind_of kind)
parked_verdict (await_unavailable elapsed) = (expired, [])
parked_verdict await_other = (transport_failed, [])

abbrev pub is_kind : Text → Bool
is_kind kind = kind == codes "text" || kind == codes "files"

-- `meanwhile` is what the rest of the gateway does while the wait is parked.
module _ (o : Outside) (env : SessionEnv) (meanwhile : World → World) where
  -- `_republish`
  unfoldable pub republish : Origin → Action (Unit {0})
  unfolding ◌>>=◌ ask set_registry put
  republish origin = do
    now ← ask o.monotonic
    r ← gets (λ (w : World). w.registry)
    set_registry (put origin.source (some origin.runner) none env now r).1

  unfoldable pub park : Action (Text × Text)
  unfolding ◌>>=◌ ask modify
  park = do answer ← ask o.await_answer; modify meanwhile; pure (parked_verdict answer)

  unfoldable pub note_kind : Text → Text → Text → Action (Unit {0})
  unfolding ◌>>=◌ update_drop text_eq
  note_kind id new_state kind =
      if new_state == received && is_kind kind
      then (update_drop o (string id) ((payload_kind, string kind) ∷ []) >> pure tt)
      else pure tt

  -- The state that the wait ends in: expired at once past the deadline, else what the broker answers.
  unfoldable pub outcome : Text → Entry → Action Text
  unfolding ◌>>=◌ ask number_or_raise park note_kind
  outcome id e = do
    deadline ← number_or_raise o.float_of (get expires_at_ms e)
    now ← ask o.clock
    if leb deadline (now * 1000)
        then pure expired
        else (do verdict ← park; note_kind id verdict.0 verdict.1; pure verdict.0)

  unfoldable pub resolve_wait : Text → Origin → Entry → Action Waited
  unfolding ◌>>=◌ republish outcome finalize_terminal
  resolve_wait id origin e = do
    republish origin
    new_state ← outcome id e
    result ← finalize_terminal o origin e new_state
    republish origin
    pure (waited result)

  -- `_run`
  unfoldable pub run_wait : Text → Origin → Action Waited
  unfolding ◌>>=◌ resolve_wait
  run_wait id origin = do
    found ← gets (λ (w : World). get_drop (string id) w.directory)
    elim found [
      | none ↦ pure (waited gone)
      | some e ↦
          if is_unhashable (get state e)
          then raise
          else if is_terminal (get state e)
          then pure (waited duplicate)
          else resolve_wait id origin e
    ]

  -- `run`
  unfoldable pub run : Text → Origin → Action Waited
  unfolding except run_wait
  run id origin = except (run_wait id origin) (pure waiter_failed)
