-- ===== src/Announce.antt =====
-- drop/announce.py: one wake for every drop of a lane that is over and not announced yet.
pub mod Keeps
use hermes_drop.Base.{
  ℕ, suc, zero, ◌+◌, ◌-◌, ◌*◌, ◌/◌, ◌%◌, ◌≤◌, ◌<◌, max, min, String, ◌<>◌, ◌≡◌, refl, sym, ap, ◌∙◌,
  ◌≢◌, ◌↔◌, ◌⊎◌, inl, inr, Bool, true, false, not, ◌&&◌, ◌||◌, Option, none, some, List, [], ◌∷◌,
  ◌++◌, map, arith, if◌then◌else◌, Eq, ◌==◌, contains, option_eq, string_eq, nat_eq, Bool-cases,
  Option-cases, ltb, leb, ltb→lt, leb→le, length, keep, any, All, length-append, length-keep-le,
  keep-All,
}
use hermes_drop.Base.{Text, text_eq, codes}
use hermes_drop.Base.Dict
use hermes_drop.Base.Dict.{Dict}
use hermes_drop.Base.Exec.{
  Exec, Result, ok, raised, pure, raise, gets, modify, ◌>>=◌, ◌>>◌, except, for_each,
}
use hermes_drop.Routing.{RoutingTuple, routing_eq}
use hermes_drop.Journal.Entry.{
  Key, key_eq, Value, null, flag, number, string, composite, Entry, drop_id, state, message_id,
  expires_at_ms, announced_at, announce_attempts, claimed_at, edit_failed, notice_received,
  notice_expired, payload_kind, waiting, received, expired, transport_failed, get, is_terminal,
  is_state, is_set, text_of, routing_tuple_of,
}
use hermes_drop.Journal.Store.{
  Directory, get_drop, attempts, max_announce_attempts, terminal_unannounced, is_pending, entries,
}
use hermes_drop.World.{
  Effect, edited, journalled, woken, armed, Await, await_raised, submitted, await_unavailable,
  await_other, Outside, World, Action, ask, show, note, set_directory, is_truthy, list_entries,
  update_drop, update_status, list_unannounced, required, number_or_raise,
}

-- `int(entry.get("announce_attempts") or 0) + 1`
abbrev pub one_more : Entry → Value
one_more e = number (attempts (get announce_attempts e) + 1)

module _ (o : Outside) where
  -- The wake failed: every entry has used up an attempt.
  unfoldable pub note_attempts : List Entry → Action (Unit {0})
  unfolding ◌>>=◌ required update_drop
  note_attempts [] = pure tt
  note_attempts (e ∷ es) = do
    id ← required drop_id e
    update_drop o id ((announce_attempts, one_more e) ∷ [])
    note_attempts es

  -- The wake is out: every entry is announced, at the cost of an attempt.
  unfoldable pub note_announced : (now : ℕ) → List Entry → Action (List Text)
  unfolding ◌>>=◌ required update_drop
  note_announced now [] = pure []
  note_announced now (e ∷ es) = do
    id ← required drop_id e
    update_drop o id ((announced_at, number now) ∷ (announce_attempts, one_more e) ∷ [])
    rest ← note_announced now es
    pure (text_of id ∷ rest)

  unfoldable pub deliver : RoutingTuple → (now : ℕ) → List Entry → Action (List Text)
  unfolding ◌>>=◌ ask show note_attempts note_announced
  deliver lane now [] = pure []
  deliver lane now (e ∷ es) = do
    works ← ask o.wake_works
    if works
        then (show (woken lane (e ∷ es)) >> note_announced now (e ∷ es))
        else (note_attempts (e ∷ es) >> pure [])

  -- `announce_pending`: the drops that were announced.
  unfoldable pub announce_pending : RoutingTuple → Action (List Text)
  unfolding ◌>>=◌ ask list_unannounced deliver
  announce_pending lane = do
    now ← ask o.clock
    pending ← list_unannounced o (some lane)
    deliver lane now pending
