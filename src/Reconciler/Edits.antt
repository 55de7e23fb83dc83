-- ===== src/Reconciler/Edits.antt =====
-- Refused status edits of drop/reconciler.py: their count, and the next attempt; and the origin of a
-- journalled lane.
use hermes_drop.Base.{
  ℕ, ◌+◌, Bool, true, false, ◌&&◌, Option, none, some, List, [], ◌∷◌, ◌++◌, if◌then◌else◌, ◌==◌,
  contains, option_eq, string_eq, nat_eq, ltb, leb,
}
use hermes_drop.Base.{Text, text_eq}
use hermes_drop.Base.Dict
use hermes_drop.Base.Dict.{Dict}
use hermes_drop.Base.Exec.{ok, pure, raise, gets, ◌>>=◌, ◌>>◌, except, for_each}
use hermes_drop.Routing.{RoutingTuple, routing_eq}
use hermes_drop.Journal.Entry.{
  key_eq, flag, string, Entry, drop_id, state, message_id, edit_failed, received, get, is_terminal,
  is_unhashable, is_state, text_of, routing_tuple_of,
}
use hermes_drop.Journal.Store.{entries}
use hermes_drop.World.{
  Outside, World, Action, ask, note, is_truthy, is_unhashable_id, update_drop, update_status,
}
use hermes_drop.Sources.{
  SourceEntry, Registry, routing_tuple_for_source, by_routing_tuple, peek_routing_tuple,
}
use hermes_drop.Origin.{adapter_raised, adapter_none, adapter_found, Origin, routing_tuple}
use hermes_drop.Reconciler.Latch.{Latch, Summary, Resolution, found, absent}
use hermes_drop.Reconciler.Finalize.{Finalized, done, notice_of}

abbrev pub max_edit_retries : ℕ
max_edit_retries = 3

-- `entry.get("drop_id") or ""`
abbrev pub id_of : Entry → Text
id_of e = if is_truthy (get drop_id e) then text_of (get drop_id e) else []

-- `_edit_attempts`
abbrev pub edit_attempts : Text → Latch → ℕ
edit_attempts id l = elim (Dict.lookup id l.edit_retries) [ none ↦ 0 | some n ↦ n ]

-- `_note_edit_attempt`
unfoldable pub note_edit_attempt : Text → Action ℕ
note_edit_attempt id w =
    let n = edit_attempts id w.latch + 1 in
    (
      ok n,
      record w { latch = record w.latch { edit_retries = Dict.insert id n w.latch.edit_retries } },
    )

-- `_clear_edit_attempts`
unfoldable pub clear_edit_attempts : Text → Action (Unit {0})
clear_edit_attempts id w = (
  ok tt,
  record w { latch = record w.latch { edit_retries = Dict.erase id w.latch.edit_retries } },
)

unfoldable pub set_registry : Registry → Action (Unit {0})
set_registry r w = (ok tt, record w { registry = r })

abbrev pub note_unresolved : Entry → Summary → Summary
note_unresolved e s = record s {
  unresolved = s.unresolved ++ (id_of e ∷ []);
  unresolved_lanes = s.unresolved_lanes ++ (routing_tuple_of e ∷ []);
}

abbrev pub note_pending_edit : Entry → Summary → Summary
note_pending_edit e s = record s {
  edit_retry_pending = s.edit_retry_pending ++ (id_of e ∷ []);
  retry_lanes = s.retry_lanes ++ (routing_tuple_of e ∷ []);
}

abbrev pub note_failed : Text → Summary → Summary
note_failed id s = record s { failed = s.failed ++ (id ∷ []) }

module _ (o : Outside) where
  -- What `origin_for_entry` makes of the registry's answer.
  unfoldable pub origin_of : RoutingTuple → Option SourceEntry → Option Origin
  origin_of lane none = none
  origin_of lane (some entry) =
      if routing_tuple_for_source entry.source == lane
      then elim o.runner [
        | none ↦ none
        | some runner ↦ elim (o.adapter_for entry.source) [
          | adapter_raised ↦ none
          | adapter_none ↦ none
          | adapter_found adapter ↦ some (record {
            source = entry.source;
            adapter = adapter;
            runner = runner;
            lane = lane;
            reply_anchor = none;
            tier = routing_tuple;
          })
        ]
      ]
      else none

  -- `origin_for_entry`
  unfoldable pub origin_for_entry : Entry → Action (Option Origin)
  unfolding ◌>>=◌ ask set_registry origin_of by_routing_tuple
  origin_for_entry e = do
    now ← ask o.monotonic
    r ← gets (λ (w : World). w.registry)
    let (answer, r') = by_routing_tuple (some (routing_tuple_of e)) now r
    set_registry r'
    pure (origin_of (routing_tuple_of e) answer)

  -- `origin_for_entry` with `peek`, as the gate asks it.
  unfoldable pub peek_origin : (now : ℕ) → Registry → RoutingTuple → Option Origin
  unfolding origin_of peek_routing_tuple
  peek_origin now r lane = origin_of lane (peek_routing_tuple (some lane) now r)

  -- What the gate makes of it.
  abbrev pub gate_answer : (now : ℕ) → Registry → RoutingTuple → Resolution
  gate_answer now r lane = elim (peek_origin now r lane) [ none ↦ absent | some origin ↦ found ]

  -- `_note_finalize_edit`
  unfoldable pub note_finalize_edit : Finalized → Entry → Action (Unit {0})
  unfolding ◌>>=◌ note
  note_finalize_edit (done true announced) e = do
    l ← gets (λ (w : World). w.latch)
    if leb max_edit_retries (edit_attempts (id_of e) l) then pure tt else note (note_pending_edit e)
  note_finalize_edit _ e = pure tt

  -- An entry that is over, whose edit was refused, with something to edit and a text for it.
  abbrev pub wants_edit : Entry → Bool
  wants_edit e =
      is_terminal (get state e)
      && (is_truthy (get edit_failed e)
          && (is_truthy (get message_id e)
              && is_truthy (notice_of (is_state received (get state e)) e)))

  -- The attempt, once there is an origin.
  unfoldable pub edit_again : Entry → Origin → Action (Unit {0})
  unfolding ◌>>=◌ update_status update_drop note_edit_attempt clear_edit_attempts note
  edit_again e origin = do
    made ← update_status o origin (get message_id e) (notice_of (is_state received (get state e)) e)
    if made
        then (do
          update_drop o (string (id_of e)) ((edit_failed, flag false) ∷ [])
          clear_edit_attempts (id_of e)
          note (λ s. record s { edit_repaired = s.edit_repaired ++ (id_of e ∷ []) }))
        else (do
          n ← note_edit_attempt (id_of e)
          if ltb n max_edit_retries then note (note_pending_edit e) else pure tt)

  -- The part of the loop's body behind its first two tests.
  unfoldable pub retry_wanted : Entry → Action (Unit {0})
  unfolding ◌>>=◌ except origin_for_entry edit_again note text_eq
  retry_wanted e =
      if wants_edit e
      then (do
        l ← gets (λ (w : World). w.latch)
        if leb max_edit_retries (edit_attempts (id_of e) l)
            then pure tt
            else except
                (do
                  origin ← origin_for_entry e
                  elim origin [ none ↦ note (note_unresolved e) | some at ↦ edit_again e at ])
                (note (note_failed (id_of e))))
      else pure tt

  -- The body of the loop of `retry_failed_edits`; its first two tests are outside the `try`.
  unfoldable pub retry_edit : List Text → Entry → Action (Unit {0})
  unfolding retry_wanted text_eq
  retry_edit skip e =
      if is_unhashable_id (get drop_id e)
      then raise
      else if contains skip (id_of e)
      then pure tt
      else if is_unhashable (get state e)
      then raise
      else retry_wanted e

  -- `retry_failed_edits`
  unfoldable pub retry_failed_edits : List Text → List Entry → Action (Unit {0})
  unfolding retry_edit for_each
  retry_failed_edits skip entries = for_each (retry_edit skip) entries
