-- ===== src/Reconciler/Finalize.antt =====
-- The terminal transition of drop/reconciler.py, which the pass and the waiter share, and the probe.
use hermes_drop.Base.{
  ℕ, ◌*◌, Bool, false, not, ◌&&◌, none, some, List, [], ◌∷◌, if◌then◌else◌, ◌==◌, option_eq,
  string_eq, nat_eq, ltb,
}
use hermes_drop.Base.{Text, text_eq}
use hermes_drop.Base.Exec.{pure, raise, gets, ◌>>=◌, ◌>>◌}
use hermes_drop.Routing.{routing_eq}
use hermes_drop.Journal.Entry.{
  key_eq, Value, flag, string, Entry, drop_id, state, message_id, edit_failed, notice_received,
  notice_expired, received, get, is_terminal, is_unhashable,
}
use hermes_drop.Journal.Store.{get_drop}
use hermes_drop.World.{
  Await, await_raised, submitted, await_unavailable, await_other, Outside, World, Action, ask,
  is_truthy, update_drop, update_status, required,
}
use hermes_drop.Origin.{Origin}
use hermes_drop.Announce.{announce_pending}

abbrev pub default_probe_ms : ℕ
default_probe_ms = 750

pub data Verdict : Type 0 where
  verdict_submitted verdict_live verdict_gone verdict_unknown : Verdict

-- `_LIVE_FRACTION` is one half.
abbrev pub verdict_of : (probe_ms : ℕ) → Await → Verdict
verdict_of probe_ms await_raised = verdict_unknown
verdict_of probe_ms (submitted kind) = verdict_submitted
verdict_of probe_ms await_other = verdict_unknown
verdict_of probe_ms (await_unavailable elapsed) =
    if ltb (2 * elapsed) probe_ms then verdict_gone else verdict_live

pub data Finalized : Type 0 where
  gone duplicate : Finalized
  done : (edit_refused : Bool) → (announced : List Text) → Finalized

-- The quiet notice of a state.
abbrev pub notice_of : Bool → Entry → Value
notice_of is_received e = if is_received then get notice_received e else get notice_expired e

module _ (o : Outside) where
  unfoldable pub probe_liveness : (probe_ms : ℕ) → Action Verdict
  unfolding ◌>>=◌ ask
  probe_liveness probe_ms = do answer ← ask o.await_answer; pure (verdict_of probe_ms answer)

  -- Whether the edit of the status message was refused; nothing to edit is no refusal.
  unfoldable pub edit_notice : Origin → Entry → Text → Action Bool
  unfolding ◌>>=◌ update_status is_truthy text_eq
  edit_notice origin current new_state =
      let content = notice_of (new_state == received) current in
      if is_truthy content && is_truthy (get message_id current)
      then (do made ← update_status o origin (get message_id current) content; pure (not made))
      else pure false

  -- edit, journal, announce
  unfoldable pub transition : Origin → Value → Entry → Text → Action Finalized
  unfolding ◌>>=◌ edit_notice update_drop announce_pending
  transition origin id current new_state = do
    refused ← edit_notice origin current new_state
    update_drop o id ((state, string new_state) ∷ (edit_failed, flag refused) ∷ [])
    announced ← announce_pending o origin.lane
    pure (done refused announced)

  unfoldable pub finalize_terminal : Origin → Entry → Text → Action Finalized
  unfolding ◌>>=◌ required transition
  finalize_terminal origin e new_state = do
    id ← required drop_id e
    found ← gets (λ (w : World). get_drop id w.directory)
    elim found [
      | none ↦ pure gone
      | some current ↦
          if is_unhashable (get state current)
          then raise
          else if is_terminal (get state current)
          then pure duplicate
          else transition origin id current new_state
    ]
