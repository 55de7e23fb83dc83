-- ===== src/Reconciler/Keeps.antt =====
-- What a terminal transition and a retried edit of drop/reconciler.py keep of the journal's directory.
pub mod Pass
use hermes_drop.Base.{
  ℕ, suc, zero, ◌+◌, ◌-◌, ◌*◌, ◌/◌, ◌%◌, ◌≤◌, ◌<◌, max, min, String, ◌<>◌, ◌≡◌, refl, sym, ap, ◌∙◌,
  ◌≢◌, ◌↔◌, ◌⊎◌, inl, inr, Bool, true, false, not, ◌&&◌, ◌||◌, Option, none, some, List, [], ◌∷◌,
  ◌++◌, map, arith, if◌then◌else◌, Eq, ◌==◌, contains, option_eq, string_eq, nat_eq, Bool-cases,
  Option-cases, ltb, leb, ltb→lt, leb→le, length, keep, any, All, length-append, length-keep-le,
  keep-All,
}
use hermes_drop.Base.{Text, text_eq, codes}
use hermes_drop.Base.Dict
use hermes_drop.Base.Dict.{Dict}
use hermes_drop.Base.Exec.{
  Exec, Result, ok, raised, pure, raise, gets, modify, ◌>>=◌, ◌>>◌, except, for_each,
}
use hermes_drop.Routing.{RoutingTuple, routing_eq}
use hermes_drop.Journal.Entry.{
  Key, key_eq, Value, null, flag, number, string, composite, Entry, drop_id, state, message_id,
  expires_at_ms, announced_at, announce_attempts, claimed_at, edit_failed, notice_received,
  notice_expired, payload_kind, waiting, received, expired, transport_failed, get, is_terminal,
  is_unhashable, is_state, is_set, text_of, routing_tuple_of,
}
use hermes_drop.Journal.Store.{
  Directory, get_drop, attempts, max_announce_attempts, terminal_unannounced, is_pending, entries,
}
use hermes_drop.World.{
  is_unhashable_id, Effect, edited, journalled, woken, armed, Await, await_raised, submitted,
  await_unavailable, await_other, call_raised, call_failed, call_done, Outside, World, Action, ask,
  show, note, set_directory, is_truthy, list_entries, update_drop, update_status, list_unannounced,
  required, number_or_raise,
}
use hermes_drop.Base.Exec.Keeps.{
  Keeps, keeps_rules, Keeps-pure, Keeps-raise, Keeps-gets, Keeps-if, Keeps-except, Keeps-bind,
  Keeps-option, Keeps-for_each,
}
use hermes_drop.World.Updates.{KeepsDir, Survives, update_drop-KeepsDir}
use hermes_drop.World.Changes.{
  Tick, tried, told, reopened, repaired, closing, IsStable, Keeps-ask, Keeps-show, Keeps-note,
}
use hermes_drop.Origin.{Origin}
use hermes_drop.Announce.{one_more, note_attempts, note_announced, deliver, announce_pending}
use hermes_drop.Reconciler.Latch.{Latch, Summary}
use hermes_drop.Reconciler.Finalize.{
  Verdict, verdict_submitted, verdict_live, verdict_gone, verdict_unknown, verdict_of, Finalized,
  gone, duplicate, done, notice_of, probe_liveness, edit_notice, transition, finalize_terminal,
  default_probe_ms,
}
use hermes_drop.Reconciler.Edits.{
  retry_wanted, id_of, edit_attempts, max_edit_retries, note_edit_attempt, clear_edit_attempts,
  set_registry, note_pending_edit, note_unresolved, note_failed, origin_of, origin_for_entry,
  note_finalize_edit, wants_edit, edit_again, retry_edit, retry_failed_edits,
}
use hermes_drop.Reconciler.Pass.{
  announced_by, note_received, note_expired, note_rearmed, note_retained, note_woken, finish, rearm,
  follow, resolve_entry, drive_waiting, drive, is_unclaimed, reclaim, sweep, listed_or, settle,
  drive_all, first_listing, reconcile, run_reconcile, empty_summary, reclaim_grace_seconds,
}
use hermes_drop.Announce.Keeps.{required-keeps, Tick-keeps, announce_pending-keeps}

module _ (o : Outside) (P : Directory → Type 0) (stable : IsStable P) where
  pub update_status-directory :
      (origin : Origin) (message content : Value) (w : World)
      → (update_status o origin message content w).1.directory ≡ w.directory
  unfolding update_status ask show ◌>>=◌ pure
  update_status-directory origin message content w = ground arith

  pub update_status-keeps :
      (origin : Origin) (message content : Value)
      → KeepsDir P (update_status o origin message content)
  update_status-keeps origin message content = record {
    at = λ w h. rw (update_status-directory origin message content w) h;
  }

  pub edit_notice-keeps :
      (origin : Origin) (e : Entry) (t : Text) → KeepsDir P (edit_notice o origin e t)
  unfolding edit_notice
  edit_notice-keeps origin e t = search (keeps_rules, update_status-keeps)

  pub transition-keeps :
      (origin : Origin) (id : Value) (e : Entry) (t : Text)
      → ((refused : Bool) → Survives P id (closing t refused))
      → KeepsDir P (transition o origin id e t)
  unfolding transition
  transition-keeps origin id e t k = Keeps-bind _ _ (edit_notice-keeps origin e t) λ refused.
      Keeps-bind _ _ (update_drop-KeepsDir o P id _ (k refused)) λ _.
        Keeps-bind _ _ ((announce_pending-keeps o P stable) origin.lane) λ announced. Keeps-pure _

  -- The body of the transition below its first read.
  close-keeps :
      (origin : Origin) (id : Value) (t : Text)
      → KeepsDir P (
          gets (λ (w : World). get_drop id w.directory) >>= λ found. elim found [
            | none ↦ pure gone
            | some current ↦
                if is_unhashable (get state current)
                then raise
                else if is_terminal (get state current)
                then pure duplicate
                else transition o origin id current t
          ])
  unfolding gets raise ◌>>=◌
  close-keeps origin id t = record {
    at = λ w h. elim (Option-cases (get_drop id w.directory)) [
      | inl missing ↦ rw missing h
      | inr (e, found) ↦ rw found (elim (Bool-cases (is_unhashable (get state e))) [
        | inl bad ↦ rw bad h
        | inr good ↦ rw good (elim (Bool-cases (is_terminal (get state e))) [
          | inl over ↦ rw over h
          | inr still ↦ rw still (elim (stable.closes id) [
            | inl k ↦ (transition-keeps origin id e t (k t)).at w h
            | inr locked ↦ absurd (ground (arith, locked w.directory e h found))
          ])
        ])
      ])
    ];
  }

  pub finalize_terminal-keeps :
      (origin : Origin) (e : Entry) (t : Text) → KeepsDir P (finalize_terminal o origin e t)
  unfolding finalize_terminal
  finalize_terminal-keeps origin e t =
      Keeps-bind (required drop_id e) _ ((required-keeps o P stable) drop_id e)
        λ id. close-keeps origin id t

  pub origin_for_entry-keeps : (e : Entry) → KeepsDir P (origin_for_entry o e)
  unfolding origin_for_entry ask gets set_registry ◌>>=◌ pure
  origin_for_entry-keeps e = record { at = λ w h. h }

  pub note_finalize_edit-keeps : (r : Finalized) (e : Entry) → KeepsDir P (note_finalize_edit o r e)
  unfolding note_finalize_edit
  note_finalize_edit-keeps (done true announced) e = search (keeps_rules, Keeps-note P)
  note_finalize_edit-keeps (done false announced) e = search keeps_rules
  note_finalize_edit-keeps gone e = search keeps_rules
  note_finalize_edit-keeps duplicate e = search keeps_rules

  count-keeps : (id : Text) → KeepsDir P (note_edit_attempt id)
  unfolding note_edit_attempt
  count-keeps id = record { at = λ w h. h }

  clear-keeps : (id : Text) → KeepsDir P (clear_edit_attempts id)
  unfolding clear_edit_attempts
  clear-keeps id = record { at = λ w h. h }

  pub edit_again-keeps : (e : Entry) (origin : Origin) → KeepsDir P (edit_again o e origin)
  unfolding edit_again
  edit_again-keeps e origin = Keeps-bind _ _ (update_status-keeps origin _ _) λ made.
      Keeps-if made _ _
        (λ _.
          Keeps-bind _ _ ((Tick-keeps o P stable) _ _ repaired)
            λ _. search (keeps_rules, clear-keeps, Keeps-note P))
        (λ _. search (keeps_rules, count-keeps, Keeps-note P))

  -- An action on the origin of an entry, or a note that there is none.
  pub origin-keeps :
      (e : Entry) (f : Summary → Summary) (body : Origin → Action (Unit {0}))
      → ((at : Origin) → KeepsDir P (body at))
      → KeepsDir P
          (origin_for_entry o e >>= λ origin. elim origin [ none ↦ note f | some at ↦ body at ])
  origin-keeps e f body k =
      Keeps-bind _ _ (origin_for_entry-keeps e)
        λ origin. Keeps-option origin (note f) body (λ _. Keeps-note P f) (λ at _. k at)

  pub retry_wanted-keeps : (e : Entry) → KeepsDir P (retry_wanted o e)
  unfolding retry_wanted
  retry_wanted-keeps e =
      Keeps-if (wants_edit o e) _ _
        (λ _. Keeps-bind _ _ (Keeps-gets (λ (w : World). w.latch)) λ l.
          Keeps-if (leb max_edit_retries (edit_attempts (id_of e) l)) _ _ (λ _. Keeps-pure tt)
            λ _. Keeps-except _ _ (origin-keeps e _ _ (edit_again-keeps e)) (Keeps-note P _))
        (λ _. Keeps-pure tt)

  pub retry_edit-keeps : (skip : List Text) (e : Entry) → KeepsDir P (retry_edit o skip e)
  unfolding retry_edit
  retry_edit-keeps skip e =
      Keeps-if (is_unhashable_id (get drop_id e)) _ _ (λ _. Keeps-raise)
        λ _.
          Keeps-if (contains skip (id_of e)) _ _ (λ _. Keeps-pure tt)
            λ _.
              Keeps-if (is_unhashable (get state e)) _ _ (λ _. Keeps-raise)
                λ _. retry_wanted-keeps e

  pub retry_failed_edits-keeps :
      (skip : List Text) (es : List Entry) → KeepsDir P (retry_failed_edits o skip es)
  unfolding retry_failed_edits
  retry_failed_edits-keeps skip es = Keeps-for_each _ es (retry_edit-keeps skip)
