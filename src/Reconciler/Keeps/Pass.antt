-- ===== src/Reconciler/Keeps/Pass.antt =====
-- What a pass of drop/reconciler.py keeps of the journal's directory.
use hermes_drop.Base.{ℕ, Option, List, [], ◌∷◌, contains, option_eq, string_eq, nat_eq}
use hermes_drop.Base.{Text, text_eq}
use hermes_drop.Base.Exec.{pure, ◌>>=◌, ◌>>◌}
use hermes_drop.Routing.{routing_eq}
use hermes_drop.Journal.Entry.{
  key_eq, Value, null, flag, number, string, composite, Entry, drop_id, state, announced_at,
  waiting, received, expired, get, is_state,
}
use hermes_drop.Journal.Store.{Directory}
use hermes_drop.World.{
  read_or_raise, is_unhashable_id, is_truthy, Outside, World, Action, list_entries, update_drop,
  required, number_or_raise,
}
use hermes_drop.Base.Exec.{raise}
use hermes_drop.Base.Exec.Keeps.{
  Keeps-raise, keeps_rules, Keeps-pure, Keeps-gets, Keeps-if, Keeps-except, Keeps-bind,
  Keeps-option,
}
use hermes_drop.World.Updates.{KeepsDir}
use hermes_drop.World.Changes.{reopened, IsStable, Keeps-ask, Keeps-show, Keeps-note}
use hermes_drop.Origin.{Origin}
use hermes_drop.Reconciler.Latch.{Summary}
use hermes_drop.Reconciler.Finalize.{
  Verdict, verdict_submitted, verdict_live, verdict_gone, verdict_unknown, probe_liveness,
}
use hermes_drop.Reconciler.Edits.{id_of}
use hermes_drop.Reconciler.Pass.{
  note_received, note_expired, note_retained, finish, rearm, follow, resolve_entry, drive_waiting,
  drive, reclaim, sweep, listed_or, settle, drive_all, first_listing, reconcile, empty_summary,
}
use hermes_drop.Announce.Keeps.{
  list_unannounced-keeps, required-keeps, Tick-keeps, announce_pending-keeps,
}
use hermes_drop.Reconciler.Keeps.{
  note_finalize_edit-keeps, origin-keeps, retry_failed_edits-keeps, finalize_terminal-keeps,
}

module _ (o : Outside) (P : Directory → Type 0) (stable : IsStable P) where
  finish-keeps :
      (origin : Origin) (e : Entry) (t : Text) (heading : Text → Summary → Summary)
      → KeepsDir P (finish o origin e t heading)
  unfolding finish
  finish-keeps origin e t heading =
      Keeps-bind _ _ ((finalize_terminal-keeps o P stable) origin e t)
        λ result. search (keeps_rules, Keeps-note P, (note_finalize_edit-keeps o P stable))

  rearm-keeps : (e : Entry) → KeepsDir P (rearm o e)
  unfolding rearm
  rearm-keeps e =
      Keeps-option o.arm _ _ (λ _. Keeps-note P (note_retained (id_of e)))
        (λ works _. search (keeps_rules, Keeps-ask P, Keeps-show P, Keeps-note P))

  follow-keeps : (origin : Origin) (e : Entry) (v : Verdict) → KeepsDir P (follow o origin e v)
  unfolding follow
  follow-keeps origin e verdict_submitted = finish-keeps origin e received note_received
  follow-keeps origin e verdict_gone = finish-keeps origin e expired note_expired
  follow-keeps origin e verdict_live = rearm-keeps e
  follow-keeps origin e verdict_unknown = Keeps-note P _

  pub read-keeps : (of_text : Text → Option ℕ) (v : Value) → KeepsDir P (read_or_raise of_text v)
  unfolding read_or_raise
  read-keeps of_text (number n) = search keeps_rules
  read-keeps of_text (flag b) = search keeps_rules
  read-keeps of_text null = Keeps-raise
  read-keeps of_text (string s) =
      Keeps-option (of_text s) raise pure (λ _. Keeps-raise) (λ n _. Keeps-pure n)
  read-keeps of_text (composite s) = Keeps-raise

  pub number-keeps :
      (of_text : Text → Option ℕ) (v : Value) → KeepsDir P (number_or_raise of_text v)
  unfolding number_or_raise
  number-keeps of_text v =
      Keeps-if (is_truthy v) _ _ (λ _. read-keeps of_text v) (λ _. Keeps-pure 0)

  pub resolve_entry-keeps :
      (now_ms : ℕ) (e : Entry) (origin : Origin) → KeepsDir P (resolve_entry o now_ms e origin)
  unfolding resolve_entry probe_liveness
  resolve_entry-keeps now_ms e origin =
      search (keeps_rules, number-keeps, finish-keeps, Keeps-ask P, follow-keeps)

  pub drive-keeps : (now_ms : ℕ) (e : Entry) → KeepsDir P (drive o now_ms e)
  unfolding drive drive_waiting
  drive-keeps now_ms e =
      Keeps-if (is_state waiting (get state e)) _ _
        (λ _.
          Keeps-except _ _ ((origin-keeps o P stable) e _ _ (resolve_entry-keeps now_ms e))
            (Keeps-note P _))
        (λ _. Keeps-pure tt)

  pub reopen-keeps :
      (e : Entry)
      → KeepsDir P
          (required drop_id e >>= λ id. update_drop o id ((announced_at, null) ∷ []) >> pure tt)
  reopen-keeps e =
      Keeps-bind (required drop_id e) _ ((required-keeps o P stable) drop_id e)
        λ id. Keeps-bind _ _ ((Tick-keeps o P stable) id _ reopened) λ _. Keeps-pure tt

  pub reclaim-keeps : (now : ℕ) (e : Entry) → KeepsDir P (reclaim o now e)
  unfolding reclaim
  reclaim-keeps now e =
      search (keeps_rules, number-keeps, read-keeps, reopen-keeps, Keeps-note P) depth 12

  pub sweep-keeps : (e : Entry) → KeepsDir P (sweep o e)
  unfolding sweep
  sweep-keeps e = Keeps-bind _ _ (Keeps-gets (λ (w : World). w.summary)) λ s.
      Keeps-if (is_unhashable_id (get drop_id e)) _ _ (λ _. Keeps-raise)
        λ _.
          Keeps-if (contains s.announced (id_of e)) _ _ (λ _. Keeps-pure tt)
            λ _.
              Keeps-except _ _
                ((origin-keeps o P stable) e _ _
                  λ at. search (keeps_rules, (announce_pending-keeps o P stable), Keeps-note P))
                (Keeps-note P _)

  pub listed_or-keeps :
      (name : Text) (m : Action (List Entry)) → KeepsDir P m → KeepsDir P (listed_or o name m)
  unfolding listed_or
  listed_or-keeps name m k = search (keeps_rules, Keeps-note P)

  pub list_entries-keeps : KeepsDir P (list_entries o)
  unfolding list_entries
  list_entries-keeps = search (keeps_rules, Keeps-ask P)

  pub settle-keeps : KeepsDir P (settle o)
  unfolding settle
  settle-keeps =
      search
        (
          keeps_rules,
          listed_or-keeps,
          list_entries-keeps,
          (list_unannounced-keeps o P stable),
          (retry_failed_edits-keeps o P stable),
          reclaim-keeps,
          sweep-keeps,
          Keeps-ask P,
        )
        depth 14

  pub drive_all-keeps : (es : List Entry) → KeepsDir P (drive_all o es)
  unfolding drive_all
  drive_all-keeps es = search (keeps_rules, Keeps-ask P, drive-keeps)

  pub first_listing-keeps : KeepsDir P (first_listing o)
  unfolding first_listing
  first_listing-keeps = search (keeps_rules, Keeps-note P, list_entries-keeps)

  pub reconcile-keeps : KeepsDir P (reconcile o)
  unfolding reconcile
  reconcile-keeps = Keeps-bind _ _ (Keeps-note P (λ _. empty_summary)) λ _.
      Keeps-bind (first_listing o) _ first_listing-keeps λ listed.
        Keeps-bind _ _
          (Keeps-option listed (pure tt) (λ es. drive_all o es >> settle o) (λ _. Keeps-pure tt)
            (λ es _. Keeps-bind _ _ (drive_all-keeps es) λ _. settle-keeps))
          λ _. Keeps-gets (λ (w : World). w.summary)
