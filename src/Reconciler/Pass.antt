-- ===== src/Reconciler/Pass.antt =====
-- One pass of drop/reconciler.py over the journal, and what the latch makes of it.
use hermes_drop.Base.{
  ℕ, ◌-◌, ◌*◌, Bool, not, ◌&&◌, Option, none, some, List, [], ◌∷◌, ◌++◌, if◌then◌else◌, contains,
  option_eq, string_eq, nat_eq, ltb, leb,
}
use hermes_drop.Base.{Text, text_eq, codes}
use hermes_drop.Base.Exec.{raise, ok, raised, pure, gets, ◌>>=◌, ◌>>◌, except, for_each}
use hermes_drop.Routing.{routing_eq}
use hermes_drop.Journal.Entry.{
  key_eq, null, Entry, drop_id, state, expires_at_ms, announced_at, announce_attempts, claimed_at,
  waiting, received, expired, get, is_state, is_set,
}
use hermes_drop.Journal.Store.{max_announce_attempts, entries}
use hermes_drop.World.{
  read_or_raise, is_unhashable_id, armed, Outside, World, Action, ask, show, note, list_entries,
  update_drop, list_unannounced, required, number_or_raise,
}
use hermes_drop.Origin.{Origin}
use hermes_drop.Announce.{announce_pending}
use hermes_drop.Reconciler.Latch.{Summary, pass_raised, pass_returned, run_pass}
use hermes_drop.Reconciler.Finalize.{
  Verdict, verdict_submitted, verdict_live, verdict_gone, verdict_unknown, Finalized, done,
  probe_liveness, finalize_terminal, default_probe_ms,
}
use hermes_drop.Reconciler.Edits.{
  id_of, origin_for_entry, note_finalize_edit, note_unresolved, note_failed, retry_failed_edits,
}

abbrev pub reclaim_grace_seconds : ℕ
reclaim_grace_seconds = 900

abbrev pub empty_summary : Summary
empty_summary = record {
  received = [];
  expired = [];
  transport_failed = [];
  rearmed = [];
  retained = [];
  unresolved = [];
  unresolved_lanes = [];
  retry_lanes = [];
  edit_retry_pending = [];
  edit_repaired = [];
  announced = [];
  failed = [];
}

abbrev pub note_received : Text → Summary → Summary
note_received id s = record s { received = s.received ++ (id ∷ []) }

abbrev pub note_expired : Text → Summary → Summary
note_expired id s = record s { expired = s.expired ++ (id ∷ []) }

abbrev pub note_rearmed : Text → Summary → Summary
note_rearmed id s = record s { rearmed = s.rearmed ++ (id ∷ []) }

abbrev pub note_retained : Text → Summary → Summary
note_retained id s = record s { retained = s.retained ++ (id ∷ []) }

abbrev pub note_woken : List Text → Summary → Summary
note_woken ids s = record s { announced = s.announced ++ ids }

-- `result.get("announced", [])`
abbrev pub announced_by : Finalized → List Text
announced_by (done refused announced) = announced
announced_by _ = []

module _ (o : Outside) where
  -- A finished entry: finalize, then note it under its heading, with what was announced on the way.
  unfoldable pub finish : Origin → Entry → Text → (Text → Summary → Summary) → Action (Unit {0})
  unfolding ◌>>=◌ finalize_terminal note note_finalize_edit
  finish origin e new_state heading = do
    result ← finalize_terminal o origin e new_state
    note (heading (id_of e))
    note (note_woken (announced_by result))
    note_finalize_edit o result e

  -- A drop that is live: hand it to a waiter, if the pass has one to hand it to.
  unfoldable pub rearm : Entry → Action (Unit {0})
  unfolding ◌>>=◌ ask show note
  rearm e = elim o.arm [
    | none ↦ note (note_retained (id_of e))
    | some works ↦ do
      armed_it ← ask works
      if armed_it
          then (show (armed (id_of e)) >> note (note_rearmed (id_of e)))
          else note (note_retained (id_of e))
  ]

  unfoldable pub follow : Origin → Entry → Verdict → Action (Unit {0})
  unfolding finish rearm note
  follow origin e verdict_submitted = finish origin e received note_received
  follow origin e verdict_gone = finish origin e expired note_expired
  follow origin e verdict_live = rearm e
  follow origin e verdict_unknown = note (note_retained (id_of e))

  -- A waiting entry whose conversation is there: past its deadline it has expired, else it is probed.
  unfoldable pub resolve_entry : (now_ms : ℕ) → Entry → Origin → Action (Unit {0})
  unfolding ◌>>=◌ number_or_raise finish probe_liveness follow
  resolve_entry now_ms e origin = do
    deadline ← number_or_raise o.float_of (get expires_at_ms e)
    if leb deadline now_ms
        then finish origin e expired note_expired
        else (do verdict ← probe_liveness o default_probe_ms; follow origin e verdict)

  unfoldable pub drive_waiting : (now_ms : ℕ) → Entry → Action (Unit {0})
  unfolding ◌>>=◌ except origin_for_entry note resolve_entry
  drive_waiting now_ms e =
      except
        (do
          origin ← origin_for_entry o e
          elim origin [
            | none ↦ note (λ s. note_unresolved e (note_retained (id_of e) s))
            | some at ↦ resolve_entry now_ms e at
          ])
        (note (λ s. note_retained (id_of e) (note_failed (id_of e) s)))

  -- The body of the first loop.
  unfoldable pub drive : (now_ms : ℕ) → Entry → Action (Unit {0})
  unfolding drive_waiting
  drive now_ms e = if is_state waiting (get state e) then drive_waiting now_ms e else pure tt

  abbrev pub is_unclaimed : Entry → Bool
  is_unclaimed e =
      is_state received (get state e)
      && (not (is_set (get claimed_at e)) && is_set (get announced_at e))

  -- Announced and still not claimed past the grace: open for another wake. The reading of the two
  -- numbers is outside the `try`.
  unfoldable pub reclaim : (now : ℕ) → Entry → Action (Unit {0})
  unfolding ◌>>=◌ except number_or_raise read_or_raise required update_drop note
  reclaim now e =
      if is_unclaimed e
      then (do
        n ← number_or_raise o.int_of (get announce_attempts e)
        if leb max_announce_attempts n then pure tt else (do
          at ← read_or_raise o.float_of (get announced_at e)
          if ltb reclaim_grace_seconds (now - at)
              then except
                  (do
                    id ← required drop_id e
                    update_drop o id ((announced_at, null) ∷ [])
                    pure tt)
                  (note (note_failed (id_of e)))
              else pure tt))
      else pure tt

  -- The body of the last loop.
  unfoldable pub sweep : Entry → Action (Unit {0})
  unfolding ◌>>=◌ except origin_for_entry announce_pending note text_eq
  sweep e = do
    s ← gets (λ (w : World). w.summary)
    if is_unhashable_id (get drop_id e)
        then raise
        else if contains s.announced (id_of e)
        then pure tt
        else except
            (do
              origin ← origin_for_entry o e
              elim origin [
                | none ↦ note (note_unresolved e)
                | some at ↦ do ids ← announce_pending o at.lane; note (note_woken ids)
              ])
            (note (note_failed (id_of e)))

  -- A listing that the pass survives.
  unfoldable pub listed_or : Text → Action (List Entry) → Action (List Entry)
  unfolding except ◌>>=◌ note
  listed_or name listing = except listing (note (note_failed name) >> pure [])

  unfoldable pub settle : Action (Unit {0})
  unfolding ◌>>=◌ listed_or retry_failed_edits reclaim sweep for_each ask list_entries
      list_unannounced
  settle = do
    candidates ← listed_or (codes "journal:entries") (list_entries o)
    s ← gets (λ (w : World). w.summary)
    retry_failed_edits o (s.expired ++ s.received) candidates
    now ← ask o.clock
    for_each (reclaim now) candidates
    pending ← listed_or (codes "journal:terminal_unannounced") (list_unannounced o none)
    for_each sweep pending

  unfoldable pub drive_all : List Entry → Action (Unit {0})
  unfolding ◌>>=◌ ask drive for_each
  drive_all entries = do now ← ask o.clock; for_each (drive (now * 1000)) entries

  -- The first listing; without it there is no pass.
  unfoldable pub first_listing : Action (Option (List Entry))
  unfolding except ◌>>=◌ list_entries note
  first_listing =
      except (do entries ← list_entries o; pure (some entries))
        (note (note_failed (codes "journal:entries")) >> pure none)

  -- `reconcile`
  unfoldable pub reconcile : Action Summary
  unfolding ◌>>=◌ note first_listing drive_all settle
  reconcile = do
    note (λ _. empty_summary)
    found ← first_listing
    elim found [ none ↦ pure tt | some entries ↦ drive_all entries >> settle ]
    gets (λ (w : World). w.summary)

  -- `_run_pass`
  unfoldable pub run_reconcile : World → World
  unfolding reconcile
  run_reconcile w =
      let (result, w') = reconcile w in
      elim result [
        | ok summary ↦ record w' { latch = run_pass (pass_returned summary) w'.latch }
        | raised ↦ record w' { latch = run_pass pass_raised w'.latch }
      ]
