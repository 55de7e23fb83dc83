-- ===== src/Waiter/Outcome.antt =====
-- What a wait of drop/waiter.py leaves in the journal, whatever happens while it is parked.
use hermes_drop.Base.{◌&&◌, if◌then◌else◌, ◌==◌, option_eq, string_eq, nat_eq}
use hermes_drop.Base.{Text, text_eq}
use hermes_drop.Base.Exec.{pure, raise, gets, modify, ◌>>=◌}
use hermes_drop.Routing.{routing_eq}
use hermes_drop.Journal.Entry.{
  key_eq, string, Entry, state, received, get, is_terminal, is_unhashable,
}
use hermes_drop.Journal.Store.{Directory, get_drop}
use hermes_drop.World.{Outside, World, ask}
use hermes_drop.Base.Exec.Keeps.{
  keeps_rules, Keeps-pure, Keeps-gets, Keeps-if, Keeps-bind, Keeps-option,
}
use hermes_drop.World.Updates.{KeepsDir}
use hermes_drop.Sources.{SessionEnv}
use hermes_drop.World.Changes.{kinded, IsStable, Keeps-ask}
use hermes_drop.Origin.{Origin}
use hermes_drop.Announce.Keeps.{Tick-keeps}
use hermes_drop.Reconciler.Finalize.{gone, duplicate}
use hermes_drop.Reconciler.Keeps.{finalize_terminal-keeps}
use hermes_drop.Reconciler.Keeps.Pass.{number-keeps}
use hermes_drop.Waiter.{
  waited, is_kind, republish, park, note_kind, outcome, resolve_wait, run_wait, run,
}

module _ (o : Outside) (env : SessionEnv) (meanwhile : World → World) (P : Directory → Type 0)
    (stable : IsStable P) (quiet : (w : World) → P w.directory → P (meanwhile w).directory) where
  pub republish-keeps : (origin : Origin) → KeepsDir P (republish o env meanwhile origin)
  unfolding republish ask gets ◌>>=◌
  republish-keeps origin = record { at = λ w h. h }

  park-keeps : KeepsDir P (park o env meanwhile)
  unfolding park ask modify ◌>>=◌ pure
  park-keeps = record { at = λ w h. quiet _ h }

  note_kind-keeps : (id t kind : Text) → KeepsDir P (note_kind o env meanwhile id t kind)
  unfolding note_kind
  note_kind-keeps id t kind =
      Keeps-if (t == received && is_kind kind) _ _
        (λ _. Keeps-bind _ _ (Tick-keeps o P stable (string id) _ (kinded kind)) λ _. Keeps-pure tt)
        (λ _. Keeps-pure tt)

  pub outcome-keeps : (id : Text) (e : Entry) → KeepsDir P (outcome o env meanwhile id e)
  unfolding outcome
  outcome-keeps id e =
      search (keeps_rules, Keeps-ask P, number-keeps o P stable, park-keeps, note_kind-keeps) depth
        10

  resolve_wait-keeps :
      (id : Text) (origin : Origin) (e : Entry)
      → KeepsDir P (resolve_wait o env meanwhile id origin e)
  unfolding resolve_wait
  resolve_wait-keeps id origin e =
      search (keeps_rules, republish-keeps, outcome-keeps, finalize_terminal-keeps o P stable) depth
        10

  run_wait-keeps : (id : Text) (origin : Origin) → KeepsDir P (run_wait o env meanwhile id origin)
  unfolding run_wait
  run_wait-keeps id origin =
      Keeps-bind _ _ (Keeps-gets (λ (w : World). get_drop (string id) w.directory)) λ found.
        Keeps-option found (pure (waited gone))
          (λ e.
            if is_unhashable (get state e)
            then raise
            else if is_terminal (get state e)
            then pure (waited duplicate)
            else resolve_wait o env meanwhile id origin e)
          (λ _. Keeps-pure (waited gone)) (λ e _. search (keeps_rules, resolve_wait-keeps))

  pub run-keeps : (id : Text) (origin : Origin) → KeepsDir P (run o env meanwhile id origin)
  unfolding run
  run-keeps id origin = search (keeps_rules, run_wait-keeps)
