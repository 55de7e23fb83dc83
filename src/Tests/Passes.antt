-- ===== src/Tests/Passes.antt =====
-- The reconciler's trigger at concrete data.
use hermes_drop.Base.{
  ◌≤◌, ◌<◌, ◌≡◌, refl, ◌↔◌, inr, true, false, [], ◌∷◌, arith, option_eq, string_eq, nat_eq,
}
use hermes_drop.Routing.{RoutingTuple, routing_eq}
use hermes_drop.Base.{codes, text_eq}
use hermes_drop.Reconciler.Latch.{
  Latch, Resolution, found, fresh_latch, note_deferred_pass, deferred_pass_can_make_progress,
  pass_raised, run_pass, note_failed_pass,
}
use hermes_drop.Reconciler.Latch.Gate.{Reachable, gate-note_deferred_pass}
use hermes_drop.Reconciler.Trigger.{running, no_loop, gateway_loop, on_loop}
use hermes_drop.Reconciler.Trigger.InFlight.{
  Process, dispatch, here, next, IsExclusive, dispatched, Reach-IsExclusive,
}
use hermes_drop.Reconciler.Trigger.Budget.{
  by_raise, retries_left, stuck-retries_left, passes, passes-le, no_loop_strands,
}

abbrev lane : RoutingTuple
lane = record { platform = codes "telegram"; profile = []; chat_id = codes "7"; thread_id = [] }

abbrev answers : RoutingTuple → Resolution
answers _ = found

abbrev idle : Process
idle = record { latch = fresh_latch; in_flight = 0 }

Reach-IsExclusive_example : IsExclusive (dispatched idle true answers (running true))
Reach-IsExclusive_example =
    Reach-IsExclusive (next (here idle) (dispatch idle true answers (running true)))
      (record { at_most_one = omega arith; taken_or_idle = inr refl })

abbrev taken : Latch
taken = record fresh_latch { started = true }

gate-note_deferred_pass_example :
    (deferred_pass_can_make_progress answers (note_deferred_pass (lane ∷ []) false taken) ≡ true)
    ↔ Reachable answers (lane ∷ [])
unfolding note_deferred_pass
gate-note_deferred_pass_example = gate-note_deferred_pass answers lane [] false taken refl refl refl

stuck-retries_left_example : retries_left (run_pass pass_raised taken) < retries_left taken
unfolding run_pass note_failed_pass
stuck-retries_left_example = stuck-retries_left taken by_raise refl refl

passes-le_example :
    passes
      ((answers, running true, pass_raised) ∷ (answers, gateway_loop on_loop, pass_raised) ∷ [])
      fresh_latch
    ≤ 24
passes-le_example =
    passes-le
      ((answers, running true, pass_raised) ∷ (answers, gateway_loop on_loop, pass_raised) ∷ [])
      (by_raise, (by_raise, tt))

no_loop_strands_example :
    passes ((answers, no_loop, pass_raised) ∷ (answers, running true, pass_raised) ∷ []) fresh_latch
    ≡ 0
unfolding deferred_pass_can_make_progress
no_loop_strands_example =
    no_loop_strands answers pass_raised ((answers, running true, pass_raised) ∷ []) fresh_latch refl
