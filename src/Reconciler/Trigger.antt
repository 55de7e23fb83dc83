-- ===== src/Reconciler/Trigger.antt =====
-- The two triggers of drop/reconciler.py: the startup poller and the dispatch hook, with the
-- scheduling of a pass. What the event loop does is an argument.
pub mod InFlight
pub mod Budget
use hermes_drop.Base.{ℕ, zero, suc, Bool, true, false, not, ◌&&◌, [], if◌then◌else◌}
use hermes_drop.Routing.{RoutingTuple}
use hermes_drop.Reconciler.Latch.{
  Latch, Resolution, claim_trigger, note_failed_pass, deferred_pass_can_make_progress,
}

-- Whether a pass began to run, what the trigger returned, and the latch.
pub record Triggered : Type 0 where
  pub answer : Bool
  pub pass_started : Bool
  pub latch : Latch

-- What `_schedule_reconcile` meets: the coroutine could not be built, the scheduler gave no
-- future, or the pass is on the loop.
pub data Scheduling : Type 0 where
  build_raised no_future on_loop : Scheduling

unfoldable pub schedule_reconcile : Scheduling → Latch → Bool × Latch
schedule_reconcile build_raised l = (false, note_failed_pass [] l)
schedule_reconcile no_future l = (false, note_failed_pass [] l)
schedule_reconcile on_loop l = (true, l)

-- Where the dispatch runs: on a running loop, whose `create_task` may raise; off it, with the
-- gateway's loop at hand; or with no loop at all.
pub data LoopState : Type 0 where
  running : Bool → LoopState
  gateway_loop : Scheduling → LoopState
  no_loop : LoopState

unfoldable pub start_pass : LoopState → Latch → Triggered
start_pass (running true) l = record { answer = true; pass_started = true; latch = l }
start_pass (running false) l = record {
  answer = false;
  pass_started = false;
  latch = note_failed_pass [] l;
}
start_pass (gateway_loop s) l =
    let (began, l') = schedule_reconcile s l in
    record { answer = true; pass_started = began; latch = l' }
start_pass no_loop l = record { answer = false; pass_started = false; latch = l }

abbrev pub refused : Latch → Triggered
refused l = record { answer = false; pass_started = false; latch = l }

unfoldable pub trigger_from_event :
    Bool → (RoutingTuple → Resolution) → LoopState → Latch → Triggered
unfolding start_pass schedule_reconcile
trigger_from_event false resolve loop l = refused l
trigger_from_event true resolve loop l =
    if not (deferred_pass_can_make_progress resolve l)
    then refused l
    else let (claimed, l') = claim_trigger l in if claimed then start_pass loop l' else refused l'

-- One round of the poller: a shutdown, no runner with a loop yet, or a runner with its loop.
pub data Poll : Type 0 where
  shut_down : Poll
  not_yet : Poll
  runner_found : (RoutingTuple → Resolution) → Scheduling → Poll

-- Each poll's observation, in turn; the first argument is the number of polls left.
unfoldable pub poll : ℕ → (ℕ → Poll) → Latch → Bool × Latch
poll zero seen l = (false, l)
poll (suc n) seen l = elim (seen n) [
  | shut_down ↦ (false, l)
  | not_yet ↦ poll n seen l
  | runner_found resolve s ↦
      if deferred_pass_can_make_progress resolve l && (claim_trigger l).0
      then schedule_reconcile s (claim_trigger l).1
      else (false, l)
]

abbrev pub max_polls : ℕ
max_polls = 60
