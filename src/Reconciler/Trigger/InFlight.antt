-- ===== src/Reconciler/Trigger/InFlight.antt =====
-- The process as a step relation: dispatches and polls that may start a pass, and passes that end.
use hermes_drop.Base.{
  ◌⊎◌, inr, ℕ, suc, zero, ◌+◌, ◌≤◌, ◌≡◌, refl, Bool, true, false, ◌&&◌, arith, if◌then◌else◌,
  option_eq, string_eq, nat_eq,
}
use hermes_drop.Routing.{RoutingTuple}
use hermes_drop.Reconciler.Latch.{
  Latch, Resolution, PassResult, run_pass, claim_trigger, note_failed_pass,
  deferred_pass_can_make_progress,
}
use hermes_drop.Reconciler.Trigger.{
  LoopState, Scheduling, build_raised, no_future, on_loop, Poll, shut_down, not_yet, runner_found,
  running, gateway_loop, no_loop, trigger_from_event, poll, schedule_reconcile,
}

pub record Process : Type 0 where
  pub latch : Latch
  pub in_flight : ℕ

abbrev pub count_started : Bool → ℕ → ℕ
count_started began n = if began then n + 1 else n

unfoldable pub dispatched : Process → Bool → (RoutingTuple → Resolution) → LoopState → Process
dispatched p gateway resolve loop =
    let t = trigger_from_event gateway resolve loop p.latch in
    record { latch = t.latch; in_flight = count_started t.pass_started p.in_flight }

unfoldable pub polled : Process → ℕ → (ℕ → Poll) → Process
polled p polls seen =
    let (began, latch) = poll polls seen p.latch in
    record { latch = latch; in_flight = count_started began p.in_flight }

pub data Step : Process → Process → Type 0 where
  dispatch :
      (p : Process) (gateway : Bool) (resolve : RoutingTuple → Resolution) (loop : LoopState)
      → Step p (dispatched p gateway resolve loop)
  startup : (p : Process) (polls : ℕ) (seen : ℕ → Poll) → Step p (polled p polls seen)
  finish :
      (p : Process) (n : ℕ) (r : PassResult)
      → p.in_flight ≡ suc n
      → Step p (record { latch = run_pass r p.latch; in_flight = n })

pub data Reach : Process → Process → Type 0 where
  here : (p : Process) → Reach p p
  next : {p q r : Process} → Reach p q → Step q r → Reach p r

-- One pass at most, and none while the latch is open.
pub record IsExclusive (p : Process) : Type 0 where
  pub at_most_one : p.in_flight ≤ 1
  pub taken_or_idle : (p.latch.started ≡ true) ⊎ (p.in_flight ≡ 0)

dispatched-IsExclusive :
    (p : Process) (gateway : Bool) (resolve : RoutingTuple → Resolution) (loop : LoopState)
    → IsExclusive p
    → IsExclusive (dispatched p gateway resolve loop)
unfolding dispatched trigger_from_event claim_trigger note_failed_pass
dispatched-IsExclusive p false resolve loop v = ground (arith, v.taken_or_idle)
dispatched-IsExclusive p true resolve (running true) v = ground (arith, v.taken_or_idle)
dispatched-IsExclusive p true resolve (running false) v = ground (arith, v.taken_or_idle)
dispatched-IsExclusive p true resolve (gateway_loop build_raised) v =
    ground (arith, v.taken_or_idle)
dispatched-IsExclusive p true resolve (gateway_loop no_future) v = ground (arith, v.taken_or_idle)
dispatched-IsExclusive p true resolve (gateway_loop on_loop) v = ground (arith, v.taken_or_idle)
dispatched-IsExclusive p true resolve no_loop v = ground (arith, v.taken_or_idle)

scheduled-IsExclusive :
    (p : Process) (resolve : RoutingTuple → Resolution) (s : Scheduling)
    → IsExclusive p
    → let (began, latch) =
        if deferred_pass_can_make_progress resolve p.latch && (claim_trigger p.latch).0
        then schedule_reconcile s (claim_trigger p.latch).1
        else (false, p.latch) in
      IsExclusive (record { latch = latch; in_flight = count_started began p.in_flight })
unfolding schedule_reconcile claim_trigger note_failed_pass
scheduled-IsExclusive p resolve build_raised v = ground (arith, v.taken_or_idle)
scheduled-IsExclusive p resolve no_future v = ground (arith, v.taken_or_idle)
scheduled-IsExclusive p resolve on_loop v = ground (arith, v.taken_or_idle)

polled-IsExclusive :
    (p : Process) (polls : ℕ) (seen : ℕ → Poll) → IsExclusive p → IsExclusive (polled p polls seen)
unfolding polled poll
polled-IsExclusive p zero seen v = ground (arith, v.taken_or_idle)
polled-IsExclusive p (suc n) seen v = by_poll (seen n) refl (polled-IsExclusive p n seen v)
  where
    by_poll :
        (o : Poll)
        → seen n ≡ o
        → IsExclusive (polled p n seen)
        → IsExclusive (polled p (suc n) seen)
    by_poll shut_down e later = rw (e, poll) v
    by_poll not_yet e later = rw (e, poll) later
    by_poll (runner_found resolve s) e later = rw (e, poll) (scheduled-IsExclusive p resolve s v)

Step-IsExclusive : {p q : Process} → Step p q → IsExclusive p → IsExclusive q
Step-IsExclusive (dispatch p gateway resolve loop) v =
    dispatched-IsExclusive p gateway resolve loop v
Step-IsExclusive (startup p polls seen) v = polled-IsExclusive p polls seen v
Step-IsExclusive (finish p n r busy) v = record {
  at_most_one = omega (arith, v.at_most_one);
  taken_or_idle = inr (omega (arith, v.at_most_one));
}

-- In every state that a process reaches by dispatches, polls and passes that end, from one in
-- which at most one pass is in flight and none while the latch is open, that holds again.
pub Reach-IsExclusive : {p q : Process} → Reach p q → IsExclusive p → IsExclusive q
Reach-IsExclusive (here p) v = v
Reach-IsExclusive (next r s) v = Step-IsExclusive s (Reach-IsExclusive r v)
