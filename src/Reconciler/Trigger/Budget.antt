-- ===== src/Reconciler/Trigger/Budget.antt =====
-- How many passes the retry budgets allow, and what a dispatch without a loop costs.
use hermes_drop.Base.{
  ℕ, ◌+◌, ◌-◌, ◌≤◌, ◌<◌, ◌≡◌, refl, Bool, true, false, not, ◌||◌, List, [], ◌∷◌, ◌++◌, arith,
  if◌then◌else◌, option_eq, string_eq, nat_eq, All,
}
use hermes_drop.Routing.{RoutingTuple}
use hermes_drop.Reconciler.Latch.{
  Latch, Resolution, Summary, PassResult, pass_raised, pass_returned, fresh_latch, run_pass,
  claim_trigger, note_failed_pass, note_deferred_pass, account_for_pass,
  deferred_pass_can_make_progress, undecided, made_progress, no_ids, is_empty,
}
use hermes_drop.Reconciler.Trigger.{
  LoopState, build_raised, no_future, on_loop, running, gateway_loop, no_loop, trigger_from_event,
  start_pass,
}

-- A pass that gets nothing done: it raised, or it reports a fault, or it deferred and drove no
-- entry.
pub data IsStuck : PassResult → Type 0 where
  by_raise : IsStuck pass_raised
  by_fault :
      (s : Summary)
      → (not (no_ids s.failed) || not (no_ids (undecided s))) ≡ true
      → IsStuck (pass_returned s)
  by_deferral :
      (s : Summary)
      → is_empty (s.unresolved_lanes ++ s.retry_lanes) ≡ false
      → made_progress s ≡ false
      → IsStuck (pass_returned s)

-- The retries that the two budgets still hold.
abbrev pub retries_left : Latch → ℕ
retries_left l = (4 - l.failed_passes) + (19 - l.deferred_passes)

failed-retries_left :
    (lanes : List RoutingTuple) (l : Latch)
    → l.started ≡ true
    → (note_failed_pass lanes l).started ≡ false
    → retries_left (note_failed_pass lanes l) < retries_left l
unfolding note_failed_pass
failed-retries_left lanes l claimed back = ground arith

deferred-retries_left :
    (lanes : List RoutingTuple) (l : Latch)
    → l.started ≡ true
    → (note_deferred_pass lanes false l).started ≡ false
    → retries_left (note_deferred_pass lanes false l) < retries_left l
unfolding note_deferred_pass
deferred-retries_left lanes l claimed back = ground arith

-- A stuck pass that puts the latch back has used up one retry.
pub stuck-retries_left :
    {r : PassResult} (l : Latch)
    → IsStuck r
    → l.started ≡ true
    → (run_pass r l).started ≡ false
    → retries_left (run_pass r l) < retries_left l
unfolding run_pass account_for_pass
stuck-retries_left l by_raise claimed back = failed-retries_left [] l claimed back
stuck-retries_left l (by_fault s fault) claimed back =
    rw (fault, account_for_pass)
      (failed-retries_left (s.unresolved_lanes ++ s.retry_lanes) l claimed (rw fault at back))
stuck-retries_left l (by_deferral s some_lanes stalled) claimed back = ground (
  arith,
  failed-retries_left (s.unresolved_lanes ++ s.retry_lanes) l,
  deferred-retries_left (s.unresolved_lanes ++ s.retry_lanes) l,
)

-- A dispatch, and how the pass ends if it starts one.
abbrev pub Turn : Type 0
Turn = (RoutingTuple → Resolution) × LoopState × PassResult

-- Whether the dispatch starts a pass, and the latch once that pass has ended.
turn : Turn → Latch → Bool × Latch
turn (resolve, loop, r) l =
    let t = trigger_from_event true resolve loop l in
    (t.pass_started, if t.pass_started then run_pass r t.latch else t.latch)

-- The passes that a row of dispatches starts, each ended before the next dispatch.
pub passes : List Turn → Latch → ℕ
passes [] l = 0
passes (x ∷ turns) l =
    let later = passes turns (turn x l).1 in if (turn x l).0 then later + 1 else later

-- The passes that can still be started if nothing gets done.
abbrev pub room : Latch → ℕ
room l = if l.started then 0 else retries_left l + 1

fail-room :
    (lanes : List RoutingTuple) (l : Latch)
    → l.started ≡ true
    → room (note_failed_pass lanes l) ≤ retries_left l
fail-room lanes l claimed = ground (arith, failed-retries_left lanes l)

stuck-room :
    {r : PassResult} (l : Latch)
    → IsStuck r
    → l.started ≡ true
    → room (run_pass r l) ≤ retries_left l
stuck-room l stuck claimed = ground (arith, stuck-retries_left l stuck claimed)

turn-room :
    (resolve : RoutingTuple → Resolution) (loop : LoopState) (r : PassResult) (l : Latch)
    → IsStuck r
    → room (turn (resolve, loop, r) l).1 + (if (turn (resolve, loop, r) l).0 then 1 else 0) ≤ room l
unfolding turn trigger_from_event claim_trigger
turn-room resolve (running true) r l stuck =
    ground (arith, stuck-room (record l { started = true }) stuck refl)
turn-room resolve (running false) r l stuck =
    ground (arith, fail-room [] (record l { started = true }) refl)
turn-room resolve (gateway_loop build_raised) r l stuck =
    ground (arith, fail-room [] (record l { started = true }) refl)
turn-room resolve (gateway_loop no_future) r l stuck =
    ground (arith, fail-room [] (record l { started = true }) refl)
turn-room resolve (gateway_loop on_loop) r l stuck =
    ground (arith, stuck-room (record l { started = true }) stuck refl)
turn-room resolve no_loop r l stuck = ground arith

abbrev AllStuck : List Turn → Type 0
AllStuck = All (λ x. IsStuck x.2)

passes-le-room : (turns : List Turn) (l : Latch) → AllStuck turns → passes turns l ≤ room l
unfolding passes
passes-le-room [] l stuck = omega arith
passes-le-room ((resolve, loop, r) ∷ turns) l (now, later) = ground (
  arith,
  turn-room resolve loop r l now,
  passes-le-room turns (turn (resolve, loop, r) l).1 later,
)

-- However many dispatches arrive, and whatever the gate and the loop do, passes that get nothing
-- done start at most 24 times in a process whose latch is fresh.
pub passes-le : (turns : List Turn) → AllStuck turns → passes turns fresh_latch ≤ 24
passes-le turns stuck = omega (arith, passes-le-room turns fresh_latch stuck)

taken_starts_nothing : (turns : List Turn) (l : Latch) → l.started ≡ true → passes turns l ≡ 0
unfolding passes turn trigger_from_event claim_trigger
taken_starts_nothing [] l taken = refl
taken_starts_nothing ((resolve, loop, r) ∷ turns) l taken =
    ground (arith, taken_starts_nothing turns l taken)

-- A dispatch off the loop, with no gateway loop at hand, takes an open latch that the gate lets
-- through, starts no pass, and leaves no dispatch after it able to start one.
pub no_loop_strands :
    (resolve : RoutingTuple → Resolution) (r : PassResult) (turns : List Turn) (l : Latch)
    → deferred_pass_can_make_progress resolve l ≡ true
    → passes ((resolve, no_loop, r) ∷ turns) l ≡ 0
unfolding passes turn trigger_from_event claim_trigger start_pass
no_loop_strands resolve r turns l through =
    ground (
      arith,
      taken_starts_nothing turns (record l { started = true }),
      taken_starts_nothing turns l,
    )
