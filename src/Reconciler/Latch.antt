-- ===== src/Reconciler/Latch.antt =====
-- The one-shot latch of drop/reconciler.py, its retry budgets, and the gate on deferred lanes.
-- A `frozenset` of lanes is a list in which no lane is added twice.
pub mod Gate
use hermes_drop.Base.{
  ℕ, ◌+◌, Text, Bool, true, false, not, ◌||◌, List, [], ◌∷◌, ◌++◌, leb, if◌then◌else◌, contains,
  text_eq, any, keep,
}
use hermes_drop.Base.Dict.{Dict}
use hermes_drop.Routing.{RoutingTuple, routing_eq}

abbrev pub max_failed_passes : ℕ
max_failed_passes = 5

abbrev pub max_deferred_passes : ℕ
max_deferred_passes = 20

-- The module's globals.
pub record Latch : Type 0 where
  pub started : Bool
  pub failed_passes : ℕ
  pub deferred_passes : ℕ
  pub deferred_lanes : List RoutingTuple
  pub deferred_gated : Bool
  pub deferred_spent : Bool
  pub edit_retries : Dict Text ℕ

abbrev pub fresh_latch : Latch
fresh_latch = record {
  started = false;
  failed_passes = 0;
  deferred_passes = 0;
  deferred_lanes = [];
  deferred_gated = false;
  deferred_spent = false;
  edit_retries = [];
}

-- `frozenset(lanes)`, and `carried | frozenset(lanes)`.
unfoldable pub union : List RoutingTuple → List RoutingTuple → List RoutingTuple
union seen [] = seen
union seen (lane ∷ lanes) = union (if contains seen lane then seen else seen ++ (lane ∷ [])) lanes

abbrev pub frozenset : List RoutingTuple → List RoutingTuple
frozenset lanes = union [] lanes

abbrev pub is_empty : List RoutingTuple → Bool
is_empty [] = true
is_empty (_ ∷ _) = false

unfoldable pub claim_trigger : Latch → Bool × Latch
claim_trigger l = if l.started then (false, l) else (true, record l { started = true })

unfoldable pub note_deferred_pass : List RoutingTuple → Bool → Latch → Latch
note_deferred_pass lanes made_progress l =
    let attempts = (if made_progress then 0 else l.deferred_passes) + 1 in
    if leb max_deferred_passes attempts
    then record l {
      deferred_passes = attempts;
      deferred_lanes = frozenset lanes;
      deferred_spent = true;
    }
    else record l {
      deferred_passes = attempts;
      deferred_lanes = frozenset lanes;
      deferred_gated = true;
      started = false;
    }

unfoldable pub note_failed_pass : List RoutingTuple → Latch → Latch
unfolding note_deferred_pass
note_failed_pass lanes l =
    let carried = union l.deferred_lanes (frozenset lanes) in
    let attempts = l.failed_passes + 1 in
    let l' : Latch = record l { deferred_lanes = carried; failed_passes = attempts } in
    if leb max_failed_passes attempts
    then (if is_empty carried then l' else note_deferred_pass carried false l')
    else record l' { deferred_gated = false; started = false }

unfoldable pub note_clean_pass : Latch → Latch
note_clean_pass l = record l {
  deferred_lanes = [];
  deferred_gated = false;
  deferred_spent = false;
  failed_passes = 0;
  deferred_passes = 0;
  edit_retries = [];
}

-- What `origin_for_entry` answers about a lane.
pub data Resolution : Type 0 where
  found absent raised : Resolution

abbrev worth_a_pass : Resolution → Bool
worth_a_pass absent = false
worth_a_pass _ = true

unfoldable pub deferred_pass_can_make_progress : (RoutingTuple → Resolution) → Latch → Bool
deferred_pass_can_make_progress resolve l =
    if l.deferred_spent
    then false
    else if not l.deferred_gated
    then true
    else if is_empty l.deferred_lanes
    then true
    else any (λ lane. worth_a_pass (resolve lane)) l.deferred_lanes

-- The summary that one pass returns.
pub record Summary : Type 0 where
  pub received : List Text
  pub expired : List Text
  pub transport_failed : List Text
  pub rearmed : List Text
  pub retained : List Text
  pub unresolved : List Text
  pub unresolved_lanes : List RoutingTuple
  pub retry_lanes : List RoutingTuple
  pub edit_retry_pending : List Text
  pub edit_repaired : List Text
  pub announced : List Text
  pub failed : List Text

abbrev pub no_ids : List Text → Bool
no_ids [] = true
no_ids (_ ∷ _) = false

unfoldable pub undecided : Summary → List Text
unfolding text_eq
undecided s = keep (λ id. not (contains s.unresolved id || contains s.failed id)) s.retained

unfoldable pub made_progress : Summary → Bool
made_progress s =
    not (no_ids s.received)
    || (not (no_ids s.expired) || (not (no_ids s.rearmed) || not (no_ids s.announced)))

unfoldable pub account_for_pass : Summary → Latch → Latch
account_for_pass s l =
    let lanes = s.unresolved_lanes ++ s.retry_lanes in
    if not (no_ids s.failed) || not (no_ids (undecided s))
    then note_failed_pass lanes l
    else if is_empty lanes
    then note_clean_pass l
    else note_deferred_pass lanes (made_progress s) l

-- How `_run_pass` ends: the pass raised, or it returned a summary.
pub data PassResult : Type 0 where
  pass_raised : PassResult
  pass_returned : Summary → PassResult

unfoldable pub run_pass : PassResult → Latch → Latch
run_pass pass_raised l = note_failed_pass [] l
run_pass (pass_returned s) l = account_for_pass s l
