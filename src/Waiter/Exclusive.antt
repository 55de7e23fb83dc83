-- ===== src/Waiter/Exclusive.antt =====
-- `WaiterRegistry` of drop/waiter.py: the tasks that live and the drops that are armed, in runs without
-- `cancel` where no drop is armed between the end of its task and the task's done callback.
use hermes_drop.Base.{
  ◌<◌, ◌≡◌, ap, ◌≢◌, inl, inr, Bool, true, false, not, some, arith, ◌==◌, option_eq, string_eq,
  nat_eq, Bool-cases, keep, any,
}
use hermes_drop.Base.{Text, text_eq}
use hermes_drop.Base.Dict
use hermes_drop.Base.Dict.{Dict}
use hermes_drop.Waiter.Tasks.{
  Task, Waiters, no_waiters, is_armed, Scheduling, no_loop, build_raised, refused_by_loop,
  scheduled, with_task, arm, finish, call_back,
}
use hermes_drop.Waiter.Members.{IsIn, IsIn-keep, IsIn-append, IsIn-any}

pub data Orderly : Waiters → Type 0 where
  start : Orderly no_waiters
  arms :
      {s : Waiters}
      → Orderly s
      → (scheduling : Scheduling) (id : Text) → any (λ (t : Task). t.drop == id) s.ended ≡ false
      → Orderly (arm scheduling id s).1
  finishes : {s : Waiters} → Orderly s → (t : Task) → IsIn t s.live → Orderly (finish t s)
  calls_back : {s : Waiters} → Orderly s → (t : Task) → IsIn t s.ended → Orderly (call_back t s)

-- Every task that lives or waits for its callback is the one under its drop; the two kinds are apart.
record IsTracked (s : Waiters) : Type 0 where
  live : (t : Task) → IsIn t s.live → Dict.lookup t.drop s.tasks ≡ some t.number
  ended : (t : Task) → IsIn t s.ended → Dict.lookup t.drop s.tasks ≡ some t.number
  apart : (t u : Task) → IsIn t s.live → IsIn u s.ended → t.number ≢ u.number
  fresh_live : (t : Task) → IsIn t s.live → t.number < s.created
  fresh_ended : (t : Task) → IsIn t s.ended → t.number < s.created

not_ended :
    (s : Waiters) (id : Text) (t : Task)
    → any (λ (t : Task). t.drop == id) s.ended ≡ false
    → IsIn t s.ended
    → t.drop == id ≡ false
not_ended s id t none_of h = elim (Bool-cases (t.drop == id)) [
  | inl same ↦ absurd (ground (arith, IsIn-any (λ (t : Task). t.drop == id) t s.ended h same))
  | inr other ↦ other
]

not_live :
    (s : Waiters) (id : Text) (t : Task)
    → IsTracked s
    → is_armed id s ≡ false
    → IsIn t s.live
    → t.drop == id ≡ false
unfolding is_armed text_eq
not_live s id t k unarmed h = elim (Bool-cases (t.drop == id)) [
  | inl same ↦ absurd (
      ground (
        arith,
        k.live t h,
        IsIn-any (λ (u : Task). u.number == t.number) t s.live h (ground arith),
      ))
  | inr other ↦ other
]

with_task-IsTracked :
    (s : Waiters) (id : Text)
    → IsTracked s
    → is_armed id s ≡ false
    → any (λ (t : Task). t.drop == id) s.ended ≡ false
    → IsTracked (with_task id s)
with_task-IsTracked s id k unarmed none_of = record {
  live = λ t h. elim h [
    | inl same ↦ ground (arith, same, Dict.lookup-insert t.drop id s.created s.tasks)
    | inr old ↦ ground (
      arith,
      not_live s id t k unarmed old,
      k.live t old,
      Dict.lookup-insert t.drop id s.created s.tasks,
    )
  ];
  ended = λ t h. ground (
    arith,
    not_ended s id t none_of h,
    k.ended t h,
    Dict.lookup-insert t.drop id s.created s.tasks,
  );
  apart = λ t u h g p. elim h [
    | inl same ↦ ground (arith, same, k.fresh_ended u g)
    | inr old ↦ k.apart t u old g p
  ];
  fresh_live = λ t h. elim h [
    | inl same ↦ ground (arith, same)
    | inr old ↦ ground (arith, k.fresh_live t old)
  ];
  fresh_ended = λ t h. ground (arith, k.fresh_ended t h);
}

arm-IsTracked :
    (s : Waiters) (scheduling : Scheduling) (id : Text)
    → IsTracked s
    → any (λ (t : Task). t.drop == id) s.ended ≡ false
    → IsTracked (arm scheduling id s).1
unfolding arm
arm-IsTracked s scheduling id k none_of = elim (Bool-cases (is_armed id s)) [
  | inl armed_already ↦ rw (armed_already, arm) k
  | inr unarmed ↦ rw (unarmed, arm) (by_scheduling scheduling unarmed)
]
  where
    by_scheduling :
        (scheduling : Scheduling)
        → is_armed id s ≡ false
        → IsTracked
            (elim scheduling as (λ _. Bool × Waiters) [
              | no_loop ↦ (false, s)
              | build_raised ↦ (false, s)
              | refused_by_loop ↦ (false, s)
              | scheduled ↦ (true, with_task id s)
            ]).1
    by_scheduling no_loop unarmed = k
    by_scheduling build_raised unarmed = k
    by_scheduling refused_by_loop unarmed = k
    by_scheduling scheduled unarmed = with_task-IsTracked s id k unarmed none_of

finish-IsTracked : (s : Waiters) (t : Task) → IsTracked s → IsIn t s.live → IsTracked (finish t s)
unfolding finish
finish-IsTracked s t k h = record {
  live = λ u g. k.live u (was u g).0;
  ended = λ u g. elim (IsIn-append u t s.ended g) [
    | inl old ↦ k.ended u old
    | inr same ↦
        ground (arith, ap (λ (v : Task). v.drop) same, ap (λ (v : Task). v.number) same, k.live t h)
  ];
  apart = λ u v g f p. elim (IsIn-append v t s.ended f) [
    | inl old ↦ k.apart u v (was u g).0 old p
    | inr same ↦ ground (arith, same, (was u g).1)
  ];
  fresh_live = λ u g. k.fresh_live u (was u g).0;
  fresh_ended = λ u g. elim (IsIn-append u t s.ended g) [
    | inl old ↦ k.fresh_ended u old
    | inr same ↦ ground (arith, ap (λ (v : Task). v.number) same, k.fresh_live t h)
  ];
}
  where
    was :
        (u : Task)
        → IsIn u (keep (λ (u : Task). not (u.number == t.number)) s.live)
        → IsIn u s.live × (not (u.number == t.number) ≡ true)
    was u g = IsIn-keep (λ (u : Task). not (u.number == t.number)) u s.live g

call_back-IsTracked :
    (s : Waiters) (t : Task) → IsTracked s → IsIn t s.ended → IsTracked (call_back t s)
unfolding call_back
call_back-IsTracked s t k h = record {
  live = λ u g.
      ground
        (arith, Dict.lookup-erase u.drop t.drop s.tasks, k.live u g, k.ended t h, k.apart u t g h);
  ended = λ u g. ground (
    arith,
    Dict.lookup-erase u.drop t.drop s.tasks,
    k.ended u (was u g).0,
    k.ended t h,
    (was u g).1,
  );
  apart = λ u v g f. k.apart u v g (was v f).0;
  fresh_live = λ u g. k.fresh_live u g;
  fresh_ended = λ u g. k.fresh_ended u (was u g).0;
}
  where
    was :
        (u : Task)
        → IsIn u (keep (λ (u : Task). not (u.number == t.number)) s.ended)
        → IsIn u s.ended × (not (u.number == t.number) ≡ true)
    was u g = IsIn-keep (λ (u : Task). not (u.number == t.number)) u s.ended g

Orderly-IsTracked : (s : Waiters) → Orderly s → IsTracked s
Orderly-IsTracked _ start = record {
  live = λ t h. absurd h;
  ended = λ t h. absurd h;
  apart = λ t u h. absurd h;
  fresh_live = λ t h. absurd h;
  fresh_ended = λ t h. absurd h;
}
Orderly-IsTracked _ (arms {s} o scheduling id none_of) =
    arm-IsTracked s scheduling id (Orderly-IsTracked s o) none_of
Orderly-IsTracked _ (finishes {s} o t h) = finish-IsTracked s t (Orderly-IsTracked s o) h
Orderly-IsTracked _ (calls_back {s} o t h) = call_back-IsTracked s t (Orderly-IsTracked s o) h

-- However drops are armed, tasks end and callbacks are made, where no drop is armed between the end of
-- its task and the callback and none is cancelled: two live tasks of one drop are the same task, and
-- the drop is armed.
pub arm-IsExclusive :
    (s : Waiters)
    → Orderly s
    → (t u : Task) → IsIn t s.live
    → IsIn u s.live
    → t.drop ≡ u.drop
    → (t.number ≡ u.number) × (is_armed t.drop s ≡ true)
unfolding is_armed
arm-IsExclusive s o t u h g same =
    let k = Orderly-IsTracked s o in
    (
      ground (arith, k.live t h, k.live u g),
      ground (
        arith,
        k.live t h,
        IsIn-any (λ (v : Task). v.number == t.number) t s.live h (ground arith),
      ),
    )
