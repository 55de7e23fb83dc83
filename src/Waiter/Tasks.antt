-- ===== src/Waiter/Tasks.antt =====
-- `WaiterRegistry` of drop/waiter.py: which task waits for which drop. A task that ends and the call of
-- its done callback, which the event loop makes later, are two steps.
use hermes_drop.Base.{
  ℕ, ◌+◌, Bool, true, false, not, none, some, List, [], ◌∷◌, ◌++◌, if◌then◌else◌, ◌==◌, option_eq,
  string_eq, nat_eq, keep, any,
}
use hermes_drop.Base.{Text, text_eq}
use hermes_drop.Base.Dict
use hermes_drop.Base.Dict.{Dict}

-- A task, by its number, and the drop that it waits for.
pub record Task : Type 0 where
  pub number : ℕ
  pub drop : Text

pub record Waiters : Type 0 where
  -- `_tasks`
  pub tasks : Dict Text ℕ
  -- the tasks that are not done
  pub live : List Task
  -- the tasks that are done, with the callback still to come
  pub ended : List Task
  pub created : ℕ

abbrev pub no_waiters : Waiters
no_waiters = record { tasks = []; live = []; ended = []; created = 0 }

-- `not task.done()`
abbrev pub is_live : ℕ → Waiters → Bool
is_live n s = any (λ (t : Task). t.number == n) s.live

unfoldable pub is_armed : Text → Waiters → Bool
is_armed id s = elim (Dict.lookup id s.tasks) [ none ↦ false | some n ↦ is_live n s ]

-- How `arm` comes by a task: there is no loop, the coroutine cannot be built, the loop refuses it, or
-- it is scheduled.
pub data Scheduling : Type 0 where
  no_loop build_raised refused_by_loop scheduled : Scheduling

abbrev pub with_task : Text → Waiters → Waiters
with_task id s = record {
  tasks = Dict.insert id s.created s.tasks;
  live = record { number = s.created; drop = id } ∷ s.live;
  ended = s.ended;
  created = s.created + 1;
}

unfoldable pub arm : Scheduling → Text → Waiters → Bool × Waiters
unfolding is_armed
arm scheduling id s = if is_armed id s then (false, s) else elim scheduling [
  | no_loop ↦ (false, s)
  | build_raised ↦ (false, s)
  | refused_by_loop ↦ (false, s)
  | scheduled ↦ (true, with_task id s)
]

-- `cancel`: the task is asked to end, and ends later.
unfoldable pub cancel : Text → Waiters → Waiters
cancel id s = record s { tasks = Dict.erase id s.tasks }

-- `shutdown`
unfoldable pub shutdown : Waiters → Waiters
unfolding cancel
shutdown s = cancel_all (Dict.keys s.tasks) s
  where
    cancel_all : List Text → Waiters → Waiters
    cancel_all [] s = s
    cancel_all (id ∷ ids) s = cancel_all ids (cancel id s)

-- A live task ends.
unfoldable pub finish : Task → Waiters → Waiters
finish t s = record s {
  live = keep (λ (u : Task). not (u.number == t.number)) s.live;
  ended = s.ended ++ (t ∷ []);
}

-- The done callback, which drops whatever stands under the key.
unfoldable pub call_back : Task → Waiters → Waiters
call_back t s = record s {
  tasks = Dict.erase t.drop s.tasks;
  ended = keep (λ (u : Task). not (u.number == t.number)) s.ended;
}
