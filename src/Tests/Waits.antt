-- ===== src/Tests/Waits.antt =====
-- The registry of waiting tasks at concrete data.
use hermes_drop.Base.{
  false, any, ◌==◌, ◌≡◌, refl, inl, true, [], ◌∷◌, option_eq, string_eq, nat_eq, keep, any,
}
use hermes_drop.Base.{Text, text_eq, codes}
use hermes_drop.Base.Dict
use hermes_drop.Waiter.Tasks.{
  Task, Waiters, no_waiters, is_armed, scheduled, arm, finish, call_back,
}
use hermes_drop.Waiter.Members.{IsIn}
use hermes_drop.Waiter.Exclusive.{start, arms, arm-IsExclusive}

abbrev drop : Text
drop = codes "abcdefgh"

abbrev first : Task
first = record { number = 0; drop = drop }

abbrev armed_once : Waiters
armed_once = (arm scheduled drop no_waiters).1

lives : IsIn first armed_once.live
unfolding arm Dict.lookup
lives = inl refl

none_ended : any (λ (t : Task). t.drop == drop) no_waiters.ended ≡ false
unfolding any
none_ended = refl

arm-IsExclusive_example : (first.number ≡ first.number) × (is_armed drop armed_once ≡ true)
arm-IsExclusive_example =
    arm-IsExclusive armed_once (arms start scheduled drop none_ended) first first lives lives refl

-- A drop that is armed again between the end of its task and the callback loses its new task to the
-- callback, and a third task comes to live beside the second.
abbrev gap : Waiters
gap = (arm scheduled drop (call_back first (arm scheduled drop (finish first armed_once)).1)).1

two_live : gap.live ≡ (record { number = 2; drop = drop } ∷ record { number = 1; drop = drop } ∷ [])
unfolding arm finish call_back Dict.lookup Dict.erase Dict.insert text_eq any keep nat_eq
two_live = refl
