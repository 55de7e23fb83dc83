-- ===== src/World.antt =====
-- What a reconcile pass and a waiter work on: the journal's directory, the source registry, the
-- latch's globals, the pass's summary, and the effects seen from outside, the latest first. What the
-- outside answers is a function of a count of the questions put to it.
pub mod Updates
pub mod Changes
pub mod Refines
use hermes_drop.Base.{
  ℕ, suc, zero, ◌+◌, ◌-◌, ◌*◌, ◌/◌, ◌%◌, ◌≤◌, ◌<◌, max, min, String, ◌<>◌, ◌≡◌, refl, sym, ap, ◌∙◌,
  ◌≢◌, ◌↔◌, ◌⊎◌, inl, inr, Bool, true, false, not, ◌&&◌, ◌||◌, Option, none, some, List, [], ◌∷◌,
  ◌++◌, map, arith, if◌then◌else◌, Eq, ◌==◌, contains, option_eq, string_eq, nat_eq, Bool-cases,
  Option-cases, ltb, leb, ltb→lt, leb→le, length, keep, any, All, length-append, length-keep-le,
  keep-All,
}
use hermes_drop.Base.{Text, text_eq, codes}
use hermes_drop.Base.Dict
use hermes_drop.Base.Dict.{Dict}
use hermes_drop.Base.Exec.{
  Exec, Result, ok, raised, pure, raise, gets, modify, ◌>>=◌, ◌>>◌, except, for_each,
}
use hermes_drop.Routing.{RoutingTuple, routing_eq}
use hermes_drop.Sources.{Source, Registry, routing_tuple_for_source, by_routing_tuple}
use hermes_drop.Origin.{
  AdapterAnswer, adapter_raised, adapter_none, adapter_found, Origin, routing_tuple,
}
use hermes_drop.Journal.Entry.{key_eq}
use hermes_drop.Journal.Entry.{
  Key, Value, null, flag, number, string, composite, Entry, get, is_unhashable, state, drop_id,
  text_of, routing_tuple_of,
}
use hermes_drop.Journal.Store.{Directory, entries, terminal_unannounced}
use hermes_drop.Journal.Write.{
  Moment, Interruption, raised as write_raised, interrupted, Written, rejected, absent, written,
  update,
}
use hermes_drop.Reconciler.Latch.{Latch, Summary}

pub data Effect : Type 0 where
  edited : (lane : RoutingTuple) (message content : Text) → Effect
  journalled : Entry → Effect
  woken : (lane : RoutingTuple) (drops : List Entry) → Effect
  armed : Text → Effect

-- How an adapter's call ends.
pub data Call : Type 0 where
  call_raised call_failed call_done : Call

-- What `await_submission` brings: an exception, a submission and its kind, the broker's `unavailable`
-- with the milliseconds it took, or anything else.
pub data Await : Type 0 where
  await_raised : Await
  submitted : Option Text → Await
  await_unavailable : (elapsed : ℕ) → Await
  await_other : Await

pub record Outside : Type 0 where
  pub runner : Option ℕ
  pub adapter_for : Source → AdapterAnswer
  -- Python's `int` and `float` of a text, where they do not raise
  pub int_of : Text → Option ℕ
  pub float_of : Text → Option ℕ
  -- seconds of the wall clock and of the monotonic clock
  pub clock : ℕ → ℕ
  pub monotonic : ℕ → ℕ
  -- the moment at which a journal write raises, if it does, and the name of its temporary file
  pub write_raises : ℕ → Option Moment
  pub temp : ℕ → ℕ
  pub listing_works : ℕ → Bool
  pub edit : ℕ → Call
  pub wake_works : ℕ → Bool
  pub await_answer : ℕ → Await
  -- the pass's `arm`, if it has one: whether the call returns
  pub arm : Option (ℕ → Bool)

pub record World : Type 0 where
  pub directory : Directory
  pub registry : Registry
  pub latch : Latch
  pub summary : Summary
  pub effects : List Effect
  pub questions : ℕ

abbrev pub Action : Type 0 → Type 0
Action A = Exec World A

unfoldable pub ask : {A : Type 0} → (ℕ → A) → Action A
ask answer w = (ok (answer w.questions), record w { questions = w.questions + 1 })

unfoldable pub show : Effect → Action (Unit {0})
show e w = (ok tt, record w { effects = e ∷ w.effects })

unfoldable pub note : (Summary → Summary) → Action (Unit {0})
note f w = (ok tt, record w { summary = f w.summary })

unfoldable pub set_directory : Directory → Action (Unit {0})
set_directory d w = (ok tt, record w { directory = d })

-- `bool(entry.get(key))`; an empty list and an empty object are false too.
unfoldable pub is_truthy : Value → Bool
unfolding text_eq
is_truthy null = false
is_truthy (flag b) = b
is_truthy (number n) = ltb 0 n
is_truthy (string []) = false
is_truthy (string (c ∷ cs)) = true
is_truthy (composite s) = not (s == codes "[]" || s == codes "{}")

-- A `drop_id or ""` that `in` a set raises for.
abbrev pub is_unhashable_id : Value → Bool
is_unhashable_id v = is_truthy v && is_unhashable v

module _ (o : Outside) where
  -- `journal.entries()`, which raises where the directory cannot be read.
  unfoldable pub list_entries : Action (List Entry)
  unfolding ask ◌>>=◌
  list_entries = do
    works ← ask o.listing_works
    if works then gets (λ (w : World). entries w.directory) else raise

  -- What follows the pure part of `journal.update`: the write, which may raise on its way.
  unfoldable pub commit : (temp now : ℕ) → Written × Directory → Action (Option Entry)
  unfolding ask show set_directory ◌>>=◌
  commit temp now (rejected r, d) = raise
  commit temp now (absent, d) = pure none
  commit temp now (written e, d) = do
    fault ← ask o.write_raises
    elim fault [
      | none ↦ do set_directory d; show (journalled e); pure (some e)
      | some m ↦ do
        before ← gets (λ (w : World). w.directory)
        set_directory (interrupted (write_raised m) (text_of (get drop_id e)) e temp now before)
        raise
    ]

  -- `journal.update`
  unfoldable pub update_drop : Value → Dict Key Value → Action (Option Entry)
  unfolding commit
  update_drop id changes = do
    temp ← ask o.temp
    now ← ask o.clock
    before ← gets (λ (w : World). w.directory)
    commit temp now (update id changes temp now before)

  -- `OriginMessenger.update_status`: whether the edit was made.
  unfoldable pub update_status : Origin → Value → Value → Action Bool
  unfolding ask show ◌>>=◌
  update_status origin message content = do
    answer ← ask o.edit
    elim answer [
      | call_raised ↦ pure false
      | call_failed ↦ pure false
      | call_done ↦ do show (edited origin.lane (text_of message) (text_of content)); pure true
    ]

  -- `journal.terminal_unannounced`, which raises where the directory cannot be read or a state is
  -- unhashable.
  unfoldable pub list_unannounced : Option RoutingTuple → Action (List Entry)
  unfolding ask ◌>>=◌
  list_unannounced lane = do
    works ← ask o.listing_works
    d ← gets (λ (w : World). w.directory)
    if works && not (any (λ e. is_unhashable (get state e)) (entries d))
        then pure (terminal_unannounced lane d)
        else raise

-- `entry[key]`
unfoldable pub required : Key → Entry → Action Value
unfolding pure
required key e = elim (Dict.lookup key e) [ none ↦ raise | some v ↦ pure v ]

-- `int(value)` and `float(value)`, by what they make of a text: they raise where the value is no number
-- and no text that they read.
unfoldable pub read_or_raise : (of_text : Text → Option ℕ) → Value → Action ℕ
unfolding pure raise
read_or_raise of_text (number n) = pure n
read_or_raise of_text (flag b) = pure (if b then 1 else 0)
read_or_raise of_text (string s) = elim (of_text s) [ none ↦ raise | some n ↦ pure n ]
read_or_raise of_text _ = raise

-- `int(value or 0)` and `float(value or 0)`
unfoldable pub number_or_raise : (of_text : Text → Option ℕ) → Value → Action ℕ
unfolding read_or_raise
number_or_raise of_text v = if is_truthy v then read_or_raise of_text v else pure 0
