-- ===== src/Base/Exec.antt =====
-- Python code that changes a state and may raise. What it did before an exception stays done, so a
-- state comes back on either way out.
pub mod Keeps
pub mod Meets
pub mod Returns
pub mod Total
use mathlib.Core.Path.{◌≡◌, refl}
use mathlib.Core.List.{List, [], ◌∷◌}

-- The way out of a call: an exception, or a value.
pub data Result (X : Type 0) : Type 0 where
  raised : Result X
  ok : X → Result X

abbrev pub Exec : (State X : Type 0) → Type 0
Exec State X = State → Result X × State

module _ {State : Type 0} where
  unfoldable pub modify : (State → State) → Exec State (Unit {0})
  modify change st = (ok tt, change st)

module _ {State X : Type 0} where
  unfoldable pub gets : (State → X) → Exec State X
  gets view st = (ok (view st), st)

  unfoldable pub raise : Exec State X
  raise st = (raised, st)

  unfoldable pub pure : X → Exec State X
  pure x st = (ok x, st)

  abbrev pub handle : Result X → Exec State X → Exec State X
  handle raised handler st = handler st
  handle (ok x) handler st = (ok x, st)

  -- `try: body` `except Exception: handler`
  unfoldable pub except : (body handler : Exec State X) → Exec State X
  except body handler st = let (way_out, after) = body st in handle way_out handler after

module _ {State X Y : Type 0} where
  abbrev pub continue : Result X → (X → Exec State Y) → Exec State Y
  continue raised rest st = (raised, st)
  continue (ok x) rest st = rest x st

  infixl 10 ◌>>=◌ ◌>>◌
  unfoldable pub ◌>>=◌ : Exec State X → (X → Exec State Y) → Exec State Y
  unfolding gets pure raise modify
  ◌>>=◌ body rest st = let (way_out, after) = body st in continue way_out rest after

  abbrev pub ◌>>◌ : Exec State X → Exec State Y → Exec State Y
  body >> rest = body >>= λ _. rest

module _ {State X : Type 0} where
  -- `for x in items: body(x)`
  unfoldable pub for_each : (X → Exec State (Unit {0})) → List X → Exec State (Unit {0})
  unfolding ◌>>=◌
  for_each body [] = pure tt
  for_each body (x ∷ items) = body x >> for_each body items
