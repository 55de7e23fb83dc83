-- ===== src/Base/Exec/Keeps.antt =====
-- What code leaves true of its state, on either way out of it.
use mathlib.Core.Path.{◌≡◌, refl}
use mathlib.Core.Bool.{Bool, true, false}
use mathlib.Core.Option.{Option, none, some}
use mathlib.Core.List.{List, [], ◌∷◌}
use hermes_drop.Base.Equality.{if◌then◌else◌}
use hermes_drop.Base.Exec.{
  Exec, Result, ok, raised, pure, raise, gets, ◌>>=◌, except, for_each, handle, continue,
}

-- Where `Inv` held before the body, it holds after it.
pub record Keeps {State X : Type 0} (Inv : State → Type 0) (body : Exec State X) : Type 0 where
  pub at : (before : State) → Inv before → Inv (body before).1

module _ {State X Y : Type 0} {Inv : State → Type 0} where
  pub Keeps-bind :
      (body : Exec State X) (rest : X → Exec State Y)
      → Keeps Inv body
      → ((x : X) → Keeps Inv (rest x))
      → Keeps Inv (body >>= rest)
  unfolding ◌>>=◌
  Keeps-bind body rest first then_ = record {
    at = λ before inv. let (way_out, after) = body before in go way_out after (first.at before inv);
  }
    where
      go : (way_out : Result X) (after : State) → Inv after → Inv (continue way_out rest after).1
      go raised after inv = inv
      go (ok x) after inv = (then_ x).at after inv

  pub Keeps-option :
      (choice : Option X) (otherwise : Exec State Y) (chosen : X → Exec State Y)
      → (choice ≡ none → Keeps Inv otherwise)
      → ((x : X) → choice ≡ some x → Keeps Inv (chosen x))
      → Keeps Inv (elim choice [ none ↦ otherwise | some x ↦ chosen x ])
  Keeps-option none otherwise chosen missing there = missing refl
  Keeps-option (some x) otherwise chosen missing there = there x refl

module _ {State X : Type 0} {Inv : State → Type 0} where
  pub Keeps-except :
      (body handler : Exec State X)
      → Keeps Inv body
      → Keeps Inv handler
      → Keeps Inv (except body handler)
  unfolding except
  Keeps-except body handler tried handled = record {
    at = λ before inv. let (way_out, after) = body before in go way_out after (tried.at before inv);
  }
    where
      go : (way_out : Result X) (after : State) → Inv after → Inv (handle way_out handler after).1
      go raised after inv = handled.at after inv
      go (ok x) after inv = inv

  pub Keeps-if :
      (test : Bool) (body other : Exec State X)
      → (test ≡ true → Keeps Inv body)
      → (test ≡ false → Keeps Inv other)
      → Keeps Inv (if test then body else other)
  Keeps-if false body other holds fails = fails refl
  Keeps-if true body other holds fails = holds refl

  pub Keeps-gets : (view : State → X) → Keeps Inv (gets view)
  unfolding gets
  Keeps-gets view = record { at = λ before inv. inv }

  pub Keeps-raise : Keeps Inv (raise {X = X})
  unfolding raise
  Keeps-raise = record { at = λ before inv. inv }

  pub Keeps-pure : (x : X) → Keeps Inv (pure x)
  unfolding pure
  Keeps-pure x = record { at = λ before inv. inv }

module _ {State X : Type 0} {Inv : State → Type 0} where
  pub Keeps-for_each :
      (body : X → Exec State (Unit {0})) (items : List X)
      → ((x : X) → Keeps Inv (body x))
      → Keeps Inv (for_each body items)
  unfolding for_each
  Keeps-for_each body [] each = Keeps-pure tt
  Keeps-for_each body (x ∷ items) each =
      Keeps-bind (body x) (λ _. for_each body items) (each x) (λ _. Keeps-for_each body items each)

pub ruleset keeps_rules = (
  Keeps-except, Keeps-if, Keeps-option, Keeps-bind, Keeps-for_each, Keeps-gets, Keeps-raise,
  Keeps-pure,
)
