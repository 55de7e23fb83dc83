-- ===== src/Base/Exec/Meets.antt =====
-- Code with a condition for each way out of it: what it returns, and the state in which it raises.
use mathlib.Core.Path.{◌≡◌, refl}
use mathlib.Core.Bool.{Bool, true, false}
use mathlib.Core.Option.{Option, none, some}
use hermes_drop.Base.Equality.{if◌then◌else◌}
use hermes_drop.Base.Exec.{Exec, Result, ok, raised, pure, gets, modify, ◌>>=◌, continue}

module _ {State X : Type 0} where
  abbrev pub Ends : (X → State → Type 0) → (State → Type 0) → Result X → State → Type 0
  Ends Good Bad raised after = Bad after
  Ends Good Bad (ok x) after = Good x after

  -- From a state with `Start`, the body ends in one of the two ways.
  pub record Meets (Start : State → Type 0) (Good : X → State → Type 0) (Bad : State → Type 0)
      (body : Exec State X) : Type 0 where
    pub at : (before : State) → Start before → Ends Good Bad (body before).0 (body before).1

module _ {State X Y : Type 0} {Start : State → Type 0} {Mid : X → State → Type 0}
    {Good : Y → State → Type 0} {Bad : State → Type 0} where
  pub Meets-bind :
      (body : Exec State X) (rest : X → Exec State Y)
      → Meets Start Mid Bad body
      → ((x : X) → Meets (Mid x) Good Bad (rest x))
      → Meets Start Good Bad (body >>= rest)
  unfolding ◌>>=◌
  Meets-bind body rest first then_ = record {
    at = λ before start.
        let (way_out, after) = body before in go way_out after (first.at before start);
  }
    where
      go :
          (way_out : Result X) (after : State)
          → Ends Mid Bad way_out after
          → Ends Good Bad (continue way_out rest after).0 (continue way_out rest after).1
      go raised after bad = bad
      go (ok x) after mid = (then_ x).at after mid

module _ {State X : Type 0} {Start : State → Type 0} {Good : X → State → Type 0}
    {Bad : State → Type 0} where
  pub Meets-if :
      (test : Bool) (body other : Exec State X)
      → (test ≡ true → Meets Start Good Bad body)
      → (test ≡ false → Meets Start Good Bad other)
      → Meets Start Good Bad (if test then body else other)
  Meets-if true body other holds fails = holds refl
  Meets-if false body other holds fails = fails refl

  pub Meets-option :
      {Z : Type 0}
      → (choice : Option Z) (otherwise : Exec State X) (chosen : Z → Exec State X)
      → (choice ≡ none → Meets Start Good Bad otherwise)
      → ((z : Z) → choice ≡ some z → Meets Start Good Bad (chosen z))
      → Meets Start Good Bad (elim choice [ none ↦ otherwise | some z ↦ chosen z ])
  Meets-option none otherwise chosen missing there = missing refl
  Meets-option (some z) otherwise chosen missing there = there z refl

  pub Meets-pure : (x : X) → ((s : State) → Start s → Good x s) → Meets Start Good Bad (pure x)
  unfolding pure
  Meets-pure x good = record { at = good }

  -- A weaker start, and a stronger end.
  pub Meets-weaken :
      {Start₁ : State → Type 0} {Good₁ : X → State → Type 0}
      → (body : Exec State X) → ((s : State) → Start s → Start₁ s)
      → ((x : X) (s : State) → Good₁ x s → Good x s)
      → Meets Start₁ Good₁ Bad body
      → Meets Start Good Bad body
  Meets-weaken {Good₁ = Good₁} body start good meets = record {
    at = λ before h.
        let (way_out, after) = body before in go way_out after (meets.at before (start before h));
  }
    where
      go :
          (way_out : Result X) (after : State)
          → Ends Good₁ Bad way_out after
          → Ends Good Bad way_out after
      go raised after bad = bad
      go (ok x) after mid = good x after mid

module _ {State X : Type 0} {Start : State → Type 0} {Good : X → State → Type 0}
    {Bad : State → Type 0} where
  -- A fact that holds at every start, of no state.
  pub Meets-given :
      {Fact : Type 0}
      → (body : Exec State X) → ((s : State) → Start s → Fact)
      → (Fact → Meets Start Good Bad body)
      → Meets Start Good Bad body
  Meets-given body fact meets = record {
    at = λ before start. (meets (fact before start)).at before start;
  }

  pub Meets-gets :
      (view : State → X)
      → ((s : State) → Start s → Good (view s) s)
      → Meets Start Good Bad (gets view)
  unfolding gets
  Meets-gets view good = record { at = good }

module _ {State : Type 0} {Start : State → Type 0} {Good : Unit {0} → State → Type 0}
    {Bad : State → Type 0} where
  pub Meets-modify :
      (change : State → State)
      → ((s : State) → Start s → Good tt (change s))
      → Meets Start Good Bad (modify change)
  unfolding modify
  Meets-modify change good = record { at = good }
