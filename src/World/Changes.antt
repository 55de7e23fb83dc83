-- ===== src/World/Changes.antt =====
-- The updates that a pass and a wait make, and the properties of the directory that none of them breaks.
use hermes_drop.Base.{ℕ, ◌≡◌, ◌⊎◌, Bool, true, false, some, [], ◌∷◌, option_eq, string_eq, nat_eq}
use hermes_drop.Base.{Text, text_eq}
use hermes_drop.Base.Dict.{Dict}
use hermes_drop.Routing.{routing_eq}
use hermes_drop.Journal.Entry.{
  Key, key_eq, Value, null, flag, number, string, Entry, state, announced_at, announce_attempts,
  edit_failed, payload_kind, get, is_terminal,
}
use hermes_drop.Journal.Store.{Directory, get_drop}
use hermes_drop.World.{Effect, ask, show, note}
use hermes_drop.World.Updates.{KeepsDir, Survives}
-- The changes to a drop that leave its state alone: a failed wake, a wake, a drop open for another
-- wake, a repaired edit, the kind of a payload.
use hermes_drop.Reconciler.Latch.{Summary}

pub data Tick : Dict Key Value → Type 0 where
  tried : (n : ℕ) → Tick ((announce_attempts, number n) ∷ [])
  told : (at n : ℕ) → Tick ((announced_at, number at) ∷ (announce_attempts, number n) ∷ [])
  reopened : Tick ((announced_at, null) ∷ [])
  repaired : Tick ((edit_failed, flag false) ∷ [])
  kinded : (kind : Text) → Tick ((payload_kind, string kind) ∷ [])

-- The changes of a terminal transition.
abbrev pub closing : Text → Bool → Dict Key Value
closing new_state refused = (state, string new_state) ∷ (edit_failed, flag refused) ∷ []

-- A property that these updates cannot break: no tick does, and a transition of a drop breaks it
-- only where the drop is over already, and so is not made.
pub record IsStable (P : Directory → Type 0) : Type 0 where
  pub ticks : (id : Value) (changes : Dict Key Value) → Tick changes → Survives P id changes
  pub closes :
      (id : Value)
      → ((new_state : Text) (refused : Bool) → Survives P id (closing new_state refused))
        ⊎ ((d : Directory) (e : Entry)
            → P d
            → get_drop id d ≡ some e
            → is_terminal (get state e) ≡ true)

module _ (P : Directory → Type 0) where
  pub Keeps-ask : {A : Type 0} → (answer : ℕ → A) → KeepsDir P (ask answer)
  unfolding ask
  Keeps-ask answer = record { at = λ w h. h }

  pub Keeps-show : (e : Effect) → KeepsDir P (show e)
  unfolding show
  Keeps-show e = record { at = λ w h. h }

  pub Keeps-note : (f : Summary → Summary) → KeepsDir P (note f)
  unfolding note
  Keeps-note f = record { at = λ w h. h }
