-- ===== src/Base/Json.antt =====
-- The values that Python's `json.loads` returns, and how a program asks them.
use hermes_drop.Base.Equality.{◌==◌, if◌then◌else◌, nat_eq}
use hermes_drop.Base.Chars.{Text, text_eq}
use Prim.Native.Nat.{ℕ, zero, suc}
use mathlib.Core.Bool.{Bool, true, false, not}
use mathlib.Core.Option.{Option, none, some}
use mathlib.Core.List.{List, [], ◌∷◌}

-- A whole number: `natural n` is n, and `below n` is -n - 1.
pub data Whole : Type 0 where
  natural below : ℕ → Whole

-- Of a float there is only whether it is other than 0.
mutual
  pub data Json : Type 0 where
    null : Json
    flag : Bool → Json
    integer : Whole → Json
    float : (nonzero : Bool) → Json
    string : Text → Json
    array : Items → Json
    object : Members → Json

  pub data Items : Type 0 where
    no_items : Items
    item : Json → Items → Items

  pub data Members : Type 0 where
    no_members : Members
    member : Text → Json → Members → Members

-- `bool(value)`
unfoldable pub truthy : Json → Bool
unfolding nat_eq
truthy null = false
truthy (flag b) = b
truthy (integer (natural n)) = not (n == 0)
truthy (integer (below n)) = true
truthy (float nonzero) = nonzero
truthy (string []) = false
truthy (string (c ∷ cs)) = true
truthy (array no_items) = false
truthy (array (item x xs)) = true
truthy (object no_members) = false
truthy (object (member key value ms)) = true

-- `mapping.get(key)`
unfoldable pub get : Text → Members → Json
unfolding text_eq
get key no_members = null
get key (member other value ms) = if key == other then value else get key ms

-- `list(mapping)`
unfoldable pub names : Members → List Text
names no_members = []
names (member key value ms) = key ∷ names ms

-- `items[index]`, where there is one.
unfoldable pub nth : ℕ → Items → Option Json
nth index no_items = none
nth zero (item x xs) = some x
nth (suc index) (item x xs) = nth index xs

-- The number of a value with `isinstance(value, int)`, which `True` and `False` are too.
unfoldable pub whole_of : Json → Option Whole
whole_of (integer n) = some n
whole_of (flag false) = some (natural 0)
whole_of (flag true) = some (natural 1)
whole_of _ = none

-- A value with `isinstance(value, dict)`.
abbrev pub object_of : Json → Option Members
object_of (object ms) = some ms
object_of _ = none
