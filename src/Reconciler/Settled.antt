-- ===== src/Reconciler/Settled.antt =====
-- Drops that are received, expired or failed, through the actions of a pass of drop/reconciler.py and
-- through its terminal transition.
use hermes_drop.Base.{
  false, ◌≡◌, refl, ◌≢◌, ◌⊎◌, inl, inr, Bool, true, none, some, arith, ◌==◌, option_eq, string_eq,
  nat_eq, Bool-cases,
}
use hermes_drop.Base.{Text, text_eq}
use hermes_drop.Base.Dict
use hermes_drop.Base.Dict.{Dict}
use hermes_drop.Base.Exec.{ok, pure, gets, ◌>>=◌}
use hermes_drop.Routing.{routing_eq}
use hermes_drop.Journal.Entry.{
  flag, is_unhashable, Key, key_eq, Value, null, flag, number, string, composite, Entry, drop_id,
  state, get, is_terminal,
}
use hermes_drop.Journal.Store.{Directory, get_drop}
use hermes_drop.World.{Outside, World, required}
use hermes_drop.World.Updates.{Survives}
use hermes_drop.Journal.Sound.{IsSound, interrupted-IsSound}
use hermes_drop.Journal.Update.{AbsentFrom, IsSettled, interrupted-IsSettled}
use hermes_drop.World.Changes.{Tick, tried, told, reopened, repaired, kinded, closing, IsStable}
use hermes_drop.Origin.{Origin}
use hermes_drop.Reconciler.Finalize.{gone, duplicate, finalize_terminal}
use hermes_drop.Reconciler.Pass.{reconcile, run_reconcile}
use hermes_drop.Reconciler.Keeps.{finalize_terminal-keeps}
use hermes_drop.Reconciler.Keeps.Pass.{reconcile-keeps}

Tick-absent :
    {changes : Dict Key Value}
    → Tick changes
    → AbsentFrom drop_id changes × AbsentFrom state changes
unfolding Dict.lookup key_eq
Tick-absent (tried n) = (refl, refl)
Tick-absent (told at n) = (refl, refl)
Tick-absent reopened = (refl, refl)
Tick-absent repaired = (refl, refl)
Tick-absent (kinded kind) = (refl, refl)

pub closing-absent : (t : Text) (refused : Bool) → AbsentFrom drop_id (closing t refused)
unfolding Dict.lookup key_eq
closing-absent t refused = refl

module _ (id : Text) (v : Value) (over : is_terminal v ≡ true) where
  Tick-Survives :
      (other : Value) (changes : Dict Key Value)
      → Tick changes
      → Survives (IsSettled id v) other changes
  Tick-Survives other changes t s i temp now d f same u h =
      let (own, untouched) = Tick-absent t in
      interrupted-IsSettled id v s changes now i temp d f u own (inl untouched) h

  closing-Survives :
      (s : Text)
      → s ≢ id
      → (t : Text) (refused : Bool) → Survives (IsSettled id v) (string s) (closing t refused)
  closing-Survives s other t refused j i temp now d f same u h =
      interrupted-IsSettled id v j (closing t refused) now i temp d f u (closing-absent t refused)
        (inr (λ p. ground arith)) h

  settled-locked :
      (d : Directory) (e : Entry)
      → IsSettled id v d
      → get_drop (string id) d ≡ some e
      → is_terminal (get state e) ≡ true
  settled-locked d e h found = ground (arith, h.stands, h.has)

  closes :
      (other : Value)
      → ((t : Text) (refused : Bool) → Survives (IsSettled id v) other (closing t refused))
        ⊎ ((d : Directory) (e : Entry)
            → IsSettled id v d
            → get_drop other d ≡ some e
            → is_terminal (get state e) ≡ true)
  unfolding text_eq
  closes (string s) = elim (Bool-cases (s == id)) [
    | inl here ↦ inr (λ d e h found. settled-locked d e h (ground (arith, found)))
    | inr away ↦ inl (closing-Survives s (λ p. ground arith))
  ]
  closes null = inl (λ t refused s i temp now d f same. absurd (ground arith))
  closes (flag b) = inl (λ t refused s i temp now d f same. absurd (ground arith))
  closes (number n) = inl (λ t refused s i temp now d f same. absurd (ground arith))
  closes (composite c) = inl (λ t refused s i temp now d f same. absurd (ground arith))

  pub IsSettled-IsStable : IsStable (IsSettled id v)
  IsSettled-IsStable = record { ticks = Tick-Survives; closes = closes }

pub IsSound-IsStable : IsStable IsSound
IsSound-IsStable = record {
  ticks = λ id changes t s i temp now d f same u h. interrupted-IsSound i f temp now d u.valid h;
  closes = λ id.
      inl (λ t refused s i temp now d f same u h. interrupted-IsSound i f temp now d u.valid h);
}

pub run_reconcile-directory :
    (o : Outside) (w : World) → (run_reconcile o w).directory ≡ (reconcile o w).1.directory
unfolding run_reconcile
run_reconcile-directory o w = ground arith

-- A drop that is over when a pass starts, in a sound directory, is there with the same state when the
-- pass ends, and the directory is sound again; whatever is listed, probed, edited, woken or armed on
-- the way, and whichever writes break off.
pub run_reconcile-IsSettled :
    (o : Outside) (w : World) (id : Text) (v : Value)
    → is_terminal v ≡ true
    → IsSettled id v w.directory
    → IsSettled id v (run_reconcile o w).directory
run_reconcile-IsSettled o w id v over h =
    rw (run_reconcile-directory o w)
      ((reconcile-keeps o (IsSettled id v) (IsSettled-IsStable id v over)).at w h)

-- A drop that is over, in a sound directory, keeps its state through a terminal transition of any
-- drop, itself included.
pub finalize_terminal-IsSettled :
    (o : Outside) (w : World) (origin : Origin) (e : Entry) (new_state : Text) (id : Text)
    (v : Value)
    → is_terminal v ≡ true
    → IsSettled id v w.directory
    → IsSettled id v (finalize_terminal o origin e new_state w).1.directory
finalize_terminal-IsSettled o w origin e new_state id v over h =
    (finalize_terminal-keeps o (IsSettled id v) (IsSettled-IsStable id v over) origin e
        new_state).at
      w h

is_terminal-hashable : (v : Value) → is_terminal v ≡ true → is_unhashable v ≡ false
unfolding is_terminal
is_terminal-hashable (composite s) h = absurd (ground arith)
is_terminal-hashable (string s) h = refl
is_terminal-hashable null h = refl
is_terminal-hashable (flag b) h = refl
is_terminal-hashable (number n) h = refl

-- A terminal transition of a drop that is over already, or of one that is not in the journal, changes
-- nothing and says so.
pub finalize_terminal-once :
    (o : Outside) (w : World) (origin : Origin) (e : Entry) (id : Value) (new_state : Text)
    → Dict.lookup drop_id e ≡ some id
    → (get_drop id w.directory ≡ none → finalize_terminal o origin e new_state w ≡ (ok gone, w))
      × ((current : Entry)
          → get_drop id w.directory ≡ some current
          → is_terminal (get state current) ≡ true
          → finalize_terminal o origin e new_state w ≡ (ok duplicate, w))
unfolding finalize_terminal required gets pure ◌>>=◌
finalize_terminal-once o w origin e id new_state has = (
  λ missing. ground arith,
  λ current found over. ground (arith, is_terminal-hashable (get state current) over),
)
