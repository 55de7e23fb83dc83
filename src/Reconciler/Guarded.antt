-- ===== src/Reconciler/Guarded.antt =====
-- Parts of a pass of drop/reconciler.py whose failures it notes, and the numbers that it reads.
use hermes_drop.World.{read_or_raise, Outside}
use hermes_drop.Base.{Option, none, some}
use hermes_drop.Base.Exec.{raise}
use hermes_drop.Reconciler.Numeric.{is_read, is_some}
use hermes_drop.Base.{ℕ, ◌≡◌, refl, true, List, [], ◌∷◌, arith, option_eq, string_eq, nat_eq, All}
use hermes_drop.Base.{Text, text_eq}
use hermes_drop.Base.Exec.{Result, ok, raised, handle, pure, ◌>>=◌, ◌>>◌, except}
use hermes_drop.Routing.{routing_eq}
use hermes_drop.Journal.Entry.{is_set, key_eq, Value, null, flag, number, string, composite, Entry}
use hermes_drop.World.{Outside, World, Action, ask, note, is_truthy, number_or_raise}
use hermes_drop.Base.Exec.Total.{Returns, Whatever, Returns-pure, Returns-if}
use hermes_drop.Journal.Reads.{IsReadAs}
use hermes_drop.Reconciler.Latch.{Summary}
use hermes_drop.Reconciler.Numeric.{is_readable, IsNumeric}
use hermes_drop.Reconciler.Edits.{note_failed}
use hermes_drop.Reconciler.Pass.{listed_or}

module _ (o : Outside) where
  abbrev pub Numbers : World → Type 0
  Numbers w = IsReadAs (IsNumeric o) w.directory

  pub Returns-ask : {A : Type 0} → (answer : ℕ → A) → Returns Numbers Whatever (ask answer)
  unfolding ask
  Returns-ask answer = record { at = λ w h. (answer w.questions, refl, tt) }

  pub Returns-note : (f : Summary → Summary) → Returns Numbers Whatever (note f)
  unfolding note
  Returns-note f = record { at = λ w h. (tt, refl, tt) }

  pub Returns-read :
      (of_text : Text → Option ℕ) (v : Value)
      → is_set v ≡ true
      → is_read of_text v ≡ true
      → Returns Numbers Whatever (read_or_raise of_text v)
  unfolding read_or_raise
  Returns-read of_text (number n) set h = Returns-pure n tt
  Returns-read of_text (flag b) set h = Returns-pure _ tt
  Returns-read of_text null set h = absurd (ground arith)
  Returns-read of_text (string s) set h = read_number (of_text s) h
    where
      read_number :
          (x : Option ℕ)
          → is_some x ≡ true
          → Returns Numbers Whatever (elim x as (λ _. Action ℕ) [ none ↦ raise | some n ↦ pure n ])
      read_number none h = absurd (ground arith)
      read_number (some n) h = Returns-pure n tt
  Returns-read of_text (composite s) set h = absurd (ground arith)

  truthy-set : (v : Value) → is_truthy v ≡ true → is_set v ≡ true
  unfolding is_truthy
  truthy-set null h = absurd (ground arith)
  truthy-set (flag b) h = refl
  truthy-set (number n) h = refl
  truthy-set (string s) h = refl
  truthy-set (composite s) h = refl

  pub Returns-number :
      (of_text : Text → Option ℕ) (v : Value)
      → is_readable of_text v ≡ true
      → Returns Numbers Whatever (number_or_raise of_text v)
  unfolding number_or_raise
  Returns-number of_text v h =
      Returns-if (is_truthy v) _ _
        (λ full. Returns-read of_text v (truthy-set v full) (ground (arith, full)))
        (λ _. Returns-pure 0 tt)

  -- What is tried under a handler that only notes the failure.
  pub guarded :
      (m : Action (Unit {0})) (f : Summary → Summary) → Returns Numbers Whatever (except m (note f))
  unfolding except note
  guarded m f = record { at = λ w h. let (r, w') = m w in go r w' }
    where
      go :
          (r : Result (Unit {0})) (w : World)
          → (a : Unit {0}) × ((handle r (note f) w).0 ≡ ok a) × Unit {0}
      go (ok a) w = (a, refl, tt)
      go raised w = (tt, refl, tt)

  -- A listing whose failure is noted: what it lists has `Q`.
  pub listed :
      (Q : Entry → Type 0) (name : Text) (m : Action (List Entry))
      → ((w : World) (es : List Entry) → Numbers w → (m w).0 ≡ ok es → All Q es)
      → Returns Numbers (All Q) (listed_or o name m)
  unfolding listed_or except note ◌>>=◌ pure
  listed Q name m k = record { at = λ w h. let (r, w') = m w in go r w' (λ es. k w es h) }
    where
      go :
          (r : Result (List Entry)) (w : World)
          → ((es : List Entry) → r ≡ ok es → All Q es)
          → (es : List Entry) × ((handle r (note (note_failed name) >> pure []) w).0 ≡ ok es)
            × All Q es
      go (ok es) w k = (es, refl, k es refl)
      go raised w k = ([], refl, tt)

  pub All-Whatever : {A : Type 0} → (xs : List A) → All Whatever xs
  All-Whatever [] = tt
  All-Whatever (x ∷ xs) = (tt, All-Whatever xs)
