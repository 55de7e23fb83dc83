-- ===== src/Base/Exec/Total.antt =====
-- Actions that do not raise, and what they return, one rule for each way to build an action.
use mathlib.Core.Path.{◌≡◌, refl}
use mathlib.Core.Bool.{Bool, true, false}
use mathlib.Core.Option.{Option, none, some}
use mathlib.Core.List.{List, [], ◌∷◌}
use hermes_drop.Base.Equality.{if◌then◌else◌}
use hermes_drop.Base.Lists.{All}
use hermes_drop.Base.Exec.{
  Exec, Result, ok, raised, pure, gets, ◌>>=◌, except, for_each, handle, continue,
}
use hermes_drop.Base.Exec.Keeps.{Keeps, keeps_rules}

-- From a state with `P`, `m` returns something with `Q`.
pub record Returns {S A : Type 0} (P : S → Type 0) (Q : A → Type 0) (m : Exec S A) : Type 0 where
  pub at : (s : S) → P s → (a : A) × ((m s).0 ≡ ok a) × Q a

abbrev pub Whatever : {A : Type 0} → A → Type 0
Whatever a = Unit {0}

module _ {S A : Type 0} {P : S → Type 0} {Q : A → Type 0} where
  pub Returns-pure : (a : A) → Q a → Returns P Q (pure a)
  unfolding pure
  Returns-pure a q = record { at = λ s h. (a, refl, q) }

  pub Returns-gets : (f : S → A) → ((s : S) → P s → Q (f s)) → Returns P Q (gets f)
  unfolding gets
  Returns-gets f q = record { at = λ s h. (f s, refl, q s h) }

  pub Returns-if :
      (b : Bool) (m n : Exec S A)
      → (b ≡ true → Returns P Q m)
      → (b ≡ false → Returns P Q n)
      → Returns P Q (if b then m else n)
  Returns-if true m n km kn = km refl
  Returns-if false m n km kn = kn refl

  -- What is caught is handled; what returns is as `m` says.
  pub Returns-except :
      (m handler : Exec S A)
      → Keeps P m
      → ((s : S) (a : A) → P s → (m s).0 ≡ ok a → Q a)
      → Returns P Q handler
      → Returns P Q (except m handler)
  unfolding except
  Returns-except m handler km q kh = record {
    at = λ s h. let (r, s') = m s in go r s' (km.at s h) (λ a. q s a h);
  }
    where
      go :
          (r : Result A) (s' : S)
          → P s'
          → ((a : A) → r ≡ ok a → Q a)
          → (a : A) × ((handle r handler s').0 ≡ ok a) × Q a
      go (ok a) s' h q = (a, refl, q a refl)
      go raised s' h q = kh.at s' h

module _ {S A B : Type 0} {P : S → Type 0} {R : B → Type 0} where
  pub Returns-option :
      (x : Option A) (n : Exec S B) (f : A → Exec S B)
      → Returns P R n
      → ((a : A) → Returns P R (f a))
      → Returns P R (elim x [ none ↦ n | some a ↦ f a ])
  Returns-option none n f kn kf = kn
  Returns-option (some a) n f kn kf = kf a

module _ {S A B : Type 0} {P : S → Type 0} {Q : A → Type 0} {R : B → Type 0} where
  pub Returns-bind :
      (m : Exec S A) (f : A → Exec S B)
      → Keeps P m
      → Returns P Q m
      → ((a : A) → Q a → Returns P R (f a))
      → Returns P R (m >>= f)
  unfolding ◌>>=◌
  Returns-bind m f keeps km kf = record {
    at = λ s h. let (r, s') = m s in let (a, eq, q) = km.at s h in go r s' a eq q (keeps.at s h);
  }
    where
      go :
          (r : Result A) (s' : S) (a : A)
          → r ≡ ok a
          → Q a
          → P s'
          → (b : B) × ((continue r f s').0 ≡ ok b) × R b
      go r s' a eq q p = rw eq ((kf a q).at s' p)

module _ {S A B : Type 0} {P : S → Type 0} {R : B → Type 0} where
  pub Returns-then :
      (m : Exec S A) (f : A → Exec S B)
      → Keeps P m
      → Returns P Whatever m
      → ((a : A) → Returns P R (f a))
      → Returns P R (m >>= f)
  Returns-then m f keeps km kf = Returns-bind m f keeps km (λ a _. kf a)

module _ {S A : Type 0} {P : S → Type 0} {Q : A → Type 0} where
  pub Returns-for_each :
      (body : A → Exec S (Unit {0})) (xs : List A)
      → ((x : A) → Keeps P (body x))
      → ((x : A) → Q x → Returns P Whatever (body x))
      → All Q xs
      → Returns P Whatever (for_each body xs)
  unfolding for_each
  Returns-for_each body [] keeps k _ = Returns-pure tt tt
  Returns-for_each body (x ∷ xs) keeps k (q, qs) =
      Returns-bind (body x) (λ _. for_each body xs) (keeps x) (k x q)
        (λ _ _. Returns-for_each body xs keeps k qs)

pub ruleset total_rules = (keeps_rules, Returns-pure, Returns-gets, Returns-if, Returns-then)
