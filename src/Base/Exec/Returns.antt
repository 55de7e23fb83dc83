-- ===== src/Base/Exec/Returns.antt =====
-- What a run that returns has gone through.
use mathlib.Core.Path.{◌≡◌, refl}
use native.Mathlib.Omega.{arith}
use hermes_drop.Base.Exec.{Exec, Result, ok, raised, ◌>>=◌, continue}

module _ {S A B : Type 0} where
  -- A block returns only where its first action does, and then it runs the rest.
  pub bind-ok :
      (m : Exec S A) (f : A → Exec S B) (s : S) (b : B)
      → ((m >>= f) s).0 ≡ ok b
      → (a : A) × ((m s).0 ≡ ok a) × ((m >>= f) s ≡ f a (m s).1)
  unfolding ◌>>=◌
  bind-ok m f s b h = let (r, s') = m s in go r s' h
    where
      go :
          (r : Result A) (s' : S)
          → (continue r f s').0 ≡ ok b
          → (a : A) × (r ≡ ok a) × (continue r f s' ≡ f a s')
      go (ok a) s' h = (a, refl, refl)
      go raised s' h = absurd (ground arith)
