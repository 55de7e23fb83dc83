-- ===== src/Waiter/Members.antt =====
-- Members of the task lists of `WaiterRegistry` of drop/waiter.py.
use hermes_drop.Base.{
  ◌≡◌, refl, ap, ◌∙◌, ◌⊎◌, inl, inr, Bool, true, false, List, [], ◌∷◌, ◌++◌, arith, if◌then◌else◌,
  option_eq, string_eq, nat_eq, keep, any,
}
use hermes_drop.Base.{text_eq}
use hermes_drop.Waiter.Tasks.{Task}

abbrev pub IsIn : Task → List Task → Type 0
IsIn t [] = ⊥
IsIn t (u ∷ us) = (t ≡ u) ⊎ IsIn t us

pub IsIn-keep :
    (p : Task → Bool) (t : Task) (ts : List Task) → IsIn t (keep p ts) → IsIn t ts × (p t ≡ true)
unfolding keep
IsIn-keep p t [] h = absurd h
IsIn-keep p t (u ∷ us) h = go (p u) refl (λ k. IsIn-keep p t us k) h
  where
    go :
        (b : Bool)
        → p u ≡ b
        → (IsIn t (keep p us) → IsIn t us × (p t ≡ true))
        → IsIn t (if b then (u ∷ keep p us) else keep p us)
        → IsIn t (u ∷ us) × (p t ≡ true)
    go true kept step (inl same) = (inl same, ap p same ∙ kept)
    go true kept step (inr h) = let (there, q) = step h in (inr there, q)
    go false gone step h = let (there, q) = step h in (inr there, q)

pub IsIn-append : (t u : Task) (ts : List Task) → IsIn t (ts ++ (u ∷ [])) → IsIn t ts ⊎ (t ≡ u)
IsIn-append t u [] (inl same) = inr same
IsIn-append t u [] (inr none_left) = absurd none_left
IsIn-append t u (v ∷ ts) (inl same) = inl (inl same)
IsIn-append t u (v ∷ ts) (inr h) = elim (IsIn-append t u ts h) [
  | inl there ↦ inl (inr there)
  | inr same ↦ inr same
]

pub IsIn-any :
    (p : Task → Bool) (t : Task) (ts : List Task) → IsIn t ts → p t ≡ true → any p ts ≡ true
unfolding any
IsIn-any p t [] h q = absurd h
IsIn-any p t (u ∷ us) (inl same) q = ground (arith)
IsIn-any p t (u ∷ us) (inr h) q = ground (arith, IsIn-any p t us h q)
