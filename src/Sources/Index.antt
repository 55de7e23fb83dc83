-- ===== src/Sources/Index.antt =====
-- One index of the registry: recency, eviction, and what stands under a key.
use hermes_drop.Base.{
  ℕ, ◌≤◌, ◌<◌, ◌≡◌, refl, sym, ap, ◌∙◌, inl, inr, Bool, true, none, some, [], ◌∷◌, ◌++◌, arith,
  if◌then◌else◌, Eq, ◌==◌, option_eq, string_eq, nat_eq, Bool-cases, Option-cases, ltb, length, All,
  length-append, length-keep-le,
}
use mathlib.Core.Path.{subst}
use hermes_drop.Base.Dict
use hermes_drop.Base.Dict.{
  Dict, NodupKeys, lookup-insert, lookup-erase, insert-NodupKeys, erase-NodupKeys, length-erase-lt,
}
use hermes_drop.Sources.{SourceEntry, move_to_end, trim, store, keep_entries}

module _ {K : Type 0} ⦃e : Eq K⦄ where
  lookup-snoc :
      (j k : K) (x : SourceEntry) (d : Dict K SourceEntry)
      → Dict.lookup k d ≡ none
      → Dict.lookup j (d ++ ((k, x) ∷ [])) ≡ (if j == k then some x else Dict.lookup j d)
  unfolding Dict.lookup
  lookup-snoc j k x [] fresh = refl
  lookup-snoc j k x ((i, y) ∷ d) fresh = ground (arith, lookup-snoc j k x d)

  snoc-NodupKeys :
      (k : K) (x : SourceEntry) (d : Dict K SourceEntry)
      → Dict.lookup k d ≡ none
      → NodupKeys d
      → NodupKeys (d ++ ((k, x) ∷ []))
  unfolding Dict.lookup
  snoc-NodupKeys k x [] fresh u = (refl, tt)
  snoc-NodupKeys k x ((i, y) ∷ d) fresh (new, u) =
      ground (arith, snoc-NodupKeys k x d, lookup-snoc i k x d)

  pub lookup-move_to_end :
      (j k : K) (d : Dict K SourceEntry) → Dict.lookup j (move_to_end k d) ≡ Dict.lookup j d
  unfolding move_to_end
  lookup-move_to_end j k d = elim (Option-cases (Dict.lookup k d)) [
    | inl absent ↦ rw (absent, move_to_end)
    | inr (x, found) ↦
        rw (found, move_to_end)
          (ground (
            arith,
            found,
            lookup-snoc j k x (Dict.erase k d),
            lookup-erase j k d,
            lookup-erase k k d,
          ))
  ]

  pub move_to_end-NodupKeys :
      (k : K) (d : Dict K SourceEntry) → NodupKeys d → NodupKeys (move_to_end k d)
  unfolding move_to_end
  move_to_end-NodupKeys k d u = elim (Option-cases (Dict.lookup k d)) [
    | inl absent ↦ rw (absent, move_to_end) u
    | inr (x, found) ↦
        rw (found, move_to_end)
          (snoc-NodupKeys k x (Dict.erase k d) (ground (arith, lookup-erase k k d))
            (erase-NodupKeys k d u))
  ]

  pub length-trim-le : (m : ℕ) (d : Dict K SourceEntry) → length (trim m d) ≤ m
  unfolding trim
  length-trim-le m [] = omega arith
  length-trim-le m (x ∷ d) = ground (arith, length-trim-le m d)

  pub trim-NodupKeys : (m : ℕ) (d : Dict K SourceEntry) → NodupKeys d → NodupKeys (trim m d)
  unfolding trim
  trim-NodupKeys m [] u = tt
  trim-NodupKeys m ((k, x) ∷ d) (fresh, u) = ground (arith, trim-NodupKeys m d u)

  -- Eviction invents nothing.
  pub lookup-trim :
      (m : ℕ) (j : K) (x : SourceEntry) (d : Dict K SourceEntry)
      → NodupKeys d
      → Dict.lookup j (trim m d) ≡ some x
      → Dict.lookup j d ≡ some x
  unfolding trim Dict.lookup
  lookup-trim m j x [] u h = h
  lookup-trim m j x ((k, y) ∷ d) (fresh, u) h = ground (arith, lookup-trim m j x d u)

  -- The last entry stays.
  lookup-trim_last :
      (m : ℕ) (k : K) (x : SourceEntry) (d : Dict K SourceEntry)
      → 0 < m
      → Dict.lookup k d ≡ none
      → Dict.lookup k (trim m (d ++ ((k, x) ∷ []))) ≡ some x
  unfolding trim Dict.lookup
  lookup-trim_last m k x [] room fresh = ground arith
  lookup-trim_last m k x ((i, y) ∷ d) room fresh =
      ground (arith, lookup-trim_last m k x d, lookup-snoc k k x d)

  pub move_to_end-some :
      (k : K) (x : SourceEntry) (d : Dict K SourceEntry)
      → Dict.lookup k d ≡ some x
      → move_to_end k d ≡ Dict.erase k d ++ ((k, x) ∷ [])
  unfolding move_to_end
  move_to_end-some k x d found = rw (found, move_to_end)

  pub lookup-store_self :
      (m : ℕ) (k : K) (x : SourceEntry) (d : Dict K SourceEntry)
      → 0 < m
      → Dict.lookup k (store m k x d) ≡ some x
  unfolding store
  lookup-store_self m k x d room =
      let inserted = Dict.insert k x d in
      let held : Dict.lookup k inserted ≡ some x = ground (arith, lookup-insert k k x d) in
      ap (λ moved. Dict.lookup k (trim m moved)) (move_to_end-some k x inserted held)
      ∙ lookup-trim_last m k x (Dict.erase k inserted) room
          (ground (arith, lookup-erase k k inserted))

  pub store-NodupKeys :
      (m : ℕ) (k : K) (x : SourceEntry) (d : Dict K SourceEntry)
      → NodupKeys d
      → NodupKeys (store m k x d)
  unfolding store
  store-NodupKeys m k x d u =
      trim-NodupKeys m (move_to_end k (Dict.insert k x d))
        (move_to_end-NodupKeys k (Dict.insert k x d) (insert-NodupKeys k x d u))

  pub length-store-le :
      (m : ℕ) (k : K) (x : SourceEntry) (d : Dict K SourceEntry) → length (store m k x d) ≤ m
  unfolding store
  length-store-le m k x d = length-trim-le m (move_to_end k (Dict.insert k x d))

  -- Whatever holds of every entry under its key holds of what the operations leave.
  module _ (P : K → SourceEntry → Type 0) where
    abbrev pub EveryEntry : Dict K SourceEntry → Type 0
    EveryEntry = All (λ (k, x). P k x)

    pub EveryEntry-lookup :
        (k : K) (x : SourceEntry) (d : Dict K SourceEntry)
        → EveryEntry d
        → Dict.lookup k d ≡ some x
        → P k x
    unfolding Dict.lookup
    EveryEntry-lookup k x [] all h = absurd (ground arith)
    EveryEntry-lookup k x ((j, y) ∷ d) (now, all) h = elim (e.dec k j) [
      | yes same ↦
          let this : y ≡ x = ground arith in subst (P k) this (subst (λ i. P i y) (sym same) now)
      | no differ ↦ EveryEntry-lookup k x d all (ground arith)
    ]

    pub EveryEntry-trim : (m : ℕ) (d : Dict K SourceEntry) → EveryEntry d → EveryEntry (trim m d)
    unfolding trim
    EveryEntry-trim m [] all = tt
    EveryEntry-trim m ((k, x) ∷ d) (now, all) =
        let later = EveryEntry-trim m d all in
        elim (Bool-cases (ltb m (length ((k, x) ∷ d)))) [
          | inl full ↦ rw full later
          | inr fits ↦ rw fits (now, all)
        ]

    pub EveryEntry-erase :
        (k : K) (d : Dict K SourceEntry) → EveryEntry d → EveryEntry (Dict.erase k d)
    unfolding Dict.erase
    EveryEntry-erase k [] all = tt
    EveryEntry-erase k ((j, x) ∷ d) (now, all) =
        let later = EveryEntry-erase k d all in
        elim (Bool-cases (k == j)) [
          | inl same ↦ rw same later
          | inr differ ↦ rw differ (now, later)
        ]

    EveryEntry-snoc :
        (k : K) (x : SourceEntry) (d : Dict K SourceEntry)
        → EveryEntry d
        → P k x
        → EveryEntry (d ++ ((k, x) ∷ []))
    EveryEntry-snoc k x [] all new = (new, tt)
    EveryEntry-snoc k x ((j, y) ∷ d) (now, all) new = (now, EveryEntry-snoc k x d all new)

    EveryEntry-insert :
        (k : K) (x : SourceEntry) (d : Dict K SourceEntry)
        → EveryEntry d
        → P k x
        → EveryEntry (Dict.insert k x d)
    unfolding Dict.insert
    EveryEntry-insert k x [] all new = (new, tt)
    EveryEntry-insert k x ((j, y) ∷ d) (now, all) new =
        let later = EveryEntry-insert k x d all new in
        elim (Bool-cases (k == j)) [
          | inl same ↦ rw same (new, all)
          | inr differ ↦ rw differ (now, later)
        ]

    pub EveryEntry-move_to_end :
        (k : K) (d : Dict K SourceEntry) → EveryEntry d → EveryEntry (move_to_end k d)
    unfolding move_to_end
    EveryEntry-move_to_end k d all = elim (Option-cases (Dict.lookup k d)) [
      | inl absent ↦ rw (absent, move_to_end) all
      | inr (x, found) ↦
          rw (found, move_to_end)
            (EveryEntry-snoc k x (Dict.erase k d) (EveryEntry-erase k d all)
              (EveryEntry-lookup k x d all found))
    ]

    pub EveryEntry-store :
        (m : ℕ) (k : K) (x : SourceEntry) (d : Dict K SourceEntry)
        → EveryEntry d
        → P k x
        → EveryEntry (store m k x d)
    unfolding store
    EveryEntry-store m k x d all new =
        EveryEntry-trim m (move_to_end k (Dict.insert k x d))
          (EveryEntry-move_to_end k (Dict.insert k x d) (EveryEntry-insert k x d all new))

    pub EveryEntry-keep :
        (p : SourceEntry → Bool) (d : Dict K SourceEntry)
        → EveryEntry d
        → EveryEntry (keep_entries p d)
    unfolding keep_entries
    EveryEntry-keep p [] all = tt
    EveryEntry-keep p ((k, x) ∷ d) (now, all) =
        let later = EveryEntry-keep p d all in
        elim (Bool-cases (p x)) [ inl t ↦ rw t (now, later) | inr f ↦ rw f later ]

  pub lookup-keep_entries :
      (p : SourceEntry → Bool) (k : K) (x : SourceEntry) (d : Dict K SourceEntry)
      → NodupKeys d
      → Dict.lookup k (keep_entries p d) ≡ some x
      → (Dict.lookup k d ≡ some x) × (p x ≡ true)
  unfolding keep_entries Dict.lookup
  lookup-keep_entries p k x [] u h = absurd (ground arith)
  lookup-keep_entries p k x ((j, y) ∷ d) (fresh, u) h =
      ground (arith, lookup-keep_entries p k x d u)

  lookup-keep_entries-none :
      (p : SourceEntry → Bool) (k : K) (d : Dict K SourceEntry)
      → Dict.lookup k d ≡ none
      → Dict.lookup k (keep_entries p d) ≡ none
  unfolding keep_entries Dict.lookup
  lookup-keep_entries-none p k [] h = refl
  lookup-keep_entries-none p k ((j, y) ∷ d) h = ground (arith, lookup-keep_entries-none p k d)

  pub keep_entries-NodupKeys :
      (p : SourceEntry → Bool) (d : Dict K SourceEntry) → NodupKeys d → NodupKeys (keep_entries p d)
  unfolding keep_entries
  keep_entries-NodupKeys p [] u = tt
  keep_entries-NodupKeys p ((j, y) ∷ d) (fresh, u) =
      ground (arith, keep_entries-NodupKeys p d u, lookup-keep_entries-none p j d)

  pub length-keep_entries-le :
      (p : SourceEntry → Bool) (d : Dict K SourceEntry) → length (keep_entries p d) ≤ length d
  unfolding keep_entries
  length-keep_entries-le p d = length-keep-le (λ (_, x). p x) d

  pub length-move_to_end-le : (k : K) (d : Dict K SourceEntry) → length (move_to_end k d) ≤ length d
  unfolding move_to_end
  length-move_to_end-le k d = elim (Option-cases (Dict.lookup k d)) [
    | inl absent ↦ rw (absent, move_to_end) (omega arith)
    | inr (x, found) ↦
        rw (found, move_to_end)
          (omega (arith, length-append (Dict.erase k d) ((k, x) ∷ []), length-erase-lt k x d found))
  ]
