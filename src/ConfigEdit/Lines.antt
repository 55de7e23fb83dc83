-- ===== src/ConfigEdit/Lines.antt =====
-- bin/hermes-drop-config-edit.py: the list that is wanted, and the lines that an edit keeps.
use hermes_drop.Base.{
  ℕ, suc, zero, ◌+◌, ◌≤◌, ◌<◌, ◌≡◌, refl, sym, ap, ◌∙◌, Bool, false, not, ◌&&◌, ◌||◌, List, [], ◌∷◌,
  ◌++◌, arith, if◌then◌else◌, ◌==◌, contains, option_eq, string_eq, nat_eq, length, keep,
}
use hermes_drop.Base.{Text, text_eq, take, drop, take-drop}
use hermes_drop.ConfigEdit.Apply.{desired, without, shifted, insert_and_delete}
use mathlib.Core.List.{append-nil}

contains-append :
    (xs ys : List Text) (x : Text) → contains (xs ++ ys) x ≡ contains xs x || contains ys x
contains-append [] ys x = refl
contains-append (y ∷ xs) ys x = ground (arith, contains-append xs ys x)

contains-keep :
    (p : Text → Bool) (xs : List Text) (x : Text) → contains (keep p xs) x ≡ contains xs x && p x
unfolding keep
contains-keep p [] x = refl
contains-keep p (y ∷ xs) x = ground (arith, contains-keep p xs x)

-- Of the wanted list, an entry is the plugin that is added, or an entry that there was and that is not dropped.
contains-desired :
    (current : List Text) (c : ℕ) (cs : Text) (dropped : List Text) (x : Text)
    → contains (desired current (c ∷ cs) dropped) x
      ≡ (contains current x && not (contains dropped x)) || x == (c ∷ cs)
unfolding desired
contains-desired current c cs dropped x =
    let kept = keep (λ item. not (contains dropped item)) current in
    ground (
      arith,
      contains-keep (λ item. not (contains dropped item)) current x,
      contains-append kept ((c ∷ cs) ∷ []) x,
    )

keep-append : (p : Text → Bool) (xs ys : List Text) → keep p (xs ++ ys) ≡ keep p xs ++ keep p ys
unfolding keep
keep-append p [] ys = refl
keep-append p (x ∷ xs) ys = ground (arith, keep-append p xs ys)

keep-twice : (p : Text → Bool) (xs : List Text) → keep p (keep p xs) ≡ keep p xs
unfolding keep
keep-twice p [] = refl
keep-twice p (x ∷ xs) = ground (arith, keep-twice p xs)

keep_one : (p : Text → Bool) (x : Text) → keep p (x ∷ []) ≡ (if p x then x ∷ [] else [])
unfolding keep
keep_one p x = refl

-- A second edit wants what the first one left.
pub desired-desired :
    (current : List Text) (add : Text) (dropped : List Text)
    → desired (desired current add dropped) add dropped ≡ desired current add dropped
unfolding desired
desired-desired current [] dropped = keep-twice _ current
desired-desired current (c ∷ cs) dropped =
    let stays = λ (item : Text). not (contains dropped item) in
    let kept = keep stays current in
    ground (
      arith,
      keep-twice stays current,
      keep-append stays kept ((c ∷ cs) ∷ []),
      contains-append kept ((c ∷ cs) ∷ []) (c ∷ cs),
      append-nil kept,
      keep_one stays (c ∷ cs),
    )

module _ (doomed : List ℕ) where
  pub without-append :
      (n : ℕ) (xs ys : List Text)
      → without doomed n (xs ++ ys) ≡ without doomed n xs ++ without doomed (n + length xs) ys
  unfolding without
  without-append n [] ys = ap (λ m. without doomed m ys) (omega arith)
  without-append n (x ∷ xs) ys =
      ground (
        arith,
        without-append (n + 1) xs ys,
        ap (λ m. without doomed m ys) (assoc_one n (length xs)),
      )
    where
      assoc_one : (n m : ℕ) → n + 1 + m ≡ n + suc m
      assoc_one n m = omega arith

-- Two sets of indices that agree on a run of lines leave the same of it.
without-agree :
    (d e : List ℕ) (m n : ℕ) (xs : List Text)
    → ((k : ℕ) → k < length xs → contains d (m + k) ≡ contains e (n + k))
    → without d m xs ≡ without e n xs
unfolding without
without-agree d e m n [] h = refl
without-agree d e m n (x ∷ xs) h =
    let head : contains d m ≡ contains e n =
      ap (contains d) (omega arith) ∙ h 0 (omega arith) ∙ ap (contains e) (omega arith) in
    let tail = without-agree d e (m + 1) (n + 1) xs (λ k lt.
      ap (contains d) (omega arith)
      ∙ h (suc k) (omega (arith, lt))
      ∙ ap (contains e) (omega arith)) in
    rw (head, tail) refl

without-none :
    (d : List ℕ) (n : ℕ) (xs : List Text)
    → ((k : ℕ) → k < length xs → contains d (n + k) ≡ false)
    → without d n xs ≡ xs
unfolding without
without-none d n [] h = refl
without-none d n (x ∷ xs) h =
    let head : contains d n ≡ false = ap (contains d) (omega arith) ∙ h 0 (omega arith) in
    let tail =
      without-none d (n + 1) xs
        (λ k lt. ap (contains d) (omega arith) ∙ h (suc k) (omega (arith, lt))) in
    rw (head, tail) refl

module _ (at count : ℕ) where
  shifted-below : (d : List ℕ) (k : ℕ) → k < at → contains (shifted at count d) k ≡ contains d k
  unfolding shifted
  shifted-below [] k h = refl
  shifted-below (i ∷ d) k h = ground (arith, shifted-below d k h)

  shifted-inside :
      (d : List ℕ) (k : ℕ) → at ≤ k → k < at + count → contains (shifted at count d) k ≡ false
  unfolding shifted
  shifted-inside [] k lo hi = refl
  shifted-inside (i ∷ d) k lo hi = ground (arith, shifted-inside d k lo hi)

  shifted-above :
      (d : List ℕ) (k : ℕ) → at ≤ k → contains (shifted at count d) (k + count) ≡ contains d k
  unfolding shifted
  shifted-above [] k lo = refl
  shifted-above (i ∷ d) k lo = ground (arith, shifted-above d k lo)

length-take : (n : ℕ) (xs : List Text) → n ≤ length xs → length (take n xs) ≡ n
unfolding take
length-take zero xs h = refl
length-take (suc n) [] h = absurd (omega arith)
length-take (suc n) (x ∷ xs) h = omega (arith, length-take n xs (omega arith))

-- Inserting lines and then deleting by moved indices leaves, around the new lines, the old lines in their
-- order but for the doomed ones.
pub insert_and_delete-without :
    (at : ℕ) (new : List Text) (doomed : List ℕ) (lines : List Text)
    → at ≤ length lines
    → insert_and_delete at new doomed lines
      ≡ without doomed 0 (take at lines) ++ (new ++ without doomed at (drop at lines))
unfolding insert_and_delete
insert_and_delete-without at [] doomed lines h =
    ap (without doomed 0) (sym (take-drop at lines))
    ∙ without-append doomed 0 (take at lines) (drop at lines)
    ∙ ap (λ n. without doomed 0 (take at lines) ++ without doomed n (drop at lines))
        (omega (arith, length-take at lines h))
insert_and_delete-without at (line ∷ new) doomed lines h =
    let count = length (line ∷ new) in
    let moved = shifted at count doomed in
    let size = length-take at lines h in
    let below =
      without-agree moved doomed 0 0 (take at lines)
        (λ k lt. shifted-below at count doomed (0 + k) (omega (arith, lt, size))) in
    let inside =
      without-none moved (0 + length (take at lines)) (line ∷ new) (λ k lt.
        shifted-inside at count doomed _ (omega (arith, size)) (omega (arith, size, lt))) in
    let above =
      without-agree moved doomed (0 + length (take at lines) + count) at (drop at lines) (λ k lt.
        ap (contains moved) (omega (arith, size))
        ∙ shifted-above at count doomed (at + k) (omega arith)) in
    without-append moved 0 (take at lines) ((line ∷ new) ++ drop at lines)
    ∙ ap (λ rest. without moved 0 (take at lines) ++ rest)
        (without-append moved (0 + length (take at lines)) (line ∷ new) (drop at lines))
    ∙ rw (below, inside, above) refl
