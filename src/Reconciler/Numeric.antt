-- ===== src/Reconciler/Numeric.antt =====
-- The two numbers of an entry that a pass of drop/reconciler.py reads outside any `try`, and the updates
-- of the journal.
use hermes_drop.World.{is_unhashable_id, Outside}
use hermes_drop.Base.{Option, none, some, false, if◌then◌else◌}
use hermes_drop.Base.{
  ℕ, ◌≡◌, refl, ◌≢◌, inl, Bool, true, [], ◌∷◌, arith, option_eq, string_eq, nat_eq,
}
use hermes_drop.Base.{Text, text_eq}
use hermes_drop.Base.Dict
use hermes_drop.Base.Dict.{Dict}
use hermes_drop.Routing.{routing_eq}
use hermes_drop.Journal.Entry.{
  Key, key_eq, Value, null, number, string, composite, Entry, drop_id, updated_at, announced_at,
  announce_attempts, state, edit_failed, flag, is_unhashable, get, text_of,
}
use hermes_drop.World.{is_truthy}
use hermes_drop.World.Updates.{Survives}
use hermes_drop.Journal.Write.{merge}
use hermes_drop.Journal.Update.{AbsentFrom, merged, get-merged}
use hermes_drop.Journal.Reads.{IsReadAs, interrupted-IsReadAs, get_drop-ReadAs}
use hermes_drop.World.Changes.{Tick, tried, told, reopened, repaired, kinded, closing, IsStable}

abbrev pub is_some : Option ℕ → Bool
is_some none = false
is_some (some n) = true

-- What `int(value)` or `float(value)` reads, by what it makes of a text; `None` is not put to it.
abbrev pub is_read : (of_text : Text → Option ℕ) → Value → Bool
is_read of_text (string s) = is_some (of_text s)
is_read of_text (composite s) = false
is_read of_text _ = true

-- What `int(value or 0)` or `float(value or 0)` reads.
abbrev pub is_readable : (of_text : Text → Option ℕ) → Value → Bool
is_readable of_text v = if is_truthy v then is_read of_text v else true

number-readable : (of_text : Text → Option ℕ) (n : ℕ) → is_readable of_text (number n) ≡ true
number-readable of_text n = ground arith

module _ (o : Outside) where
  -- An entry whose wake reads by `float` and whose attempts read by `int`, and whose state and
  -- name are neither lists nor objects.
  pub record IsNumeric (e : Entry) : Type 0 where
    pub wake : is_read o.float_of (get announced_at e) ≡ true
    pub tries : is_readable o.int_of (get announce_attempts e) ≡ true
    pub settles : is_unhashable (get state e) ≡ false
    pub names : is_unhashable_id (get drop_id e) ≡ false

  wake-told :
      (at n now : ℕ) (e : Entry)
      → get announced_at
          (merged now ((announced_at, number at) ∷ (announce_attempts, number n) ∷ []) e)
        ≡ number at
  unfolding merge
  wake-told at n now e =
      let f = Dict.insert announced_at (number at) e in
      let g = Dict.insert announce_attempts (number n) f in
      ground (
        arith,
        Dict.lookup-insert announced_at announced_at (number at) e,
        Dict.lookup-insert announced_at announce_attempts (number n) f,
        Dict.lookup-insert announced_at updated_at (number now) g,
      )

  tries-told :
      (at n now : ℕ) (e : Entry)
      → get announce_attempts
          (merged now ((announced_at, number at) ∷ (announce_attempts, number n) ∷ []) e)
        ≡ number n
  unfolding merge
  tries-told at n now e =
      let f = Dict.insert announced_at (number at) e in
      let g = Dict.insert announce_attempts (number n) f in
      ground (
        arith,
        Dict.lookup-insert announce_attempts announce_attempts (number n) f,
        Dict.lookup-insert announce_attempts updated_at (number now) g,
      )

  last-merged :
      (k : Key) (v : Value) (now : ℕ) (e : Entry)
      → k ≢ updated_at
      → get k (merged now ((k, v) ∷ []) e) ≡ v
  unfolding merge
  last-merged k v now e other = ground (
    arith,
    Dict.lookup-insert k k v e,
    Dict.lookup-insert k updated_at (number now) (Dict.insert k v e),
  )

  -- A value that a tick does not name.
  kept :
      (test : Value → Bool) {b : Bool} (k : Key) (now : ℕ) (changes : Dict Key Value) (e : Entry)
      → k ≢ updated_at
      → AbsentFrom k changes
      → test (get k e) ≡ b
      → test (get k (merged now changes e)) ≡ b
  kept test k now changes e other away h = rw (get-merged k now changes e other away) h

  Tick-IsNumeric :
      (now : ℕ) (changes : Dict Key Value) (e : Entry)
      → Tick changes
      → IsNumeric e
      → IsNumeric (merged now changes e)
  unfolding Dict.lookup key_eq
  Tick-IsNumeric now changes e (tried n) h = record {
    wake = kept (is_read o.float_of) announced_at now changes e (λ p. ground arith) refl h.wake;
    tries =
        rw (last-merged announce_attempts (number n) now e (λ p. ground arith))
          (number-readable o.int_of n);
    settles = kept is_unhashable state now changes e (λ p. ground arith) refl h.settles;
    names = kept is_unhashable_id drop_id now changes e (λ p. ground arith) refl h.names;
  }
  Tick-IsNumeric now changes e (told at n) h = record {
    wake = rw (wake-told at n now e) refl;
    tries = rw (tries-told at n now e) (number-readable o.int_of n);
    settles = kept is_unhashable state now changes e (λ p. ground arith) refl h.settles;
    names = kept is_unhashable_id drop_id now changes e (λ p. ground arith) refl h.names;
  }
  Tick-IsNumeric now changes e reopened h = record {
    wake = rw (last-merged announced_at null now e (λ p. ground arith)) refl;
    tries =
        kept (is_readable o.int_of) announce_attempts now changes e (λ p. ground arith) refl
          h.tries;
    settles = kept is_unhashable state now changes e (λ p. ground arith) refl h.settles;
    names = kept is_unhashable_id drop_id now changes e (λ p. ground arith) refl h.names;
  }
  Tick-IsNumeric now changes e repaired h = record {
    wake = kept (is_read o.float_of) announced_at now changes e (λ p. ground arith) refl h.wake;
    tries =
        kept (is_readable o.int_of) announce_attempts now changes e (λ p. ground arith) refl
          h.tries;
    settles = kept is_unhashable state now changes e (λ p. ground arith) refl h.settles;
    names = kept is_unhashable_id drop_id now changes e (λ p. ground arith) refl h.names;
  }
  Tick-IsNumeric now changes e (kinded kind) h = record {
    wake = kept (is_read o.float_of) announced_at now changes e (λ p. ground arith) refl h.wake;
    tries =
        kept (is_readable o.int_of) announce_attempts now changes e (λ p. ground arith) refl
          h.tries;
    settles = kept is_unhashable state now changes e (λ p. ground arith) refl h.settles;
    names = kept is_unhashable_id drop_id now changes e (λ p. ground arith) refl h.names;
  }

  state-closing :
      (t : Text) (refused : Bool) (now : ℕ) (e : Entry)
      → get state (merged now (closing t refused) e) ≡ string t
  unfolding merge
  state-closing t refused now e =
      let f = Dict.insert state (string t) e in
      let g = Dict.insert edit_failed (flag refused) f in
      ground (
        arith,
        Dict.lookup-insert state state (string t) e,
        Dict.lookup-insert state edit_failed (flag refused) f,
        Dict.lookup-insert state updated_at (number now) g,
      )

  closing-IsNumeric :
      (now : ℕ) (t : Text) (refused : Bool) (e : Entry)
      → IsNumeric e
      → IsNumeric (merged now (closing t refused) e)
  unfolding Dict.lookup key_eq
  closing-IsNumeric now t refused e h = record {
    wake =
        kept (is_read o.float_of) announced_at now (closing t refused) e (λ p. ground arith) refl
          h.wake;
    tries =
        kept (is_readable o.int_of) announce_attempts now (closing t refused) e (λ p. ground arith)
          refl h.tries;
    settles = rw (state-closing t refused now e) refl;
    names =
        kept is_unhashable_id drop_id now (closing t refused) e (λ p. ground arith) refl h.names;
  }

  update-Survives :
      (id : Value) (changes : Dict Key Value)
      → ((now : ℕ) (e : Entry) → IsNumeric e → IsNumeric (merged now changes e))
      → Survives (IsReadAs IsNumeric) id changes
  update-Survives id changes k s i temp now d f same u h =
      interrupted-IsReadAs IsNumeric i (text_of (get drop_id f)) f temp now d u.valid
        (rw u.made (k now u.current (get_drop-ReadAs IsNumeric s d u.current h u.found))) h

  pub IsNumeric-IsStable : IsStable (IsReadAs IsNumeric)
  IsNumeric-IsStable = record {
    ticks = λ id changes t. update-Survives id changes (λ now e. Tick-IsNumeric now changes e t);
    closes = λ id. inl (λ t refused.
        update-Survives id (closing t refused) (λ now e. closing-IsNumeric now t refused e));
  }
