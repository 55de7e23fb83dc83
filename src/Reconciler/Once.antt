-- ===== src/Reconciler/Once.antt =====
-- The directory that a terminal transition of drop/reconciler.py leaves, and a second transition.
use hermes_drop.Base.{
  ℕ, ◌≡◌, ap, ◌∙◌, inl, inr, Bool, true, none, some, List, arith, option_eq, string_eq, nat_eq,
  Bool-cases, Option-cases,
}
use hermes_drop.Base.{Text, text_eq}
use hermes_drop.Base.Dict
use hermes_drop.Base.Dict.{Dict}
use hermes_drop.Base.Exec.{raise, ok, pure, gets, ◌>>=◌}
use hermes_drop.Routing.{routing_eq}
use hermes_drop.Journal.Entry.{
  is_unhashable, key_eq, flag, number, string, Entry, drop_id, state, updated_at, edit_failed, get,
  is_terminal, is_drop_id, validate_entry, text_of,
}
use hermes_drop.Journal.Store.{Directory, get_drop}
use hermes_drop.World.{Outside, World, Action, ask, show, update_drop, update_status, required}
use hermes_drop.Base.Exec.Keeps.{Keeps-pure, Keeps-bind}
use hermes_drop.World.Updates.{KeepsDir}
use hermes_drop.Base.Exec.Returns.{bind-ok}
use hermes_drop.Journal.Write.{merge, killed, renamed, interrupted, write, write_until}
use hermes_drop.Journal.Sound.{IsSound, interrupted-IsSound}
use hermes_drop.Journal.Claims.{get_drop-text, get_drop-good, get_drop-write}
use hermes_drop.Journal.Atomic.{validate_entry-allowed}
use hermes_drop.Journal.Update.{IsSettled, merged, get-merged}
use hermes_drop.World.Updates.{IsDone, update_drop-IsDone}
use hermes_drop.World.Changes.{closing}
use hermes_drop.Origin.{Origin}
use hermes_drop.Announce.{announce_pending}
use hermes_drop.Announce.Keeps.{announce_pending-keeps}
use hermes_drop.Reconciler.Finalize.{
  Finalized, duplicate, done, edit_notice, transition, finalize_terminal,
}
use hermes_drop.Reconciler.Settled.{IsSettled-IsStable, closing-absent, finalize_terminal-once}

-- The state that a transition writes.
merged-state :
    (now : ℕ) (t : Text) (refused : Bool) (e : Entry)
    → get state (merged now (closing t refused) e) ≡ string t
unfolding merge
merged-state now t refused e =
    let e₁ = Dict.insert state (string t) e in
    let e₂ = Dict.insert edit_failed (flag refused) e₁ in
    ground (
      arith,
      Dict.lookup-insert state state (string t) e,
      Dict.lookup-insert state edit_failed (flag refused) e₁,
      Dict.lookup-insert state updated_at (number now) e₂,
    )

merged-id :
    (now : ℕ) (t : Text) (refused : Bool) (e : Entry)
    → get drop_id (merged now (closing t refused) e) ≡ get drop_id e
merged-id now t refused e =
    get-merged drop_id now (closing t refused) e (λ p. ground arith) (closing-absent t refused)

written-get_drop :
    (s : Text) (f : Entry) (temp now : ℕ) (d : Directory)
    → validate_entry f ≡ none
    → is_drop_id (string s) ≡ true
    → text_of (get drop_id f) ≡ s
    → get_drop (string s) (write (text_of (get drop_id f)) f temp now d) ≡ some f
written-get_drop s f temp now d valid good named =
    ground (
      arith,
      get_drop-write s (text_of (get drop_id f)) f temp now d,
      validate_entry-allowed f valid,
    )

closed-IsSettled :
    (o : Outside) (s t : Text) (refused : Bool) (w : World)
    → IsSound w.directory
    → IsDone o s (closing t refused) w
    → IsSettled s (string t) (update_drop o (string s) (closing t refused) w).1.directory
unfolding write_until interrupted
closed-IsSettled o s t refused w sound d =
    let u = d.is_update in
    let stem : Text = text_of (get drop_id d.entry) in
    let named : stem ≡ s =
      ap (λ x. text_of (get drop_id x)) u.made
      ∙ (ap text_of (merged-id d.now t refused u.current)
          ∙ get_drop-text s w.directory u.current sound u.found) in
    let good = get_drop-good s w.directory u.current u.found in
    record {
      sound =
          rw d.after
            (interrupted-IsSound (killed renamed) d.entry d.temp d.now w.directory u.valid sound);
      entry = d.entry;
      stands = rw d.after (written-get_drop s d.entry d.temp d.now w.directory u.valid good named);
      has = ap (get state) u.made ∙ merged-state d.now t refused u.current;
    }

module _ (o : Outside) (origin : Origin) (s t : Text) (over : is_terminal (string t) ≡ true) where
  edit_notice-directory :
      (e : Entry) (w : World) → (edit_notice o origin e t w).1.directory ≡ w.directory
  unfolding edit_notice update_status ask show pure ◌>>=◌
  edit_notice-directory e w = ground arith

  -- The transition once the edit is done, and once the write is.
  abbrev announcing : Bool → Action Finalized
  announcing refused = announce_pending o origin.lane >>= λ ids. pure (done refused ids)

  abbrev closing_it : Bool → Action Finalized
  closing_it refused = update_drop o (string s) (closing t refused) >>= λ _. announcing refused

  announcing-keeps : (refused : Bool) → KeepsDir (IsSettled s (string t)) (announcing refused)
  announcing-keeps refused =
      Keeps-bind _ _
        (announce_pending-keeps o (IsSettled s (string t)) (IsSettled-IsStable s (string t) over)
          origin.lane)
        (λ ids. Keeps-pure (done refused ids))

  closing_it-IsSettled :
      (refused : Bool) (current : Entry) (w : World) (r : Finalized)
      → IsSound w.directory
      → get_drop (string s) w.directory ≡ some current
      → (closing_it refused w).0 ≡ ok r
      → IsSettled s (string t) (closing_it refused w).1.directory
  closing_it-IsSettled refused current w r sound found h =
      let (a, got, rest) =
        bind-ok (update_drop o (string s) (closing t refused)) (λ _. announcing refused) w r h in
      let d = update_drop-IsDone o s (closing t refused) w current a found got in
      rw rest ((announcing-keeps refused).at _ (closed-IsSettled o s t refused w sound d))

  transition-IsSettled :
      (current : Entry) (w : World) (r : Finalized)
      → IsSound w.directory
      → get_drop (string s) w.directory ≡ some current
      → (transition o origin (string s) current t w).0 ≡ ok r
      → IsSettled s (string t) (transition o origin (string s) current t w).1.directory
  unfolding transition
  transition-IsSettled current w r sound found h =
      let (refused, _, rest) = bind-ok (edit_notice o origin current t) closing_it w r h in
      let same = edit_notice-directory current w in
      rw rest (
        closing_it-IsSettled refused current (edit_notice o origin current t w).1 r (rw same sound)
          (rw same found) (rw rest at h))

  pub finalize_terminal-done :
      (e : Entry) (w : World) (refused : Bool) (ids : List Text)
      → IsSound w.directory
      → Dict.lookup drop_id e ≡ some (string s)
      → (finalize_terminal o origin e t w).0 ≡ ok (done refused ids)
      → IsSettled s (string t) (finalize_terminal o origin e t w).1.directory
  unfolding finalize_terminal required gets pure raise ◌>>=◌
  finalize_terminal-done e w refused ids sound has h =
      rw (has, required)
        (elim (Option-cases (get_drop (string s) w.directory)) [
          | inl missing ↦ absurd (ground arith)
          | inr (current, found) ↦ elim (Bool-cases (is_unhashable (get state current))) [
            | inl bad ↦ absurd (ground arith)
            | inr good ↦ elim (Bool-cases (is_terminal (get state current))) [
              | inl past ↦ absurd (ground arith)
              | inr still ↦
                  rw (found, good, still)
                    (transition-IsSettled current w (done refused ids) sound found (ground arith))
            ]
          ]
        ])

-- Once a terminal transition has returned as done, any other of the same drop, from whatever copy of
-- its entry, in whatever conversation and to whatever state, is a duplicate that changes nothing.
pub finalize_terminal-twice :
    (o : Outside) (w : World) (origin other : Origin) (e f : Entry) (s t u : Text) (refused : Bool)
    (ids : List Text)
    → IsSound w.directory
    → is_terminal (string t) ≡ true
    → Dict.lookup drop_id e ≡ some (string s)
    → Dict.lookup drop_id f ≡ some (string s)
    → (finalize_terminal o origin e t w).0 ≡ ok (done refused ids)
    → let after = (finalize_terminal o origin e t w).1 in
      finalize_terminal o other f u after ≡ (ok duplicate, after)
finalize_terminal-twice o w origin other e f s t u refused ids sound over has again h =
    let settled = finalize_terminal-done o origin s t over e w refused ids sound has h in
    let (_, second) =
      finalize_terminal-once o (finalize_terminal o origin e t w).1 other f (string s) u again in
    second settled.entry settled.stands (rw settled.has over)
