-- ===== src/World/Refines.antt =====
-- An update of the journal against the journal as a map from drops to entries.
use hermes_drop.Base.{
  ℕ, ◌+◌, ◌≡◌, refl, ap, ◌∙◌, inl, inr, true, Option, none, some, arith, if◌then◌else◌, ◌==◌,
  option_eq, string_eq, nat_eq, Bool-cases, Option-cases,
}
use hermes_drop.Base.{Text, text_eq}
use hermes_drop.Base.Dict.{Dict}
use hermes_drop.Base.Exec.{Result, ok, raised, pure, raise, gets, ◌>>=◌}
use hermes_drop.Routing.{routing_eq}
use hermes_drop.Journal.Entry.{Key, key_eq, Value, string, Entry, drop_id, get, text_of}
use hermes_drop.Journal.Store.{Directory, get_drop}
use hermes_drop.World.{Outside, World, ask, show, set_directory, update_drop}
use hermes_drop.Journal.Write.{
  Moment, raised as write_raised, interrupted, write, Written, rejected, absent, written, put,
  update,
}
use hermes_drop.Journal.Atomic.{IsSameTo, interrupted-IsSameTo, validate_entry-allowed}
use hermes_drop.Journal.Entry.{is_drop_id, validate_entry}
use hermes_drop.Journal.Sound.{IsSound}
use hermes_drop.Journal.Claims.{get_drop-text, get_drop-good, get_drop-write}
use hermes_drop.Journal.Update.{
  AbsentFrom, IsUpdate, update-IsUpdate, update-write, merged, get-merged, get_drop-IsSameTo,
}
use hermes_drop.World.{commit}

-- The journal without its files: the entry of every drop that has one.
abbrev pub AbstractJournal : Type 0
AbstractJournal = Text → Option Entry

abbrev pub abstract : Directory → AbstractJournal
abstract d id = get_drop (string id) d

abbrev pub set : Text → Entry → AbstractJournal → AbstractJournal
set id e a j = if j == id then some e else a j

-- What an update promises: nothing where there is no entry; the whole change, or, where it raises,
-- nothing or the whole change.
pub data Updates (s : Text) (changes : Dict Key Value) (a : AbstractJournal)
    : Result (Option Entry) → AbstractJournal → Type 0 where
  nothing_there : a s ≡ none → Updates s changes a (ok none) a
  made :
      (now : ℕ) (e : Entry)
      → a s ≡ some e
      → Updates s changes a (ok (some (merged now changes e))) (set s (merged now changes e) a)
  failed : Updates s changes a raised a
  failed_late :
      (now : ℕ) (e : Entry)
      → a s ≡ some e
      → Updates s changes a raised (set s (merged now changes e) a)

module _ (s : Text) (changes : Dict Key Value) (own : AbsentFrom drop_id changes) where
  -- A whole write, as the map sees it.
  named :
      (now : ℕ) (d : Directory) (f : Entry)
      → IsSound d
      → IsUpdate s changes now d f
      → text_of (get drop_id f) ≡ s
  named now d f sound u =
      ap (λ x. text_of (get drop_id x)) u.made
      ∙ (ap text_of (get-merged drop_id now changes u.current (λ p. ground arith) own)
          ∙ get_drop-text s d u.current sound u.found)

  write-at :
      (j : Text) (temp now : ℕ) (d : Directory) (f : Entry)
      → validate_entry f ≡ none
      → is_drop_id (string s) ≡ true
      → text_of (get drop_id f) ≡ s
      → get_drop (string j) (write (text_of (get drop_id f)) f temp now d)
        ≡ (if j == s then some f else get_drop (string j) d)
  write-at j temp now d f valid good name = elim (Bool-cases (j == s)) [
    | inl here ↦ ground (
      arith,
      get_drop-write j (text_of (get drop_id f)) f temp now d,
      validate_entry-allowed f valid,
    )
    | inr other ↦ ground (arith, get_drop-write j (text_of (get drop_id f)) f temp now d)
  ]

  write-abstract :
      (temp now : ℕ) (d : Directory) (f : Entry)
      → IsSound d
      → IsUpdate s changes now d f
      → abstract (write (text_of (get drop_id f)) f temp now d) ≡ set s f (abstract d)
  write-abstract temp now d f sound u = λ i j. at j i
    where
      at :
          (j : Text)
          → abstract (write (text_of (get drop_id f)) f temp now d) j ≡ set s f (abstract d) j
      at j =
          write-at j temp now d f u.valid (get_drop-good s d u.current u.found)
            (named now d f sound u)

  same-abstract : (d e : Directory) → IsSameTo d e → abstract d ≡ abstract e
  same-abstract d e same = λ i j. get_drop-IsSameTo j d e same i

  broken-Updates :
      (m : Moment) (temp now : ℕ) (d : Directory) (f : Entry)
      → IsSound d
      → IsUpdate s changes now d f
      → Updates s changes
          (abstract d)
          raised
          (abstract (interrupted (write_raised m) (text_of (get drop_id f)) f temp now d))
  broken-Updates m temp now d f sound u =
      elim (interrupted-IsSameTo (write_raised m) (text_of (get drop_id f)) f temp now d) [
        | inl same ↦ rw (same-abstract _ d same) failed
        | inr same ↦
            rw
              (
                same-abstract _ (write (text_of (get drop_id f)) f temp now d) same,
                write-abstract temp now d f sound u,
                u.made,
              )
              (failed_late now u.current u.found)
      ]

  whole-Updates :
      (temp now : ℕ) (d : Directory) (f : Entry)
      → IsSound d
      → IsUpdate s changes now d f
      → Updates s changes
          (abstract d)
          (ok (some f))
          (abstract (write (text_of (get drop_id f)) f temp now d))
  whole-Updates temp now d f sound u =
      rw (write-abstract temp now d f sound u, u.made) (made now u.current u.found)

  update-missing :
      (temp now : ℕ) (d : Directory)
      → (update (string s) changes temp now d).0 ≡ absent
      → get_drop (string s) d ≡ none
  unfolding update put
  update-missing temp now d h = ground arith

  commit-Updates :
      (o : Outside) (temp now : ℕ) (r : Written) (d : Directory) (w : World)
      → IsSound w.directory
      → (r ≡ absent → get_drop (string s) w.directory ≡ none)
      → ((f : Entry) → r ≡ written f → IsUpdate s changes now w.directory f)
      → ((f : Entry) → r ≡ written f → d ≡ write (text_of (get drop_id f)) f temp now w.directory)
      → let (result, after) = commit o temp now (r, d) w in
        Updates s changes (abstract w.directory) result (abstract after.directory)
  unfolding commit ask show set_directory ◌>>=◌ raise gets pure
  commit-Updates o temp now (rejected x) d w sound none_there u whole = failed
  commit-Updates o temp now absent d w sound none_there u whole = nothing_there (none_there refl)
  commit-Updates o temp now (written f) d w sound none_there u whole =
      elim (Option-cases (o.write_raises w.questions)) [
        | inl done ↦ rw (done, whole f refl) (whole-Updates temp now w.directory f sound (u f refl))
        | inr (m, fault) ↦ rw fault (broken-Updates m temp now w.directory f sound (u f refl))
      ]

-- An update of the journal, in a sound directory, is one of its promised steps on the map from drops
-- to entries: a missing drop changes nothing, a written change is the whole change to that one drop,
-- and an update that raises has made the whole change or none.
pub update_drop-refines :
    (o : Outside) (s : Text) (changes : Dict Key Value) (w : World)
    → AbsentFrom drop_id changes
    → IsSound w.directory
    → let (result, after) = update_drop o (string s) changes w in
      Updates s changes (abstract w.directory) result (abstract after.directory)
unfolding update_drop ask ◌>>=◌ gets
update_drop-refines o s changes w own sound =
    let temp = o.temp w.questions in
    let now = o.clock (w.questions + 1) in
    let d = w.directory in
    commit-Updates s changes own o temp now (update (string s) changes temp now d).0
      (update (string s) changes temp now d).1 (record w { questions = w.questions + 1 + 1 }) sound
      (update-missing s changes own temp now d) (λ f eq. update-IsUpdate s changes temp now d f eq)
      (λ f eq. update-write s changes temp now d f eq)
