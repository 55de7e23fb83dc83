-- ===== src/Journal/Reads.antt =====
-- Properties of every entry that a reader can find in the directory, which writes of entries with the
-- property keep.
use hermes_drop.Base.{
  ℕ, ◌≡◌, sym, inl, inr, not, none, some, [], ◌∷◌, arith, ◌==◌, option_eq, string_eq, nat_eq,
  Bool-cases, Option-cases, keep, All,
}
use hermes_drop.Base.{
  ℕ, ◌≡◌, sym, inl, inr, not, none, some, [], ◌∷◌, arith, ◌==◌, option_eq, string_eq, nat_eq,
  Bool-cases, Option-cases, keep, All,
}
use hermes_drop.Base.{Text, text_eq}
use hermes_drop.Base.Dict
use hermes_drop.Base.Dict.{Dict}
use hermes_drop.Routing.{routing_eq}
use hermes_drop.Journal.Entry.{key_eq, is_allowed, string, Entry, validate_entry}
use hermes_drop.Journal.Store.{
  FileName, entry_file, temp_file, name_eq, File, parsed, unreadable, Directory, read, read_all,
  entry_files, by_name, by_age, entries, get_drop,
}
use hermes_drop.Journal.Write.{
  Moment, swept, opened, synced, renamed, write_until, sweep_orphans, is_orphan, Interruption,
  killed, raised, interrupted,
}
use hermes_drop.Journal.Atomic.{validate_entry-allowed}
use hermes_drop.Journal.Sound.{All-keep, All-sort, All-insert, All-erase}

module _ (Q : Entry → Type 0) where
  -- What a file says, if it says anything.
  abbrev pub ReadAs : FileName × File → Type 0
  ReadAs (n, f) = (e : Entry) → read f.body ≡ some e → Q e

  abbrev pub IsReadAs : Directory → Type 0
  IsReadAs d = All ReadAs d

  ReadAs-parsed :
      (n : FileName) (f : Entry) (now : ℕ)
      → validate_entry f ≡ none
      → Q f
      → ReadAs (n, record { body = parsed f; mtime = now })
  unfolding read
  ReadAs-parsed n f now valid q e h = rw (sym (same e h)) q
    where
      same : (e : Entry) → some (keep (λ (k, v). is_allowed k) f) ≡ some e → f ≡ e
      same e h = ground (arith, validate_entry-allowed f valid)

  ReadAs-unreadable :
      (n : FileName) (now : ℕ) → ReadAs (n, record { body = unreadable; mtime = now })
  unfolding read
  ReadAs-unreadable n now e h = absurd (ground arith)

  write_until-IsReadAs :
      (m : Moment) (stem : Text) (f : Entry) (temp now : ℕ) (d : Directory)
      → validate_entry f ≡ none
      → Q f
      → IsReadAs d
      → IsReadAs (write_until m stem f temp now d)
  unfolding write_until sweep_orphans
  write_until-IsReadAs swept stem f temp now d v q h =
      All-keep ReadAs (λ g. not (is_orphan now g)) d h
  write_until-IsReadAs opened stem f temp now d v q h =
      All-insert ReadAs (temp_file temp) _ _ (ReadAs-unreadable (temp_file temp) now)
        (All-keep ReadAs (λ g. not (is_orphan now g)) d h)
  write_until-IsReadAs synced stem f temp now d v q h =
      All-insert ReadAs (temp_file temp) _ _ (ReadAs-parsed (temp_file temp) f now v q)
        (All-keep ReadAs (λ g. not (is_orphan now g)) d h)
  write_until-IsReadAs renamed stem f temp now d v q h =
      All-insert ReadAs (entry_file stem) _ _ (ReadAs-parsed (entry_file stem) f now v q)
        (All-erase ReadAs (temp_file temp) _ (All-keep ReadAs (λ g. not (is_orphan now g)) d h))

  pub interrupted-IsReadAs :
      (i : Interruption) (stem : Text) (f : Entry) (temp now : ℕ) (d : Directory)
      → validate_entry f ≡ none
      → Q f
      → IsReadAs d
      → IsReadAs (interrupted i stem f temp now d)
  unfolding interrupted
  interrupted-IsReadAs (killed m) stem f temp now d v q h =
      write_until-IsReadAs m stem f temp now d v q h
  interrupted-IsReadAs (raised m) stem f temp now d v q h =
      All-erase ReadAs (temp_file temp) _ (write_until-IsReadAs m stem f temp now d v q h)

  lookup-ReadAs :
      (n : FileName) (file : File) (d : Directory)
      → IsReadAs d
      → Dict.lookup n d ≡ some file
      → (e : Entry) → read file.body ≡ some e
      → Q e
  unfolding Dict.lookup
  lookup-ReadAs n file [] _ found e r = absurd (ground arith)
  lookup-ReadAs n file ((m, g) ∷ d) (h, hs) found e r = elim (Bool-cases (n == m)) [
    | inl same ↦ h e (ground arith)
    | inr other ↦ lookup-ReadAs n file d hs (ground arith) e r
  ]

  pub get_drop-ReadAs :
      (s : Text) (d : Directory) (e : Entry) → IsReadAs d → get_drop (string s) d ≡ some e → Q e
  unfolding get_drop
  get_drop-ReadAs s d e h f = elim (Option-cases (Dict.lookup (entry_file s) d)) [
    | inl missing ↦ absurd (ground arith)
    | inr (file, found) ↦ lookup-ReadAs (entry_file s) file d h found e (ground arith)
  ]

  read_all-All : (d : Directory) → IsReadAs d → All Q (read_all d)
  unfolding read_all
  read_all-All [] _ = tt
  read_all-All ((n, f) ∷ d) (h, hs) = elim (Option-cases (read f.body)) [
    | inl no_entry ↦ rw (no_entry, All) (read_all-All d hs)
    | inr (e, there) ↦ rw (there, All) (h e there, read_all-All d hs)
  ]

  pub entries-All : (d : Directory) → IsReadAs d → All Q (entries d)
  unfolding entries entry_files
  entries-All d h =
      All-sort Q by_age _ (read_all-All _ (All-sort ReadAs by_name _ (All-keep ReadAs _ d h)))
