-- ===== src/Journal/Atomic.antt =====
-- Journal writes that are killed or raise, as a reader of the directory sees them.
use hermes_drop.Base.{
  ℕ, ◌≡◌, refl, ◌∙◌, ◌≢◌, ◌⊎◌, inl, inr, false, not, none, some, [], ◌∷◌, arith, if◌then◌else◌,
  ◌==◌, option_eq, string_eq, nat_eq, keep, any,
}
use hermes_drop.Base.{Text, text_eq}
use hermes_drop.Base.Dict
use hermes_drop.Base.Dict.{Dict}
use hermes_drop.Routing.{routing_eq}
use hermes_drop.Journal.Entry.{key_eq, is_allowed, Entry, validate_entry}
use hermes_drop.Journal.Store.{
  entry_file, temp_file, name_eq, parsed, File, Directory, entry_files, entries,
}
use hermes_drop.Journal.Write.{
  sweep_orphans, Moment, swept, opened, synced, renamed, write_until, write, Interruption, killed,
  raised, interrupted,
}

-- Two directories that no reader can tell apart.
pub record IsSameTo (d e : Directory) : Type 0 where
  pub listed : entry_files d ≡ entry_files e
  pub named : (s : Text) → Dict.lookup (entry_file s) d ≡ Dict.lookup (entry_file s) e

entry_files-sweep : (now : ℕ) (d : Directory) → entry_files (sweep_orphans now d) ≡ entry_files d
unfolding entry_files sweep_orphans keep
entry_files-sweep now [] = refl
entry_files-sweep now ((entry_file s, f) ∷ d) = ground (arith, entry_files-sweep now d)
entry_files-sweep now ((temp_file n, f) ∷ d) = ground (arith, entry_files-sweep now d)

pub lookup-sweep :
    (s : Text) (now : ℕ) (d : Directory)
    → Dict.lookup (entry_file s) (sweep_orphans now d) ≡ Dict.lookup (entry_file s) d
unfolding sweep_orphans keep Dict.lookup
lookup-sweep s now [] = refl
lookup-sweep s now ((entry_file t, f) ∷ d) = ground (arith, lookup-sweep s now d)
lookup-sweep s now ((temp_file n, f) ∷ d) = ground (arith, lookup-sweep s now d)

entry_files-insert :
    (n : ℕ) (f : File) (d : Directory) → entry_files (Dict.insert (temp_file n) f d) ≡ entry_files d
unfolding entry_files keep Dict.insert
entry_files-insert n f [] = refl
entry_files-insert n f ((entry_file t, g) ∷ d) = ground (arith, entry_files-insert n f d)
entry_files-insert n f ((temp_file m, g) ∷ d) = ground (arith, entry_files-insert n f d)

entry_files-erase :
    (n : ℕ) (d : Directory) → entry_files (Dict.erase (temp_file n) d) ≡ entry_files d
unfolding entry_files keep Dict.erase
entry_files-erase n [] = refl
entry_files-erase n ((entry_file t, g) ∷ d) = ground (arith, entry_files-erase n d)
entry_files-erase n ((temp_file m, g) ∷ d) = ground (arith, entry_files-erase n d)

entry-temp : (s : Text) (n : ℕ) → entry_file s ≢ temp_file n
entry-temp s n p = ground arith

lookup-insert_temp :
    (s : Text) (n : ℕ) (f : File) (d : Directory)
    → Dict.lookup (entry_file s) (Dict.insert (temp_file n) f d) ≡ Dict.lookup (entry_file s) d
lookup-insert_temp s n f d =
    ground (arith, Dict.lookup-insert (entry_file s) (temp_file n) f d, entry-temp s n)

lookup-erase_temp :
    (s : Text) (n : ℕ) (d : Directory)
    → Dict.lookup (entry_file s) (Dict.erase (temp_file n) d) ≡ Dict.lookup (entry_file s) d
lookup-erase_temp s n d =
    ground (arith, Dict.lookup-erase (entry_file s) (temp_file n) d, entry-temp s n)

sweep-IsSameTo : (now : ℕ) (d : Directory) → IsSameTo (sweep_orphans now d) d
sweep-IsSameTo now d = record {
  listed = entry_files-sweep now d;
  named = λ s. lookup-sweep s now d;
}

insert-IsSameTo : (n : ℕ) (f : File) (d : Directory) → IsSameTo (Dict.insert (temp_file n) f d) d
insert-IsSameTo n f d = record {
  listed = entry_files-insert n f d;
  named = λ s. lookup-insert_temp s n f d;
}

erase-IsSameTo : (n : ℕ) (d : Directory) → IsSameTo (Dict.erase (temp_file n) d) d
erase-IsSameTo n d = record { listed = entry_files-erase n d; named = λ s. lookup-erase_temp s n d }

trans-IsSameTo : (a b c : Directory) → IsSameTo a b → IsSameTo b c → IsSameTo a c
trans-IsSameTo a b c p q = record {
  listed = p.listed ∙ q.listed;
  named = λ s. p.named s ∙ q.named s;
}

same-IsSameTo : (d : Directory) → IsSameTo d d
same-IsSameTo d = record { listed = refl; named = λ s. refl }

write_until-IsSameTo :
    (m : Moment) (s : Text) (e : Entry) (temp now : ℕ) (d : Directory)
    → IsSameTo (write_until m s e temp now d) d ⊎ (m ≡ renamed)
unfolding write_until
write_until-IsSameTo swept s e temp now d = inl (sweep-IsSameTo now d)
write_until-IsSameTo opened s e temp now d = inl (
    trans-IsSameTo _ (sweep_orphans now d) d (insert-IsSameTo temp _ (sweep_orphans now d))
      (sweep-IsSameTo now d))
write_until-IsSameTo synced s e temp now d = inl (
    trans-IsSameTo _ (sweep_orphans now d) d (insert-IsSameTo temp _ (sweep_orphans now d))
      (sweep-IsSameTo now d))
write_until-IsSameTo renamed s e temp now d = inr refl

-- A write that is killed at any moment, or raises at any, leaves a directory that reads, in its list
-- of entries and in every lookup by name, as it read before the write or as it reads after the whole
-- write.
pub interrupted-IsSameTo :
    (i : Interruption) (s : Text) (e : Entry) (temp now : ℕ) (d : Directory)
    → IsSameTo (interrupted i s e temp now d) d
      ⊎ IsSameTo (interrupted i s e temp now d) (write s e temp now d)
unfolding interrupted
interrupted-IsSameTo (killed m) s e temp now d = elim (write_until-IsSameTo m s e temp now d) [
  | inl same ↦ inl same
  | inr done ↦ rw done (inr (same-IsSameTo (write s e temp now d)))
]
interrupted-IsSameTo (raised m) s e temp now d = elim (write_until-IsSameTo m s e temp now d) [
  | inl same ↦ inl (trans-IsSameTo _ _ _ (erase-IsSameTo temp _) same)
  | inr done ↦ rw done (inr (erase-IsSameTo temp (write s e temp now d)))
]

-- Directories that no reader can tell apart list the same entries.
pub entries-IsSameTo : (d e : Directory) → IsSameTo d e → entries d ≡ entries e
unfolding entries
entries-IsSameTo d e same = rw same.listed refl

pub lookup-write :
    (j s : Text) (e : Entry) (temp now : ℕ) (d : Directory)
    → Dict.lookup (entry_file j) (write s e temp now d) ≡ (
        if entry_file j == entry_file s
        then some (record { body = parsed e; mtime = now })
        else Dict.lookup (entry_file j) d)
unfolding write_until
lookup-write j s e temp now d =
    rw
      (
        Dict.lookup-insert (entry_file j) (entry_file s) (record { body = parsed e; mtime = now })
            (Dict.erase (temp_file temp) (sweep_orphans now d)),
        lookup-erase_temp j temp (sweep_orphans now d),
        lookup-sweep j now d,
      )
      refl

allowed-keep :
    (e : Entry) → any (λ (k, _). not (is_allowed k)) e ≡ false → keep (λ (k, _). is_allowed k) e ≡ e
unfolding any keep
allowed-keep [] h = refl
allowed-keep ((k, v) ∷ e) h = ground (arith, allowed-keep e)

pub validate_entry-allowed :
    (e : Entry) → validate_entry e ≡ none → keep (λ (k, _). is_allowed k) e ≡ e
unfolding validate_entry
validate_entry-allowed e h = ground (arith, allowed-keep e)
