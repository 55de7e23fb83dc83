-- ===== src/Journal/Sound.antt =====
-- The journal's operations in any order, and the entries that its directory holds.
use hermes_drop.Base.{
  ℕ, ◌≡◌, refl, ◌⊎◌, inl, inr, Bool, true, false, not, ◌&&◌, none, some, List, [], ◌∷◌, arith, ◌==◌,
  option_eq, string_eq, nat_eq, Bool-cases, Option-cases, keep, any, All, keep-All,
}
use hermes_drop.Base.{Text, text_eq}
use hermes_drop.Base.Dict
use hermes_drop.Base.Dict.{Dict}
use hermes_drop.Routing.{routing_eq}
use hermes_drop.Journal.Entry.{
  Key, drop_id, key_eq, is_allowed, Value, null, flag, number, string, composite, Entry, get,
  text_of, is_drop_id, validate_entry,
}
use hermes_drop.Journal.Store.{
  FileName, entry_file, temp_file, name_eq, Body, unreadable, parsed, File, Directory, read,
  get_drop, place, sort, by_name, by_age, is_listed, entry_files, read_all, entries,
}
use hermes_drop.Journal.Write.{
  is_orphan, sweep_orphans, Moment, swept, opened, synced, renamed, write_until, Interruption,
  killed, raised, interrupted, put, update, delete,
}
use hermes_drop.Journal.Atomic.{validate_entry-allowed}

abbrev pub is_valid : Entry → Bool
is_valid e = elim (validate_entry e) [ none ↦ true | some r ↦ false ]

-- A file under an entry's name holds a whole entry, validated, of that very drop; a temp file, if it
-- holds anything, a validated entry.
unfoldable pub is_sound : FileName × File → Bool
is_sound (entry_file s, file) = elim file.body [
  | unreadable ↦ false
  | parsed e ↦ is_valid e && text_of (get drop_id e) == s
]
is_sound (temp_file n, file) = elim file.body [ unreadable ↦ true | parsed e ↦ is_valid e ]

abbrev pub IsSound : Directory → Type 0
IsSound = All (λ f. is_sound f ≡ true)

module _ {A : Type 0} (P : A → Type 0) where
  pub All-keep : (p : A → Bool) (xs : List A) → All P xs → All P (keep p xs)
  unfolding keep
  All-keep p [] h = tt
  All-keep p (x ∷ xs) (h, hs) = ground (arith, All-keep p xs hs)

  pub All-place :
      (before : A → A → Bool) (x : A) (xs : List A) → P x → All P xs → All P (place before x xs)
  unfolding place
  All-place before x [] h _ = (h, tt)
  All-place before x (y ∷ ys) h (g, gs) = ground (arith, All-place before x ys h gs)

  pub All-sort : (before : A → A → Bool) (xs : List A) → All P xs → All P (sort before xs)
  unfolding sort
  All-sort before [] _ = tt
  All-sort before (x ∷ xs) (h, hs) = All-place before x (sort before xs) h (All-sort before xs hs)

module _ (P : FileName × File → Type 0) where
  pub All-insert :
      (n : FileName) (f : File) (d : Directory) → P (n, f) → All P d → All P (Dict.insert n f d)
  unfolding Dict.insert
  All-insert n f [] h _ = (h, tt)
  All-insert n f ((m, g) ∷ d) h (k, ks) = ground (arith, All-insert n f d h ks)

  pub All-erase : (n : FileName) (d : Directory) → All P d → All P (Dict.erase n d)
  unfolding Dict.erase
  All-erase n [] _ = tt
  All-erase n ((m, g) ∷ d) (k, ks) = ground (arith, All-erase n d ks)

abbrev Good : FileName × File → Type 0
Good f = is_sound f ≡ true

sound-temp :
    (e : Entry) (temp now : ℕ)
    → validate_entry e ≡ none
    → is_sound (temp_file temp, record { body = parsed e; mtime = now }) ≡ true
unfolding is_sound
sound-temp e temp now v = ground arith

sound-entry :
    (e : Entry) (now : ℕ)
    → validate_entry e ≡ none
    → is_sound (entry_file (text_of (get drop_id e)), record { body = parsed e; mtime = now })
      ≡ true
unfolding is_sound
sound-entry e now v = ground arith

write_until-IsSound :
    (m : Moment) (e : Entry) (temp now : ℕ) (d : Directory)
    → validate_entry e ≡ none
    → IsSound d
    → IsSound (write_until m (text_of (get drop_id e)) e temp now d)
unfolding write_until sweep_orphans is_sound text_eq
write_until-IsSound swept e temp now d v h = All-keep Good (λ f. not (is_orphan now f)) d h
write_until-IsSound opened e temp now d v h =
    All-insert Good (temp_file temp) _ _ refl (All-keep Good (λ f. not (is_orphan now f)) d h)
write_until-IsSound synced e temp now d v h =
    All-insert Good (temp_file temp) _ _ (sound-temp e temp now v)
      (All-keep Good (λ f. not (is_orphan now f)) d h)
write_until-IsSound renamed e temp now d v h =
    All-insert Good (entry_file (text_of (get drop_id e))) _ _ (sound-entry e now v)
      (All-erase Good (temp_file temp) _ (All-keep Good (λ f. not (is_orphan now f)) d h))

pub interrupted-IsSound :
    (i : Interruption) (e : Entry) (temp now : ℕ) (d : Directory)
    → validate_entry e ≡ none
    → IsSound d
    → IsSound (interrupted i (text_of (get drop_id e)) e temp now d)
unfolding interrupted
interrupted-IsSound (killed m) e temp now d v h = write_until-IsSound m e temp now d v h
interrupted-IsSound (raised m) e temp now d v h =
    All-erase Good (temp_file temp) _ (write_until-IsSound m e temp now d v h)

put-IsSound : (e : Entry) (temp now : ℕ) (d : Directory) → IsSound d → IsSound (put e temp now d).1
unfolding put
put-IsSound e temp now d h = elim (Option-cases (validate_entry e)) [
  | inl valid ↦ rw (valid, put) (write_until-IsSound renamed e temp now d valid h)
  | inr (r, refusal) ↦ rw (refusal, put) h
]

update-IsSound :
    (id : Value) (changes : Dict Key Value) (temp now : ℕ) (d : Directory)
    → IsSound d
    → IsSound (update id changes temp now d).1
unfolding update
update-IsSound id changes temp now d h =
    elim (Bool-cases (any (λ (k, _). not (is_allowed k)) changes)) [
      | inl unknown ↦ rw (unknown, update) h
      | inr known ↦ elim (Option-cases (get_drop id d)) [
        | inl missing ↦ rw (known, missing, update) h
        | inr (current, found) ↦ rw (known, found, update) (put-IsSound _ temp now d h)
      ]
    ]

-- One thing that can happen to the journal.
pub data Op : Type 0 where
  puts : Entry → (temp now : ℕ) → Op
  breaks : Interruption → Entry → (temp now : ℕ) → Op
  updates : Value → Dict Key Value → (temp now : ℕ) → Op
  deletes : Value → Op

unfoldable pub apply : Op → Directory → Directory
unfolding interrupted put update delete
apply (puts e temp now) d = (put e temp now d).1
apply (breaks i e temp now) d = elim (validate_entry e) [
  | some r ↦ d
  | none ↦ interrupted i (text_of (get drop_id e)) e temp now d
]
apply (updates id changes temp now) d = (update id changes temp now d).1
apply (deletes id) d = delete id d

unfoldable pub run : List Op → Directory → Directory
unfolding apply
run [] d = d
run (op ∷ ops) d = run ops (apply op d)

delete-IsSound : (id : Value) (d : Directory) → IsSound d → IsSound (delete id d)
unfolding delete
delete-IsSound (string id) d h = elim (Bool-cases (is_drop_id (string id))) [
  | inl good ↦ rw (good, delete) (All-erase Good (entry_file id) d h)
  | inr bad ↦ rw (bad, delete) h
]
delete-IsSound null d h = h
delete-IsSound (flag b) d h = h
delete-IsSound (number n) d h = h
delete-IsSound (composite s) d h = h

apply-IsSound : (op : Op) (d : Directory) → IsSound d → IsSound (apply op d)
unfolding apply
apply-IsSound (puts e temp now) d h = put-IsSound e temp now d h
apply-IsSound (breaks i e temp now) d h = elim (Option-cases (validate_entry e)) [
  | inl valid ↦ rw (valid, apply) (interrupted-IsSound i e temp now d valid h)
  | inr (r, refusal) ↦ rw (refusal, apply) h
]
apply-IsSound (updates id changes temp now) d h = update-IsSound id changes temp now d h
apply-IsSound (deletes id) d h = delete-IsSound id d h

-- Whatever is put, updated and deleted, and at whatever moments writes are killed or raise: in a
-- directory that starts so, every file under an entry's name holds a whole, validated entry of the
-- drop it is named for.
pub run-IsSound : (ops : List Op) (d : Directory) → IsSound d → IsSound (run ops d)
unfolding run
run-IsSound [] d h = h
run-IsSound (op ∷ ops) d h = run-IsSound ops (apply op d) (apply-IsSound op d h)

valid-keep :
    (e : Entry) → is_valid e ≡ true → validate_entry (keep (λ (k, _). is_allowed k) e) ≡ none
valid-keep e h = elim (Option-cases (validate_entry e)) [
  | inl valid ↦ rw (validate_entry-allowed e valid) valid
  | inr (r, refusal) ↦ ground arith
]

pub body-cases : (b : Body) → (b ≡ unreadable) ⊎ ((e : Entry) × (b ≡ parsed e))
body-cases unreadable = inl refl
body-cases (parsed e) = inr (e, refl)

pub read-valid :
    (s : Text) (file : File) (e : Entry)
    → is_sound (entry_file s, file) ≡ true
    → read file.body ≡ some e
    → validate_entry e ≡ none
unfolding is_sound read
read-valid s file e h r = elim (body-cases file.body) [
  | inl empty ↦ ground arith
  | inr (f, whole) ↦ ground (arith, valid-keep f)
]

IsSound-read_all :
    (d : Directory)
    → IsSound d
    → All (λ f. is_listed f.0 ≡ true) d
    → All (λ e. validate_entry e ≡ none) (read_all d)
unfolding read_all
IsSound-read_all [] _ _ = tt
IsSound-read_all ((entry_file s, file) ∷ d) (h, hs) (_, ls) =
    let rest = IsSound-read_all d hs ls in
    elim (Option-cases (read file.body)) [
      | inl nothing ↦ rw (nothing, read_all) rest
      | inr (e, found) ↦ rw (found, read_all) (read-valid s file e h found, rest)
    ]
IsSound-read_all ((temp_file n, file) ∷ d) _ (l, _) = ground arith

-- Whatever happened to a journal that began empty, every entry that a reader lists is one that
-- `_validate_entry` accepts: fields of the allowlist only, no text shaped like a URL, a usable id and
-- a known state.
pub entries-run : (ops : List Op) → All (λ e. validate_entry e ≡ none) (entries (run ops []))
unfolding entries entry_files
entries-run ops =
    let d = run ops [] in
    let listed = keep (λ (name, _). is_listed name) d in
    All-sort _ by_age (read_all (sort by_name listed)) (
      IsSound-read_all (sort by_name listed)
        (All-sort _ by_name listed
          (All-keep Good (λ (name, _). is_listed name) d (run-IsSound ops [] tt)))
        (All-sort _ by_name listed (keep-All (λ (name, _). is_listed name) d)))
