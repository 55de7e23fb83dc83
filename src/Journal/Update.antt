-- ===== src/Journal/Update.antt =====
-- One update of the journal, as every reader of a single drop sees it, whether its write is done or
-- breaks off.
use hermes_drop.Base.{
  ℕ, ◌≡◌, refl, ap, ◌∙◌, ◌≢◌, ◌⊎◌, inl, inr, true, ◌&&◌, Option, none, some, [], ◌∷◌, arith,
  if◌then◌else◌, ◌==◌, option_eq, string_eq, nat_eq, Bool-cases, Option-cases,
}
use hermes_drop.Base.{Text, text_eq}
use hermes_drop.Base.Dict
use hermes_drop.Base.Dict.{Dict}
use hermes_drop.Routing.{routing_eq}
use hermes_drop.Journal.Entry.{
  Key, drop_id, state, updated_at, key_eq, Value, null, flag, number, string, composite, Entry, get,
  text_of, is_drop_id, validate_entry,
}
use hermes_drop.Journal.Store.{entry_file, name_eq, Directory, get_drop}
use hermes_drop.Journal.Write.{Interruption, interrupted, write, written, put, merge, update}
use hermes_drop.Journal.Atomic.{IsSameTo, interrupted-IsSameTo, validate_entry-allowed}
use hermes_drop.Journal.Sound.{IsSound, read-valid, interrupted-IsSound}
use hermes_drop.Journal.Claims.{
  lookup-IsSound, get_drop-write, get_drop-text, validate_entry-is_drop_id,
}

abbrev pub AbsentFrom : Key → Dict Key Value → Type 0
AbsentFrom k changes = Dict.lookup k changes ≡ none

-- A key that the changes do not name keeps its value.
pub get-merge :
    (k : Key) (changes : Dict Key Value) (e : Entry)
    → AbsentFrom k changes
    → Dict.lookup k (merge changes e) ≡ Dict.lookup k e
unfolding merge Dict.lookup
get-merge k [] e h = refl
get-merge k ((j, v) ∷ changes) e h =
    ground (arith, get-merge k changes (Dict.insert j v e), Dict.lookup-insert k j v e)

-- The entry that an update puts.
abbrev pub merged : ℕ → Dict Key Value → Entry → Entry
merged now changes current = Dict.insert updated_at (number now) (merge changes current)

pub get-merged :
    (k : Key) (now : ℕ) (changes : Dict Key Value) (e : Entry)
    → k ≢ updated_at
    → AbsentFrom k changes
    → get k (merged now changes e) ≡ get k e
get-merged k now changes e other h =
    ground (
      arith,
      Dict.lookup-insert k updated_at (number now) (merge changes e),
      get-merge k changes e h,
    )

-- What an accepted update of the drop `s` has put.
pub record IsUpdate (s : Text) (changes : Dict Key Value) (now : ℕ) (d : Directory) (f : Entry)
    : Type 0 where
  pub current : Entry
  pub found : get_drop (string s) d ≡ some current
  pub made : f ≡ merged now changes current
  pub valid : validate_entry f ≡ none

put-written :
    (e f : Entry) (temp now : ℕ) (d : Directory)
    → (put e temp now d).0 ≡ written f
    → (f ≡ e) × (validate_entry e ≡ none)
unfolding put
put-written e f temp now d h = (ground arith, ground arith)

pub update-IsUpdate :
    (s : Text) (changes : Dict Key Value) (temp now : ℕ) (d : Directory) (f : Entry)
    → (update (string s) changes temp now d).0 ≡ written f
    → IsUpdate s changes now d f
unfolding update
update-IsUpdate s changes temp now d f h = elim (Option-cases (get_drop (string s) d)) [
  | inl missing ↦ absurd (ground arith)
  | inr (current, found) ↦
      let (same, valid) = put-written (merged now changes current) f temp now d (ground arith) in
      record { current = current; found = found; made = same; valid = rw same valid }
]

pub get_drop-IsSameTo :
    (s : Text) (d e : Directory) → IsSameTo d e → get_drop (string s) d ≡ get_drop (string s) e
unfolding get_drop
get_drop-IsSameTo s d e same = rw (same.named s) refl

-- What a reader finds after a write of `f` that broke off: what it found before, or what it finds
-- after the whole write.
pub get_drop-interrupted :
    (i : Interruption) (j : Text) (f : Entry) (temp now : ℕ) (d : Directory)
    → validate_entry f ≡ none
    → let after = get_drop (string j) (interrupted i (text_of (get drop_id f)) f temp now d) in
      (after ≡ get_drop (string j) d)
      ⊎ (after ≡ (
          if is_drop_id (string j) && j == text_of (get drop_id f)
          then some f
          else get_drop (string j) d))
get_drop-interrupted i j f temp now d valid =
    let stem = text_of (get drop_id f) in
    elim (interrupted-IsSameTo i stem f temp now d) [
      | inl same ↦ inl (get_drop-IsSameTo j _ d same)
      | inr same ↦ inr (
          get_drop-IsSameTo j _ (write stem f temp now d) same
          ∙ (get_drop-write j stem f temp now d ∙ rw (validate_entry-allowed f valid) refl))
    ]

-- The drop `id` stands in a sound directory with a state `v`.
pub record IsSettled (id : Text) (v : Value) (d : Directory) : Type 0 where
  pub sound : IsSound d
  pub entry : Entry
  pub stands : get_drop (string id) d ≡ some entry
  pub has : get state entry ≡ v

state-merged :
    (now : ℕ) (changes : Dict Key Value) (e : Entry)
    → AbsentFrom state changes
    → get state (merged now changes e) ≡ get state e
state-merged now changes e h = get-merged state now changes e (λ p. ground arith) h

drop_id-merged :
    (now : ℕ) (changes : Dict Key Value) (e : Entry)
    → AbsentFrom drop_id changes
    → get drop_id (merged now changes e) ≡ get drop_id e
drop_id-merged now changes e h = get-merged drop_id now changes e (λ p. ground arith) h

module _ (id : Text) (v : Value) (s : Text) (changes : Dict Key Value) (now : ℕ) where
  written-IsSettled :
      (d : Directory) (f : Entry)
      → IsUpdate s changes now d f
      → AbsentFrom drop_id changes
      → AbsentFrom state changes ⊎ (s ≢ id)
      → (h : IsSettled id v d) → (is_drop_id (string id) && id == text_of (get drop_id f)) ≡ true
      → get state f ≡ v
  written-IsSettled d f u own kept h here =
      let named = get_drop-text s d u.current h.sound u.found in
      let same = drop_id-merged now changes u.current own in
      elim kept [
        | inl untouched ↦ ground (
          arith,
          named,
          same,
          u.made,
          u.found,
          h.stands,
          h.has,
          state-merged now changes u.current untouched,
        )
        | inr other ↦ absurd (ground (arith, named, same, u.made))
      ]

  pub interrupted-IsSettled :
      (i : Interruption) (temp : ℕ) (d : Directory) (f : Entry)
      → IsUpdate s changes now d f
      → AbsentFrom drop_id changes
      → AbsentFrom state changes ⊎ (s ≢ id)
      → IsSettled id v d
      → IsSettled id v (interrupted i (text_of (get drop_id f)) f temp now d)
  interrupted-IsSettled i temp d f u own kept h =
      let sound = interrupted-IsSound i f temp now d u.valid h.sound in
      let before : Option Entry = get_drop (string id) d in
      let here = is_drop_id (string id) && id == text_of (get drop_id f) in
      elim (get_drop-interrupted i id f temp now d u.valid) [
        | inl same ↦ record {
          sound = sound;
          entry = h.entry;
          stands = same ∙ h.stands;
          has = h.has;
        }
        | inr after ↦ elim (Bool-cases here) [
          | inl hit ↦ record {
            sound = sound;
            entry = f;
            stands = rw hit at after;
            has = written-IsSettled d f u own kept h hit;
          }
          | inr miss ↦ record {
            sound = sound;
            entry = h.entry;
            stands = (rw miss at after) ∙ h.stands;
            has = h.has;
          }
        ]
      ]

put-write :
    (e f : Entry) (temp now : ℕ) (d : Directory)
    → (put e temp now d).0 ≡ written f
    → (put e temp now d).1 ≡ write (text_of (get drop_id f)) f temp now d
unfolding put
put-write e f temp now d h = elim (Option-cases (validate_entry e)) [
  | inl valid ↦ let (same, _) = put-written e f temp now d h in rw (same, valid, put) refl
  | inr (r, refusal) ↦ absurd (ground arith)
]

-- What an accepted update leaves is the whole write of the entry that it put.
pub update-write :
    (s : Text) (changes : Dict Key Value) (temp now : ℕ) (d : Directory) (f : Entry)
    → (update (string s) changes temp now d).0 ≡ written f
    → (update (string s) changes temp now d).1 ≡ write (text_of (get drop_id f)) f temp now d
unfolding update
update-write s changes temp now d f h = elim (Option-cases (get_drop (string s) d)) [
  | inl missing ↦ absurd (ground arith)
  | inr (current, found) ↦ ground (arith, put-write (merged now changes current) f temp now d)
]

pub IsUpdate-string :
    (id : Value) (changes : Dict Key Value) (temp now : ℕ) (d : Directory) (f : Entry)
    → (update id changes temp now d).0 ≡ written f
    → (s : Text) × (id ≡ string s)
unfolding update get_drop
IsUpdate-string (string s) changes temp now d f h = (s, refl)
IsUpdate-string null changes temp now d f h = absurd (ground arith)
IsUpdate-string (flag b) changes temp now d f h = absurd (ground arith)
IsUpdate-string (number n) changes temp now d f h = absurd (ground arith)
IsUpdate-string (composite t) changes temp now d f h = absurd (ground arith)

get_drop-valid :
    (s : Text) (d : Directory) (e : Entry)
    → IsSound d
    → get_drop (string s) d ≡ some e
    → validate_entry e ≡ none
unfolding get_drop
get_drop-valid s d e h f = elim (Option-cases (Dict.lookup (entry_file s) d)) [
  | inl missing ↦ absurd (ground arith)
  | inr (file, found) ↦
      read-valid s file e (lookup-IsSound (entry_file s) file d h found) (ground arith)
]

key_of_text : (s : Text) (v : Value) → is_drop_id v ≡ true → text_of v ≡ s → v ≡ string s
unfolding is_drop_id text_of
key_of_text s (string t) good named = ap string named
key_of_text s null good named = absurd (ground arith)
key_of_text s (flag b) good named = absurd (ground arith)
key_of_text s (number n) good named = absurd (ground arith)
key_of_text s (composite c) good named = absurd (ground arith)

lookup_of_get :
    (s : Text) (e : Entry) → get drop_id e ≡ string s → Dict.lookup drop_id e ≡ some (string s)
lookup_of_get s e h = elim (Option-cases (Dict.lookup drop_id e)) [
  | inl missing ↦ absurd (ground arith)
  | inr (v, found) ↦ ground arith
]

-- In a sound directory the entry of a drop names the drop.
pub get_drop-key :
    (s : Text) (d : Directory) (e : Entry)
    → IsSound d
    → get_drop (string s) d ≡ some e
    → Dict.lookup drop_id e ≡ some (string s)
get_drop-key s d e h f = lookup_of_get s e (
    key_of_text s (get drop_id e) (validate_entry-is_drop_id e (get_drop-valid s d e h f))
      (get_drop-text s d e h f))
