-- ===== src/Journal/Claims.antt =====
-- Who gets to claim a drop, and how often.
use hermes_drop.Base.{
  ℕ, ◌≡◌, refl, ap, ◌≢◌, ◌↔◌, inl, inr, true, false, not, ◌&&◌, Option, none, some, [], ◌∷◌, arith,
  if◌then◌else◌, ◌==◌, option_eq, string_eq, nat_eq, Bool-cases, Option-cases, keep, any,
}
use hermes_drop.Base.{Text, text_eq}
use hermes_drop.Base.Dict
use hermes_drop.Base.Dict.{Dict}
use hermes_drop.Routing.{routing_eq}
use hermes_drop.Journal.Entry.{
  Key, platform, profile, chat_id, thread_id, user_id, routing_tuple_of, drop_id, state, updated_at,
  claimed_at, key_eq, is_allowed, Value, null, flag, number, string, composite, Entry, get,
  is_state, is_set, text_of, is_drop_id, JournalRejected, validate_entry, Caller,
}
use hermes_drop.Journal.Entry.{received, same_claim, authorize_claim}
use hermes_drop.Journal.Store.{FileName, entry_file, name_eq, File, Directory, read, get_drop}
use hermes_drop.Journal.Write.{write, rejected, absent, written, put, merge, update, delete}
use hermes_drop.Journal.Atomic.{validate_entry-allowed, lookup-write}
use hermes_drop.Journal.Sound.{IsSound, is_sound, body-cases}

pub validate_entry-is_drop_id :
    (e : Entry) → validate_entry e ≡ none → is_drop_id (get drop_id e) ≡ true
unfolding validate_entry
validate_entry-is_drop_id e h = ground arith

pub get_drop-write :
    (s t : Text) (e : Entry) (temp now : ℕ) (d : Directory)
    → get_drop (string s) (write t e temp now d) ≡ (
        if is_drop_id (string s) && s == t
        then some (keep (λ (k, _). is_allowed k) e)
        else get_drop (string s) d)
unfolding get_drop read text_eq
get_drop-write s t e temp now d = rw (lookup-write s t e temp now d) (ground arith)

put_accepted :
    (e : Entry) (temp now : ℕ) (d : Directory)
    → validate_entry e ≡ none
    → put e temp now d ≡ (written e, write (text_of (get drop_id e)) e temp now d)
unfolding put
put_accepted e temp now d h = rw (h, put) refl

put_refused :
    (r : JournalRejected) (e : Entry) (temp now : ℕ) (d : Directory)
    → validate_entry e ≡ some r
    → put e temp now d ≡ (rejected r, d)
unfolding put
put_refused r e temp now d h = rw (h, put) refl

-- A put that is accepted is read back whole under its own id, and changes what is read under no
-- other id; one that is refused changes nothing.
pub get_drop-put :
    (s : Text) (e : Entry) (temp now : ℕ) (d : Directory)
    → get_drop (string s) (put e temp now d).1 ≡ elim (validate_entry e) [
      | some r ↦ get_drop (string s) d
      | none ↦
          if is_drop_id (string s) && s == text_of (get drop_id e)
          then some e
          else get_drop (string s) d
    ]
get_drop-put s e temp now d = elim (Option-cases (validate_entry e)) [
  | inr (r, refusal) ↦ rw (refusal, put_refused r e temp now d refusal) refl
  | inl valid ↦
      rw
        (
          put_accepted e temp now d valid,
          valid,
          get_drop-write s (text_of (get drop_id e)) e temp now d,
          validate_entry-allowed e valid,
        )
        refl
]

-- The five fields of an entry that name its conversation and its user are the caller's.
abbrev pub IsCallers : Entry → Caller → Type 0
IsCallers e c =
    (text_of (get platform e) ≡ c.lane.platform)
    × (text_of (get profile e) ≡ c.lane.profile)
    × (text_of (get chat_id e) ≡ c.lane.chat_id)
    × (text_of (get thread_id e) ≡ c.lane.thread_id)
    × (text_of (get user_id e) ≡ c.user)

same_claim-IsCallers : (e : Entry) (c : Caller) → same_claim e c ≡ true → IsCallers e c
unfolding same_claim routing_tuple_of
same_claim-IsCallers e c h =
    let same : routing_tuple_of e ≡ c.lane = ground arith in
    (
      ap (λ lane. lane.platform) same,
      ap (λ lane. lane.profile) same,
      ap (λ lane. lane.chat_id) same,
      ap (λ lane. lane.thread_id) same,
      ground arith,
    )

IsCallers-same_claim : (e : Entry) (c : Caller) → IsCallers e c → same_claim e c ≡ true
unfolding same_claim routing_tuple_of
IsCallers-same_claim e c (p, q, r, s, t) =
    let same : routing_tuple_of e ≡ c.lane = cc in ground arith

state-is : (v : Value) (t : Text) → is_state t v ≡ true → v ≡ string t
unfolding is_state
state-is (string s) t h = ground arith
state-is null t h = absurd (ground arith)
state-is (flag b) t h = absurd (ground arith)
state-is (number n) t h = absurd (ground arith)
state-is (composite s) t h = absurd (ground arith)

unset-null : (v : Value) → is_set v ≡ false → v ≡ null
unset-null v h = ground arith

-- A claim is granted exactly when there is an entry whose platform, profile, chat, thread and user
-- are the caller's, which is not claimed yet, and whose state is `received`.
pub authorize_claim_iff :
    (found : Option Entry) (c : Caller)
    → (authorize_claim found c ≡ none) ↔ (
        (e : Entry) × (found ≡ some e)
        × (IsCallers e c × (get claimed_at e ≡ null) × (get state e ≡ string received)))
unfolding authorize_claim is_state
authorize_claim_iff none c = (λ h. ground arith, λ (e, p, q). ground arith)
authorize_claim_iff (some e) c = (
  λ h. (
    e,
    refl,
    (
      same_claim-IsCallers e c (ground arith),
      unset-null (get claimed_at e) (ground arith),
      state-is (get state e) received (ground arith),
    ),
  ),
  λ (f, p, (q, r, t)). ground (arith, IsCallers-same_claim f c q),
)

get_drop-delete : (id : Value) (d : Directory) → get_drop id (delete id d) ≡ none
unfolding get_drop delete read
get_drop-delete (string s) d = ground (arith, Dict.lookup-erase (entry_file s) (entry_file s) d)
get_drop-delete null d = refl
get_drop-delete (flag b) d = refl
get_drop-delete (number n) d = refl
get_drop-delete (composite s) d = refl

-- An update that comes after a delete brings nothing back: it finds no entry and writes nothing.
update-delete :
    (id : Value) (changes : Dict Key Value) (temp now : ℕ) (d : Directory)
    → any (λ (k, _). not (is_allowed k)) changes ≡ false
    → update id changes temp now (delete id d) ≡ (absent, delete id d)
unfolding update
update-delete id changes temp now d known = rw (known, get_drop-delete id d, update) refl

abbrev pub claimed : ℕ → Dict Key Value
claimed now = (claimed_at, number now) ∷ []

-- The entry that `update` puts when it marks a claim.
abbrev marked : ℕ → Entry → Entry
marked now current = Dict.insert updated_at (number now) (merge (claimed now) current)

marked-claimed_at : (now : ℕ) (e : Entry) → get claimed_at (marked now e) ≡ number now
unfolding merge
marked-claimed_at now e = ground (
  arith,
  Dict.lookup-insert claimed_at updated_at (number now) (Dict.insert claimed_at (number now) e),
  Dict.lookup-insert claimed_at claimed_at (number now) e,
)

marked-drop_id : (now : ℕ) (e : Entry) → get drop_id (marked now e) ≡ get drop_id e
unfolding merge
marked-drop_id now e = ground (
  arith,
  Dict.lookup-insert drop_id updated_at (number now) (Dict.insert claimed_at (number now) e),
  Dict.lookup-insert drop_id claimed_at (number now) e,
)

claimed-refused :
    (e : Entry) (c : Caller) (n : ℕ)
    → get claimed_at e ≡ number n
    → authorize_claim (some e) c ≢ none
unfolding authorize_claim
claimed-refused e c n h p = ground arith

pub lookup-IsSound :
    (n : FileName) (file : File) (d : Directory)
    → IsSound d
    → Dict.lookup n d ≡ some file
    → is_sound (n, file) ≡ true
unfolding Dict.lookup
lookup-IsSound n file [] _ found = ground arith
lookup-IsSound n file ((m, g) ∷ d) (h, hs) found = elim (Bool-cases (n == m)) [
  | inl same ↦ ground arith
  | inr other ↦ ground (arith, lookup-IsSound n file d hs)
]

read-text :
    (s : Text) (file : File) (e : Entry)
    → is_sound (entry_file s, file) ≡ true
    → read file.body ≡ some e
    → text_of (get drop_id e) ≡ s
unfolding is_sound read
read-text s file e h r = elim (body-cases file.body) [
  | inl empty ↦ ground arith
  | inr (f, whole) ↦ ground (arith, validate_entry-allowed f)
]

pub get_drop-text :
    (s : Text) (d : Directory) (e : Entry)
    → IsSound d
    → get_drop (string s) d ≡ some e
    → text_of (get drop_id e) ≡ s
unfolding get_drop
get_drop-text s d e h f = elim (Option-cases (Dict.lookup (entry_file s) d)) [
  | inl missing ↦ ground arith
  | inr (file, found) ↦
      read-text s file e (lookup-IsSound (entry_file s) file d h found) (ground arith)
]

update_found :
    (s : Text) (temp now : ℕ) (d : Directory) (current : Entry)
    → get_drop (string s) d ≡ some current
    → update (string s) (claimed now) temp now d ≡ put (marked now current) temp now d
unfolding update any is_allowed
update_found s temp now d current found = rw (found, update) refl

update_missing :
    (s : Text) (temp now : ℕ) (d : Directory)
    → get_drop (string s) d ≡ none
    → update (string s) (claimed now) temp now d ≡ (absent, d)
unfolding update any is_allowed
update_missing s temp now d missing = rw (missing, update) refl

pub get_drop-good :
    (s : Text) (d : Directory) (e : Entry)
    → get_drop (string s) d ≡ some e
    → is_drop_id (string s) ≡ true
unfolding get_drop
get_drop-good s d e h = ground arith

put-marked :
    (s : Text) (f : Entry) (temp now : ℕ) (d : Directory) {old : Value}
    → validate_entry f ≡ none
    → get drop_id f ≡ old
    → text_of old ≡ s
    → is_drop_id (string s) ≡ true
    → get_drop (string s) (put f temp now d).1 ≡ some f
put-marked s f temp now d valid kept named good = ground (arith, get_drop-put s f temp now d)

put-marked_claim :
    (s : Text) (temp now : ℕ) (d : Directory) (current e : Entry) (c : Caller)
    → text_of (get drop_id current) ≡ s
    → is_drop_id (string s) ≡ true
    → (put (marked now current) temp now d).0 ≡ written e
    → authorize_claim (get_drop (string s) (put (marked now current) temp now d).1) c ≢ none
put-marked_claim s temp now d current e c named good w =
    let f = marked now current in
    elim (Option-cases (validate_entry f)) [
      | inr (r, refusal) ↦ absurd (ground (arith, put_refused r f temp now d refusal))
      | inl valid ↦
          rw (put-marked s f temp now d valid (marked-drop_id now current) named good)
            (claimed-refused f c now (marked-claimed_at now current))
    ]

-- In a sound directory, once the update that marks a drop claimed has been written, no caller is
-- granted the drop that is read back.
pub update-authorize_claim :
    (s : Text) (temp now : ℕ) (d : Directory) (e : Entry) (c : Caller)
    → IsSound d
    → (update (string s) (claimed now) temp now d).0 ≡ written e
    → authorize_claim (get_drop (string s) (update (string s) (claimed now) temp now d).1) c ≢ none
update-authorize_claim s temp now d e c h w = elim (Option-cases (get_drop (string s) d)) [
  | inl missing ↦ absurd (ground (arith, update_missing s temp now d missing))
  | inr (current, found) ↦ rw (update_found s temp now d current found) (
      put-marked_claim s temp now d current e c (get_drop-text s d current h found)
        (get_drop-good s d current found) (ground (arith, update_found s temp now d current found)))
]
