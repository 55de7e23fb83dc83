-- ===== src/Journal/Store.antt =====
-- The directory of drop/journal.py: one file for each drop, temporary files, and the readers.
-- A directory that does not exist is an empty one.
use hermes_drop.Base.{
  ℕ, Bool, true, false, not, ◌&&◌, ◌||◌, Option, none, some, List, [], ◌∷◌, if◌then◌else◌, Eq, ◌==◌,
  option_eq, string_eq, nat_eq, ltb, keep,
}
use native.Mathlib.Decide.{ℕ_discrete}
use hermes_drop.Base.{Text, text_eq}
use hermes_drop.Base.{◌++◌, codes}
use hermes_drop.Base.Dict
use hermes_drop.Base.Dict.{Dict}
use hermes_drop.Routing.{RoutingTuple, routing_eq}
use hermes_drop.Journal.Entry.{
  drop_id, state, created_at, announced_at, announce_attempts, key_eq, is_allowed, Value, number,
  string, Entry, waiting, get, is_terminal, is_state, is_set, text_of, is_drop_id, routing_tuple_of,
}

-- `<stem>.json`, and the `.tmp-*.json` files of `mkstemp`.
pub data FileName : Type 0 where
  entry_file : Text → FileName
  temp_file : ℕ → FileName

FileName-discrete : Discrete FileName
FileName-discrete = hlevel ℕ_discrete

instance unfoldable pub name_eq : Eq FileName
unfolding FileName-discrete ℕ_discrete
name_eq = record { dec = FileName-discrete }

-- What `json.loads` makes of a file: an object, or nothing that can be used.
pub data Body : Type 0 where
  unreadable : Body
  parsed : Entry → Body

pub record File : Type 0 where
  pub body : Body
  pub mtime : ℕ

abbrev pub Directory : Type 0
Directory = Dict FileName File

-- `_read`
unfoldable pub read : Body → Option Entry
read unreadable = none
read (parsed e) = some (keep (λ (k, v). is_allowed k) e)

-- `DropJournal.get`
unfoldable pub get_drop : Value → Directory → Option Entry
unfolding read
get_drop (string id) d =
    if is_drop_id (string id)
    then elim (Dict.lookup (entry_file id) d) [ none ↦ none | some file ↦ read file.body ]
    else none
get_drop _ d = none

-- The order of Python's strings.
unfoldable pub text_leb : Text → Text → Bool
text_leb [] t = true
text_leb (c ∷ s) [] = false
text_leb (c ∷ s) (e ∷ t) = ltb c e || (c == e && text_leb s t)

-- `sorted`, which keeps the order of equal keys.
module _ {A : Type 0} (before : A → A → Bool) where
  unfoldable pub place : A → List A → List A
  place x [] = x ∷ []
  place x (y ∷ ys) = let rest = place x ys in if before x y then x ∷ y ∷ ys else y ∷ rest

  unfoldable pub sort : List A → List A
  unfolding place
  sort [] = []
  sort (x ∷ xs) = place x (sort xs)

-- `[!.]*.json`: no name that begins with a dot, which the name of a file without a stem does.
abbrev pub is_listed : FileName → Bool
is_listed (entry_file []) = false
is_listed (entry_file (c ∷ stem)) = not (c == b'.')
is_listed (temp_file n) = false

unfoldable pub entry_files : Directory → Directory
entry_files = keep (λ (name, _). is_listed name)

-- `_SUFFIX`
abbrev pub suffix : Text
suffix = codes ".json"

-- Paths of one directory are sorted by their whole names.
abbrev pub by_name : FileName × File → FileName × File → Bool
by_name (entry_file s, _) (entry_file t, _) = text_leb (s ++ suffix) (t ++ suffix)
by_name _ _ = true

-- The journal itself writes a number here; anything else counts as none.
abbrev pub created : Value → ℕ
created (number n) = n
created _ = 0

-- `(e.get("created_at") or 0, e.get("drop_id") or "")`
unfoldable pub by_age : Entry → Entry → Bool
unfolding text_leb
by_age e f =
    ltb (created (get created_at e)) (created (get created_at f))
    || (created (get created_at e) == created (get created_at f)
        && text_leb (text_of (get drop_id e)) (text_of (get drop_id f)))

unfoldable pub read_all : Directory → List Entry
unfolding read
read_all [] = []
read_all ((name, file) ∷ d) =
    let rest = read_all d in elim (read file.body) [ none ↦ rest | some e ↦ e ∷ rest ]

-- `DropJournal.entries`
unfoldable pub entries : Directory → List Entry
unfolding read_all entry_files sort by_age
entries d = sort by_age (read_all (sort by_name (entry_files d)))

-- `DropJournal.waiting`
unfoldable pub waiting_drops : Directory → List Entry
waiting_drops d = keep (λ e. is_state waiting (get state e)) (entries d)

abbrev pub max_announce_attempts : ℕ
max_announce_attempts = 5

-- `int(entry.get("announce_attempts") or 0)` of what the journal itself writes, which is a number.
abbrev pub attempts : Value → ℕ
attempts (number n) = n
attempts _ = 0

-- The tests that `DropJournal.terminal_unannounced` puts an entry to; `list_unannounced` of World raises
-- before them where a state is a list or an object.
unfoldable pub is_pending : Option RoutingTuple → Entry → Bool
is_pending lane e =
    is_terminal (get state e)
    && (not (is_set (get announced_at e))
        && (ltb (attempts (get announce_attempts e)) max_announce_attempts
            && elim lane [ none ↦ true | some l ↦ routing_tuple_of e == l ]))

unfoldable pub terminal_unannounced : Option RoutingTuple → Directory → List Entry
unfolding is_pending
terminal_unannounced lane d = keep (is_pending lane) (entries d)
