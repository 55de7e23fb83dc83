-- ===== src/Vault.antt =====
-- drop/vault.py: the process-wide store of claimed secrets. Time is the monotonic clock in
-- milliseconds, and the random token of `stash` is an argument.
pub mod Tokens
pub mod Bounds
pub mod Resolve
pub mod Isolation
pub mod Substitute
pub mod Redact
pub mod Wire
use hermes_drop.Base.{
  ℕ, suc, zero, ◌+◌, String, Bool, Option, none, some, List, [], ◌∷◌, ◌++◌, if◌then◌else◌, ◌==◌,
  option_eq, string_eq, nat_eq, ltb, leb, length,
}
use hermes_drop.Base.{Text, text_eq}
use hermes_drop.Base.Dict
use hermes_drop.Base.Dict.{Dict}

-- `secrets.token_hex(16)`
abbrev pub Token : Type 0
Token = Text

abbrev pub ttl : ℕ
ttl = 900000

abbrev pub max_entries_per_session : ℕ
max_entries_per_session = 4

abbrev pub max_entries : ℕ
max_entries = 32

pub record Entry : Type 0 where
  pub session : String
  pub plaintext : Text
  pub expiry : ℕ

abbrev pub Entries : Type 0
Entries = Dict Token Entry

-- `_ENTRIES` and `_TIMERS`; a timer is the time at which it fires.
pub record Vault : Type 0 where
  pub entries : Entries
  pub timers : Dict Token ℕ

abbrev pub empty : Vault
empty = record { entries = []; timers = [] }

unfoldable pub drop : Token → Vault → Vault
drop token v = record { entries = Dict.erase token v.entries; timers = Dict.erase token v.timers }

unfoldable pub drop_all : List Token → Vault → Vault
drop_all [] v = v
drop_all (token ∷ tokens) v = drop_all tokens (drop token v)

-- A timer that fires.
abbrev pub expire : Token → Vault → Vault
expire = drop

-- `[t for t, e in _ENTRIES.items() if p(e)]`
unfoldable pub tokens_where : (Entry → Bool) → Entries → List Token
tokens_where p [] = []
tokens_where p ((token, e) ∷ d) = let rest = tokens_where p d in if p e then token ∷ rest else rest

abbrev pub lapsed : ℕ → Entry → Bool
lapsed now e = leb e.expiry now

unfoldable pub purge : ℕ → Vault → Vault
purge now v = drop_all (tokens_where (lapsed now) v.entries) v

-- `min(tokens, key=...)`, the first of the smallest, over a list with a first token.
abbrev expiry_of : Entries → Token → ℕ
expiry_of d token = elim (Dict.lookup token d) [ none ↦ 0 | some e ↦ e.expiry ]

unfoldable pub oldest : Entries → Token → List Token → Token
oldest d best [] = best
oldest d best (t ∷ ts) = oldest d (if ltb (expiry_of d t) (expiry_of d best) then t else best) ts

-- `mine.remove(token)`
unfoldable pub remove : Token → List Token → List Token
remove token [] = []
remove token (t ∷ ts) = if token == t then ts else t ∷ remove token ts

-- The two loops of `stash`. The fuel is the number of tokens, which falls in each round.
unfoldable pub trim_session : ℕ → List Token → Vault → Vault
trim_session (suc f) (t ∷ ts) v =
    let old = oldest v.entries t ts in
    let rest = trim_session f (remove old (t ∷ ts)) (drop old v) in
    if leb max_entries_per_session (length (t ∷ ts)) then rest else v
trim_session _ _ v = v

unfoldable pub trim_all : ℕ → Vault → Vault
trim_all zero v = v
trim_all (suc f) v = elim (Dict.keys v.entries) [
  | [] ↦ v
  | t ∷ ts ↦
      let rest = trim_all f (drop (oldest v.entries t ts) v) in
      if leb max_entries (length v.entries) then rest else v
]

abbrev pub mine : String → Entry → Bool
mine session e = e.session == session

-- The refusals of `stash`, in its order.
pub data VaultError : Type 0 where
  not_a_string no_plaintext no_session : VaultError

-- What a tool result may hold in a field.
pub data Field : Type 0 where
  text : Text → Field
  other : Field

abbrev make_room : String → ℕ → Vault → Vault
make_room session now v =
    let purged = purge now v in
    let own = tokens_where (mine session) purged.entries in
    let trimmed = trim_session (length own) own purged in trim_all (length trimmed.entries) trimmed

abbrev hold : Token → Entry → Vault → Vault
hold token e v = record {
  entries = Dict.insert token e v.entries;
  timers = Dict.insert token e.expiry v.timers;
}

pub data Stashed : Type 0 where
  placeholder : Token → Vault → Stashed
  vault_error : VaultError → Stashed

unfoldable pub stash : Field → String → Token → ℕ → Vault → Stashed
stash other session token now v = vault_error not_a_string
stash (text []) session token now v = vault_error no_plaintext
stash (text (c ∷ cs)) session token now v =
    if session == ""
    then vault_error no_session
    else placeholder token (
        hold token (record { session = session; plaintext = c ∷ cs; expiry = now + ttl })
          (make_room session now v))

abbrev visible : String → Option Entry → Option Text
visible session none = none
visible session (some e) = if e.session == session then some e.plaintext else none

unfoldable pub resolve : Token → String → ℕ → Vault → Option Text × Vault
resolve token session now v =
    if session == ""
    then (none, v)
    else (visible session (Dict.lookup token (purge now v).entries), purge now v)

unfoldable pub live_count : Option String → ℕ → Vault → ℕ × Vault
live_count none now v = (length (purge now v).entries, purge now v)
live_count (some session) now v =
    (length (tokens_where (mine session) (purge now v).entries), purge now v)

unfoldable pub clear : Vault → Vault
clear v = drop_all (Dict.keys v.entries ++ Dict.keys v.timers) v
