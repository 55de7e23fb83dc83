-- ===== src/Vault/Tokens.antt =====
-- What dropping tokens leaves in the store: the entries by token, their number, and their order.
use hermes_drop.Base.{
  ℕ, ◌+◌, ◌≤◌, ◌≡◌, refl, Bool, true, false, Option, none, some, List, [], ◌∷◌, arith,
  if◌then◌else◌, ◌==◌, contains, option_eq, string_eq, nat_eq, leb, length,
}
use hermes_drop.Base.{text_eq}
use hermes_drop.Base.Dict
use hermes_drop.Base.Dict.{
  Dict, NodupKeys, lookup-erase, length-erase-le, erase-NodupKeys, length-erase-lt,
}
use hermes_drop.Vault.{
  Token, Entry, Entries, Vault, drop, drop_all, tokens_where, lapsed, purge, remove, oldest,
}

abbrev pub passes : (Entry → Bool) → Option Entry → Bool
passes p none = false
passes p (some e) = p e

pub contains-tokens_where :
    (p : Entry → Bool) (d : Entries) (t : Token)
    → NodupKeys d
    → contains (tokens_where p d) t ≡ passes p (Dict.lookup t d)
unfolding tokens_where Dict.lookup
contains-tokens_where p [] t u = refl
contains-tokens_where p ((j, e) ∷ d) t (fresh, u) = ground (arith, contains-tokens_where p d t u)

pub lookup-drop :
    (j t : Token) (v : Vault)
    → Dict.lookup j (drop t v).entries ≡ (if j == t then none else Dict.lookup j v.entries)
unfolding drop
lookup-drop j t v = lookup-erase j t v.entries

pub lookup-drop_all :
    (j : Token) (ts : List Token) (v : Vault)
    → Dict.lookup j (drop_all ts v).entries
      ≡ (if contains ts j then none else Dict.lookup j v.entries)
unfolding drop_all
lookup-drop_all j [] v = refl
lookup-drop_all j (t ∷ ts) v = ground (arith, lookup-drop_all j ts (drop t v), lookup-drop j t v)

pub drop-NodupKeys : (t : Token) (v : Vault) → NodupKeys v.entries → NodupKeys (drop t v).entries
unfolding drop
drop-NodupKeys t v u = erase-NodupKeys t v.entries u

pub drop_all-NodupKeys :
    (ts : List Token) (v : Vault) → NodupKeys v.entries → NodupKeys (drop_all ts v).entries
unfolding drop_all
drop_all-NodupKeys [] v u = u
drop_all-NodupKeys (t ∷ ts) v u = drop_all-NodupKeys ts (drop t v) (drop-NodupKeys t v u)

pub length-drop_all-le :
    (ts : List Token) (v : Vault) → length (drop_all ts v).entries ≤ length v.entries
unfolding drop_all drop
length-drop_all-le [] v = omega arith
length-drop_all-le (t ∷ ts) v =
    omega (arith, length-drop_all-le ts (drop t v), length-erase-le t v.entries)

-- What is left of an entry at a time.
abbrev pub alive : ℕ → Option Entry → Option Entry
alive now none = none
alive now (some e) = if leb e.expiry now then none else some e

pub lookup-purge :
    (j : Token) (now : ℕ) (v : Vault)
    → NodupKeys v.entries
    → Dict.lookup j (purge now v).entries ≡ alive now (Dict.lookup j v.entries)
unfolding purge
lookup-purge j now v u = ground (
  arith,
  lookup-drop_all j (tokens_where (lapsed now) v.entries) v,
  contains-tokens_where (lapsed now) v.entries j u,
)

pub purge-NodupKeys : (now : ℕ) (v : Vault) → NodupKeys v.entries → NodupKeys (purge now v).entries
unfolding purge
purge-NodupKeys now v u = drop_all-NodupKeys (tokens_where (lapsed now) v.entries) v u

remove_absent :
    (p : Entry → Bool) (t : Token) (d : Entries)
    → Dict.lookup t d ≡ none
    → remove t (tokens_where p d) ≡ tokens_where p d
unfolding tokens_where Dict.lookup remove
remove_absent p t [] h = refl
remove_absent p t ((j, e) ∷ d) h = ground (arith, remove_absent p t d)

erase_absent : (t : Token) (d : Entries) → Dict.lookup t d ≡ none → Dict.erase t d ≡ d
unfolding Dict.lookup Dict.erase
erase_absent t [] h = refl
erase_absent t ((j, e) ∷ d) h = ground (arith, erase_absent t d)

-- To drop a token from the store is to remove it from every list of its tokens.
pub tokens_where-drop :
    (p : Entry → Bool) (t : Token) (d : Entries)
    → NodupKeys d
    → tokens_where p (Dict.erase t d) ≡ remove t (tokens_where p d)
unfolding tokens_where Dict.erase remove
tokens_where-drop p t [] u = refl
tokens_where-drop p t ((j, e) ∷ d) (fresh, u) =
    ground (arith, tokens_where-drop p t d u, erase_absent t d, remove_absent p t d)

pub length-remove :
    (t : Token) (ts : List Token) → contains ts t ≡ true → length (remove t ts) + 1 ≡ length ts
unfolding remove
length-remove t [] h = ground arith
length-remove t (x ∷ ts) h = ground (arith, length-remove t ts)

pub contains-oldest :
    (d : Entries) (t : Token) (ts : List Token) → contains (t ∷ ts) (oldest d t ts) ≡ true
unfolding oldest
contains-oldest d t [] = ground arith
contains-oldest d t (x ∷ ts) = ground (arith, contains-oldest d x ts, contains-oldest d t ts)
