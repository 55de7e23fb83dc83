-- ===== src/Vault/Bounds.antt =====
-- The two ceilings of the vault.
use hermes_drop.Base.{
  ℕ, suc, zero, ◌+◌, ◌≤◌, ◌<◌, String, ◌≡◌, refl, sym, ap, inl, inr, true, some, List, [], ◌∷◌,
  arith, if◌then◌else◌, ◌==◌, contains, option_eq, string_eq, nat_eq, Bool-cases, leb, length,
}
use hermes_drop.Base.{text_eq}
use hermes_drop.Base.Dict
use hermes_drop.Base.Dict.{
  Dict, NodupKeys, lookup-erase, length-erase-le, erase-NodupKeys, insert-NodupKeys, lookup-insert,
  length-insert-le, length-erase-lt,
}
use hermes_drop.Vault.{
  Token, Entry, Entries, Vault, drop, drop_all, tokens_where, lapsed, purge, remove, oldest,
  trim_session, trim_all, mine, max_entries, max_entries_per_session, stash, Field, text, other,
  Stashed, placeholder, vault_error, hold, make_room, ttl,
}
use hermes_drop.Vault.Tokens.{
  tokens_where-drop, length-remove, contains-oldest, drop_all-NodupKeys, length-drop_all-le,
}

abbrev pub held_by : String → Entries → ℕ
held_by session d = length (tokens_where (mine session) d)

-- Tokens are distinct, a session holds four secrets at most, and the process thirty-two.
pub record IsBounded (v : Vault) : Type 0 where
  pub distinct : NodupKeys v.entries
  pub per_session : (session : String) → held_by session v.entries ≤ max_entries_per_session
  pub overall : length v.entries ≤ max_entries

held_by-erase-le : (s : String) (t : Token) (d : Entries) → held_by s (Dict.erase t d) ≤ held_by s d
unfolding tokens_where Dict.erase
held_by-erase-le s t [] = omega arith
held_by-erase-le s t ((j, e) ∷ d) = ground (arith, held_by-erase-le s t d)

held_by-drop_all-le :
    (s : String) (ts : List Token) (v : Vault)
    → held_by s (drop_all ts v).entries ≤ held_by s v.entries
unfolding drop_all drop
held_by-drop_all-le s [] v = omega arith
held_by-drop_all-le s (t ∷ ts) v =
    omega (arith, held_by-drop_all-le s ts (drop t v), held_by-erase-le s t v.entries)

pub drop_all-IsBounded : (ts : List Token) {v : Vault} → IsBounded v → IsBounded (drop_all ts v)
drop_all-IsBounded ts {v} b = record {
  distinct = drop_all-NodupKeys ts v b.distinct;
  per_session = λ s. omega (arith, held_by-drop_all-le s ts v, b.per_session s);
  overall = omega (arith, length-drop_all-le ts v, b.overall);
}

pub drop-IsBounded : (t : Token) {v : Vault} → IsBounded v → IsBounded (drop t v)
unfolding drop_all
drop-IsBounded t {v} b = drop_all-IsBounded (t ∷ []) b

pub purge-IsBounded : (now : ℕ) {v : Vault} → IsBounded v → IsBounded (purge now v)
unfolding purge
purge-IsBounded now {v} b = drop_all-IsBounded (tokens_where (lapsed now) v.entries) b

-- The session's loop ends below the session's ceiling.
trim_session-IsBounded :
    (s : String) (f : ℕ) (ts : List Token) (v : Vault)
    → IsBounded v
    → ts ≡ tokens_where (mine s) v.entries
    → length ts ≤ f
    → IsBounded (trim_session f ts v)
      × (held_by s (trim_session f ts v).entries < max_entries_per_session)
unfolding trim_session
trim_session-IsBounded s zero [] v b e h = (b, ground (arith, ap length e))
trim_session-IsBounded s zero (t ∷ ts) v b e h = absurd (omega arith)
trim_session-IsBounded s (suc f) [] v b e h = (b, ground (arith, ap length e))
trim_session-IsBounded s (suc f) (t ∷ ts) v b e h =
    let old = oldest v.entries t ts in
    let later =
      trim_session-IsBounded s f (remove old (t ∷ ts)) (drop old v) (drop-IsBounded old b)
        (unfold drop in rw e (sym (tokens_where-drop (mine s) old v.entries b.distinct)))
        (omega (arith, length-remove old (t ∷ ts) (contains-oldest v.entries t ts))) in
    elim (Bool-cases (leb max_entries_per_session (length (t ∷ ts)))) [
      | inl full ↦ rw full later
      | inr free ↦ rw free (b, ground (arith, ap length e))
    ]

length-keys : (d : Entries) → length (Dict.keys d) ≡ length d
unfolding Dict.keys
length-keys [] = refl
length-keys (e ∷ d) = ap suc (length-keys d)

entry_of_key :
    (t : Token) (d : Entries)
    → contains (Dict.keys d) t ≡ true
    → (e : Entry) × (Dict.lookup t d ≡ some e)
unfolding Dict.keys Dict.lookup
entry_of_key t [] h = ground arith
entry_of_key t ((j, e) ∷ d) h = elim (Bool-cases (t == j)) [
  | inl same ↦ (e, ground arith)
  | inr differ ↦ let (e', found) = entry_of_key t d (ground arith) in (e', ground arith)
]

held_by-drop-le :
    (s : String) (t : Token) (v : Vault) → held_by s (drop t v).entries ≤ held_by s v.entries
unfolding drop
held_by-drop-le s t v = held_by-erase-le s t v.entries

length-drop-lt :
    (t : Token) (v : Vault)
    → contains (Dict.keys v.entries) t ≡ true
    → length (drop t v).entries < length v.entries
unfolding drop
length-drop-lt t v h =
    let (e, found) = entry_of_key t v.entries h in length-erase-lt t e v.entries found

-- What the process's loop leaves: no session holds more, and there is room for one entry.
record Trimmed (v w : Vault) : Type 0 where
  bounded : IsBounded w
  below : length w.entries < max_entries
  no_more : (s : String) → held_by s w.entries ≤ held_by s v.entries

trim_all-Trimmed :
    (f : ℕ) (v : Vault) → IsBounded v → length v.entries ≤ f → Trimmed v (trim_all f v)
unfolding trim_all
trim_all-Trimmed zero v b h = record {
  bounded = b;
  below = omega arith;
  no_more = λ s. omega arith;
}
trim_all-Trimmed (suc f) v b h = by_keys (Dict.keys v.entries) refl (trim_all-Trimmed f)
  where
    by_keys :
        (ks : List Token)
        → Dict.keys v.entries ≡ ks
        → ((w : Vault) → IsBounded w → length w.entries ≤ f → Trimmed w (trim_all f w))
        → Trimmed v (trim_all (suc f) v)
    by_keys [] e ih =
        rw (e, trim_all)
          (record {
            bounded = b;
            below = omega (arith, length-keys v.entries, ap length e);
            no_more = λ s. omega arith;
          })
    by_keys (t ∷ ts) e ih =
        let old = oldest v.entries t ts in
        let shorter : length (drop old v).entries < length v.entries =
          length-drop-lt old v (rw e (contains-oldest v.entries t ts)) in
        let later = ih (drop old v) (drop-IsBounded old b) (omega arith) in
        elim (Bool-cases (leb max_entries (length v.entries))) [
          | inl full ↦
              rw (e, trim_all, full)
                (record {
                  bounded = later.bounded;
                  below = later.below;
                  no_more = λ s. omega (arith, later.no_more s, held_by-drop-le s old v);
                })
          | inr free ↦
              rw (e, trim_all, free)
                (record { bounded = b; below = ground arith; no_more = λ s. omega arith })
        ]

held_by-insert-le :
    (s : String) (t : Token) (e : Entry) (d : Entries)
    → held_by s (Dict.insert t e d) ≤ held_by s d + (if mine s e then 1 else 0)
unfolding tokens_where Dict.insert
held_by-insert-le s t e [] = ground arith
held_by-insert-le s t e ((j, w) ∷ d) = ground (arith, held_by-insert-le s t e d)

make_room-Trimmed :
    (session : String) (now : ℕ) (v : Vault)
    → IsBounded v
    → let w = make_room session now v in
      IsBounded w
      × (length w.entries < max_entries)
      × (held_by session w.entries < max_entries_per_session)
make_room-Trimmed session now v b =
    let purged = purge now v in
    let own = tokens_where (mine session) purged.entries in
    let (kept, below) =
      trim_session-IsBounded session (length own) own purged (purge-IsBounded now b) refl
        (omega arith) in
    let trimmed = trim_session (length own) own purged in
    let all = trim_all-Trimmed (length trimmed.entries) trimmed kept (omega arith) in
    (all.bounded, all.below, omega (arith, all.no_more session))

hold-IsBounded :
    (token : Token) (e : Entry) (v : Vault)
    → IsBounded v
    → length v.entries < max_entries
    → held_by e.session v.entries < max_entries_per_session
    → IsBounded (hold token e v)
hold-IsBounded token e v b below own_below = record {
  distinct = insert-NodupKeys token e v.entries b.distinct;
  per_session = λ s. ground (arith, held_by-insert-le s token e v.entries, b.per_session s);
  overall = omega (arith, length-insert-le token e v.entries);
}

-- The vault that a call of `stash` leaves.
abbrev pub after_stash : Vault → Stashed → Vault
after_stash v (placeholder token w) = w
after_stash v (vault_error e) = v

-- `stash` keeps both ceilings and the tokens distinct, whether it holds the secret or refuses.
pub stash-IsBounded :
    (f : Field) (session : String) (token : Token) (now : ℕ) (v : Vault)
    → IsBounded v
    → IsBounded (after_stash v (stash f session token now v))
unfolding stash
stash-IsBounded other session token now v b = b
stash-IsBounded (text []) session token now v b = b
stash-IsBounded (text (c ∷ cs)) session token now v b =
    let (bounded, below, own_below) = make_room-Trimmed session now v b in
    elim (Bool-cases (session == "")) [
      | inl unbound ↦ rw unbound b
      | inr bound ↦ rw bound (
          hold-IsBounded token
            (record { session = session; plaintext = c ∷ cs; expiry = now + ttl })
            (make_room session now v) bounded below own_below)
    ]
