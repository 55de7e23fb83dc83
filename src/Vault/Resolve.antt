-- ===== src/Vault/Resolve.antt =====
-- What `resolve` answers, and what a `stash` does to the secrets that are already held.
use hermes_drop.Base.{
  ℕ, ◌+◌, ◌<◌, String, ◌≡◌, ◌≢◌, ◌↔◌, inl, inr, Option, none, some, List, [], ◌∷◌, ◌++◌, arith,
  ◌==◌, option_eq, string_eq, nat_eq, Bool-cases, Option-cases,
}
use hermes_drop.Base.{Text, text_eq}
use hermes_drop.Base.Dict
use hermes_drop.Base.Dict.{Dict, NodupKeys, lookup-insert, insert-NodupKeys}
use hermes_drop.Vault.{
  Token, Entry, Vault, stash, resolve, live_count, clear, expire, Field, text, placeholder,
  make_room, ttl,
}
use hermes_drop.Vault.Tokens.{lookup-purge}
use hermes_drop.Vault.Bounds.{
  IsBounded, stash-IsBounded, drop-IsBounded, purge-IsBounded, drop_all-IsBounded, after_stash,
}

pub data Op : Type 0 where
  stashes : Field → String → Token → ℕ → Op
  resolves : Token → String → ℕ → Op
  counts : Option String → ℕ → Op
  timer_fires : Token → Op
  clears : Op

pub apply : Op → Vault → Vault
apply (stashes f session token now) v = after_stash v (stash f session token now v)
apply (resolves token session now) v = (resolve token session now v).1
apply (counts session now) v = (live_count session now v).1
apply (timer_fires token) v = expire token v
apply clears v = clear v

pub run : List Op → Vault → Vault
run [] v = v
run (op ∷ ops) v = run ops (apply op v)

resolve-IsBounded :
    (token : Token) (session : String) (now : ℕ) (v : Vault)
    → IsBounded v
    → IsBounded (resolve token session now v).1
unfolding resolve
resolve-IsBounded token session now v b = elim (Bool-cases (session == "")) [
  | inl unbound ↦ rw unbound b
  | inr bound ↦ rw bound (purge-IsBounded now b)
]

apply-IsBounded : (op : Op) (v : Vault) → IsBounded v → IsBounded (apply op v)
unfolding apply live_count clear
apply-IsBounded (stashes f session token now) v b = stash-IsBounded f session token now v b
apply-IsBounded (resolves token session now) v b = resolve-IsBounded token session now v b
apply-IsBounded (counts none now) v b = purge-IsBounded now b
apply-IsBounded (counts (some session) now) v b = purge-IsBounded now b
apply-IsBounded (timer_fires token) v b = drop-IsBounded token b
apply-IsBounded clears v b = drop_all-IsBounded (Dict.keys v.entries ++ Dict.keys v.timers) b

-- Whatever is stashed, resolved, counted, expired and cleared, and in whatever order, a vault
-- within its bounds stays there: distinct tokens, four secrets a session, thirty-two in all.
pub run-IsBounded : (ops : List Op) (v : Vault) → IsBounded v → IsBounded (run ops v)
unfolding run
run-IsBounded [] v b = b
run-IsBounded (op ∷ ops) v b = run-IsBounded ops (apply op v) (apply-IsBounded op v b)

-- The secret is given out exactly to a caller with a session, for an entry of that very session
-- that has not lapsed.
pub resolve_iff :
    (token : Token) (session : String) (now : ℕ) (v : Vault) (secret : Text)
    → NodupKeys v.entries
    → ((resolve token session now v).0 ≡ some secret) ↔ (
        (session ≢ "")
        × ((e : Entry) × (Dict.lookup token v.entries ≡ some e)
            × (e.session ≡ session)
            × (e.plaintext ≡ secret)
            × (now < e.expiry)))
unfolding resolve
resolve_iff token session now v secret u = (there, back)
  where
    there :
        (resolve token session now v).0 ≡ some secret
        → (session ≢ "")
          × ((e : Entry) × (Dict.lookup token v.entries ≡ some e)
              × (e.session ≡ session)
              × (e.plaintext ≡ secret)
              × (now < e.expiry))
    there h = elim (Option-cases (Dict.lookup token v.entries)) [
      | inl absent ↦ absurd (ground (arith, lookup-purge token now v u))
      | inr (e, found) ↦ (
        ground arith,
        (
          e,
          found,
          ground (arith, lookup-purge token now v u),
          ground (arith, lookup-purge token now v u),
          ground (arith, lookup-purge token now v u),
        ),
      )
    ]

    back :
        (session ≢ "")
          × ((e : Entry) × (Dict.lookup token v.entries ≡ some e)
              × (e.session ≡ session)
              × (e.plaintext ≡ secret)
              × (now < e.expiry))
        → (resolve token session now v).0 ≡ some secret
    back (bound, (e, found, same, held, early)) = ground (arith, lookup-purge token now v u)

-- A secret that was stashed is what its placeholder resolves to, in the same session and until
-- its time to live has passed, whatever the vault held before within its bounds.
pub resolve-stash :
    (c : ℕ) (cs : Text) (session : String) (token : Token) (now later : ℕ) (v : Vault) {w : Vault}
    → IsBounded v
    → stash (text (c ∷ cs)) session token now v ≡ placeholder token w
    → later < now + ttl
    → (resolve token session later w).0 ≡ some (c ∷ cs)
unfolding resolve stash
resolve-stash c cs session token now later v {w} b stashed early =
    let bounded : IsBounded w =
      rw stashed at (stash-IsBounded (text (c ∷ cs)) session token now v b) in
    ground (
      arith,
      lookup-purge token later w bounded.distinct,
      lookup-insert token token
          (record { session = session; plaintext = c ∷ cs; expiry = now + ttl })
          (make_room session now v).entries,
    )
