-- ===== src/Vault/Isolation.antt =====
-- What a stash of one session means for the secrets of another.
use hermes_drop.Base.{
  ℕ, suc, zero, ◌+◌, ◌≤◌, ◌<◌, String, ◌≡◌, refl, sym, ◌≢◌, false, some, List, [], ◌∷◌, arith,
  contains, option_eq, string_eq, nat_eq, length,
}
use hermes_drop.Base.{Text, text_eq}
use hermes_drop.Base.Dict
use hermes_drop.Base.Dict.{Dict, NodupKeys, lookup-insert, insert-NodupKeys, length-erase-le}
use hermes_drop.Vault.{
  resolve, Token, Entry, Entries, Vault, drop, tokens_where, purge, remove, oldest, trim_session,
  trim_all, mine, max_entries, stash, text, placeholder, make_room, ttl,
}
use hermes_drop.Vault.Bounds.{IsBounded, stash-IsBounded}
use hermes_drop.Vault.Resolve.{resolve_iff}
use hermes_drop.Vault.Tokens.{
  tokens_where-drop, contains-tokens_where, lookup-drop, lookup-purge, contains-oldest,
  drop-NodupKeys, purge-NodupKeys,
}

module _ (s : String) (theirs : Token) (e : Entry) (foreign : e.session ≢ s) where
  -- A token of another session is not among the session's own.
  not-own :
      (d : Entries)
      → NodupKeys d
      → Dict.lookup theirs d ≡ some e
      → contains (tokens_where (mine s) d) theirs ≡ false
  not-own d u found = ground (arith, contains-tokens_where (mine s) d theirs u)

  lookup-trim_session :
      (f : ℕ) (ts : List Token) (v : Vault)
      → NodupKeys v.entries
      → ts ≡ tokens_where (mine s) v.entries
      → Dict.lookup theirs v.entries ≡ some e
      → Dict.lookup theirs (trim_session f ts v).entries ≡ some e
  unfolding trim_session
  lookup-trim_session (suc f) (t ∷ ts) v u own found =
      let old = oldest v.entries t ts in
      let spared : Dict.lookup theirs (drop old v).entries ≡ some e = ground (
        arith,
        lookup-drop theirs old v,
        rw (← own) at (not-own v.entries u found),
        contains-oldest v.entries t ts,
      ) in
      let later =
        lookup-trim_session f (remove old (t ∷ ts)) (drop old v) (drop-NodupKeys old v u)
          (unfold drop in rw own (sym (tokens_where-drop (mine s) old v.entries u))) spared in
      ground arith
  lookup-trim_session zero ts v u own found = found
  lookup-trim_session (suc f) [] v u own found = found

length-trim_session-le :
    (f : ℕ) (ts : List Token) (v : Vault) → length (trim_session f ts v).entries ≤ length v.entries
unfolding trim_session drop
length-trim_session-le zero ts v = omega arith
length-trim_session-le (suc f) [] v = omega arith
length-trim_session-le (suc f) (t ∷ ts) v =
    let old = oldest v.entries t ts in
    ground (
      arith,
      length-trim_session-le f (remove old (t ∷ ts)) (drop old v),
      length-erase-le old v.entries,
    )

trim_all_idle : (f : ℕ) (v : Vault) → length v.entries < max_entries → trim_all f v ≡ v
unfolding trim_all
trim_all_idle zero v h = refl
trim_all_idle (suc f) v h = ground arith

lookup-stash_other :
    (c : ℕ) (cs : Text) (s : String) (token : Token) (now : ℕ) (v : Vault) {w : Vault}
    (theirs : Token) (e : Entry)
    → NodupKeys v.entries
    → length (purge now v).entries < max_entries
    → stash (text (c ∷ cs)) s token now v ≡ placeholder token w
    → Dict.lookup theirs v.entries ≡ some e
    → e.session ≢ s
    → theirs ≢ token
    → now < e.expiry
    → Dict.lookup theirs w.entries ≡ some e
unfolding stash
lookup-stash_other c cs s token now v theirs e u roomy stashed found foreign differ early =
    let purged = purge now v in
    let own = tokens_where (mine s) purged.entries in
    let trimmed = trim_session (length own) own purged in
    ground (
      arith,
      lookup-trim_session s theirs e foreign (length own) own purged (purge-NodupKeys now v u) refl
          (ground (arith, lookup-purge theirs now v u)),
      trim_all_idle (length trimmed.entries) trimmed
          (omega (arith, length-trim_session-le (length own) own purged)),
      lookup-insert theirs token (record { session = s; plaintext = c ∷ cs; expiry = now + ttl })
          (make_room s now v).entries,
    )

-- While the process holds fewer than thirty-two live secrets, a stash under a new token leaves
-- every live secret of every other session resolvable in its session until it lapses.
pub resolve-stash_other :
    (c : ℕ) (cs : Text) (s : String) (token : Token) (now later : ℕ) (v : Vault) {w : Vault}
    (theirs : Token) (e : Entry)
    → IsBounded v
    → length (purge now v).entries < max_entries
    → stash (text (c ∷ cs)) s token now v ≡ placeholder token w
    → Dict.lookup theirs v.entries ≡ some e
    → e.session ≢ s
    → e.session ≢ ""
    → theirs ≢ token
    → now < e.expiry
    → later < e.expiry
    → (resolve theirs e.session later w).0 ≡ some e.plaintext
resolve-stash_other c cs s token now later v {w} theirs e b roomy stashed found foreign bound differ
      live early =
    let bounded : IsBounded w = rw stashed at (stash-IsBounded (text (c ∷ cs)) s token now v b) in
    (resolve_iff theirs e.session later w e.plaintext bounded.distinct).1 (
      bound,
      (
        e,
        lookup-stash_other c cs s token now v theirs e b.distinct roomy stashed found foreign differ
            live,
        refl,
        refl,
        early,
      ),
    )
