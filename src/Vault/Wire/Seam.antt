-- ===== src/Vault/Wire/Seam.antt =====
-- The two seams of the vault together: `stash`, and the substitution on the wire.
use hermes_drop.Base.{
  ℕ, ◌+◌, ◌<◌, String, ◌≡◌, ap, ◌∙◌, ◌≢◌, Bool, true, ◌||◌, Option, none, ◌∷◌, ◌++◌, arith,
  option_eq, string_eq, nat_eq,
}
use mathlib.Core.List.{append_assoc}
use hermes_drop.Base.{Text, text_eq}
use hermes_drop.Base.Dict.{lookup-insert}
use hermes_drop.Vault.{Token, Vault, text, placeholder, stash, resolve, ttl, make_room}
use hermes_drop.Vault.Tokens.{lookup-purge}
use hermes_drop.Vault.Bounds.{IsBounded, stash-IsBounded}
use hermes_drop.Vault.Resolve.{resolve-stash}
use hermes_drop.Vault.Substitute.{opening, placeholder_text, replacement, is_hit, substitute_text}
use hermes_drop.Vault.Wire.{IsToken, IsPlain, body, sub-placeholder, sub-plain}

-- No other session can resolve a placeholder that was just stashed.
pub resolve-stash_foreign :
    (c : ℕ) (cs : Text) (session other : String) (token : Token) (now later : ℕ) (v : Vault)
    {w : Vault}
    → IsBounded v
    → stash (text (c ∷ cs)) session token now v ≡ placeholder token w
    → other ≢ session
    → (resolve token other later w).0 ≡ none
unfolding resolve stash
resolve-stash_foreign c cs session other token now later v {w} b stashed differ =
    let bounded : IsBounded w =
      rw stashed at (stash-IsBounded (text (c ∷ cs)) session token now v b) in
    ground (
      arith,
      lookup-purge token later w bounded.distinct,
      lookup-insert token token
          (record { session = session; plaintext = c ∷ cs; expiry = now + ttl })
          (make_room session now v).entries,
    )

-- A text before what an answer puts for a token, before what follows.
abbrev framed : Text → Token → Text × Bool → Option Text → Text × Bool
framed before token (out, hit) r = (before ++ (replacement r token ++ out), is_hit r || hit)

abbrev put_before : Text → Text × Bool → Text × Bool
put_before before (out, hit) = (before ++ out, hit)

module _ (lookup : Token → Option Text) where
  around :
      (before after : Text) (token : Token)
      → IsPlain before
      → IsToken token
      → substitute_text lookup (before ++ (placeholder_text token ++ after)) ≡ (
        before ++ (replacement (lookup token) token ++ (substitute_text lookup after).0),
        is_hit (lookup token) || (substitute_text lookup after).1,
      )
  unfolding placeholder_text
  around before after token plain shape =
      sub-plain lookup before (placeholder_text token ++ after) plain
      ∙ ap (put_before before) (rw whole (sub-placeholder lookup token after shape))
    where
      whole : placeholder_text token ++ after ≡ opening ++ body token after
      whole = rw (append_assoc, append_assoc)

-- A secret that is not empty is stashed into a bounded vault under a token of the placeholder's shape, and
-- its placeholder stands in a text with no opening bracket before it. Until the secret lapses, the wire
-- gets the plaintext in its place in the session of the stash, and is told of the change; in any other
-- session it gets the placeholder as it was.
pub substitute_text-stash :
    (c : ℕ) (cs before after : Text) (session other : String) (token : Token) (now later : ℕ)
    (v : Vault) {w : Vault}
    → IsBounded v
    → stash (text (c ∷ cs)) session token now v ≡ placeholder token w
    → later < now + ttl
    → other ≢ session
    → IsPlain before
    → IsToken token
    → let wire = λ (who : String). substitute_text (λ t. (resolve t who later w).0) in
      let here = before ++ (placeholder_text token ++ after) in
      (wire session here ≡ (before ++ ((c ∷ cs) ++ (wire session after).0), true))
      × (wire other here
          ≡ (before ++ (placeholder_text token ++ (wire other after).0), (wire other after).1))
substitute_text-stash c cs before after session other token now later v {w} b stashed early differ
      plain shape =
    (
      around (λ t. (resolve t session later w).0) before after token plain shape
          ∙ ap (framed before token (substitute_text (λ t. (resolve t session later w).0) after))
              (resolve-stash c cs session token now later v b stashed early),
      around (λ t. (resolve t other later w).0) before after token plain shape
          ∙ ap (framed before token (substitute_text (λ t. (resolve t other later w).0) after))
              (resolve-stash_foreign c cs session other token now later v b stashed differ),
    )
