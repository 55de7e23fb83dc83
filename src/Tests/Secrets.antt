-- ===== src/Tests/Secrets.antt =====
-- The vault at concrete data.
use hermes_drop.Base.{
  ◌<◌, String, ◌≡◌, refl, ◌≢◌, ◌↔◌, Bool, true, false, not, Option, none, some, [], ◌∷◌, ◌++◌,
  arith, if◌then◌else◌, Eq, ◌==◌, option_eq, string_eq, nat_eq, length, any, All,
}
use hermes_drop.Base.{Text, text_eq, codes}
use hermes_drop.Base.Dict
use hermes_drop.Vault.{
  Token, Entry, Vault, empty, drop_all, tokens_where, purge, trim_session, trim_all, stash, resolve,
  text, placeholder, max_entries,
}
use hermes_drop.Vault.Bounds.{IsBounded}
use hermes_drop.Vault.Resolve.{
  stashes, resolves, timer_fires, run, run-IsBounded, resolve_iff, resolve-stash,
}
use hermes_drop.Vault.Isolation.{resolve-stash_other}
use hermes_drop.Vault.Substitute.{
  placeholder_text, substitute_text, substitute_tree, Node, string, mapping, sequence, opaque,
  Fields, no_fields, field, no_items, item, sub, is_hex, match_here, after_prefix, hex_then_closing,
}
use hermes_drop.Vault.Redact.{
  set_field, field_at, redact_tool_result, passed, note, secret_field, note_field,
  field_at-redact_tool_result,
}
use hermes_drop.Vault.Wire.{IsToken}
use hermes_drop.Vault.Wire.Seam.{substitute_text-stash}
use hermes_drop.Vault.Wire.Unchanged.{everywhere, substitute_tree-everywhere}

module _ {A : Type 0} ⦃e : Eq A⦄ where
  differ : (a b : A) → (a == b) ≡ false → a ≢ b
  differ a b h = ground arith

other_chat : ◌≢◌ {A = String} "other" "chat"
unfolding string_eq
other_chat = differ "other" "chat" refl

other_named : ◌≢◌ {A = String} "other" ""
unfolding string_eq
other_named = differ "other" "" refl

abbrev theirs : Token
theirs = codes "0123456789abcdef0123456789abcdef"

abbrev token : Token
token = codes "fedcba9876543210fedcba9876543210"

empty-IsBounded : IsBounded empty
unfolding tokens_where
empty-IsBounded = record { distinct = tt; per_session = λ s. omega arith; overall = omega arith }

run-IsBounded_example : IsBounded (
    run
      (stashes (text (codes "a")) "chat" theirs 5
        ∷ resolves theirs "chat" 7
        ∷ stashes (text (codes "b")) "chat" token 9
        ∷ timer_fires theirs
        ∷ [])
      empty)
run-IsBounded_example =
    run-IsBounded
      (stashes (text (codes "a")) "chat" theirs 5
        ∷ resolves theirs "chat" 7
        ∷ stashes (text (codes "b")) "chat" token 9
        ∷ timer_fires theirs
        ∷ [])
      empty empty-IsBounded

-- Another session's secret is held when this one comes.
abbrev their_entry : Entry
their_entry = record { session = "other"; plaintext = codes "pin"; expiry = 900005 }

abbrev before : Vault
before = record { entries = (theirs, their_entry) ∷ []; timers = (theirs, 900005) ∷ [] }

abbrev after : Vault
after = record {
  entries =
      (theirs, their_entry)
      ∷ (token, record { session = "chat"; plaintext = codes "abc"; expiry = 900010 })
      ∷ [];
  timers = (theirs, 900005) ∷ (token, 900010) ∷ [];
}

before-IsBounded : IsBounded before
unfolding tokens_where Dict.lookup
before-IsBounded = record {
  distinct = (refl, tt);
  per_session = λ s. ground arith;
  overall = omega arith;
}

stashed : stash (text (codes "abc")) "chat" token 10 before ≡ placeholder token after
unfolding stash purge tokens_where drop_all trim_session trim_all string_eq Dict.insert Dict.keys
    text_eq
stashed = refl

resolve_iff_example : ((resolve theirs "other" 6 before).0 ≡ some (codes "pin")) ↔ (
    (◌≢◌ {A = String} "other" "")
    × ((e : Entry) × (Dict.lookup theirs before.entries ≡ some e)
        × (e.session ≡ "other")
        × (e.plaintext ≡ codes "pin")
        × (6 < e.expiry)))
resolve_iff_example = resolve_iff theirs "other" 6 before (codes "pin") before-IsBounded.distinct

resolve-stash_example : (resolve token "chat" 800000 after).0 ≡ some (codes "abc")
resolve-stash_example =
    resolve-stash b'a' (codes "bc") "chat" token 10 800000 before before-IsBounded stashed
      (omega arith)

their_lookup : Dict.lookup theirs before.entries ≡ some their_entry
unfolding Dict.lookup text_eq
their_lookup = refl

tokens_differ : theirs ≢ token
unfolding text_eq
tokens_differ = differ theirs token refl

few_live : length (purge 10 before).entries < max_entries
unfolding purge tokens_where drop_all
few_live = omega arith

resolve-stash_other_example : (resolve theirs "other" 20 after).0 ≡ some (codes "pin")
resolve-stash_other_example =
    resolve-stash_other b'a' (codes "bc") "chat" token 10 20 before theirs their_entry
      before-IsBounded few_live stashed their_lookup other_chat other_named tokens_differ
      (omega arith) (omega arith)

All-hex : (cs : Text) → any (λ c. not (is_hex c)) cs ≡ false → All (λ c. is_hex c ≡ true) cs
unfolding any
All-hex [] h = tt
All-hex (c ∷ cs) h = (ground arith, All-hex cs (ground arith))

token-IsToken : IsToken token
unfolding any
token-IsToken = record { digits = All-hex token refl; count = refl }

abbrev wire : String → Text → Text × Bool
wire who = substitute_text (λ t. (resolve t who 20 after).0)

substitute_text-stash_example :
    (wire "chat" (codes "pw " ++ (placeholder_text token ++ codes "."))
      ≡ (codes "pw " ++ (codes "abc" ++ (wire "chat" (codes ".")).0), true))
    × (wire "other" (codes "pw " ++ (placeholder_text token ++ codes ".")) ≡ (
      codes "pw " ++ (placeholder_text token ++ (wire "other" (codes ".")).0),
      (wire "other" (codes ".")).1,
    ))
substitute_text-stash_example =
    substitute_text-stash b'a' (codes "bc") (codes "pw ") (codes ".") "chat" "other" token 10 20
      before before-IsBounded stashed (omega arith) other_chat
      (λ p. ground arith, (λ p. ground arith, (λ p. ground arith, tt))) token-IsToken

-- A request of one message, whose text holds the placeholder.
abbrev request : Node
request = mapping (
    field (codes "messages")
      (sequence false
        (item (string (codes "pw " ++ (placeholder_text token ++ []))) (item (opaque 1) no_items)))
      no_fields)

abbrev known : Token → Option Text
known t = (resolve t "chat" 20 after).0

substitute_tree-everywhere_example :
    (substitute_tree known 0 request).0 ≡ everywhere known 0 request
substitute_tree-everywhere_example = substitute_tree-everywhere known 0 request

abbrev nothing_known : Token → Option Text
nothing_known t = none

unchanged : (substitute_tree nothing_known 0 request).1 ≡ false
unfolding substitute_tree sub placeholder_text match_here after_prefix nat_eq hex_then_closing
unchanged = refl

abbrev reply : Fields
reply = field (codes "ok") (opaque 1) (field secret_field (string (codes "abc")) no_fields)

abbrev redacted : Fields
redacted = field (codes "ok") (opaque 1) (
    field secret_field (string (placeholder_text token)) (field note_field (string note) no_fields))

reply_secret : field_at secret_field reply ≡ some (string (codes "abc"))
unfolding field_at text_eq
reply_secret = refl

redact-reply :
    redact_tool_result (mapping reply) "chat" token 10 before ≡ passed (mapping redacted) after
unfolding redact_tool_result field_at text_eq stash string_eq set_field Dict.insert trim_all
    trim_session tokens_where purge drop_all Dict.keys
redact-reply = refl

field_at-redact_tool_result_example : field_at secret_field redacted ≡ (
    if secret_field == note_field
    then some (string note)
    else if secret_field == secret_field
    then some (string (placeholder_text token))
    else field_at secret_field reply)
field_at-redact_tool_result_example =
    field_at-redact_tool_result secret_field reply (string (codes "abc")) "chat" token 10 before
      reply_secret redact-reply
