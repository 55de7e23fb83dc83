-- ===== src/Vault/Redact.antt =====
-- The durable seam of drop/vault.py: a tool result loses its secret before it is serialised.
use hermes_drop.Base.{
  ℕ, String, ◌≡◌, refl, Option, none, some, [], ◌∷◌, arith, if◌then◌else◌, ◌==◌, option_eq,
  string_eq, nat_eq,
}
use hermes_drop.Base.{Text, text_eq, codes}
use hermes_drop.Vault.{
  Token, Vault, Stashed, Field, text, other, VaultError, placeholder, vault_error, stash,
}
use hermes_drop.Vault.Substitute.{Node, string, mapping, Fields, no_fields, field, placeholder_text}

abbrev pub secret_field : Text
secret_field = codes "private_input"

abbrev pub note_field : Text
note_field = codes "private_input_note"

abbrev pub note : Text
note =
    codes
      "This value is held in gateway memory only and substituted into the model request; it is never written to Hermes' durable session state. If you are reading the bracketed placeholder itself, it has lapsed — ask the user for a new drop rather than guessing."

-- `payload.get(key)` and `payload[key] = value`.
unfoldable pub field_at : Text → Fields → Option Node
field_at key no_fields = none
field_at key (field k value fs) = if key == k then some value else field_at key fs

unfoldable pub set_field : Text → Node → Fields → Fields
set_field key new no_fields = field key new no_fields
set_field key new (field k value fs) =
    if key == k then field key new fs else field k value (set_field key new fs)

-- What `stash` sees of a field: a string, or anything else.
abbrev pub as_field : Node → Field
as_field (string s) = text s
as_field _ = other

pub data Redacted : Type 0 where
  passed : Node → Vault → Redacted
  raised : VaultError → Redacted

abbrev redact_stashed : Fields → Stashed → Redacted
redact_stashed fs (placeholder token v) =
    passed
      (mapping (
        set_field note_field (string note)
          (set_field secret_field (string (placeholder_text token)) fs)))
      v
redact_stashed fs (vault_error e) = raised e

unfoldable pub redact_tool_result : Node → String → Token → ℕ → Vault → Redacted
redact_tool_result (mapping fs) session token now v = elim (field_at secret_field fs) [
  | none ↦ passed (mapping fs) v
  | some secret ↦ redact_stashed fs (stash (as_field secret) session token now v)
]
redact_tool_result payload session token now v = passed payload v

pub field_at-set_field :
    (j k : Text) (new : Node) (fs : Fields)
    → field_at j (set_field k new fs) ≡ (if j == k then some new else field_at j fs)
unfolding field_at set_field
field_at-set_field j k new no_fields = refl
field_at-set_field j k new (field i value fs) = ground (arith, field_at-set_field j k new fs)

stash-token :
    (f : Field) (session : String) (token t : Token) (now : ℕ) (v w : Vault)
    → stash f session token now v ≡ placeholder t w
    → t ≡ token
unfolding stash
stash-token other session token t now v w h = cc
stash-token (text []) session token t now v w h = cc
stash-token (text (c ∷ cs)) session token t now v w h = ground arith

-- A result that carries a secret comes back, if it comes back at all, with the placeholder in
-- the secret's field, the note in its own, and every other field as it was.
pub field_at-redact_tool_result :
    (j : Text) (fs : Fields) (secret : Node) (session : String) (token : Token) (now : ℕ)
    (v : Vault) {out : Fields} {w : Vault}
    → field_at secret_field fs ≡ some secret
    → redact_tool_result (mapping fs) session token now v ≡ passed (mapping out) w
    → field_at j out ≡ (
        if j == note_field
        then some (string note)
        else if j == secret_field
        then some (string (placeholder_text token))
        else field_at j fs)
unfolding redact_tool_result
field_at-redact_tool_result j fs secret session token now v {out} {w} has h =
    by_stash (stash (as_field secret) session token now v) refl
  where
    by_stash :
        (r : Stashed)
        → stash (as_field secret) session token now v ≡ r
        → field_at j out ≡ (
            if j == note_field
            then some (string note)
            else if j == secret_field
            then some (string (placeholder_text token))
            else field_at j fs)
    by_stash (vault_error e) s = absurd (ground arith)
    by_stash (placeholder t x) s = ground (
      arith,
      stash-token (as_field secret) session token t now v x s,
      field_at-set_field j note_field (string note)
          (set_field secret_field (string (placeholder_text t)) fs),
      field_at-set_field j secret_field (string (placeholder_text t)) fs,
    )

-- A secret that cannot be held is an error, and no result at all.
pub redact_tool_result-raises :
    (fs : Fields) (secret : Node) (session : String) (token : Token) (now : ℕ) (v : Vault)
    (e : VaultError)
    → field_at secret_field fs ≡ some secret
    → stash (as_field secret) session token now v ≡ vault_error e
    → redact_tool_result (mapping fs) session token now v ≡ raised e
unfolding redact_tool_result
redact_tool_result-raises fs secret session token now v e has refused = ground arith
