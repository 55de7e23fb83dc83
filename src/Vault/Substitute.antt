-- ===== src/Vault/Substitute.antt =====
-- The wire seam of drop/vault.py: placeholders found in a text, the walk over a request, and the
-- middleware. `lookup` stands for `resolve` in the caller's session, at the time of the walk.
use hermes_drop.Base.{
  ℕ, suc, zero, ◌+◌, String, Bool, true, false, ◌&&◌, ◌||◌, Option, none, some, [], ◌∷◌, ◌++◌,
  if◌then◌else◌, ◌==◌, option_eq, string_eq, nat_eq, ltb, leb, length,
}
use hermes_drop.Base.{Text, text_eq, codes}
use hermes_drop.Vault.{Token, Vault, resolve, live_count}

abbrev pub opening : Text
opening = codes "[hermes-drop:secret:"

abbrev pub closing : ℕ
closing = b']'

-- `_placeholder`
unfoldable pub placeholder_text : Token → Text
placeholder_text token = opening ++ (token ++ (closing ∷ []))

-- The class `[0-9a-f]`.
abbrev pub is_hex : ℕ → Bool
is_hex c = (leb b'0' c && leb c b'9') || (leb b'a' c && leb c b'f')

-- The text after a prefix.
unfoldable pub after_prefix : Text → Text → Option Text
after_prefix [] rest = some rest
after_prefix (p ∷ ps) [] = none
after_prefix (p ∷ ps) (c ∷ cs) = if p == c then after_prefix ps cs else none

-- Exactly `n` hexadecimal digits, and then the bracket.
unfoldable pub hex_then_closing : ℕ → Text → Option Token
hex_then_closing n [] = none
hex_then_closing zero (c ∷ cs) = if c == closing then some [] else none
hex_then_closing (suc n) (c ∷ cs) =
    let rest = hex_then_closing n cs in
    if is_hex c then elim rest [ none ↦ none | some token ↦ some (c ∷ token) ] else none

abbrev pub token_length : ℕ
token_length = 32

abbrev pub match_after : Option Text → Option Token
match_after none = none
match_after (some rest) = hex_then_closing token_length rest

-- `PLACEHOLDER_RE` at the head of a text: the token of group 1.
unfoldable pub match_here : Text → Option Token
match_here cs = match_after (after_prefix opening cs)

-- What `_one` returns for a match, and whether it is a hit.
abbrev pub replacement : Option Text → Token → Text
replacement none token = placeholder_text token
replacement (some plaintext) token = plaintext

abbrev pub is_hit : Option Text → Bool
is_hit none = false
is_hit (some plaintext) = true

module _ (lookup : Token → Option Text) where
  -- `PLACEHOLDER_RE.sub`. The number counts the characters of a match that are still to be
  -- passed over.
  unfoldable pub sub : ℕ → Text → Text × Bool
  sub skip [] = ([], false)
  sub (suc skip) (c ∷ cs) = sub skip cs
  sub zero (c ∷ cs) = elim (match_here (c ∷ cs)) [
    | none ↦ let (out, hit) = sub zero cs in (c ∷ out, hit)
    | some token ↦
        let (out, hit) = sub (length opening + token_length) cs in
        (replacement (lookup token) token ++ out, is_hit (lookup token) || hit)
  ]

  abbrev pub substitute_text : Text → Text × Bool
  substitute_text = sub zero

-- A value of a request. `opaque` is any other object, `bytes` among them.
mutual
  pub data Node : Type 0 where
    string : Text → Node
    mapping : Fields → Node
    sequence : Bool → Items → Node
    opaque : ℕ → Node

  pub data Fields : Type 0 where
    no_fields : Fields
    field : Text → Node → Fields → Fields

  pub data Items : Type 0 where
    no_items : Items
    item : Node → Items → Items

abbrev pub max_walk_depth : ℕ
max_walk_depth = 24

abbrev pub or_same : Node → Node × Bool → Node × Bool
or_same node (rebuilt, changed) = if changed then (rebuilt, true) else (node, false)

-- A sequence keeps whether it is a tuple.
module _ (lookup : Token → Option Text) where
  unfoldable mutual
    pub substitute_tree : ℕ → Node → Node × Bool
    substitute_tree depth (string s) =
        if ltb max_walk_depth depth
        then (string s, false)
        else let (out, hit) = substitute_text lookup s in (string out, hit)
    substitute_tree depth (mapping fs) =
        let (rebuilt, changed) = substitute_fields depth fs in
        if ltb max_walk_depth depth
        then (mapping fs, false)
        else or_same (mapping fs) (mapping rebuilt, changed)
    substitute_tree depth (sequence tuple xs) =
        let (rebuilt, changed) = substitute_items depth xs in
        if ltb max_walk_depth depth
        then (sequence tuple xs, false)
        else or_same (sequence tuple xs) (sequence tuple rebuilt, changed)
    substitute_tree depth (opaque x) = (opaque x, false)

    pub substitute_fields : ℕ → Fields → Fields × Bool
    substitute_fields depth no_fields = (no_fields, false)
    substitute_fields depth (field key value fs) =
        let (new_value, hit) = substitute_tree (depth + 1) value in
        let (rebuilt, changed) = substitute_fields depth fs in
        (field key new_value rebuilt, hit || changed)

    pub substitute_items : ℕ → Items → Items × Bool
    substitute_items depth no_items = (no_items, false)
    substitute_items depth (item value xs) =
        let (new_value, hit) = substitute_tree (depth + 1) value in
        let (rebuilt, changed) = substitute_items depth xs in
        (item new_value rebuilt, hit || changed)

-- `llm_request_middleware`: `none` where the request goes on as it is.
unfoldable pub llm_request_middleware : Node → String → ℕ → Vault → Option Node × Vault
llm_request_middleware (mapping fs) session now v =
    if session == ""
    then (none, v)
    else let (live, purged) = live_count none now v in
      if live == 0
      then (none, purged)
      else let (out, changed) =
          substitute_tree (λ token. (resolve token session now purged).0) 0 (mapping fs) in
        (if changed then some out else none, purged)
llm_request_middleware _ session now v = (none, v)
