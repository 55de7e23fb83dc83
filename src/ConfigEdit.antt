-- ===== src/ConfigEdit.antt =====
-- bin/hermes-drop-config-edit.py: the edit of `plugins.enabled` in an operator's YAML file. This file has
-- the readings of one line, by the script's regular expressions.
use hermes_drop.Base.{
  ℕ, suc, zero, ◌+◌, ◌-◌, ◌*◌, ◌/◌, ◌%◌, ◌≤◌, ◌<◌, max, min, String, ◌<>◌, ◌≡◌, refl, sym, ap, ◌∙◌,
  ◌≢◌, ◌↔◌, ◌⊎◌, inl, inr, Bool, true, false, not, ◌&&◌, ◌||◌, Option, none, some, List, [], ◌∷◌,
  ◌++◌, map, arith, if◌then◌else◌, Eq, ◌==◌, contains, option_eq, string_eq, nat_eq, Bool-cases,
  Option-cases, ltb, leb, ltb→lt, leb→le, length, keep, any, All, length-append, length-keep-le,
  keep-All,
}
use hermes_drop.Base.{Text, text_eq, codes, is_space, lstrip, strip}
pub mod Locate
pub mod Apply
pub mod Run
pub mod Lines
pub mod Verified
pub mod Modes

-- Why the script refuses.
pub data Cause : Type 0 where
  not_yaml not_a_mapping plugins_not_a_mapping enabled_not_a_list non_scalar_entry tool_override :
      Cause
  many_plugins_keys machinery many_enabled_keys open_flow inline_value empty_entry odd_entry : Cause
  readings_differ edited_unparsed edited_not_a_mapping edit_unintended other_key_changed : Cause
  plugins_key_changed : Cause

pub data Checked (A : Type 0) : Type 0 where
  refused : Cause → Checked A
  passed : A → Checked A

abbrev pub newline : ℕ
newline = 10

abbrev pub is_newline_only : Text → Bool
is_newline_only [] = true
is_newline_only (c ∷ []) = c == newline
is_newline_only (c ∷ d ∷ cs) = false

-- `(.*)$`: what stands before the newline, at which the line has to end.
unfoldable pub to_line_end : Text → Option Text
unfolding nat_eq
to_line_end [] = some []
to_line_end (c ∷ cs) =
    let rest = to_line_end cs in
    if c == newline
    then (if is_newline_only (c ∷ cs) then some [] else none)
    else elim rest [ none ↦ none | some text ↦ some (c ∷ text) ]

-- The longest start of a text whose characters pass a test, and the rest.
unfoldable pub span : (ℕ → Bool) → Text → Text × Text
span p [] = ([], [])
span p (c ∷ cs) = let (run, rest) = span p cs in if p c then (c ∷ run, rest) else ([], c ∷ cs)

-- `[A-Za-z0-9_.\-]`, and with `/`.
unfoldable pub is_key_char : ℕ → Bool
unfolding nat_eq
is_key_char c =
    (leb b'A' c && leb c b'Z')
    || ((leb b'a' c && leb c b'z')
        || ((leb b'0' c && leb c b'9') || (c == b'_' || (c == b'.' || c == b'-'))))

unfoldable pub is_value_char : ℕ → Bool
unfolding is_key_char nat_eq
is_value_char c = is_key_char c || c == b'/'

abbrev pub quoted_by : ℕ → Text × Text → Option (Text × Text)
quoted_by quote (run, []) = none
quoted_by quote (run, c ∷ rest) = some ((quote ∷ run) ++ (c ∷ []), rest)

abbrev pub some_run : Text × Text → Option (Text × Text)
some_run ([], rest) = none
some_run (c ∷ run, rest) = some (c ∷ run, rest)

-- A run of plain characters, or a quoted text with its quotes; and what follows.
unfoldable pub word : (ℕ → Bool) → Text → Option (Text × Text)
unfolding span nat_eq
word plain [] = none
word plain (c ∷ cs) =
    if c == b'"' || c == 39
    then quoted_by c (span (λ d. not (d == c)) cs)
    else some_run (span plain (c ∷ cs))

abbrev pub after_colon : Text → Option Text
after_colon [] = none
after_colon (c ∷ cs) = if c == b':' then to_line_end cs else none

-- A match of `_KEY_RE`.
pub record KeyLine : Type 0 where
  pub indent : Text
  pub key : Text
  pub after : Text

abbrev pub key_line_of : Text → Option (Text × Text) → Option KeyLine
key_line_of indent none = none
key_line_of indent (some (key, rest)) = elim (after_colon (lstrip rest)) [
  | none ↦ none
  | some after ↦ some (record { indent = indent; key = key; after = after })
]

unfoldable pub key_line : Text → Option KeyLine
unfolding span word is_space is_key_char to_line_end lstrip nat_eq
key_line line =
    let (indent, rest) = span is_space line in key_line_of indent (word is_key_char rest)

abbrev pub after_dash : Text → Option Text
after_dash [] = none
after_dash (c ∷ cs) = if c == b'-' then some cs else none

-- `_BARE_DASH_RE`
unfoldable pub is_bare_dash : Text → Bool
unfolding lstrip nat_eq
is_bare_dash line = elim (after_dash (lstrip line)) [
  | none ↦ false
  | some rest ↦ elim (lstrip rest) [ [] ↦ true | c ∷ cs ↦ false ]
]

abbrev pub item_text : Text × Text → Option Text
item_text ([], rest) = none
item_text (c ∷ spaces, rest) = to_line_end rest

-- A match of `_ITEM_RE`, on a line that is no bare dash: its indent and its text.
unfoldable pub item_line : Text → Option (Text × Text)
unfolding span is_space to_line_end nat_eq
item_line line =
    let (indent, rest) = span is_space line in
    elim (after_dash rest) [
      | none ↦ none
      | some more ↦ elim (item_text (span is_space more)) [
        | none ↦ none
        | some text ↦ some (indent, text)
      ]
    ]

abbrev pub ends_scalar : Text → Bool
ends_scalar [] = true
ends_scalar (c ∷ cs) = c == b'#'

-- The value of a match of `_SCALAR_ITEM_RE`.
unfoldable pub scalar_item : Text → Option Text
unfolding word is_value_char lstrip nat_eq
scalar_item text = elim (word is_value_char text) [
  | none ↦ none
  | some (value, rest) ↦ if ends_scalar (lstrip rest) then some value else none
]

unfoldable pub last_of : ℕ → Text → ℕ
last_of c [] = c
last_of c (d ∷ cs) = last_of d cs

-- `text[:-1]`
unfoldable pub but_last : Text → Text
but_last [] = []
but_last (c ∷ []) = []
but_last (c ∷ d ∷ cs) = c ∷ but_last (d ∷ cs)

abbrev pub without_quotes : Text → Text
without_quotes [] = []
without_quotes (c ∷ []) = c ∷ []
without_quotes (c ∷ d ∷ cs) =
    if c == last_of d cs && (c == b'"' || c == 39) then but_last (d ∷ cs) else c ∷ d ∷ cs

unfoldable pub unquote : Text → Text
unfolding strip last_of but_last nat_eq
unquote text = without_quotes (strip text)

unfoldable pub indent_of : Text → ℕ
unfolding span nat_eq
indent_of line = length (span (λ c. c == b' ') line).0

abbrev pub is_content : Text → Bool
is_content [] = false
is_content (c ∷ cs) = not (c == b'#')

unfoldable pub is_structural : Text → Bool
unfolding strip nat_eq
is_structural line = is_content (strip line)
