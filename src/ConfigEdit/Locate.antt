-- ===== src/ConfigEdit/Locate.antt =====
-- `locate` and `cross_check` of bin/hermes-drop-config-edit.py.
use hermes_drop.Base.{
  ℕ, ◌+◌, Bool, true, false, not, ◌&&◌, Option, none, some, List, [], ◌∷◌, ◌++◌, map, if◌then◌else◌,
  ◌==◌, option_eq, string_eq, nat_eq, ltb, leb, length, keep, any,
}
use hermes_drop.Base.{Text, text_eq, codes, strip}
use hermes_drop.ConfigEdit.{
  Cause, machinery, many_plugins_keys, many_enabled_keys, open_flow, inline_value, empty_entry,
  odd_entry, Checked, refused, passed, KeyLine, key_line, is_bare_dash, item_line, scalar_item,
  unquote, indent_of, is_structural, last_of,
}

abbrev pub Line : Type 0
Line = ℕ × Text

-- Where the list is.
pub record Location : Type 0 where
  pub plugins_line : Option ℕ
  pub block_indent : Option ℕ
  pub enabled_line : Option ℕ
  pub flow : Option (Text × Text × Text)
  pub items : List (ℕ × Text)
  pub item_indent : Option ℕ

abbrev pub nowhere : Location
nowhere = record {
  plugins_line = none;
  block_indent = none;
  enabled_line = none;
  flow = none;
  items = [];
  item_indent = none;
}

-- `enumerate(lines)`
unfoldable pub numbered : ℕ → List Text → List Line
numbered n [] = []
numbered n (line ∷ lines) = (n, line) ∷ numbered (n + 1) lines

abbrev pub names_key : Text → Option KeyLine → Bool
names_key name none = false
names_key name (some k) = unquote k.key == name

unfoldable pub is_top_plugins : Line → Bool
unfolding key_line unquote indent_of text_eq nat_eq
is_top_plugins (i, line) = indent_of line == 0 && names_key (codes "plugins") (key_line line)

-- The lines of the block that begins at a line, up to the next structure without an indent.
unfoldable pub block_after : ℕ → List Line → List Line
unfolding is_structural indent_of nat_eq
block_after start [] = []
block_after start ((i, line) ∷ lines) =
    let rest = block_after start lines in
    if leb i start
    then rest
    else if is_structural line && indent_of line == 0
    then []
    else (i, line) ∷ rest

unfoldable pub is_enabled_key : ℕ → Line → Bool
unfolding key_line unquote indent_of text_eq nat_eq
is_enabled_key block_indent (i, line) =
    indent_of line == block_indent && names_key (codes "enabled") (key_line line)

-- `text.split(mark, 1)`, without the mark.
unfoldable pub split_first : ℕ → Text → Text × Text
unfolding nat_eq
split_first mark [] = ([], [])
split_first mark (c ∷ cs) =
    let (before, after) = split_first mark cs in if c == mark then ([], cs) else (c ∷ before, after)

-- What stands before the last mark, and what begins with it.
unfoldable pub split_last : ℕ → Text → Option (Text × Text)
unfolding nat_eq
split_last mark [] = none
split_last mark (c ∷ cs) = elim (split_last mark cs) [
  | some (before, after) ↦ some (c ∷ before, after)
  | none ↦ if c == mark then some ([], c ∷ cs) else none
]

-- What one line after `enabled:` says.
pub data Reading : Type 0 where
  skip over : Reading
  bad : Cause → Reading
  found : (indent : ℕ) → Text → Reading

unfoldable pub read_item : ℕ → Text → Reading
unfolding is_structural is_bare_dash item_line indent_of scalar_item unquote strip
read_item block_indent line =
    if not (is_structural line)
    then skip
    else if is_bare_dash line
    then bad empty_entry
    else elim (item_line line) [
      | none ↦ over
      | some (indent, text) ↦
          if ltb (indent_of line) block_indent then over else elim (scalar_item (strip text)) [
            | none ↦ bad odd_entry
            | some value ↦ found (length indent) (unquote value)
          ]
    ]

abbrev pub with_item : ℕ → ℕ → Text → Location → Location
with_item i indent value loc = record loc {
  items = loc.items ++ ((i, value) ∷ []);
  item_indent = elim loc.item_indent [ none ↦ some indent | some first ↦ some first ];
}

-- The lines after `enabled:`, up to the first that is no item.
unfoldable pub scan : ℕ → List Line → Location → Checked Location
unfolding read_item
scan block_indent [] loc = passed loc
scan block_indent ((i, line) ∷ lines) loc = elim (read_item block_indent line) [
  | skip ↦ scan block_indent lines loc
  | over ↦ passed loc
  | bad cause ↦ refused cause
  | found indent value ↦ scan block_indent lines (with_item i indent value loc)
]

unfoldable pub flow_of : Text → Text × Text × Text
unfolding split_first split_last nat_eq
flow_of after =
    let (before, rest) = split_first b'[' after in
    elim (split_last b']' rest) [
      | none ↦ (before ++ codes "[", rest, [])
      | some (inner, suffix) ↦ (before ++ codes "[", inner, suffix)
    ]

abbrev pub starts_with : ℕ → Text → Bool
starts_with mark [] = false
starts_with mark (c ∷ cs) = c == mark

abbrev pub ends_with : ℕ → Text → Bool
ends_with mark [] = false
ends_with mark (c ∷ cs) = last_of c cs == mark

abbrev pub is_blank : Text → Bool
is_blank [] = true
is_blank (c ∷ cs) = false

abbrev pub after_of : Option KeyLine → Text
after_of none = []
after_of (some k) = k.after

-- The list, from the line of its key on.
unfoldable pub read_list :
    (block : List Line) → (block_indent : ℕ) → Line → Location → Checked Location
unfolding key_line split_first strip last_of flow_of scan nat_eq
read_list block block_indent (i, line) loc =
    let after = after_of (key_line line) in
    let value = strip (split_first b'#' after).0 in
    if starts_with b'[' value
    then (if ends_with b']' value
        then passed (record loc { flow = some (flow_of after) })
        else refused open_flow)
    else if is_blank value
    then scan block_indent (keep (λ (j, _). ltb i j) block) loc
    else refused inline_value

abbrev pub with_enabled : List Line → ℕ → List Line → Location → Checked Location
with_enabled block block_indent [] loc = passed loc
with_enabled block block_indent ((i, line) ∷ []) loc =
    read_list block block_indent (i, line) (record loc { enabled_line = some i })
with_enabled block block_indent (a ∷ b ∷ lines) loc = refused many_enabled_keys

abbrev pub with_body : List Line → List Line → Location → Checked Location
with_body block [] loc = passed loc
with_body block ((i, line) ∷ body) loc =
    let block_indent = indent_of line in
    with_enabled block block_indent (keep (is_enabled_key block_indent) ((i, line) ∷ body))
      (record loc { block_indent = some block_indent })

abbrev pub with_tops : List Line → (marked : List ℕ) → List Line → Checked Location
with_tops lines marked [] = passed nowhere
with_tops lines marked ((i, line) ∷ []) =
    let block = block_after i lines in
    if any (λ m. leb i m && leb m (i + length block)) marked
    then refused machinery
    else with_body block (keep (λ (_, l). is_structural l) block)
        (record nowhere { plugins_line = some i })
with_tops lines marked (a ∷ b ∷ tops) = refused many_plugins_keys

unfoldable pub locate : List Text → (marked : List ℕ) → Checked Location
unfolding numbered is_top_plugins block_after is_structural indent_of is_enabled_key read_list
locate lines marked =
    let all_lines = numbered 0 lines in with_tops all_lines marked (keep is_top_plugins all_lines)

-- `text.split(",")`
unfoldable pub split_commas : Text → List Text
unfolding nat_eq
split_commas [] = [] ∷ []
split_commas (c ∷ cs) = elim (split_commas cs) [
  | [] ↦ (c ∷ []) ∷ []
  | part ∷ parts ↦ if c == b',' then [] ∷ part ∷ parts else (c ∷ part) ∷ parts
]

unfoldable pub seen : Location → List Text
unfolding split_commas unquote strip
seen loc = elim loc.flow [
  | none ↦ map (λ (_, value). value) loc.items
  | some (prefix, inner, suffix) ↦
      map unquote (keep (λ part. not (is_blank (strip part))) (split_commas inner))
]
