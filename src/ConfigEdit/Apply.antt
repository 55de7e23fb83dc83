-- ===== src/ConfigEdit/Apply.antt =====
-- `desired`, `render_flow` and `apply_edit` of bin/hermes-drop-config-edit.py.
use hermes_drop.Base.{
  ℕ, suc, zero, ◌+◌, max, min, Bool, false, not, Option, none, some, List, [], ◌∷◌, ◌++◌, map,
  if◌then◌else◌, ◌==◌, contains, option_eq, string_eq, nat_eq, ltb, length, keep,
}
use hermes_drop.Base.{Text, text_eq, codes, strip, take, drop}
use hermes_drop.ConfigEdit.{newline, KeyLine, key_line, last_of}
use hermes_drop.ConfigEdit.Locate.{Location, split_first, ends_with}

abbrev pub add_missing : Text → List Text → List Text
add_missing [] out = out
add_missing (c ∷ cs) out = if contains out (c ∷ cs) then out else out ++ ((c ∷ cs) ∷ [])

unfoldable pub desired : (current : List Text) → (add : Text) → (dropped : List Text) → List Text
unfolding text_eq
desired current add dropped = add_missing add (keep (λ item. not (contains dropped item)) current)

unfoldable pub spaces : ℕ → Text
spaces zero = []
spaces (suc n) = b' ' ∷ spaces n

-- `"%s- %s\n"`
unfoldable pub item_of : Text → Text → Text
item_of indent item = indent ++ (codes "- " ++ (item ++ (newline ∷ [])))

-- `", ".join(items)`
unfoldable pub join_items : List Text → Text
join_items [] = []
join_items (item ∷ []) = item
join_items (item ∷ more ∷ items) = item ++ (codes ", " ++ join_items (more ∷ items))

abbrev pub same_end : Text → Text
same_end line = if ends_in line then newline ∷ [] else []
  where
    ends_in : Text → Bool
    ends_in [] = false
    ends_in (c ∷ cs) = last_of c cs == newline

-- `lines[at] = line`
unfoldable pub set_line : ℕ → Text → List Text → List Text
set_line at line [] = []
set_line zero line (old ∷ lines) = line ∷ lines
set_line (suc at) line (old ∷ lines) = old ∷ set_line at line lines

unfoldable pub line_at : ℕ → List Text → Text
line_at at [] = []
line_at zero (line ∷ lines) = line
line_at (suc at) (line ∷ lines) = line_at at lines

abbrev pub flow_line : Option KeyLine → Text × Text × Text → List Text → (end : Text) → Text
flow_line none (prefix, inner, suffix) items end = []
flow_line (some k) (prefix, inner, suffix) items end =
    k.indent ++ (k.key ++ (codes ":" ++ (prefix ++ (join_items items ++ (suffix ++ end)))))

unfoldable pub render_flow : ℕ → Text × Text × Text → List Text → List Text → List Text
unfolding set_line line_at key_line last_of join_items nat_eq
render_flow at flow items lines =
    let line = line_at at lines in
    set_line at (flow_line (key_line line) flow items (same_end line)) lines

-- The last line ends in a newline.
unfoldable pub closed_lines : List Text → List Text
unfolding last_of nat_eq
closed_lines [] = []
closed_lines (line ∷ []) = (if ends_with newline line then line else line ++ (newline ∷ [])) ∷ []
closed_lines (line ∷ next ∷ lines) = line ∷ closed_lines (next ∷ lines)

abbrev pub or_else : Option ℕ → ℕ → ℕ
or_else none n = n
or_else (some m) n = m

-- `value or 2`
abbrev pub or_two : Option ℕ → ℕ
or_two none = 2
or_two (some zero) = 2
or_two (some (suc n)) = suc n

unfoldable pub largest : ℕ → List ℕ → ℕ
largest n [] = n
largest n (m ∷ ms) = largest (max n m) ms

unfoldable pub smallest : ℕ → List ℕ → ℕ
smallest n [] = n
smallest n (m ∷ ms) = smallest (min n m) ms

-- Where new items go: after the last that stays, in place of the first that goes, or under the key.
unfoldable pub insert_at : (survivors items : List ℕ) → (enabled_line : ℕ) → ℕ
unfolding largest smallest
insert_at (i ∷ survivors) items enabled_line = largest i survivors + 1
insert_at [] (i ∷ items) enabled_line = smallest i items
insert_at [] [] enabled_line = enabled_line + 1

-- The lines whose index is not among the doomed.
unfoldable pub without : (doomed : List ℕ) → ℕ → List Text → List Text
unfolding nat_eq
without doomed n [] = []
without doomed n (line ∷ lines) =
    let rest = without doomed (n + 1) lines in if contains doomed n then rest else line ∷ rest

abbrev pub comment_of : Text → Text
comment_of after = elim (split_first b'#' after).1 [
  | [] ↦ (if contains after b'#' then codes " #" else [])
  | c ∷ cs ↦ codes " " ++ strip (b'#' ∷ c ∷ cs)
]

abbrev pub emptied_line : Option KeyLine → (end : Text) → Text
emptied_line none end = []
emptied_line (some k) end = k.indent ++ (k.key ++ (codes ": []" ++ (comment_of k.after ++ end)))

unfoldable pub emptied : ℕ → List Text → List Text
unfolding set_line line_at key_line split_first strip last_of nat_eq
emptied at lines =
    let line = line_at at lines in set_line at (emptied_line (key_line line) (same_end line)) lines

unfoldable pub shifted : (at count : ℕ) → List ℕ → List ℕ
shifted at count = map (λ i. if ltb i at then i else i + count)

-- What the edit of a block sequence works with: the items to add and the lines to delete.
abbrev pub additions_of : (current wanted : List Text) → List Text
additions_of current wanted = keep (λ item. not (contains current item)) wanted

abbrev pub removed_of : (current wanted : List Text) → List Text
removed_of current wanted = keep (λ item. not (contains wanted item)) current

abbrev pub doomed_of : (removed : List Text) → List (ℕ × Text) → List ℕ
doomed_of removed items = map (λ (i, _). i) (keep (λ (_, value). contains removed value) items)

abbrev pub survivors_of : (doomed : List ℕ) → List (ℕ × Text) → List ℕ
survivors_of doomed items = keep (λ i. not (contains doomed i)) (map (λ (i, _). i) items)

-- Insert, and then delete by indices that the insertion has moved.
unfoldable pub insert_and_delete :
    (at : ℕ) → (new_lines : List Text) → (doomed : List ℕ) → List Text → List Text
unfolding take drop without shifted
insert_and_delete at [] doomed lines = without doomed 0 lines
insert_and_delete at (line ∷ new_lines) doomed lines =
    without (shifted at (length (line ∷ new_lines)) doomed) 0
      (take at lines ++ ((line ∷ new_lines) ++ drop at lines))

unfoldable pub edit_block : ℕ → Location → (current wanted : List Text) → List Text → List Text
unfolding insert_at item_of spaces insert_and_delete emptied text_eq nat_eq
edit_block enabled_line loc current wanted lines =
    let indent = spaces (or_else loc.item_indent (or_two loc.block_indent + 2)) in
    let new_lines = map (item_of indent) (additions_of current wanted) in
    let doomed = doomed_of (removed_of current wanted) loc.items in
    let at = insert_at (survivors_of doomed loc.items) (map (λ (i, _). i) loc.items) enabled_line in
    let out = insert_and_delete at new_lines doomed lines in
    elim wanted [
      | [] ↦ elim loc.items [ [] ↦ out | i ∷ items ↦ emptied enabled_line out ]
      | item ∷ items ↦ out
    ]

abbrev pub edit_enabled :
    Option (Text × Text × Text)
    → ℕ
    → Location
    → (current wanted : List Text) → List Text
    → List Text
edit_enabled (some flow) at loc current wanted lines = render_flow at flow wanted lines
edit_enabled none at loc current wanted lines = edit_block at loc current wanted lines

abbrev pub edit_plugins :
    ℕ → Option ℕ → Location → (current wanted : List Text) → List Text → List Text
edit_plugins plugins_line none loc current wanted lines =
    let indent = spaces (or_else loc.block_indent 2) in
    let inserted = (indent ++ codes "enabled:\n") ∷ map (item_of (indent ++ codes "  ")) wanted in
    take (plugins_line + 1) lines ++ (inserted ++ drop (plugins_line + 1) lines)
edit_plugins plugins_line (some at) loc current wanted lines =
    edit_enabled loc.flow at loc current wanted lines

unfoldable pub apply_edit : List Text → Location → (current wanted : List Text) → List Text
unfolding closed_lines item_of spaces render_flow edit_block take drop
apply_edit lines loc current wanted = elim loc.plugins_line [
  | none ↦
      closed_lines lines
      ++ (codes "plugins:\n" ∷ codes "  enabled:\n" ∷ map (item_of (codes "    ")) wanted)
  | some plugins_line ↦ edit_plugins plugins_line loc.enabled_line loc current wanted lines
]
