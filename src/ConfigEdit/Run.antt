-- ===== src/ConfigEdit/Run.antt =====
-- `validate` and `main` of bin/hermes-drop-config-edit.py. The YAML parser is a parameter: what it says
-- of a text, as far as the script asks, with the rest of a mapping as a value that can be compared.
use hermes_drop.Base.{
  ℕ, Bool, true, false, not, ◌&&◌, ◌||◌, Option, none, some, List, [], ◌∷◌, ◌++◌, map,
  if◌then◌else◌, Eq, ◌==◌, option_eq, string_eq, nat_eq, leb, any,
}
use hermes_drop.Base.{Text, text_eq, strip, codes, keep}
use hermes_drop.ConfigEdit.{
  Cause, not_yaml, not_a_mapping, plugins_not_a_mapping, enabled_not_a_list, non_scalar_entry,
  tool_override, readings_differ, edited_unparsed, edited_not_a_mapping, edit_unintended,
  other_key_changed, plugins_key_changed, Checked, refused, passed,
}
use hermes_drop.ConfigEdit.Locate.{Location, locate, seen, is_blank}
use hermes_drop.ConfigEdit.Apply.{desired, apply_edit}

-- An entry of a list: `str(entry)`, and whether it is a string, a number or a flag.
pub record Listed : Type 0 where
  pub text : Text
  pub is_scalar : Bool

-- The value of `plugins.enabled`. Of one that is no list, what `[str(x) for x in value or []]` is, where it
-- is anything.
pub data Enabled : Type 0 where
  no_value : Enabled
  listed : List Listed → Enabled
  unlisted : Option (List Text) → Enabled

-- An event of `yaml.parse`: its line, and what it carries.
pub record Event : Type 0 where
  pub line : ℕ
  pub is_alias : Bool
  pub anchor : Option Text
  pub tag : Option Text
  pub scalar_value : Option Text

abbrev pub is_given : Option Text → Bool
is_given none = false
is_given (some text) = true

unfoldable pub is_machinery : Event → Bool
unfolding text_eq option_eq
is_machinery event =
    event.is_alias
    || (is_given event.anchor || (is_given event.tag || event.scalar_value == some (codes "<<")))

-- `unsafe_lines`, of the events, or of a text that does not parse.
unfoldable pub unsafe_lines : Option (List Event) → List ℕ
unfolding is_machinery keep
unsafe_lines none = []
unsafe_lines (some events) = map (λ event. event.line) (keep is_machinery events)

module _ (Rest : Type 0) where
  -- The value of `plugins`: absent or null, a mapping with the keys but `enabled` as its rest, or anything
  -- else, which may be false.
  pub data Plugins : Type 0 where
    no_plugins : Plugins
    mapping : (enabled : Enabled) (overrides : Bool) (rest : Rest) → Plugins
    no_mapping : (truthy : Bool) → Plugins

  -- A document: a mapping with the keys but `plugins` as its rest, null, or anything else.
  pub data Loaded : Type 0 where
    yaml_error null : Loaded
    scalar : (truthy : Bool) → Loaded
    document : Plugins → (rest : Rest) → Loaded

  -- `yaml.safe_load`, the events of `yaml.parse`, and the empty mapping.
  pub record Yaml : Type 0 where
    pub safe_load : Text → Loaded
    pub events : Text → Option (List Event)
    pub empty : Rest

pub data Mode : Type 0 where
  plan apply remove_plan remove unknown : Mode

-- What a run does: it prints a usage or an unknown mode, prints `edit` or `noop`, leaves the file, writes
-- it, refuses, or ends in an exception.
pub data Outcome : Type 0 where
  usage : Outcome
  answered : (edit : Bool) → Outcome
  left_alone crashed : Outcome
  written : Text → Outcome
  refusing : Cause → Outcome

-- `str.splitlines(keepends=True)`
unfoldable pub is_line_end : ℕ → Bool
unfolding nat_eq
is_line_end c =
    (leb 0x0a c && leb c 0x0d)
    || ((leb 0x1c c && leb c 0x1e) || (c == 0x85 || (c == 0x2028 || c == 0x2029)))

abbrev pub push_char : ℕ → List Text → List Text
push_char c [] = (c ∷ []) ∷ []
push_char c (line ∷ lines) = (c ∷ line) ∷ lines

abbrev pub starts_newline : Text → Bool
starts_newline [] = false
starts_newline (c ∷ cs) = c == 10

unfoldable pub splitlines : Text → List Text
unfolding is_line_end nat_eq
splitlines [] = []
splitlines (c ∷ cs) =
    let rest = splitlines cs in
    if is_line_end c && not (c == 13 && starts_newline cs)
    then (c ∷ []) ∷ rest
    else push_char c rest

-- `"".join(lines)`
unfoldable pub join_lines : List Text → Text
join_lines [] = []
join_lines (line ∷ lines) = line ++ join_lines lines

abbrev pub enabled_list : Enabled → Checked (List Text)
enabled_list no_value = passed []
enabled_list (unlisted texts) = refused enabled_not_a_list
enabled_list (listed items) =
    if any (λ item. not item.is_scalar) items
    then refused non_scalar_entry
    else passed (map (λ item. item.text) items)

abbrev pub refuse_override : Bool → Checked (List Text) → Checked (List Text)
refuse_override overrides (refused cause) = refused cause
refuse_override overrides (passed current) =
    if overrides then refused tool_override else passed current

module _ {Rest : Type 0} where
  abbrev pub plugins_list : Plugins Rest → Checked (List Text)
  plugins_list no_plugins = passed []
  plugins_list (no_mapping truthy) = refused plugins_not_a_mapping
  plugins_list (mapping enabled overrides rest) = refuse_override overrides (enabled_list enabled)

  abbrev pub loaded_list : Loaded Rest → Checked (List Text)
  loaded_list yaml_error = refused not_yaml
  loaded_list null = passed []
  loaded_list (scalar truthy) = refused not_a_mapping
  loaded_list (document plugins rest) = plugins_list plugins

  -- `validate`
  unfoldable pub validate : Yaml Rest → Text → Checked (List Text)
  unfolding strip
  validate yaml raw = if is_blank (strip raw) then passed [] else loaded_list (yaml.safe_load raw)

abbrev pub texts_of : Enabled → Option (List Text)
texts_of no_value = some []
texts_of (listed items) = some (map (λ item. item.text) items)
texts_of (unlisted texts) = texts

-- `[str(x) for x in (plugins or {}).get("enabled") or []]`, unless `plugins` has no `get`.
abbrev pub plugins_texts : {Rest : Type 0} → Plugins Rest → Option (List Text)
plugins_texts no_plugins = some []
plugins_texts (mapping enabled overrides rest) = texts_of enabled
plugins_texts (no_mapping truthy) = if truthy then none else some []

module _ {Rest : Type 0} (yaml : Yaml Rest) where
  -- The keys of `plugins` but `enabled`.
  abbrev pub plugins_rest : Plugins Rest → Rest
  plugins_rest no_plugins = yaml.empty
  plugins_rest (mapping enabled overrides rest) = rest
  plugins_rest (no_mapping truthy) = yaml.empty

  -- The document as a mapping, where it is one or is false.
  abbrev pub edited_document : Loaded Rest → Checked (Plugins Rest × Rest)
  edited_document yaml_error = refused edited_unparsed
  edited_document null = passed (no_plugins, yaml.empty)
  edited_document (scalar truthy) =
      if truthy then refused edited_not_a_mapping else passed (no_plugins, yaml.empty)
  edited_document (document plugins rest) = passed (plugins, rest)

  abbrev pub mapping_or_empty : Loaded Rest → Plugins Rest × Rest
  mapping_or_empty (document plugins rest) = (plugins, rest)
  mapping_or_empty yaml_error = (no_plugins, yaml.empty)
  mapping_or_empty null = (no_plugins, yaml.empty)
  mapping_or_empty (scalar truthy) = (no_plugins, yaml.empty)

  -- The document that was read.
  abbrev pub document_before : Text → Plugins Rest × Rest
  document_before raw =
      if is_blank (strip raw)
      then (no_plugins, yaml.empty)
      else mapping_or_empty (yaml.safe_load raw)

-- `wanted`; nothing for an unknown mode.
unfoldable pub wanted_by :
    Mode → (plugin legacy : Text) → (current : List Text) → Option (List Text)
unfolding desired
wanted_by plan plugin legacy current = some (desired current plugin (legacy ∷ []))
wanted_by apply plugin legacy current = some (desired current plugin (legacy ∷ []))
wanted_by remove_plan plugin legacy current = some (desired current [] (plugin ∷ []))
wanted_by remove plugin legacy current = some (desired current [] (plugin ∷ []))
wanted_by unknown plugin legacy current = none

abbrev pub installs : Mode → Bool
installs plan = true
installs apply = true
installs _ = false

abbrev pub only_plans : Mode → Bool
only_plans plan = true
only_plans remove_plan = true
only_plans _ = false

abbrev pub is_absent : Option ℕ → Bool
is_absent none = true
is_absent (some n) = false

list_dec : Discrete (List Text)
list_dec = hlevel text_eq.dec

instance unfoldable pub list_eq : Eq (List Text)
unfolding list_dec
list_eq = record { dec = list_dec }

-- `needs_edit`
unfoldable pub needs_edit : Mode → Location → (current wanted : List Text) → Bool
unfolding list_eq
needs_edit mode loc current wanted =
    not (wanted == current)
    || ((is_absent loc.plugins_line || is_absent loc.enabled_line) && installs mode)

-- `cross_check`, where there is a list.
unfoldable pub cross_check : Location → (current : List Text) → Bool
unfolding seen list_eq
cross_check loc current =
    is_absent loc.enabled_line && is_absent_flow loc.flow || seen loc == current
  where
    is_absent_flow : Option (Text × Text × Text) → Bool
    is_absent_flow none = true
    is_absent_flow (some flow) = false

module _ {Rest : Type 0} ⦃rest_eq : Eq Rest⦄ (yaml : Yaml Rest) where
  -- The checks of the edited text against what was read.
  abbrev pub compare_rest : Plugins Rest × Rest → Plugins Rest × Rest → (blob : Text) → Outcome
  compare_rest (plugins, rest) (old_plugins, old_rest) blob =
      if not (old_rest == rest)
      then refusing other_key_changed
      else if not (plugins_rest yaml old_plugins == plugins_rest yaml plugins)
      then refusing plugins_key_changed
      else written blob

  abbrev pub compare_list : (wanted : List Text) → Option (List Text) → Outcome → Outcome
  compare_list wanted none next = crashed
  compare_list wanted (some texts) next =
      if not (texts == wanted) then refusing edit_unintended else next

  abbrev pub verify_document :
      (raw : Text) → (wanted : List Text) → (blob : Text) → Checked (Plugins Rest × Rest) → Outcome
  verify_document raw wanted blob (refused cause) = refusing cause
  verify_document raw wanted blob (passed (plugins, rest)) =
      compare_list wanted (plugins_texts plugins)
        (compare_rest (plugins, rest) (document_before yaml raw) blob)

  unfoldable pub verify : (raw : Text) → (wanted : List Text) → (blob : Text) → Outcome
  unfolding strip list_eq
  verify raw wanted blob =
      verify_document raw wanted blob (edited_document yaml (yaml.safe_load blob))

  abbrev pub with_wanted :
      Mode → (raw : Text) → Location → (current : List Text) → Option (List Text) → Outcome
  with_wanted mode raw loc current none = usage
  with_wanted mode raw loc current (some wanted) =
      if only_plans mode
      then answered (needs_edit mode loc current wanted)
      else if needs_edit mode loc current wanted
      then verify raw wanted (join_lines (apply_edit (splitlines raw) loc current wanted))
      else left_alone

  abbrev pub with_location :
      Mode → (plugin legacy raw : Text) → (current : List Text) → Checked Location → Outcome
  with_location mode plugin legacy raw current (refused cause) = refusing cause
  with_location mode plugin legacy raw current (passed loc) =
      if cross_check loc current
      then with_wanted mode raw loc current (wanted_by mode plugin legacy current)
      else refusing readings_differ

  abbrev pub with_list : Mode → (plugin legacy raw : Text) → Checked (List Text) → Outcome
  with_list mode plugin legacy raw (refused cause) = refusing cause
  with_list mode plugin legacy raw (passed current) =
      with_location mode plugin legacy raw current
        (locate (splitlines raw) (unsafe_lines (yaml.events raw)))

  -- `main`, on the text of the file, which is empty where there is no file.
  unfoldable pub main : Mode → (plugin legacy raw : Text) → Outcome
  unfolding validate unsafe_lines locate splitlines cross_check wanted_by needs_edit verify
      apply_edit join_lines
  main mode plugin legacy raw = with_list mode plugin legacy raw (validate yaml raw)
