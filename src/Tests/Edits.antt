-- ===== src/Tests/Edits.antt =====
-- Edits of a configuration at concrete data.
use hermes_drop.Base.{
  ℕ, String, ◌≡◌, refl, sym, ap, ◌∙◌, ◌↔◌, ◌⊎◌, true, false, none, some, List, [], ◌∷◌, ◌++◌, arith,
  if◌then◌else◌, ◌==◌, option_eq, string_eq, nat_eq, keep, any,
}
use hermes_drop.Base.{Text, text_eq, codes, strip}
use hermes_drop.ConfigEdit.Run.{unsafe_lines}
use hermes_drop.ConfigEdit.Locate.{is_blank}
use hermes_drop.ConfigEdit.{edit_unintended, passed}
use hermes_drop.ConfigEdit.Locate.{Location, locate}
use hermes_drop.ConfigEdit.Apply.{without, insert_and_delete}
use hermes_drop.Base.{take, drop}
use hermes_drop.ConfigEdit.Run.{
  validate, cross_check, Listed, listed, mapping, Loaded, null, document, Yaml, plan, apply,
  answered, written, refusing, left_alone, splitlines, main,
}
use hermes_drop.ConfigEdit.Verified.{Wrote, main-written}
use hermes_drop.ConfigEdit.Modes.{installing, main-plan, main-main}
use hermes_drop.ConfigEdit.Lines.{insert_and_delete-without}

abbrev plugin : Text
plugin = codes "drop"

abbrev legacy : Text
legacy = codes "old"

abbrev before : Text
before = codes "a: 1\nplugins:\n  enabled:\n  - old # was\n  - x\nb: 2\n"

abbrev after : Text
after = codes "a: 1\nplugins:\n  enabled:\n  - x\n  - drop\nb: 2\n"

abbrev scalar_item : String → Listed
scalar_item s = record { text = codes s; is_scalar = true }

abbrev with_list : List Listed → Loaded ℕ
with_list items = document (mapping (listed items) false 0) 3

-- A parser that knows these texts.
abbrev yaml : Yaml ℕ
yaml = record {
  safe_load = λ text.
      if is_blank (strip text)
      then null
      else if text == before
      then with_list (scalar_item "old" ∷ scalar_item "x" ∷ [])
      else if text == after
      then with_list (scalar_item "x" ∷ scalar_item "drop" ∷ [])
      else null;
  events = λ text. some [];
  empty = 0;
}

is_written : main yaml apply plugin legacy before ≡ written after
unfolding main any keep
is_written = refl

is_planned : main yaml plan plugin legacy after ≡ answered false
unfolding main any keep
is_planned = refl

-- Without a newline at its end the last entry and the new one are glued, and the edit is refused.
abbrev unended : Text
unended = codes "plugins:\n  enabled:\n  - x"

abbrev glued_yaml : Yaml ℕ
glued_yaml = record {
  safe_load = λ text.
      if text == unended
      then with_list (scalar_item "x" ∷ [])
      else with_list (scalar_item "x  - drop" ∷ []);
  events = λ text. some [];
  empty = 0;
}

is_refused : main glued_yaml apply plugin legacy unended ≡ refusing edit_unintended
unfolding main any keep
is_refused = refl

main-written_example : Wrote yaml apply plugin legacy before after
main-written_example = main-written yaml apply plugin legacy before after is_written

main-plan_example :
    (main yaml plan plugin legacy after ≡ answered false)
    ↔ (main yaml apply plugin legacy after ≡ left_alone)
main-plan_example = main-plan yaml plan apply plugin legacy after installing

abbrev place : Location
place = record {
  plugins_line = some 1;
  block_indent = some 2;
  enabled_line = some 2;
  flow = none;
  items = (3, codes "x") ∷ (4, codes "drop") ∷ [];
  item_indent = some 2;
}

abbrev current : List Text
current = codes "x" ∷ codes "drop" ∷ []

is_full : is_blank (strip after) ≡ false
unfolding strip hermes_drop.Base.is_space nat_eq
is_full = refl

is_valid : validate yaml after ≡ passed current
unfolding validate any hermes_drop.Base.is_space nat_eq text_eq
is_valid = refl

is_scanned : locate (splitlines after) (unsafe_lines (yaml.events after)) ≡ passed place
unfolding locate splitlines any keep unsafe_lines
is_scanned = refl

agrees : cross_check place current ≡ true
unfolding cross_check text_eq
agrees = refl

main-main_example : main yaml plan plugin legacy after ≡ answered false
main-main_example =
    main-main yaml plugin legacy before after current place is_written is_full is_valid is_scanned
      agrees refl refl

abbrev lines : List Text
lines = codes "p\n" ∷ codes "- old\n" ∷ codes "- x\n" ∷ []

insert_and_delete-without_example :
    insert_and_delete 3 (codes "- drop\n" ∷ []) (1 ∷ []) lines
    ≡ without (1 ∷ []) 0 (take 3 lines)
      ++ ((codes "- drop\n" ∷ []) ++ without (1 ∷ []) 3 (drop 3 lines))
insert_and_delete-without_example =
    insert_and_delete-without 3 (codes "- drop\n" ∷ []) (1 ∷ []) lines (omega arith)
