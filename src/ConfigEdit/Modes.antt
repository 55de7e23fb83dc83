-- ===== src/ConfigEdit/Modes.antt =====
-- bin/hermes-drop-config-edit.py: a plan against the run that it is the plan of, and a run after a run.
use hermes_drop.Base.{
  ◌≡◌, refl, sym, ap, ◌∙◌, ◌≢◌, ◌↔◌, Bool, true, false, not, Option, none, some, List, [], ◌∷◌, map,
  arith, if◌then◌else◌, Eq, ◌==◌, option_eq, string_eq, nat_eq, any,
}
use hermes_drop.Base.{Text, text_eq, strip}
use mathlib.Core.Option.{some-injective}
use hermes_drop.ConfigEdit.{
  non_scalar_entry, Cause, readings_differ, edit_unintended, other_key_changed, plugins_key_changed,
  Checked, refused, passed,
}
use hermes_drop.ConfigEdit.Locate.{Location, locate, is_blank}
use hermes_drop.ConfigEdit.Apply.{desired}
use hermes_drop.ConfigEdit.Run.{
  unsafe_lines, Enabled, no_value, listed, unlisted, Plugins, no_plugins, mapping, no_mapping,
  Loaded, yaml_error, null, scalar, document, Yaml, Mode, plan, apply, remove_plan, remove, Outcome,
  answered, left_alone, written, refusing, splitlines, enabled_list, refuse_override, loaded_list,
  validate, texts_of, plugins_texts, plugins_rest, edited_document, document_before, wanted_by,
  is_absent, list_eq, needs_edit, cross_check, compare_rest, compare_list, verify_document, verify,
  with_wanted, with_location, with_list, main,
}
use hermes_drop.ConfigEdit.Lines.{desired-desired}
use hermes_drop.ConfigEdit.Verified.{IsEditOf, main-written}

-- A mode that only plans, and the mode that edits.
pub data IsPlanOf : Mode → Mode → Type 0 where
  installing : IsPlanOf plan apply
  removing : IsPlanOf remove_plan remove

module _ {Rest : Type 0} ⦃rest_eq : Eq Rest⦄ (yaml : Yaml Rest) where
  if-ne-left_alone :
      (test : Bool) (cause : Cause) (next : Outcome)
      → next ≢ left_alone
      → (if test then refusing cause else next) ≢ left_alone
  if-ne-left_alone true cause next ne h = absurd (ground arith)
  if-ne-left_alone false cause next ne h = ne h

  written-ne-left_alone : {text : Text} → written text ≢ left_alone
  written-ne-left_alone h = absurd (ground arith)

  verify-ne-left_alone :
      (raw blob : Text) (wanted : List Text) → verify yaml raw wanted blob ≢ left_alone
  unfolding verify
  verify-ne-left_alone raw blob wanted = read (edited_document yaml (yaml.safe_load blob))
    where
      compared :
          (now : Plugins Rest × Rest) (texts : Option (List Text))
          → compare_list yaml wanted texts (compare_rest yaml now (document_before yaml raw) blob)
            ≢ left_alone
      compared now none h = absurd (ground arith)
      compared (now, rest) (some texts) h =
          let (old, old_rest) = document_before yaml raw in
          if-ne-left_alone (not (texts == wanted)) edit_unintended
            (compare_rest yaml (now, rest) (old, old_rest) blob)
            (if-ne-left_alone (not (old_rest == rest)) other_key_changed
              (if not (plugins_rest yaml old == plugins_rest yaml now)
                then refusing plugins_key_changed
                else written blob)
              (if-ne-left_alone (not (plugins_rest yaml old == plugins_rest yaml now))
                plugins_key_changed (written blob) written-ne-left_alone))
            h

      read :
          (edited : Checked (Plugins Rest × Rest))
          → verify_document yaml raw wanted blob edited ≢ left_alone
      read (refused cause) h = absurd (ground arith)
      read (passed now) h = compared now (plugins_texts now.0) h

  -- The plan says that there is nothing to edit exactly where the run leaves the file alone.
  pub main-plan :
      (planning editing : Mode) (plugin legacy raw : Text)
      → IsPlanOf planning editing
      → (main yaml planning plugin legacy raw ≡ answered false)
        ↔ (main yaml editing plugin legacy raw ≡ left_alone)
  unfolding main wanted_by needs_edit
  main-plan planning editing plugin legacy raw modes = listed_ (validate yaml raw)
    where
      Agree : Outcome → Outcome → Type 0
      Agree a b = (a ≡ answered false) ↔ (b ≡ left_alone)

      refusals : (cause : Cause) → Agree (refusing cause) (refusing cause)
      refusals cause = ((λ h. absurd (ground arith)), (λ h. absurd (ground arith)))

      needed :
          (needs : Bool) (wanted : List Text) (text : Text)
          → Agree (answered needs) (if needs then verify yaml raw wanted text else left_alone)
      needed true wanted text =
          ((λ h. absurd (ground arith)), λ h. absurd (verify-ne-left_alone raw text wanted h))
      needed false wanted text = ((λ h. refl), (λ h. refl))

      wanted_ :
          (planning editing : Mode)
          → IsPlanOf planning editing
          → (loc : Location) (current : List Text)
          → Agree
              (with_wanted yaml planning raw loc current (wanted_by planning plugin legacy current))
              (with_wanted yaml editing raw loc current (wanted_by editing plugin legacy current))
      wanted_ _ _ installing loc current = needed (needs_edit plan loc current _) _ _
      wanted_ _ _ removing loc current = needed (needs_edit remove_plan loc current _) _ _

      checked_ :
          (agrees : Bool) (a b : Outcome)
          → Agree a b
          → Agree
              (if agrees then a else refusing readings_differ)
              (if agrees then b else refusing readings_differ)
      checked_ true a b agree = agree
      checked_ false a b agree = refusals readings_differ

      located :
          (current : List Text) (loc : Checked Location)
          → Agree
              (with_location yaml planning plugin legacy raw current loc)
              (with_location yaml editing plugin legacy raw current loc)
      located current (refused cause) = refusals cause
      located current (passed loc) =
          checked_ (cross_check loc current) _ _ (wanted_ planning editing modes loc current)

      listed_ :
          (list : Checked (List Text))
          → Agree
              (with_list yaml planning plugin legacy raw list)
              (with_list yaml editing plugin legacy raw list)
      listed_ (refused cause) = refusals cause
      listed_ (passed current) =
          located current (locate (splitlines raw) (unsafe_lines (yaml.events raw)))

  enabled-texts :
      (enabled : Enabled) (overrides : Bool) (current wanted : List Text)
      → refuse_override overrides (enabled_list enabled) ≡ passed current
      → texts_of enabled ≡ some wanted
      → current ≡ wanted
  enabled-texts no_value true current wanted h t = absurd (ground arith)
  enabled-texts no_value false current wanted h t = ground arith
  enabled-texts (unlisted texts) overrides current wanted h t = absurd (ground arith)
  enabled-texts (listed items) overrides current wanted h t =
      go (any (λ item. not item.is_scalar) items) overrides h
    where
      go :
          (odd overrides : Bool)
          → refuse_override overrides
              (if odd then refused non_scalar_entry else passed (map (λ item. item.text) items))
            ≡ passed current
          → current ≡ wanted
      go true overrides h = absurd (ground arith)
      go false true h = absurd (ground arith)
      go false false h = ground arith

  -- What `validate` reads of a text is what the check of an edit reads of it.
  loaded-texts :
      (loaded : Loaded Rest) (current wanted : List Text) (now : Plugins Rest) (rest : Rest)
      → loaded_list loaded ≡ passed current
      → edited_document yaml loaded ≡ passed (now, rest)
      → plugins_texts now ≡ some wanted
      → current ≡ wanted
  loaded-texts yaml_error current wanted now rest h e t = absurd (ground arith)
  loaded-texts null current wanted now rest h e t = ground arith
  loaded-texts (scalar truthy) current wanted now rest h e t = absurd (ground arith)
  loaded-texts (document no_plugins r) current wanted now rest h e t = ground arith
  loaded-texts (document (no_mapping truthy) r) current wanted now rest h e t =
      absurd (ground arith)
  loaded-texts (document (mapping enabled overrides q) r) current wanted now rest h e t =
      enabled-texts enabled overrides current wanted h
        (ap (λ d. elim d [ passed (m, _) ↦ plugins_texts m | refused cause ↦ none ]) e ∙ t)

  validate-texts :
      (raw blob : Text) (current wanted : List Text)
      → is_blank (strip blob) ≡ false
      → IsEditOf yaml raw wanted blob
      → validate yaml blob ≡ passed current
      → current ≡ wanted
  unfolding validate
  validate-texts raw blob current wanted full edit h = go (is_blank (strip blob)) full h
    where
      go :
          (b : Bool)
          → b ≡ false
          → (if b then passed [] else loaded_list (yaml.safe_load blob)) ≡ passed current
          → current ≡ wanted
      go false eq h =
          loaded-texts (yaml.safe_load blob) current wanted edit.plugins edit.rest h edit.reads
            edit.lists
      go true eq h = absurd (ground arith)

  needs_edit-same :
      (loc : Location) (current wanted : List Text)
      → wanted ≡ current
      → is_absent loc.plugins_line ≡ false
      → is_absent loc.enabled_line ≡ false
      → needs_edit plan loc current wanted ≡ false
  unfolding needs_edit
  needs_edit-same loc current wanted same p e = ground arith

  -- After a run of the installation that wrote, a plan of the installation on the new text answers that
  -- there is nothing to edit, where the new text is not blank, passes the validation and the scan, the
  -- two agree on the list, and the scan finds `plugins` and `enabled`.
  pub main-main :
      (plugin legacy raw blob : Text) (current : List Text) (loc : Location)
      → main yaml apply plugin legacy raw ≡ written blob
      → is_blank (strip blob) ≡ false
      → validate yaml blob ≡ passed current
      → locate (splitlines blob) (unsafe_lines (yaml.events blob)) ≡ passed loc
      → cross_check loc current ≡ true
      → is_absent loc.plugins_line ≡ false
      → is_absent loc.enabled_line ≡ false
      → main yaml plan plugin legacy blob ≡ answered false
  unfolding main wanted_by
  main-main plugin legacy raw blob current loc ran full valid scanned agrees p e =
      let wrote = main-written yaml apply plugin legacy raw blob ran in
      let same : current ≡ wrote.wanted =
        validate-texts raw blob current wrote.wanted full wrote.edits valid in
      let is_wanted : desired wrote.current plugin (legacy ∷ []) ≡ wrote.wanted =
        some-injective _ _ wrote.wants in
      let settled : desired wrote.wanted plugin (legacy ∷ []) ≡ wrote.wanted =
        rw (sym is_wanted) (desired-desired wrote.current plugin (legacy ∷ [])) in
      rw (valid, scanned, agrees)
        (ap answered (needs_edit-same loc current _ (rw same settled) p e))
