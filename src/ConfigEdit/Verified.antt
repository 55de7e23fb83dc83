-- ===== src/ConfigEdit/Verified.antt =====
-- bin/hermes-drop-config-edit.py: what a run has checked when it writes, and how the modes agree.
use hermes_drop.Base.{
  ◌≡◌, refl, ap, ◌∙◌, Bool, true, false, not, Option, none, some, List, arith, if◌then◌else◌, Eq,
  ◌==◌, option_eq, string_eq, nat_eq,
}
use hermes_drop.Base.{Text, text_eq}
use mathlib.Core.Path.{subst}
use hermes_drop.ConfigEdit.{
  Cause, readings_differ, edit_unintended, other_key_changed, plugins_key_changed, Checked, refused,
  passed,
}
use hermes_drop.ConfigEdit.Locate.{Location, locate}
use hermes_drop.ConfigEdit.Apply.{apply_edit}
use hermes_drop.ConfigEdit.Run.{
  unsafe_lines, Plugins, Yaml, Mode, Outcome, answered, left_alone, written, refusing, splitlines,
  join_lines, validate, plugins_texts, plugins_rest, edited_document, document_before, wanted_by,
  only_plans, list_eq, needs_edit, cross_check, compare_rest, compare_list, verify_document, verify,
  with_wanted, with_location, with_list, main,
}

==-true : {A : Type 0} → ⦃e : Eq A⦄ → (a b : A) → not (a == b) ≡ false → a ≡ b
==-true a b h = ground arith

written-injective : (a b : Text) → written a ≡ written b → a ≡ b
written-injective a b h = ap (λ o. elim o [ written t ↦ t | _ ↦ a ]) h

module _ {Rest : Type 0} ⦃rest_eq : Eq Rest⦄ (yaml : Yaml Rest) where
  -- A text that the parser reads as a mapping with this list, and else as the old text is read.
  pub record IsEditOf (raw : Text) (wanted : List Text) (blob : Text) : Type 0 where
    pub plugins : Plugins Rest
    pub rest : Rest
    pub reads : edited_document yaml (yaml.safe_load blob) ≡ passed (plugins, rest)
    pub lists : plugins_texts plugins ≡ some wanted
    pub same_rest : (document_before yaml raw).1 ≡ rest
    pub same_plugins : plugins_rest yaml (document_before yaml raw).0 ≡ plugins_rest yaml plugins

  if-written :
      (test : Bool) (cause : Cause) (next : Outcome) (text : Text)
      → (if test then refusing cause else next) ≡ written text
      → (test ≡ false) × (next ≡ written text)
  if-written true cause next text h = absurd (ground arith)
  if-written false cause next text h = (refl, h)

  verify-written :
      (raw blob text : Text) (wanted : List Text)
      → verify yaml raw wanted blob ≡ written text
      → IsEditOf raw wanted blob × (blob ≡ text)
  unfolding verify
  verify-written raw blob text wanted h = read (edited_document yaml (yaml.safe_load blob)) refl h
    where
      old : Plugins Rest × Rest
      old = document_before yaml raw

      compared :
          (now : Plugins Rest) (rest : Rest)
          → edited_document yaml (yaml.safe_load blob) ≡ passed (now, rest)
          → (texts : Option (List Text)) → plugins_texts now ≡ texts
          → compare_list yaml wanted texts (compare_rest yaml (now, rest) old blob) ≡ written text
          → IsEditOf raw wanted blob × (blob ≡ text)
      compared now rest reads none lists h = absurd (ground arith)
      compared now rest reads (some texts) lists h =
          let (same_list, h₁) = if-written (not (texts == wanted)) edit_unintended _ text h in
          let (same_rest, h₂) = if-written (not (old.1 == rest)) other_key_changed _ text h₁ in
          let (same_plugins, h₃) =
            if-written (not (plugins_rest yaml old.0 == plugins_rest yaml now)) plugins_key_changed
              _ text h₂ in
          (
            record {
              plugins = now;
              rest = rest;
              reads = reads;
              lists = lists ∙ ap some (==-true texts wanted same_list);
              same_rest = ==-true old.1 rest same_rest;
              same_plugins = ==-true _ _ same_plugins;
            },
            written-injective blob text h₃,
          )

      read :
          (edited : Checked (Plugins Rest × Rest))
          → edited_document yaml (yaml.safe_load blob) ≡ edited
          → verify_document yaml raw wanted blob edited ≡ written text
          → IsEditOf raw wanted blob × (blob ≡ text)
      read (refused cause) reads h = absurd (ground arith)
      read (passed (now, rest)) reads h = compared now rest reads (plugins_texts now) refl h

  verified :
      (plans needs : Bool) (next : Outcome) (blob : Text)
      → (if plans then answered needs else if needs then next else left_alone) ≡ written blob
      → next ≡ written blob
  verified true needs next blob h = absurd (ground arith)
  verified false true next blob h = h
  verified false false next blob h = absurd (ground arith)

  checked :
      (agrees : Bool) (next : Outcome) (blob : Text)
      → (if agrees then next else refusing readings_differ) ≡ written blob
      → next ≡ written blob
  checked true next blob h = h
  checked false next blob h = absurd (ground arith)

  -- A run that writes.
  pub record Wrote (mode : Mode) (plugin legacy raw blob : Text) : Type 0 where
    pub current : List Text
    pub wanted : List Text
    pub read_list : validate yaml raw ≡ passed current
    pub wants : wanted_by mode plugin legacy current ≡ some wanted
    pub edits : IsEditOf raw wanted blob

  -- The script writes only a text that the parser reads back as a mapping with exactly the wanted list,
  -- which follows from the list that was read before, and in which neither another key nor another key of
  -- `plugins` has another value than before. A null document counts as an empty mapping.
  pub main-written :
      (mode : Mode) (plugin legacy raw blob : Text)
      → main yaml mode plugin legacy raw ≡ written blob
      → Wrote mode plugin legacy raw blob
  unfolding main
  main-written mode plugin legacy raw blob h = listed_ (validate yaml raw) refl h
    where
      wanted_ :
          (loc : Location) (current : List Text)
          → validate yaml raw ≡ passed current
          → (wanted : Option (List Text)) → wanted_by mode plugin legacy current ≡ wanted
          → with_wanted yaml mode raw loc current wanted ≡ written blob
          → Wrote mode plugin legacy raw blob
      wanted_ loc current read none wants h = absurd (ground arith)
      wanted_ loc current read (some wanted) wants h =
          let text = join_lines (apply_edit (splitlines raw) loc current wanted) in
          let edit = verify-written raw text blob wanted (
            verified (only_plans mode) (needs_edit mode loc current wanted)
              (verify yaml raw wanted text) blob h) in
          record {
            current = current;
            wanted = wanted;
            read_list = read;
            wants = wants;
            edits = subst (IsEditOf raw wanted) edit.1 edit.0;
          }

      located :
          (current : List Text)
          → validate yaml raw ≡ passed current
          → (loc : Checked Location)
          → with_location yaml mode plugin legacy raw current loc ≡ written blob
          → Wrote mode plugin legacy raw blob
      located current read (refused cause) h = absurd (ground arith)
      located current read (passed loc) h =
          wanted_ loc current read (wanted_by mode plugin legacy current) refl
            (checked (cross_check loc current) _ blob h)

      listed_ :
          (list : Checked (List Text))
          → validate yaml raw ≡ list
          → with_list yaml mode plugin legacy raw list ≡ written blob
          → Wrote mode plugin legacy raw blob
      listed_ (refused cause) read h = absurd (ground arith)
      listed_ (passed current) read h =
          located current read (locate (splitlines raw) (unsafe_lines (yaml.events raw))) h
