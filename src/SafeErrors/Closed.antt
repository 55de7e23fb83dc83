-- ===== src/SafeErrors/Closed.antt =====
-- The detail and the fields of a refusal that leaves drop/safe_errors.py.
use hermes_drop.Base.{
  ℕ, ◌≡◌, refl, sym, ap, ◌∙◌, Bool, true, false, Option, none, some, List, [], ◌∷◌, arith,
  if◌then◌else◌, ◌==◌, contains, option_eq, string_eq, nat_eq, any, All,
}
use hermes_drop.Base.{Text, text_eq, codes}
use hermes_drop.Base.Dict
use hermes_drop.Base.Dict.{Dict}
use hermes_drop.SafeErrors.{
  Item, nothing, text, flag, other, safe_reasons, default_reason, mapping, shown, is_true,
  local_detail_errors, safe_error_fields, set_field, set_detail, coded, rebuilt, add_field,
  add_fields, safe_detail, with_detail, sanitize_tool_result,
}

module _ (is_alnum : ℕ → Bool) where
  add_field-alike :
      (key : Text) (coerce : Item → Item) (r s out : Dict Text Item)
      → Dict.lookup key r ≡ Dict.lookup key s
      → add_field is_alnum key coerce r out ≡ add_field is_alnum key coerce s out
  unfolding add_field
  add_field-alike key coerce r s out same = ap (λ x. set_field is_alnum key coerce x out) same

  add_fields-alike :
      (fields : List (Text × (Item → Item))) (r s out : Dict Text Item)
      → All (λ (key, _). Dict.lookup key r ≡ Dict.lookup key s) fields
      → add_fields is_alnum fields r out ≡ add_fields is_alnum fields s out
  unfolding add_fields
  add_fields-alike [] r s out _ = refl
  add_fields-alike ((key, coerce) ∷ fields) r s out (same, rest) =
      ap (λ x. add_fields is_alnum fields r x) (add_field-alike key coerce r s out same)
      ∙ add_fields-alike fields r s _ rest

  with_detail-alike :
      (code : Text) (r s : Dict Text Item)
      → contains local_detail_errors code ≡ false
      → with_detail is_alnum code r ≡ with_detail is_alnum code s
  unfolding with_detail
  with_detail-alike code r s foreign = rw foreign refl

  sanitized_as :
      (r : Dict Text Item) (error : Item)
      → Dict.lookup (codes "error") r ≡ some error
      → is_true error ≡ true
      → sanitize_tool_result is_alnum (mapping r)
        ≡ mapping (
            add_fields is_alnum
              (safe_error_fields is_alnum)
              r
              (with_detail is_alnum (shown error) r))
  unfolding sanitize_tool_result
  sanitized_as r error here is_error =
      ap (λ x. rebuilt is_alnum x r) here ∙ rebuilt_as (is_true error) is_error
    where
      rebuilt_as :
          (b : Bool)
          → b ≡ true
          → (if b
              then mapping (
                  add_fields is_alnum
                    (safe_error_fields is_alnum)
                    r
                    (with_detail is_alnum (shown error) r))
              else mapping r)
            ≡ mapping (
                add_fields is_alnum
                  (safe_error_fields is_alnum)
                  r
                  (with_detail is_alnum (shown error) r))
      rebuilt_as true h = refl
      rebuilt_as false h = absurd (ground arith)

  -- Two refusals of the same code, which is not one whose detail is the package's own, and with the
  -- same seven fields leave as the same result, whatever their details and their other fields are.
  pub sanitize_tool_result_alike :
      (r s : Dict Text Item) (error : Item)
      → Dict.lookup (codes "error") r ≡ some error
      → Dict.lookup (codes "error") s ≡ some error
      → is_true error ≡ true
      → contains local_detail_errors (shown error) ≡ false
      → All (λ (key, _). Dict.lookup key r ≡ Dict.lookup key s) (safe_error_fields is_alnum)
      → sanitize_tool_result is_alnum (mapping r) ≡ sanitize_tool_result is_alnum (mapping s)
  sanitize_tool_result_alike r s error here there is_error foreign same =
      sanitized_as r error here is_error
      ∙ (ap mapping (
            ap (add_fields is_alnum (safe_error_fields is_alnum) r)
              (with_detail-alike (shown error) r s foreign)
            ∙ add_fields-alike (safe_error_fields is_alnum) r s _ same)
          ∙ sym (sanitized_as s error there is_error))

  add_field-lookup :
      (k key : Text) (coerce : Item → Item) (r out : Dict Text Item)
      → k == key ≡ false
      → Dict.lookup k (add_field is_alnum key coerce r out) ≡ Dict.lookup k out
  unfolding add_field
  add_field-lookup k key coerce r out apart = go (Dict.lookup key r)
    where
      go :
          (x : Option Item)
          → Dict.lookup k (set_field is_alnum key coerce x out) ≡ Dict.lookup k out
      go none = refl
      go (some nothing) = refl
      go (some (text s)) = ground (arith, Dict.lookup-insert k key (coerce (text s)) out)
      go (some (flag b)) = ground (arith, Dict.lookup-insert k key (coerce (flag b)) out)
      go (some (other s b)) = ground (arith, Dict.lookup-insert k key (coerce (other s b)) out)

  add_fields-lookup :
      (k : Text) (fields : List (Text × (Item → Item))) (r out : Dict Text Item)
      → any (λ (key, _). k == key) fields ≡ false
      → Dict.lookup k (add_fields is_alnum fields r out) ≡ Dict.lookup k out
  unfolding add_fields any
  add_fields-lookup k [] r out _ = refl
  add_fields-lookup k ((key, coerce) ∷ fields) r out apart = ground (
    arith,
    add_fields-lookup k fields r (add_field is_alnum key coerce r out),
    add_field-lookup k key coerce r out,
  )

  coded-lookup :
      (k code : Text) → k == codes "error" ≡ false → Dict.lookup k (coded is_alnum code) ≡ none
  unfolding Dict.lookup
  coded-lookup k code apart = ground arith

  with_detail-lookup :
      (k code : Text) (r : Dict Text Item)
      → k == codes "error" ≡ false
      → k == codes "detail" ≡ false
      → Dict.lookup k (with_detail is_alnum code r) ≡ none
  unfolding with_detail
  with_detail-lookup k code r not_error not_detail = ground (
    arith,
    coded-lookup k code not_error,
    Dict.lookup-insert k (codes "detail") (text (safe_detail is_alnum code)) (coded is_alnum code),
    set_detail-lookup (Dict.lookup (codes "detail") r),
  )
    where
      set_detail-lookup :
          (x : Option Item) → Dict.lookup k (set_detail is_alnum x (coded is_alnum code)) ≡ none
      set_detail-lookup none = coded-lookup k code not_error
      set_detail-lookup (some detail) = ground (
        arith,
        coded-lookup k code not_error,
        Dict.lookup-insert k (codes "detail") (text (shown detail)) (coded is_alnum code),
      )

  with_detail-foreign :
      (code : Text) (r : Dict Text Item)
      → contains local_detail_errors code ≡ false
      → Dict.lookup (codes "detail") (with_detail is_alnum code r)
        ≡ some (text (safe_detail is_alnum code))
  unfolding with_detail
  with_detail-foreign code r foreign = ground (
    arith,
    Dict.lookup-insert (codes "detail") (codes "detail") (text (safe_detail is_alnum code))
        (coded is_alnum code),
  )

  detail_apart : any (λ (key, _). codes "detail" == key) (safe_error_fields is_alnum) ≡ false
  unfolding any safe_error_fields text_eq
  detail_apart = refl

  safe_detail-listed :
      (code reason : Text)
      → Dict.lookup code safe_reasons ≡ some reason
      → safe_detail is_alnum code ≡ reason
  unfolding safe_detail
  safe_detail-listed code reason listed = rw (listed, safe_detail) refl

  safe_detail-unlisted :
      (code : Text)
      → Dict.lookup code safe_reasons ≡ none
      → safe_detail is_alnum code ≡ default_reason
  unfolding safe_detail
  safe_detail-unlisted code unlisted = rw (unlisted, safe_detail) refl

  fixed_detail :
      (r : Dict Text Item) (code sentence : Text)
      → contains local_detail_errors code ≡ false
      → safe_detail is_alnum code ≡ sentence
      → Dict.lookup
          (codes "detail")
          (add_fields is_alnum (safe_error_fields is_alnum) r (with_detail is_alnum code r))
        ≡ some (text sentence)
  fixed_detail r code sentence foreign is_sentence =
      add_fields-lookup (codes "detail") (safe_error_fields is_alnum) r _ detail_apart
      ∙ (with_detail-foreign code r foreign ∙ ap (λ x. some (text x)) is_sentence)

  -- What leaves of a refusal, unless its code is one whose detail is the package's own, has as its
  -- detail the sentence that the table of reasons lists for the code, or `it could not be completed` for
  -- a code outside the table. It has no field but the code, the detail and the seven.
  pub sanitize_tool_result_closed :
      (r : Dict Text Item) (error : Item)
      → Dict.lookup (codes "error") r ≡ some error
      → is_true error ≡ true
      → (out : Dict Text Item) × (sanitize_tool_result is_alnum (mapping r) ≡ mapping out)
        × ((reason : Text)
            → contains local_detail_errors (shown error) ≡ false
            → Dict.lookup (shown error) safe_reasons ≡ some reason
            → Dict.lookup (codes "detail") out ≡ some (text reason))
        × (contains local_detail_errors (shown error) ≡ false
            → Dict.lookup (shown error) safe_reasons ≡ none
            → Dict.lookup (codes "detail") out ≡ some (text (codes "it could not be completed")))
        × ((k : Text)
            → k == codes "error" ≡ false
            → k == codes "detail" ≡ false
            → any (λ (key, _). k == key) (safe_error_fields is_alnum) ≡ false
            → Dict.lookup k out ≡ none)
  sanitize_tool_result_closed r error here is_error = (
    add_fields is_alnum (safe_error_fields is_alnum) r (with_detail is_alnum (shown error) r),
    sanitized_as r error here is_error,
    λ reason foreign listed.
        fixed_detail r (shown error) reason foreign
          (safe_detail-listed (shown error) reason listed),
    λ foreign unlisted.
        fixed_detail r (shown error) default_reason foreign
          (safe_detail-unlisted (shown error) unlisted),
    λ k not_error not_detail unsafe.
        add_fields-lookup k (safe_error_fields is_alnum) r _ unsafe
        ∙ with_detail-lookup k (shown error) r not_error not_detail,
  )
