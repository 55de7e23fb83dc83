-- ===== src/Tests/Refusals.antt =====
-- Refusals at concrete data.
use hermes_drop.Base.{
  ℕ, ◌≡◌, refl, Bool, false, ◌&&◌, none, some, [], ◌∷◌, ◌==◌, contains, option_eq, string_eq,
  nat_eq, leb, any, All,
}
use hermes_drop.Base.{Text, text_eq, codes}
use hermes_drop.Base.Dict
use hermes_drop.Base.Dict.{Dict}
use hermes_drop.SafeErrors.{
  Item, text, mapping, shown, local_detail_errors, safe_error_fields, safe_reasons,
  sanitize_tool_result,
}
use hermes_drop.SafeErrors.Closed.{sanitize_tool_result_alike, sanitize_tool_result_closed}

abbrev is_alnum : ℕ → Bool
is_alnum c = leb b'a' c && leb c b'z'

abbrev refusal : Text → Dict Text Item
refusal detail =
    (codes "error", text (codes "post_failed"))
    ∷ (codes "detail", text detail)
    ∷ (codes "path", text detail)
    ∷ []

abbrev error : Item
error = text (codes "post_failed")

has_error : (detail : Text) → Dict.lookup (codes "error") (refusal detail) ≡ some error
unfolding Dict.lookup text_eq
has_error detail = refl

is_foreign : contains local_detail_errors (shown error) ≡ false
unfolding local_detail_errors text_eq
is_foreign = refl

no_fields :
    All
      (λ (key, _). Dict.lookup key (refusal (codes "/run/broker")) ≡ Dict.lookup key (refusal []))
      (safe_error_fields is_alnum)
unfolding safe_error_fields Dict.lookup text_eq
no_fields = (refl, (refl, (refl, (refl, (refl, (refl, (refl, tt)))))))

sanitize_tool_result_alike_example :
    sanitize_tool_result is_alnum (mapping (refusal (codes "/run/broker")))
    ≡ sanitize_tool_result is_alnum (mapping (refusal []))
sanitize_tool_result_alike_example =
    sanitize_tool_result_alike is_alnum (refusal (codes "/run/broker")) (refusal []) error
      (has_error (codes "/run/broker")) (has_error []) refl is_foreign no_fields

sanitize_tool_result_closed_example :
    (out : Dict Text Item) × (sanitize_tool_result is_alnum
        (mapping (refusal (codes "/run/broker")))
      ≡ mapping out)
    × ((reason : Text)
        → contains local_detail_errors (shown error) ≡ false
        → Dict.lookup (shown error) safe_reasons ≡ some reason
        → Dict.lookup (codes "detail") out ≡ some (text reason))
    × (contains local_detail_errors (shown error) ≡ false
        → Dict.lookup (shown error) safe_reasons ≡ none
        → Dict.lookup (codes "detail") out ≡ some (text (codes "it could not be completed")))
    × ((k : Text)
        → k == codes "error" ≡ false
        → k == codes "detail" ≡ false
        → any (λ (key, _). k == key) (safe_error_fields is_alnum) ≡ false
        → Dict.lookup k out ≡ none)
sanitize_tool_result_closed_example =
    sanitize_tool_result_closed is_alnum (refusal (codes "/run/broker")) error
      (has_error (codes "/run/broker")) refl
