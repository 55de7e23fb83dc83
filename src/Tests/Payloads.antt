-- ===== src/Tests/Payloads.antt =====
-- Outbound payloads at concrete data.
use hermes_drop.Base.{
  ◌≤◌, ◌≡◌, refl, some, List, [], ◌∷◌, option_eq, string_eq, nat_eq, ltb, leb, length, any,
}
use hermes_drop.Base.{codes, text_eq, is_space, lstrip, strip}
use hermes_drop.Base.Dict
use hermes_drop.Base.Dict.{Dict}
use hermes_drop.Outbound.{
  Unicode, scalar, str, RawField, attributes, Field, secret, value, ok, fail, encode_error,
  utf8_length, collapse, normalise_heading, check_text, check_value, declared_type, check_content,
  check_field, check_fields, checked_payload, max_fields,
}
use hermes_drop.Outbound.Accepted.{Accepted, checked_payload-Accepted, check_value_surrogate}

abbrev ascii : Unicode
ascii = record {
  is_forbidden = λ c. ltb c 32;
  is_letter_or_digit = λ c. leb b'0' c;
  casefold = λ s. s;
}

abbrev raws : List RawField
raws =
    attributes (
      (codes "label", scalar (str (codes "Pin")))
      ∷ (codes "value", scalar (str (codes "1234")))
      ∷ [])
    ∷ []

abbrev sent : List Field
sent = record { label = codes "Pin"; type = secret; content = value (codes "1234") } ∷ []

accepted : checked_payload ascii (some raws) ≡ ok sent
unfolding checked_payload check_fields check_field normalise_heading collapse declared_type
    check_content check_value utf8_length check_text strip lstrip is_space Dict.lookup text_eq any
    nat_eq
accepted = refl

checked_payload-Accepted_example :
    (1 ≤ length sent) × (length sent ≤ max_fields) × Accepted ascii [] raws sent
checked_payload-Accepted_example = checked_payload-Accepted ascii raws sent accepted

check_value_surrogate_example :
    check_value ascii (scalar (str (b'a' ∷ 0xd800 ∷ []))) secret 0 ≡ fail encode_error
unfolding any
check_value_surrogate_example = check_value_surrogate ascii b'a' (0xd800 ∷ []) secret 0 refl
