-- ===== src/Outbound.antt =====
-- drop/outbound_payload.py: what a payload must be before it is sent. Python's Unicode tables
-- (`unicodedata.category`, `\w`, `str.casefold`) are the record `Unicode`.
use hermes_drop.Base.{
  ℕ, suc, zero, ◌+◌, ◌-◌, ◌*◌, ◌/◌, ◌%◌, ◌≤◌, ◌<◌, max, min, String, ◌<>◌, ◌≡◌, refl, sym, ap, ◌∙◌,
  ◌≢◌, ◌↔◌, ◌⊎◌, inl, inr, Bool, true, false, not, ◌&&◌, ◌||◌, Option, none, some, List, [], ◌∷◌,
  ◌++◌, map, arith, if◌then◌else◌, Eq, ◌==◌, contains, option_eq, string_eq, nat_eq, Bool-cases,
  Option-cases, ltb, leb, ltb→lt, leb→le, length, keep, any, All, length-append, length-keep-le,
  keep-All,
}
use hermes_drop.Base.{Text, text_eq, codes, is_space, strip}
use hermes_drop.Base.Dict
use hermes_drop.Base.Dict.{Dict, keys}
use hermes_drop.Vault.Substitute.{after_prefix}
pub mod Accepted

pub record Unicode : Type 0 where
  pub is_forbidden : ℕ → Bool
  pub is_letter_or_digit : ℕ → Bool
  pub casefold : Text → Text

abbrev pub max_fields : ℕ
max_fields = 8

abbrev pub max_label_chars : ℕ
max_label_chars = 40

abbrev pub max_value_bytes : ℕ
max_value_bytes = 512

abbrev pub max_note_lines : ℕ
max_note_lines = 8

abbrev pub min_generate_length : ℕ
min_generate_length = 8

abbrev pub max_generate_length : ℕ
max_generate_length = 64

-- A value of a field as it arrives: null, a string, a number that is not negative, a mapping, or
-- anything else.
pub data Scalar : Type 0 where
  null : Scalar
  str : Text → Scalar
  int : ℕ → Scalar
  other : Scalar

pub data Attribute : Type 0 where
  scalar : Scalar → Attribute
  mapping : Dict Text Scalar → Attribute

pub data RawField : Type 0 where
  no_mapping : RawField
  attributes : Dict Text Attribute → RawField

pub data FieldType : Type 0 where
  text secret url note : FieldType

pub data Kind : Type 0 where
  password hex base64url : Kind

pub data Content : Type 0 where
  value : Text → Content
  generate : Kind → (length : ℕ) → Content

pub record Field : Type 0 where
  pub label : Text
  pub type : FieldType
  pub content : Content

pub data Reason : Type 0 where
  bad_generate bad_label bad_type bad_url bad_value duplicate_label label_too_long : Reason
  no_fields not_an_object too_many_fields unknown_key value_too_long : Reason

-- `PayloadRefused`, or the `UnicodeEncodeError` that `str.encode` raises for a lone surrogate.
pub data Failure : Type 0 where
  refused : Reason → (index : ℕ) → Failure
  refused_whole : Reason → Failure
  encode_error : Failure

pub data Result (A : Type 0) : Type 0 where
  ok : A → Result A
  fail : Failure → Result A

module _ {A B : Type 0} where
  infix 5 ◌then_let◌
  abbrev pub ◌then_let◌ : Result A → (A → Result B) → Result B
  ok a then_let f = f a
  fail e then_let f = fail e

-- `len(s.encode("utf-8"))`
unfoldable pub utf8_length : Text → Option ℕ
utf8_length [] = some 0
utf8_length (c ∷ cs) = elim (utf8_length cs) [
  | none ↦ none
  | some n ↦
      if ltb c 0x80
      then some (n + 1)
      else if ltb c 0x800
      then some (n + 2)
      else if leb 0xd800 c && leb c 0xdfff
      then none
      else if ltb c 0x10000
      then some (n + 3)
      else some (n + 4)
]

-- `_WHITESPACE_RUN.sub(" ", s)`; the flag says that the last character was of a run.
unfoldable pub collapse : Bool → Text → Text
collapse run [] = []
collapse run (c ∷ cs) =
    let inside = collapse true cs in
    let outside = collapse false cs in
    if is_space c then (if run then inside else b' ' ∷ inside) else c ∷ outside

module _ (u : Unicode) where
  -- `_EXOTIC_WHITESPACE` and `_EXOTIC_WHITESPACE_IN_NOTE`
  abbrev is_exotic : ℕ → Bool
  is_exotic c = is_space c && not (c == b' ')

  abbrev is_exotic_in_note : ℕ → Bool
  is_exotic_in_note c = is_space c && (not (c == b' ') && not (c == 10))

  -- `_normalise_heading` of a label.
  unfoldable pub normalise_heading : Attribute → (index : ℕ) → Result Text
  unfolding collapse
  normalise_heading (scalar (str raw)) index =
      let collapsed = strip (collapse false raw) in
      if any u.is_forbidden raw
      then fail (refused bad_label index)
      else if any is_exotic raw
      then fail (refused bad_label index)
      else if ltb 0 (length collapsed)
      then if ltb max_label_chars (length collapsed)
        then fail (refused label_too_long index)
        else if any u.is_letter_or_digit collapsed
        then ok collapsed
        else fail (refused bad_label index)
      else fail (refused bad_label index)
  normalise_heading _ index = fail (refused bad_label index)

  abbrev starts_host : Text → Bool
  starts_host [] = false
  starts_host (c ∷ cs) = not (is_space c || (c == b'/' || (c == b'?' || c == b'#')))

  -- `_ABSOLUTE_HTTP_URL.match`
  unfoldable pub is_absolute_url : Text → Bool
  is_absolute_url s = elim (after_prefix (codes "https://") s) [
    | some rest ↦ starts_host rest
    | none ↦ elim (after_prefix (codes "http://") s) [ some rest ↦ starts_host rest | none ↦ false ]
  ]

  -- `len(raw.split("\n"))`
  abbrev lines : Text → ℕ
  lines s = length (keep (λ c. c == 10) s) + 1

  unfoldable pub check_text : Text → FieldType → (index : ℕ) → Result Text
  unfolding is_absolute_url
  check_text raw note index =
      if any (λ c. not (c == 10) && u.is_forbidden c) raw
      then fail (refused bad_value index)
      else if any is_exotic_in_note raw
      then fail (refused bad_value index)
      else if ltb max_note_lines (lines raw)
      then fail (refused bad_value index)
      else ok raw
  check_text raw type index =
      if any u.is_forbidden raw
      then fail (refused bad_value index)
      else if any is_exotic raw
      then fail (refused bad_value index)
      else if is_url type && not (is_absolute_url raw)
      then fail (refused bad_url index)
      else ok raw
    where
      is_url : FieldType → Bool
      is_url url = true
      is_url _ = false

  -- `_check_value`
  unfoldable pub check_value : Attribute → FieldType → (index : ℕ) → Result Text
  unfolding utf8_length check_text
  check_value (scalar (str [])) type index = fail (refused bad_value index)
  check_value (scalar (str (c ∷ cs))) type index = elim (utf8_length (c ∷ cs)) [
    | none ↦ fail encode_error
    | some bytes ↦
        if ltb max_value_bytes bytes
        then fail (refused value_too_long index)
        else if (c ∷ cs) == strip (c ∷ cs)
        then check_text (c ∷ cs) type index
        else fail (refused bad_value index)
  ]
  check_value _ type index = fail (refused bad_value index)

  abbrev at : Text → Dict Text Attribute → Attribute
  at key raw = elim (Dict.lookup key raw) [ none ↦ scalar null | some v ↦ v ]

  abbrev scalar_at : Text → Scalar → Dict Text Scalar → Scalar
  scalar_at key default raw = elim (Dict.lookup key raw) [ none ↦ default | some v ↦ v ]

  -- `kind not in GENERATE_KINDS`
  unfoldable pub kind_of : Scalar → Option Kind
  kind_of (str s) =
      if s == codes "password"
      then some password
      else if s == codes "hex"
      then some hex
      else if s == codes "base64url"
      then some base64url
      else none
  kind_of _ = none

  unfoldable pub check_length : Kind → Scalar → (index : ℕ) → Result Content
  check_length kind (int n) index =
      if leb min_generate_length n && leb n max_generate_length
      then ok (generate kind n)
      else fail (refused bad_generate index)
  check_length kind _ index = fail (refused bad_generate index)

  abbrev may_generate : Option FieldType → Bool
  may_generate none = true
  may_generate (some secret) = true
  may_generate _ = false

  -- `_check_generate`
  unfoldable pub check_generate : Attribute → Option FieldType → (index : ℕ) → Result Content
  unfolding kind_of check_length
  check_generate (mapping raw) type index =
      if any (λ (k, _). not (contains (codes "kind" ∷ codes "length" ∷ []) k)) raw
      then fail (refused unknown_key index)
      else if may_generate type
      then elim (kind_of (scalar_at (codes "kind") (str (codes "password")) raw)) [
        | none ↦ fail (refused bad_generate index)
        | some kind ↦ check_length kind (scalar_at (codes "length") (int 24) raw) index
      ]
      else fail (refused bad_generate index)
  check_generate _ type index = fail (refused bad_generate index)

  unfoldable pub named_type : Text → Option FieldType
  named_type s =
      if s == codes "text"
      then some text
      else if s == codes "secret"
      then some secret
      else if s == codes "url"
      then some url
      else if s == codes "note"
      then some note
      else none

  unfoldable pub declared_type : Attribute → (index : ℕ) → Result (Option FieldType)
  unfolding named_type
  declared_type (scalar null) index = ok none
  declared_type (scalar (str s)) index = elim (named_type s) [
    | none ↦ fail (refused bad_type index)
    | some type ↦ ok (some type)
  ]
  declared_type _ index = fail (refused bad_type index)

  abbrev is_given : Attribute → Bool
  is_given (scalar null) = false
  is_given _ = true

  abbrev or_secret : Option FieldType → FieldType
  or_secret none = secret
  or_secret (some type) = type

  abbrev field_keys : List Text
  field_keys = codes "label" ∷ codes "type" ∷ codes "value" ∷ codes "generate" ∷ []

  -- What follows the label: exactly one of a value and a generation request.
  unfoldable pub check_content :
      Text → Option FieldType → Dict Text Attribute → (index : ℕ) → Result Field
  unfolding check_value check_generate
  check_content label type raw index =
      if is_given (at (codes "value") raw)
      then if is_given (at (codes "generate") raw)
        then fail (refused bad_value index)
        else check_value (at (codes "value") raw) (or_secret type) index
          then_let (λ v. ok (record { label = label; type = or_secret type; content = value v }))
      else if is_given (at (codes "generate") raw)
      then check_generate (at (codes "generate") raw) type index
        then_let (λ c. ok (record { label = label; type = secret; content = c }))
      else fail (refused bad_value index)

  -- `_check_field`
  unfoldable pub check_field : RawField → (index : ℕ) → Result Field
  unfolding normalise_heading declared_type check_content
  check_field no_mapping index = fail (refused bad_label index)
  check_field (attributes raw) index =
      if any (λ (k, _). not (contains field_keys k)) raw
      then fail (refused unknown_key index)
      else normalise_heading (at (codes "label") raw) index then_let (λ label.
        declared_type (at (codes "type") raw) index
        then_let (λ type. check_content label type raw index))

  -- The loop of `build_outbound_payload`; `seen` holds the folded labels.
  unfoldable pub check_fields : List RawField → (index : ℕ) → List Text → Result (List Field)
  unfolding check_field
  check_fields [] index seen = ok []
  check_fields (raw ∷ raws) index seen = check_field raw index then_let (λ f.
      if contains seen (u.casefold f.label)
      then fail (refused duplicate_label index)
      else check_fields raws (index + 1) (u.casefold f.label ∷ seen) then_let (λ fs. ok (f ∷ fs)))

  -- `build_outbound_payload` up to the list of checked fields; `none` is no sequence.
  unfoldable pub checked_payload : Option (List RawField) → Result (List Field)
  unfolding check_fields
  checked_payload none = fail (refused_whole not_an_object)
  checked_payload (some []) = fail (refused_whole no_fields)
  checked_payload (some (raw ∷ raws)) =
      if ltb max_fields (length (raw ∷ raws))
      then fail (refused_whole too_many_fields)
      else check_fields (raw ∷ raws) 0 []
