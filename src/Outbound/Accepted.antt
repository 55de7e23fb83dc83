-- ===== src/Outbound/Accepted.antt =====
-- What an accepted payload is, and what becomes of a value that cannot be encoded.
use hermes_drop.Base.{
  ℕ, ◌+◌, ◌≤◌, ◌<◌, ◌≡◌, refl, ◌⊎◌, inl, inr, Bool, true, false, ◌&&◌, Option, none, some, List, [],
  ◌∷◌, arith, contains, option_eq, string_eq, nat_eq, Bool-cases, leb, length, any,
}
use hermes_drop.Base.{Text, text_eq, codes}
use hermes_drop.Base.Dict
use hermes_drop.Base.Dict.{Dict}
use hermes_drop.Outbound.{
  ◌then_let◌, Unicode, Scalar, null, str, int, other, Attribute, scalar, mapping, RawField,
  no_mapping, attributes, FieldType, text, secret, url, note, Kind, Content, value, generate, Field,
  Failure, encode_error, Result, ok, fail, utf8_length, check_text, check_value, check_length,
  check_generate, check_content, check_field, check_fields, checked_payload, max_fields,
  max_label_chars, normalise_heading, at, is_given, declared_type, or_secret,
}

Result-cases : {A : Type 0} (r : Result A) → ((a : A) × (r ≡ ok a)) ⊎ ((e : Failure) × (r ≡ fail e))
Result-cases (ok a) = inl (a, refl)
Result-cases (fail e) = inr (e, refl)

module _ (u : Unicode) where
  -- The content of a field is the very value that arrived, or a bounded request on a secret.
  abbrev pub Carries : Dict Text Attribute → FieldType → Content → Type 0
  Carries raw type (value v) = Dict.lookup (codes "value") raw ≡ some (scalar (str v))
  Carries raw type (generate kind n) = (type ≡ secret) × ((8 ≤ n) × (n ≤ 64))

  check_text-ok :
      (raw v : Text) (type : FieldType) (i : ℕ) → check_text u raw type i ≡ ok v → raw ≡ v
  unfolding check_text
  check_text-ok raw v text i h = ground arith
  check_text-ok raw v secret i h = ground arith
  check_text-ok raw v url i h = ground arith
  check_text-ok raw v note i h = ground arith

  check_value-ok :
      (a : Attribute) (v : Text) (type : FieldType) (i : ℕ)
      → check_value u a type i ≡ ok v
      → a ≡ scalar (str v)
  unfolding check_value
  check_value-ok (scalar null) v type i h = absurd (ground arith)
  check_value-ok (scalar (str [])) v type i h = absurd (ground arith)
  check_value-ok (scalar (str (c ∷ cs))) v type i h =
      ground (arith, check_text-ok (c ∷ cs) v type i)
  check_value-ok (scalar (int n)) v type i h = absurd (ground arith)
  check_value-ok (scalar other) v type i h = absurd (ground arith)
  check_value-ok (mapping d) v type i h = absurd (ground arith)

  check_length-ok :
      (kind : Kind) (s : Scalar) (c : Content) (i : ℕ)
      → check_length u kind s i ≡ ok c
      → (n : ℕ) × (c ≡ generate kind n) × (8 ≤ n) × (n ≤ 64)
  unfolding check_length
  check_length-ok kind null c i h = absurd (ground arith)
  check_length-ok kind (str s) c i h = absurd (ground arith)
  check_length-ok kind (int n) c i h = (n, ground arith, ground arith, ground arith)
  check_length-ok kind other c i h = absurd (ground arith)

  -- A lone surrogate among the characters of a value.
  abbrev pub is_surrogate : ℕ → Bool
  is_surrogate c = leb 0xd800 c && leb c 0xdfff

  utf8_length-surrogate : (s : Text) → any is_surrogate s ≡ true → utf8_length s ≡ none
  unfolding utf8_length any
  utf8_length-surrogate [] h = absurd (ground arith)
  utf8_length-surrogate (c ∷ cs) h = ground (arith, utf8_length-surrogate cs)

  -- A value in which a lone surrogate stands is not refused: the check raises the encoder's error.
  pub check_value_surrogate :
      (c : ℕ) (cs : Text) (type : FieldType) (i : ℕ)
      → any is_surrogate (c ∷ cs) ≡ true
      → check_value u (scalar (str (c ∷ cs))) type i ≡ fail encode_error
  unfolding check_value
  check_value_surrogate c cs type i h = rw (utf8_length-surrogate (c ∷ cs) h, check_value) refl

  check_generate-ok :
      (a : Attribute) (type : Option FieldType) (c : Content) (i : ℕ)
      → check_generate u a type i ≡ ok c
      → (kind : Kind) × (n : ℕ) × (c ≡ generate kind n) × (8 ≤ n) × (n ≤ 64)
  unfolding check_generate
  check_generate-ok (scalar s) type c i h = absurd (ground arith)
  check_generate-ok (mapping d) type c i h = ground (arith)

  -- What `_check_field` makes of a mapping: a short label that is not empty, and the content.
  pub record IsChecked (raw : RawField) (f : Field) : Type 0 where
    pub given : Dict Text Attribute
    pub arrived : raw ≡ attributes given
    pub named : 0 < length f.label
    pub short : length f.label ≤ max_label_chars
    pub carried : Carries given f.type f.content

  normalise_heading-ok :
      (a : Attribute) (label : Text) (i : ℕ)
      → normalise_heading u a i ≡ ok label
      → (0 < length label) × (length label ≤ max_label_chars)
  unfolding normalise_heading
  normalise_heading-ok (scalar null) label i h = absurd (ground arith)
  normalise_heading-ok (scalar (str s)) label i h = (ground arith, ground arith)
  normalise_heading-ok (scalar (int n)) label i h = absurd (ground arith)
  normalise_heading-ok (scalar other) label i h = absurd (ground arith)
  normalise_heading-ok (mapping d) label i h = absurd (ground arith)

  check_content-label :
      (label : Text) (type : Option FieldType) (raw : Dict Text Attribute) (f : Field) (i : ℕ)
      → check_content u label type raw i ≡ ok f
      → f.label ≡ label
  unfolding check_content
  check_content-label label type raw f i h = ground arith

  value-ok :
      (r : Result Text) (label : Text) (type : FieldType) (f : Field)
      → (r then_let (λ v. ok (record { label = label; type = type; content = value v }))) ≡ ok f
      → (v : Text) × (r ≡ ok v) × (f.content ≡ value v)
  value-ok (ok v) label type f h = (v, refl, ground arith)
  value-ok (fail e) label type f h = absurd (ground arith)

  content-ok :
      (r : Result Content) (label : Text) (f : Field)
      → (r then_let (λ c. ok (record { label = label; type = secret; content = c }))) ≡ ok f
      → (r ≡ ok f.content) × (f.type ≡ secret)
  content-ok (ok c) label f h = (ground arith, ground arith)
  content-ok (fail e) label f h = absurd (ground arith)

  at-str :
      (raw : Dict Text Attribute) (v : Text)
      → at u (codes "value") raw ≡ scalar (str v)
      → Dict.lookup (codes "value") raw ≡ some (scalar (str v))
  at-str raw v h = ground arith

  check_content-Carries :
      (label : Text) (type : Option FieldType) (raw : Dict Text Attribute) (f : Field) (i : ℕ)
      → check_content u label type raw i ≡ ok f
      → Carries raw f.type f.content
  unfolding check_content
  check_content-Carries label type raw f i h =
      elim (Bool-cases (is_given u (at u (codes "value") raw))) [
        | inl valued ↦
            let checked = check_value u (at u (codes "value") raw) (or_secret u type) i in
            let (v, passed, kept) = value-ok checked label (or_secret u type) f (ground arith) in
            rw kept (
              at-str raw v
                (check_value-ok (at u (codes "value") raw) v (or_secret u type) i passed))
        | inr empty ↦
            let drawn = check_generate u (at u (codes "generate") raw) type i in
            let (passed, is_secret) = content-ok drawn label f (ground arith) in
            let (kind, n, kept, low, high) =
              check_generate-ok (at u (codes "generate") raw) type f.content i passed in
            rw kept (is_secret, (low, high))
      ]

  check_field-IsChecked :
      (raw : RawField) (f : Field) (i : ℕ) → check_field u raw i ≡ ok f → IsChecked raw f
  unfolding check_field
  check_field-IsChecked no_mapping f i h = absurd (ground arith)
  check_field-IsChecked (attributes raw) f i h =
      elim (Result-cases (normalise_heading u (at u (codes "label") raw) i)) [
        | inr (e, bad) ↦ absurd (ground arith)
        | inl (label, heading) ↦ elim (Result-cases (declared_type u (at u (codes "type") raw) i)) [
          | inr (e, bad) ↦ absurd (ground arith)
          | inl (type, declared) ↦
              let content : check_content u label type raw i ≡ ok f = ground arith in
              let same = check_content-label label type raw f i content in
              let (named, short) =
                normalise_heading-ok (at u (codes "label") raw) label i heading in
              record {
                given = raw;
                arrived = refl;
                named = rw same named;
                short = rw same short;
                carried = check_content-Carries label type raw f i content;
              }
        ]
      ]

  -- Each field is what arrived at its place, and no folded label comes twice or is in `seen`.
  abbrev pub Accepted : List Text → List RawField → List Field → Type 0
  Accepted seen [] [] = Unit
  Accepted seen (raw ∷ raws) (f ∷ fs) =
      IsChecked raw f
      × ((contains seen (u.casefold f.label) ≡ false)
          × Accepted (u.casefold f.label ∷ seen) raws fs)
  Accepted seen _ _ = ⊥

  check_fields-Accepted :
      (raws : List RawField) (i : ℕ) (seen : List Text) (fs : List Field)
      → check_fields u raws i seen ≡ ok fs
      → Accepted seen raws fs
  unfolding check_fields
  check_fields-Accepted [] i seen fs h = rw (empty_ok fs h) tt
    where
      empty_ok : (fs : List Field) → ◌≡◌ {A = Result (List Field)} (ok []) (ok fs) → fs ≡ []
      empty_ok fs h = ground arith
  check_fields-Accepted (raw ∷ raws) i seen fs h = elim (Result-cases (check_field u raw i)) [
    | inr (e, bad) ↦ absurd (ground arith)
    | inl (f, checked) ↦
        elim (Result-cases (check_fields u raws (i + 1) (u.casefold f.label ∷ seen))) [
          | inr (e, bad) ↦ absurd (ground arith)
          | inl (rest, later) ↦
              let whole : fs ≡ f ∷ rest = ground arith in
              rw whole (
                check_field-IsChecked raw f i checked,
                (
                  ground arith,
                  check_fields-Accepted raws (i + 1) (u.casefold f.label ∷ seen) rest later,
                ),
              )
        ]
  ]

  Accepted-length :
      (seen : List Text) (raws : List RawField) (fs : List Field)
      → Accepted seen raws fs
      → length fs ≡ length raws
  Accepted-length seen [] [] _ = refl
  Accepted-length seen [] (f ∷ fs) x = elim x [ ]
  Accepted-length seen (raw ∷ raws) [] x = elim x [ ]
  Accepted-length seen (raw ∷ raws) (f ∷ fs) (_, (_, later)) =
      omega (arith, Accepted-length (u.casefold f.label ∷ seen) raws fs later)

  -- A payload whose fields pass has one to eight of them, as many as arrived. Each has a label of 1 to
  -- 40 characters and either the very value that arrived or, on a secret, a request for 8 to 64
  -- characters; no two labels are the same once folded.
  pub checked_payload-Accepted :
      (raws : List RawField) (fs : List Field)
      → checked_payload u (some raws) ≡ ok fs
      → (1 ≤ length fs) × (length fs ≤ max_fields) × Accepted [] raws fs
  unfolding checked_payload
  checked_payload-Accepted [] fs h = absurd (ground arith)
  checked_payload-Accepted (raw ∷ raws) fs h =
      let all = check_fields-Accepted (raw ∷ raws) 0 [] fs (ground arith) in
      let same = Accepted-length [] (raw ∷ raws) fs all in
      (omega (arith, same), ground (arith, same), all)
