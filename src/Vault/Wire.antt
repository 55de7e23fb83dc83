-- ===== src/Vault/Wire.antt =====
-- What the wire seam puts into a text.
pub mod Seam
pub mod Unchanged
use hermes_drop.Base.{
  ℕ, suc, zero, ◌+◌, ◌-◌, ◌*◌, ◌/◌, ◌%◌, ◌≤◌, ◌<◌, max, min, String, ◌<>◌, ◌≡◌, refl, sym, ap, ◌∙◌,
  ◌≢◌, ◌↔◌, ◌⊎◌, inl, inr, Bool, true, false, not, ◌&&◌, ◌||◌, Option, none, some, List, [], ◌∷◌,
  ◌++◌, map, arith, if◌then◌else◌, Eq, ◌==◌, contains, option_eq, string_eq, nat_eq, Bool-cases,
  Option-cases, ltb, leb, ltb→lt, leb→le, length, keep, any, All, length-append, length-keep-le,
  keep-All,
}
use hermes_drop.Base.{Text, text_eq, codes}
use hermes_drop.Vault.{Token, Vault}
use hermes_drop.Vault.Substitute.{
  opening, closing, placeholder_text, is_hex, after_prefix, hex_then_closing, token_length,
  match_here, match_after, replacement, is_hit, sub, substitute_text,
}
use mathlib.Core.List.{append_assoc}

-- The shape of a token: 32 hexadecimal digits.
pub record IsToken (token : Token) : Type 0 where
  pub digits : All (λ c. is_hex c ≡ true) token
  pub count : length token ≡ token_length

after_prefix-append : (p rest : Text) → after_prefix p (p ++ rest) ≡ some rest
unfolding after_prefix
after_prefix-append [] rest = refl
after_prefix-append (c ∷ p) rest = ground (arith, after_prefix-append p rest)

hex_then_closing-token :
    (n : ℕ) (token rest : Text)
    → All (λ c. is_hex c ≡ true) token
    → length token ≡ n
    → hex_then_closing n (token ++ (closing ∷ rest)) ≡ some token
unfolding hex_then_closing
hex_then_closing-token zero [] rest digits count = ground arith
hex_then_closing-token zero (c ∷ token) rest digits count = absurd (omega arith)
hex_then_closing-token (suc n) [] rest digits count = absurd (omega arith)
hex_then_closing-token (suc n) (c ∷ token) rest (digit, digits) count =
    rw (hex_then_closing-token n token rest digits (omega arith), digit)

abbrev pub body : Token → Text → Text
body token rest = token ++ (closing ∷ rest)

pub match_here-placeholder :
    (token rest : Text) → IsToken token → match_here (opening ++ body token rest) ≡ some token
unfolding match_here
match_here-placeholder token rest t =
    ap match_after (after_prefix-append opening (body token rest))
    ∙ hex_then_closing-token token_length token rest t.digits t.count

-- No opening bracket.
abbrev pub IsPlain : Text → Type 0
IsPlain = All (λ c. c ≢ b'[')

match_here-plain : (c : ℕ) (cs : Text) → c ≢ b'[' → match_here (c ∷ cs) ≡ none
unfolding match_here after_prefix
match_here-plain c cs h = ground arith

-- What a text becomes by a match at its head, from what its tail becomes.
abbrev pub put_match : (Token → Option Text) → Token → Text × Bool → Text × Bool
put_match lookup token (out, hit) =
    (replacement (lookup token) token ++ out, is_hit (lookup token) || hit)

abbrev put_char : ℕ → Text × Bool → Text × Bool
put_char c (out, hit) = (c ∷ out, hit)

module _ (lookup : Token → Option Text) where
  sub-skip :
      (n : ℕ) (xs rest : Text) → length xs ≡ n → sub lookup n (xs ++ rest) ≡ sub lookup 0 rest
  unfolding sub
  sub-skip zero [] rest h = refl
  sub-skip zero (x ∷ xs) rest h = absurd (omega arith)
  sub-skip (suc n) [] rest h = absurd (omega arith)
  sub-skip (suc n) (x ∷ xs) rest h = sub-skip n xs rest (omega arith)

  pub sub-match :
      (c : ℕ) (cs : Text) (token : Token)
      → match_here (c ∷ cs) ≡ some token
      → sub lookup 0 (c ∷ cs)
        ≡ put_match lookup token (sub lookup (length opening + token_length) cs)
  unfolding sub
  sub-match c cs token h = rw (h, sub)

  pub sub-no_match :
      (c : ℕ) (cs : Text)
      → match_here (c ∷ cs) ≡ none
      → sub lookup 0 (c ∷ cs) ≡ put_char c (sub lookup 0 cs)
  unfolding sub
  sub-no_match c cs h = rw (h, sub)

  -- A placeholder at the head is replaced, and the rest is searched in turn.
  pub sub-placeholder :
      (token rest : Text)
      → IsToken token
      → substitute_text lookup (opening ++ body token rest)
        ≡ put_match lookup token (substitute_text lookup rest)
  sub-placeholder token rest t =
      sub-match b'[' (opening_tail ++ body token rest) token (match_here-placeholder token rest t)
      ∙ ap (put_match lookup token) (
          rw whole (
            sub-skip (length opening + token_length) (opening_tail ++ (token ++ (closing ∷ [])))
              rest count))
    where
      opening_tail : Text
      opening_tail = codes "hermes-drop:secret:"

      whole : opening_tail ++ body token rest ≡ (opening_tail ++ (token ++ (closing ∷ []))) ++ rest
      whole = rw (append_assoc, append_assoc)

      count : length (opening_tail ++ (token ++ (closing ∷ []))) ≡ length opening + token_length
      count = omega (arith, length-append token (closing ∷ []), t.count)

  pub sub-plain :
      (before rest : Text)
      → IsPlain before
      → substitute_text lookup (before ++ rest)
        ≡ (before ++ (substitute_text lookup rest).0, (substitute_text lookup rest).1)
  sub-plain [] rest h = refl
  sub-plain (c ∷ before) rest (plain, h) =
      sub-no_match c (before ++ rest) (match_here-plain c (before ++ rest) plain)
      ∙ ap (put_char c) (sub-plain before rest h)
