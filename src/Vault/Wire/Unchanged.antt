-- ===== src/Vault/Wire/Unchanged.antt =====
-- The walk over a request, with and without its flag of a change.
use hermes_drop.Base.{
  ℕ, suc, zero, ◌+◌, ◌≡◌, refl, sym, ap, ◌∙◌, inl, inr, Bool, false, ◌||◌, Option, none, some, [],
  ◌∷◌, ◌++◌, arith, if◌then◌else◌, option_eq, string_eq, nat_eq, Option-cases, ltb, length,
  length-append,
}
use mathlib.Core.List.{append_assoc}
use hermes_drop.Base.{Text, text_eq, codes}
use hermes_drop.Vault.{Token}
use hermes_drop.Vault.Substitute.{
  opening, closing, placeholder_text, after_prefix, hex_then_closing, token_length, match_here,
  match_after, replacement, is_hit, sub, substitute_text, Node, string, mapping, sequence, opaque,
  Fields, no_fields, field, Items, no_items, item, substitute_tree, substitute_fields,
  substitute_items, max_walk_depth,
}
use hermes_drop.Vault.Wire.{body, sub-match, sub-no_match}

abbrev drop : ℕ → Text → Text
drop zero xs = xs
drop (suc n) [] = []
drop (suc n) (x ∷ xs) = drop n xs

drop-append : (n : ℕ) (xs rest : Text) → length xs ≡ n → drop n (xs ++ rest) ≡ rest
drop-append zero [] rest h = refl
drop-append zero (x ∷ xs) rest h = absurd (omega arith)
drop-append (suc n) [] rest h = absurd (omega arith)
drop-append (suc n) (x ∷ xs) rest h = drop-append n xs rest (omega arith)

after_prefix-some : (p cs rest : Text) → after_prefix p cs ≡ some rest → cs ≡ p ++ rest
unfolding after_prefix
after_prefix-some [] cs rest h = ground arith
after_prefix-some (x ∷ p) [] rest h = ground arith
after_prefix-some (x ∷ p) (c ∷ cs) rest h = ground (arith, after_prefix-some p cs rest)

hex_then_closing-some :
    (n : ℕ) (cs : Text) (token : Token)
    → hex_then_closing n cs ≡ some token
    → (rest : Text) × (cs ≡ body token rest) × (length token ≡ n)
unfolding hex_then_closing
hex_then_closing-some zero [] token h = absurd (ground arith)
hex_then_closing-some (suc n) [] token h = absurd (ground arith)
hex_then_closing-some zero (c ∷ cs) token h = (cs, ground arith, ground arith)
hex_then_closing-some (suc n) (c ∷ cs) token h = elim (Option-cases (hex_then_closing n cs)) [
  | inl e ↦ absurd (ground arith)
  | inr (later, e) ↦
      let (rest, split, count) = hex_then_closing-some n cs later e in
      (rest, ground arith, ground arith)
]

abbrev opening_tail : Text
opening_tail = codes "hermes-drop:secret:"

-- A match stands where a whole placeholder stands.
match_here-some :
    (cs : Text) (token : Token)
    → match_here cs ≡ some token
    → (rest : Text) × (cs ≡ opening ++ body token rest) × (length token ≡ token_length)
unfolding match_here
match_here-some cs token h = by_prefix (after_prefix opening cs) refl
  where
    by_prefix :
        (r : Option Text)
        → after_prefix opening cs ≡ r
        → (rest : Text) × (cs ≡ opening ++ body token rest) × (length token ≡ token_length)
    by_prefix none e = absurd (ground (arith, e, h))
    by_prefix (some later) e =
        let (rest, split, count) =
          hex_then_closing-some token_length later token (ap match_after (sym e) ∙ h) in
        (rest, after_prefix-some opening cs later e ∙ ap (◌++◌ opening) split, count)

abbrev rest_of : Text → Text
rest_of [] = []
rest_of (c ∷ cs) = cs

regroup : (p token rest : Text) → p ++ body token rest ≡ (p ++ (token ++ (closing ∷ []))) ++ rest
regroup p token rest =
    rw (append_assoc p) (ap (◌++◌ p) (sym (append_assoc token (closing ∷ []) rest)))

-- The characters that a match takes up are its placeholder's.
match_here-cons :
    (c : ℕ) (cs : Text) (token : Token)
    → match_here (c ∷ cs) ≡ some token
    → c ∷ cs ≡ placeholder_text token ++ drop (length opening + token_length) cs
unfolding placeholder_text
match_here-cons c cs token h =
    let (rest, whole, count) = match_here-some (c ∷ cs) token h in
    let taken : length (opening_tail ++ (token ++ (closing ∷ []))) ≡ length opening + token_length =
      omega (arith, length-append token (closing ∷ []), count) in
    let left : drop (length opening + token_length) cs ≡ rest =
      ap (λ xs. drop (length opening + token_length) (rest_of xs)) whole
      ∙ ap (drop (length opening + token_length)) (regroup opening_tail token rest)
      ∙ drop-append (length opening + token_length) (opening_tail ++ (token ++ (closing ∷ []))) rest
          taken in
    whole ∙ regroup opening token rest ∙ ap (◌++◌ (opening ++ (token ++ (closing ∷ [])))) (sym left)

abbrev out : Text × Bool → Text
out r = r.0

abbrev flag : Text × Bool → Bool
flag r = r.1

miss : (r : Option Text) (hit : Bool) → (is_hit r || hit) ≡ false → (r ≡ none) × (hit ≡ false)
miss r hit h = ground arith

module _ (lookup : Token → Option Text) where
  -- Where the flag says that there was no hit, what is left of the text is as it was.
  sub_unchanged :
      (skip : ℕ) (cs : Text)
      → (sub lookup skip cs).1 ≡ false
      → (sub lookup skip cs).0 ≡ drop skip cs
  unfolding sub
  sub_unchanged zero [] h = refl
  sub_unchanged (suc skip) [] h = refl
  sub_unchanged (suc skip) (c ∷ cs) h = sub_unchanged skip cs h
  sub_unchanged zero (c ∷ cs) h =
      by_match (match_here (c ∷ cs)) refl (sub_unchanged zero cs)
        (sub_unchanged (length opening + token_length) cs)
    where
      by_match :
          (m : Option Token)
          → match_here (c ∷ cs) ≡ m
          → ((sub lookup 0 cs).1 ≡ false → (sub lookup 0 cs).0 ≡ cs)
          → ((sub lookup (length opening + token_length) cs).1 ≡ false
              → (sub lookup (length opening + token_length) cs).0
                ≡ drop (length opening + token_length) cs)
          → (sub lookup 0 (c ∷ cs)).0 ≡ c ∷ cs
      by_match none e next skipped =
          let step = sub-no_match lookup c cs e in
          ap out step ∙ ap (◌∷◌ c) (next (sym (ap flag step) ∙ h))
      by_match (some token) e next skipped =
          let step = sub-match lookup c cs token e in
          let (no_answer, no_hit) = miss (lookup token) _ (sym (ap flag step) ∙ h) in
          ap out step
          ∙ ap (λ r. replacement r token ++ (sub lookup (length opening + token_length) cs).0)
              no_answer
          ∙ ap (◌++◌ (placeholder_text token)) (skipped no_hit)
          ∙ sym (match_here-cons c cs token e)

module _ (lookup : Token → Option Text) where
  -- The walk with no flags: every text down to the walk's depth, and nothing below it.
  mutual
    pub everywhere : ℕ → Node → Node
    everywhere depth (string s) =
        if ltb max_walk_depth depth then string s else string (substitute_text lookup s).0
    everywhere depth (mapping fs) =
        let inside = everywhere_fields depth fs in
        if ltb max_walk_depth depth then mapping fs else mapping inside
    everywhere depth (sequence tuple xs) =
        let inside = everywhere_items depth xs in
        if ltb max_walk_depth depth then sequence tuple xs else sequence tuple inside
    everywhere depth (opaque x) = opaque x

    everywhere_fields : ℕ → Fields → Fields
    everywhere_fields depth no_fields = no_fields
    everywhere_fields depth (field key value fs) =
        field key (everywhere (depth + 1) value) (everywhere_fields depth fs)

    everywhere_items : ℕ → Items → Items
    everywhere_items depth no_items = no_items
    everywhere_items depth (item value xs) =
        item (everywhere (depth + 1) value) (everywhere_items depth xs)

  -- The walk gives what the walk without flags gives, and a flag that stays down means that
  -- this is the value itself.
  abbrev Agrees {ℓ} : {A : Type ℓ} → A → A → A × Bool → Type ℓ
  Agrees node plain (rebuilt, changed) = (rebuilt ≡ plain) × (changed ≡ false → rebuilt ≡ node)

  mutual
    unfolding substitute_tree everywhere

    tree-Agrees :
        (depth : ℕ) (node : Node)
        → Agrees node (everywhere depth node) (substitute_tree lookup depth node)
    tree-Agrees depth (string s) = ground (arith, sub_unchanged lookup 0 s)
    tree-Agrees depth (mapping fs) = ground (arith, fields-Agrees depth fs)
    tree-Agrees depth (sequence tuple xs) = ground (arith, items-Agrees depth xs)
    tree-Agrees depth (opaque x) = (refl, λ _. refl)

    fields-Agrees :
        (depth : ℕ) (fs : Fields)
        → Agrees fs (everywhere_fields depth fs) (substitute_fields lookup depth fs)
    fields-Agrees depth no_fields = (refl, λ _. refl)
    fields-Agrees depth (field key value fs) =
        ground (arith, tree-Agrees (depth + 1) value, fields-Agrees depth fs)

    items-Agrees :
        (depth : ℕ) (xs : Items)
        → Agrees xs (everywhere_items depth xs) (substitute_items lookup depth xs)
    items-Agrees depth no_items = (refl, λ _. refl)
    items-Agrees depth (item value xs) =
        ground (arith, tree-Agrees (depth + 1) value, items-Agrees depth xs)

-- The walk over a request, with its flags and its kept originals, gives what replacing in every
-- text down to the depth limit gives.
pub substitute_tree-everywhere :
    (lookup : Token → Option Text) (depth : ℕ) (node : Node)
    → (substitute_tree lookup depth node).0 ≡ everywhere lookup depth node
substitute_tree-everywhere lookup depth node = (tree-Agrees lookup depth node).0

-- Where the walk reports no change, the request is the one that went in.
substitute_tree_unchanged :
    (lookup : Token → Option Text) (depth : ℕ) (node : Node)
    → (substitute_tree lookup depth node).1 ≡ false
    → (substitute_tree lookup depth node).0 ≡ node
substitute_tree_unchanged lookup depth node same = (tree-Agrees lookup depth node).1 same
