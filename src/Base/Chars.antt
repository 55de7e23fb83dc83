-- ===== src/Base/Chars.antt =====
-- Texts that the program walks: lists of code points.
use Prim.Native.Char.{code}
use Prim.Native.Nat.{ℕ}
use Prim.Native.String.{String}
use mathlib.Core.List.{List, [], ◌∷◌, reverse}
use mathlib.Core.Bool.{Bool, ◌&&◌, ◌||◌}
use native.Mathlib.Decide.{ℕ_discrete}
use hermes_drop.Base.Equality.{Eq, nat_eq, ◌==◌, if◌then◌else◌}
use hermes_drop.Base.Lists.{leb}

abbrev pub Text : Type 0
Text = List ℕ

abbrev pub codes : String → Text
codes String.[] = []
codes (String.◌∷◌ c s) = code c ∷ codes s

Text-discrete : Discrete Text
Text-discrete = hlevel ℕ_discrete

instance unfoldable pub text_eq : Eq Text
unfolding Text-discrete ℕ_discrete
text_eq = record { dec = Text-discrete }

-- `str.isspace` of one character.
unfoldable pub is_space : ℕ → Bool
is_space c =
    (leb 0x09 c && leb c 0x0d)
    || ((leb 0x1c c && leb c 0x20)
        || (c == 0x85
            || (c == 0xa0
                || (c == 0x1680
                    || ((leb 0x2000 c && leb c 0x200a)
                        || (c == 0x2028
                            || (c == 0x2029 || (c == 0x202f || (c == 0x205f || c == 0x3000)))))))))

-- `str.lstrip` and `str.strip`
unfoldable pub lstrip : Text → Text
lstrip [] = []
lstrip (c ∷ cs) = let rest = lstrip cs in if is_space c then rest else c ∷ cs

unfoldable pub strip : Text → Text
unfolding lstrip
strip s = reverse (lstrip (reverse (lstrip s)))
