-- ===== src/Text.antt =====
-- Go strings as lists of code points, and the functions of package strings that the services call:
-- ToUpper, TrimSpace, HasPrefix, Contains and the comparison of strings.
pub mod Laws
pub mod Atoi
pub mod Query
pub mod Like
use Prim.Native.Char.{code}
use Prim.Native.String
use line_stock_alert.Common.{
  ℕ, ◌+◌, ◌-◌, String, Bool, true, false, ◌&&◌, ◌||◌, not, List, [], ◌∷◌, ◌++◌, map, ltb, leb, ◌==◌,
  if◌then◌else◌, ◌≡◌, refl,
}
use mathlib.Core.List.{reverse}

abbrev pub Text : Type 0
Text = List ℕ

-- The code points of a literal.
abbrev pub text : String → Text
text String.[] = []
text (String.◌∷◌ c s) = code c ∷ text s

unfoldable pub text_eq : Text → Text → Bool
text_eq [] [] = true
text_eq (c ∷ s) (d ∷ t) = (c == d) && text_eq s t
text_eq _ _ = false

abbrev pub is_empty : Text → Bool
is_empty [] = true
is_empty (_ ∷ _) = false

-- What package unicode says of the code points from 128 on. Below 128 the tables are written out.
pub record Unicode : Type 0 where
  pub upper_rune : ℕ → ℕ
  pub lower_rune : ℕ → ℕ
  pub is_space_rune : ℕ → Bool

-- The tables with nothing beyond ASCII.
abbrev pub ascii : Unicode
ascii = record { upper_rune = λ c. c; lower_rune = λ c. c; is_space_rune = λ c. false }

module _ (u : Unicode) where
  upper : ℕ → ℕ
  upper c = if ltb c 128 then (if leb b'a' c && leb c b'z' then c - 32 else c) else u.upper_rune c

  lower : ℕ → ℕ
  lower c = if ltb c 128 then (if leb b'A' c && leb c b'Z' then c + 32 else c) else u.lower_rune c

  -- Tab, line feed, vertical tab, form feed, carriage return and space.
  is_space : ℕ → Bool
  is_space c = if ltb c 128 then (leb 9 c && leb c 13) || (c == 32) else u.is_space_rune c

  trim_left : Text → Text
  trim_left [] = []
  trim_left (c ∷ s) = if is_space c then trim_left s else c ∷ s

  unfoldable pub to_upper : Text → Text
  unfolding upper
  to_upper s = map upper s

  unfoldable pub to_lower : Text → Text
  unfolding lower
  to_lower s = map lower s

  unfoldable pub trim_space : Text → Text
  unfolding is_space trim_left
  trim_space s = reverse (trim_left (reverse (trim_left s)))

  -- What strings.Fields has still to split off, after the runes `word` of a word, last first.
  fields_from : Text → Text → List Text
  unfolding is_space
  fields_from word [] = if is_empty word then [] else reverse word ∷ []
  fields_from word (c ∷ s) = elim (is_space c) [
    | false ↦ fields_from (c ∷ word) s
    | true ↦ if is_empty word then fields_from [] s else reverse word ∷ fields_from [] s
  ]

  -- strings.Fields
  unfoldable pub fields : Text → List Text
  unfolding fields_from
  fields s = fields_from [] s

-- strings.Split by one rune, after the runes `part` of a part, last first.
unfoldable pub split_from : ℕ → Text → Text → List Text
split_from d part [] = reverse part ∷ []
split_from d part (c ∷ s) = elim (c == d) [
  | false ↦ split_from d (c ∷ part) s
  | true ↦ reverse part ∷ split_from d [] s
]

abbrev rune_length : ℕ → ℕ
rune_length c = if ltb c 128 then 1 else if ltb c 2048 then 2 else if ltb c 65536 then 3 else 4

-- len(s): the bytes of the UTF-8 encoding.
unfoldable pub byte_length : Text → ℕ
byte_length [] = 0
byte_length (c ∷ s) = rune_length c + byte_length s

unfoldable pub has_prefix : Text → Text → Bool
has_prefix s [] = true
has_prefix [] (p ∷ ps) = false
has_prefix (c ∷ s) (p ∷ ps) = (c == p) && has_prefix s ps

unfoldable pub contains : Text → Text → Bool
unfolding has_prefix
contains [] p = is_empty p
contains (c ∷ s) p = has_prefix (c ∷ s) p || contains s p

-- `s < t`
unfoldable pub text_lt : Text → Text → Bool
text_lt s [] = false
text_lt [] (d ∷ t) = true
text_lt (c ∷ s) (d ∷ t) = ltb c d || ((c == d) && text_lt s t)

shout : to_upper ascii (trim_space ascii (text "  aapl ")) ≡ text "AAPL"
unfolding to_upper trim_space
shout = refl
