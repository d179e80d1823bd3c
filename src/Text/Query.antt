-- ===== src/Text/Query.antt =====
-- Package net/url as the services call it: QueryEscape and Values.Encode.
use line_stock_alert.Common.{
  ℕ, ◌+◌, ◌-◌, ◌/◌, ◌%◌, Bool, not, ◌&&◌, ◌||◌, List, [], ◌∷◌, ◌++◌, leb, ltb, ◌==◌, if◌then◌else◌,
}
use line_stock_alert.Text.{Text, text_lt}
use line_stock_alert.Sort.{sort_by}

-- The bytes of a rune in UTF-8.
abbrev utf8_rune : ℕ → List ℕ
utf8_rune c =
    if ltb c 128
    then c ∷ []
    else if ltb c 2048
    then (192 + c / 64) ∷ (128 + c % 64) ∷ []
    else if ltb c 65536
    then (224 + c / 4096) ∷ (128 + c / 64 % 64) ∷ (128 + c % 64) ∷ []
    else (240 + c / 262144) ∷ (128 + c / 4096 % 64) ∷ (128 + c / 64 % 64) ∷ (128 + c % 64) ∷ []

-- Letters, digits and `-_.~`.
abbrev is_unreserved : ℕ → Bool
is_unreserved c =
    (leb b'a' c && leb c b'z')
    || (leb b'A' c && leb c b'Z')
    || (leb b'0' c && leb c b'9')
    || (c == b'-')
    || (c == b'_')
    || (c == b'.')
    || (c == b'~')

abbrev hex_digit : ℕ → ℕ
hex_digit d = if ltb d 10 then b'0' + d else b'A' + (d - 10)

abbrev escape_bytes : List ℕ → Text
escape_bytes [] = []
escape_bytes (c ∷ s) =
    (if is_unreserved c
      then c ∷ []
      else if c == b' '
      then b'+' ∷ []
      else b'%' ∷ hex_digit (c / 16) ∷ hex_digit (c % 16) ∷ [])
    ++ escape_bytes s

unfoldable pub query_escape : Text → Text
query_escape [] = []
query_escape (c ∷ s) = escape_bytes (utf8_rune c) ++ query_escape s

unfoldable encode_pairs : List (Text × Text) → Text
unfolding query_escape
encode_pairs [] = []
encode_pairs ((k, v) ∷ []) = query_escape k ++ (b'=' ∷ query_escape v)
encode_pairs ((k, v) ∷ p ∷ ps) =
    query_escape k ++ (b'=' ∷ (query_escape v ++ (b'&' ∷ encode_pairs (p ∷ ps))))

-- url.Values with one value for each key, by key.
unfoldable pub values_encode : List (Text × Text) → Text
unfolding encode_pairs sort_by
values_encode ps = encode_pairs (sort_by (λ p q. not (text_lt q.0 p.0)) ps)
