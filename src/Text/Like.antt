-- ===== src/Text/Like.antt =====
-- The operator ILIKE of PostgreSQL.
use line_stock_alert.Common.{ℕ, Bool, true, false, ◌||◌, ◌&&◌, [], ◌∷◌, ◌++◌, ◌==◌, ◌≡◌, refl}
use line_stock_alert.Text.{Text, Unicode, text, ascii, is_empty, to_lower}

abbrev on_head : (ℕ → Bool) → (Text → Bool) → Text → Bool
on_head test rest [] = false
on_head test rest (c ∷ s) = test c && rest s

abbrev on_any_suffix : (Text → Bool) → Text → Bool
on_any_suffix rest [] = rest []
on_any_suffix rest (c ∷ s) = rest (c ∷ s) || on_any_suffix rest s

-- What is left of a pattern; the flag tells that a backslash stands before it. `%` is any text and `_`
-- any rune.
unfoldable pub like : Bool → Text → Text → Bool
like escaped [] s = is_empty s
like true (p ∷ ps) s = on_head (λ c. c == p) (like false ps) s
like false (p ∷ ps) s = elim (p == b'\\') [
  | true ↦ like true ps s
  | false ↦ elim (p == b'%') [
    | true ↦ on_any_suffix (like false ps) s
    | false ↦ on_head (λ c. (p == b'_') || (c == p)) (like false ps) s
  ]
]

-- `s ILIKE '%' || search || '%'`
unfoldable pub contains_like : Unicode → Text → Text → Bool
unfolding like
contains_like u search s = like false (b'%' ∷ (to_lower u search ++ (b'%' ∷ []))) (to_lower u s)

wildcard : contains_like ascii (text "A_l") (text "MAXPAYLOAD") ≡ true
unfolding contains_like to_lower
wildcard = refl

literal : contains_like ascii (text "5\\%") (text "50%") ≡ false
unfolding contains_like to_lower
literal = refl
