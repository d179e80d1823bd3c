-- ===== src/Symbols.antt =====
-- backend/internal/services/stock_validation.go: the pattern of stock symbols and the errors of the
-- stock provider.
use line_stock_alert.Common.{ℕ, Bool, true, false, ◌&&◌, ◌||◌, [], ◌∷◌, leb, ◌==◌, length}
use line_stock_alert.Text.{Text, Unicode, to_upper, trim_space}
use line_stock_alert.Errors.{Error, new_error, Code}
use line_stock_alert.Models.{ProviderError}

abbrev is_upper : ℕ → Bool
is_upper c = leb b'A' c && leb c b'Z'

-- [A-Z0-9.-]
abbrev is_symbol_rune : ℕ → Bool
is_symbol_rune c = is_upper c || (leb b'0' c && leb c b'9') || (c == b'.') || (c == b'-')

unfoldable pub all_symbol_runes : Text → Bool
all_symbol_runes [] = true
all_symbol_runes (c ∷ s) = is_symbol_rune c && all_symbol_runes s

-- `^[A-Z][A-Z0-9.-]{0,19}$`
unfoldable pub matches_symbol : Text → Bool
unfolding all_symbol_runes
matches_symbol [] = false
matches_symbol (c ∷ s) = is_upper c && all_symbol_runes s && leb (length s) 19

-- strings.ToUpper(strings.TrimSpace(raw))
abbrev pub normalize : Unicode → Text → Text
normalize u raw = to_upper u (trim_space u raw)

unfoldable pub map_stock_provider_error : ProviderError → Error
map_stock_provider_error ProviderError.stock_not_found =
    new_error Code.stock_not_found "The US stock symbol was not found."
map_stock_provider_error ProviderError.rate_limit =
    new_error Code.stock_provider_rate_limit
      "The stock data provider rate limit was reached. Please try again shortly."
map_stock_provider_error ProviderError.deadline_exceeded =
    new_error Code.stock_provider_timeout "The stock data provider timed out."
map_stock_provider_error ProviderError.other =
    new_error Code.stock_provider_unavailable "Stock data is temporarily unavailable."
