-- ===== src/Stocks/Tests.antt =====
-- StockService of backend/internal/services/stock_service.go on concrete catalogs.
use line_stock_alert.Common.{ℕ, ◌≤◌, ◌≡◌, refl, List, [], ◌∷◌, arith, length}
use line_stock_alert.Text.{Text, text, ascii, text_eq, to_upper, trim_space, split_from}
use line_stock_alert.Symbols.{matches_symbol}
use line_stock_alert.Examples.{apple_metadata}
use line_stock_alert.Stocks.{Catalog, StockPage, page_of, parse_symbols, unique_symbols}
use line_stock_alert.Stocks.Pages.{pages, pages_cover}
use line_stock_alert.Stocks.Quotes.{parsed_symbols_unique}

abbrev five : List ℕ
five = 1 ∷ 2 ∷ 3 ∷ 4 ∷ 5 ∷ []

pages_cover_example : (pages 3 2 five ≡ five) × (page_of five 4 2 ≡ [])
pages_cover_example = pages_cover 2 five 0 (omega arith)

abbrev expired : Catalog
expired = record { stocks = []; expires = 0 }

abbrev loaded : Catalog
loaded = record { stocks = apple_metadata ∷ []; expires = 3650 }

abbrev one_page : StockPage
one_page = record { stocks = apple_metadata ∷ []; page = 1; limit = 20; total = 1 }

abbrev two : List Text
two = text "AAPL" ∷ text "MSFT" ∷ []

parsed_symbols_unique_example : length two ≤ 50
unfolding parse_symbols unique_symbols split_from matches_symbol to_upper trim_space text_eq
parsed_symbols_unique_example = (parsed_symbols_unique ascii (text "aapl, msft,AAPL") two refl).2
