-- ===== src/Finnhub/Tests.antt =====
-- The client of Finnhub on small answers.
use line_stock_alert.Common.{◌≡◌, refl, ◌<◌, false, [], ◌∷◌, arith}
use line_stock_alert.Common.Int.{pos, leb_ℤ}
use line_stock_alert.Text.{Text, text, ascii, text_eq, to_upper, trim_space}
use line_stock_alert.Sort.{sort_by}
use line_stock_alert.Symbols.{matches_symbol}
use line_stock_alert.World.{ok}
use line_stock_alert.Stocks.{Catalog, stock_catalog}
use line_stock_alert.Stocks.Quotes.{IsUnique}
use line_stock_alert.Finnhub.{
  SymbolEntry, FinnhubHttp, listed_stocks, find_stock, equal_fold, search_us_stocks,
  validate_us_stock, quote,
}
use line_stock_alert.Finnhub.Answers.{symbols_of, catalog-IsUnique, quote_positive}

abbrev entry : Text → SymbolEntry
entry symbol = record {
  currency = text "usd";
  description = text "Apple";
  display_symbol = symbol;
  mic = text "XNAS";
  symbol = symbol;
}

abbrev http : FinnhubHttp
http = record {
  send = λ address. ok (200, text "{}");
  decode_symbols = λ body. ok (entry (text "aapl") ∷ entry (text "AAPL") ∷ entry (text "1") ∷ []);
  decode_results = λ body. ok (
      record { description = text "Kellanova"; display_symbol = text "K"; symbol = 8490 ∷ [] }
      ∷ []);
  decode_quote = λ body. ok (record { current = pos 7; timestamp = pos 40 });
}

abbrev base : Text
base = text "https://finnhub.io/"

abbrev after : Catalog
after = record {
  stocks =
      record {
        symbol = text "AAPL";
        name = text "Apple";
        exchange = text "XNAS";
        currency = text "USD";
      }
      ∷ [];
  expires = 3650;
}

none_held : IsUnique []
none_held = record { once = λ t. omega arith; valid = refl }

catalog-IsUnique_example : IsUnique (symbols_of after.stocks)
unfolding stock_catalog search_us_stocks listed_stocks sort_by matches_symbol to_upper trim_space
    text_eq
catalog-IsUnique_example =
    catalog-IsUnique ascii http base 50 (record { stocks = []; expires = 0 }) after none_held refl

priced : (text "AAPL" ≡ text "AAPL") × (leb_ℤ (pos 7) (pos 0) ≡ false) × (0 < 40)
unfolding quote
priced =
    quote_positive ascii http base (text "AAPL")
      (record { symbol = text "AAPL"; price = pos 7; updated_at = 40; cached = false }) refl

-- The Kelvin sign is a K.
kelvin :
    validate_us_stock ascii http base (text "K")
    ≡ ok (record {
      symbol = 8490 ∷ [];
      name = text "Kellanova";
      exchange = text "US";
      currency = text "USD";
    })
unfolding validate_us_stock find_stock equal_fold to_upper text_eq
kelvin = refl
