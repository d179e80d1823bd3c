-- ===== src/Finnhub.antt =====
-- backend/internal/services/finnhub_client.go: the stock provider, as a client of the API of Finnhub.
pub mod Answers
mod Tests
use line_stock_alert.Common.{
  ℕ, Bool, true, false, not, ◌&&◌, ◌||◌, List, [], ◌∷◌, ◌++◌, map, any, if◌then◌else◌, ltb, ◌==◌,
}
use line_stock_alert.Common.Int.{ℤ, pos, pos_part, leb_ℤ}
use line_stock_alert.Text.{Text, Unicode, text, text_eq, is_empty, to_upper}
use line_stock_alert.Text.Query.{query_escape, values_encode}
use line_stock_alert.World.{Result, ok, err, StockQuote}
use line_stock_alert.Models.{StockMetadata, StockProvider, ProviderError}
use line_stock_alert.Symbols.{matches_symbol, normalize}
use line_stock_alert.LineWebhook.{ascii_upper, trim_slashes}

-- An entry of the list of symbols, and one of the results of a search.
pub record SymbolEntry : Type 0 where
  pub currency : Text
  pub description : Text
  pub display_symbol : Text
  pub mic : Text
  pub symbol : Text

pub record SearchEntry : Type 0 where
  pub description : Text
  pub display_symbol : Text
  pub symbol : Text

-- The current price and the time of a quote.
pub record RawQuote : Type 0 where
  pub current : ℤ
  pub timestamp : ℤ

-- http.Client.Do on an address, with the status and the body of the answer; its errors are a deadline or
-- others. And encoding/json on a body.
pub record FinnhubHttp : Type 0 where
  pub send : Text → Result ProviderError (ℕ × Text)
  pub decode_symbols : Text → Result ProviderError (List SymbolEntry)
  pub decode_results : Text → Result ProviderError (List SearchEntry)
  pub decode_quote : Text → Result ProviderError RawQuote

module _ {A : Type 0} (decode : Text → Result ProviderError A) where
  abbrev pub fetched : Result ProviderError (ℕ × Text) → Result ProviderError A
  fetched (err e) = err e
  fetched (ok (status, body)) =
      if status == 429
      then err ProviderError.rate_limit
      else if ltb status 200 || not (ltb status 300)
      then err ProviderError.other
      else decode body

-- The symbol that an entry is listed by.
abbrev pub listed_symbol : Unicode → SymbolEntry → Text
listed_symbol u e =
    if is_empty (normalize u e.display_symbol)
    then normalize u e.symbol
    else normalize u e.display_symbol

abbrev pub listed_stock : Unicode → SymbolEntry → StockMetadata
listed_stock u e = record {
  symbol = listed_symbol u e;
  name = e.description;
  exchange = e.mic;
  currency = to_upper u e.currency;
}

-- The stocks of the list, each symbol once; `seen` are the symbols so far.
unfoldable pub listed_stocks : Unicode → List Text → List SymbolEntry → List StockMetadata
listed_stocks u seen [] = []
listed_stocks u seen (e ∷ es) =
    elim (matches_symbol (listed_symbol u e) && not (any (text_eq (listed_symbol u e)) seen)) [
      | true ↦ listed_stock u e ∷ listed_stocks u (listed_symbol u e ∷ seen) es
      | false ↦ listed_stocks u seen es
    ]

-- The Kelvin sign and the long s fold to letters of ASCII.
abbrev fold_rune : ℕ → ℕ
fold_rune c = if c == 8490 then b'K' else if c == 383 then b'S' else ascii_upper c

-- strings.EqualFold, on a symbol of ASCII, as all callers have.
unfoldable pub equal_fold : Text → Text → Bool
equal_fold s symbol = text_eq (map fold_rune s) (map fold_rune symbol)

abbrev pub names_symbol : Text → SearchEntry → Bool
names_symbol symbol e = equal_fold e.symbol symbol || equal_fold e.display_symbol symbol

abbrev pub found_stock : Unicode → SearchEntry → StockMetadata
found_stock u e = record {
  symbol = to_upper u e.symbol;
  name = e.description;
  exchange = text "US";
  currency = text "USD";
}

unfoldable pub find_stock : Unicode → Text → List SearchEntry → Result ProviderError StockMetadata
find_stock u symbol [] = err ProviderError.stock_not_found
find_stock u symbol (e ∷ es) =
    if names_symbol symbol e then ok (found_stock u e) else find_stock u symbol es

abbrev pub checked_quote : Text → RawQuote → Result ProviderError StockQuote
checked_quote symbol raw =
    if leb_ℤ raw.current (pos 0) || leb_ℤ raw.timestamp (pos 0)
    then err ProviderError.stock_not_found
    else ok (record {
      symbol = symbol;
      price = raw.current;
      updated_at = pos_part raw.timestamp;
      cached = false;
    })

module _ {A B : Type 0} (f : A → Result ProviderError B) where
  -- `if err != nil { return …, err }`
  abbrev pub and_then : Result ProviderError A → Result ProviderError B
  and_then (err e) = err e
  and_then (ok a) = f a

module _ (u : Unicode) (http : FinnhubHttp) (base_url : Text) where
  -- NewFinnhubClient cuts the slashes off the address.
  unfoldable pub get :
      {A : Type 0} → (Text → Result ProviderError A) → Text → Result ProviderError A
  get decode path = fetched decode (http.send (trim_slashes base_url ++ path))

  unfoldable pub search_us_stocks : Result ProviderError (List StockMetadata)
  unfolding get
  search_us_stocks =
      and_then (λ es. ok (listed_stocks u [] es))
        (get http.decode_symbols (text "/stock/symbol?exchange=US"))

  unfoldable pub validate_us_stock : Text → Result ProviderError StockMetadata
  unfolding get
  validate_us_stock symbol = and_then (find_stock u symbol) (
      get http.decode_results
        (text "/search?" ++ values_encode ((text "q", symbol) ∷ (text "exchange", text "US") ∷ [])))

  unfoldable pub quote : Text → Result ProviderError StockQuote
  unfolding get
  quote symbol =
      and_then (checked_quote symbol)
        (get http.decode_quote (text "/quote?symbol=" ++ query_escape symbol))

  -- The client as the provider of the services.
  abbrev pub finnhub : StockProvider
  finnhub = record {
    search_us_stocks = search_us_stocks;
    validate_us_stock = validate_us_stock;
    quote = quote;
  }
