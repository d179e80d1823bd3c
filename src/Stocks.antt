-- ===== src/Stocks.antt =====
-- backend/internal/services/stock_service.go: the search in the catalog of US stocks, and the quotes of
-- several symbols. The flights of singleflight, which merge concurrent calls, run one by one.
pub mod Pages
pub mod Quotes
pub mod Candles
pub mod Detail
mod Tests
use mathlib.Core.List.{reverse}
use line_stock_alert.Common.{
  ℕ, ◌+◌, ◌-◌, ◌*◌, ◌/◌, Bool, true, false, not, ◌&&◌, ◌||◌, Option, none, some, List, [], ◌∷◌,
  ◌++◌, if◌then◌else◌, filter, any, length, take, drop, leb, ltb, ◌==◌, String,
}
use line_stock_alert.Common.Int.{ℤ, pos, negsuc}
use line_stock_alert.Text.{
  Text, Unicode, text, text_eq, is_empty, to_upper, trim_space, has_prefix, contains, text_lt,
  fields, split_from,
}
use line_stock_alert.Text.Atoi.{atoi}
use line_stock_alert.Sort.{sort_by}
use line_stock_alert.Errors.{Error, Code, new_error}
use line_stock_alert.World.{
  M, Result, ok, err, pure, raise, attempt, cache_get, cache_set, lift_result, ◌>>=◌, ◌>>◌,
  StockQuote, read_clock, map_err,
}
use line_stock_alert.Models.{StockMetadata, StockProvider, ProviderError}
use line_stock_alert.Symbols.{matches_symbol, normalize, map_stock_provider_error}

abbrev positive : ℕ → Option ℤ → Result (Unit {0}) ℕ
positive maximum none = err tt
positive maximum (some (negsuc n)) = err tt
positive maximum (some (pos n)) =
    if (n == 0) || (ltb 0 maximum && ltb maximum n) then err tt else ok n

-- A maximum of 0 is none.
unfoldable pub positive_int : Text → ℕ → ℕ → Result (Unit {0}) ℕ
positive_int value fallback maximum =
    if is_empty value then ok fallback else positive maximum (atoi value)

-- The catalog that the service keeps, and when it expires.
pub record Catalog : Type 0 where
  pub stocks : List StockMetadata
  pub expires : ℕ

abbrev pub by_symbol : StockMetadata → StockMetadata → Bool
by_symbol a b = not (text_lt b.symbol a.symbol)

abbrev refreshed : ℕ → Result ProviderError (List StockMetadata) → Result ProviderError Catalog
refreshed now (err e) = err e
refreshed now (ok stocks) = ok (record { stocks = sort_by by_symbol stocks; expires = now + 3600 })

-- The catalog after the call; it stays as it was on an error.
unfoldable pub stock_catalog : StockProvider → ℕ → Catalog → Result ProviderError Catalog
stock_catalog provider now catalog =
    if ltb now catalog.expires then ok catalog else refreshed now provider.search_us_stocks

pub record StockPage : Type 0 where
  pub stocks : List StockMetadata
  pub page : ℕ
  pub limit : ℕ
  pub total : ℕ

abbrev pub page_start : ℕ → ℕ → ℕ → ℕ
page_start total page limit = if leb page (total / limit + 1) then (page - 1) * limit else total

abbrev pub page_end : ℕ → ℕ → ℕ → ℕ
page_end total page limit =
    if ltb total (page_start total page limit + limit)
    then total
    else page_start total page limit + limit

-- `filtered[start:end]`
abbrev pub page_of : {A : Type 0} → List A → ℕ → ℕ → List A
page_of xs page limit =
    let start = page_start (length xs) page limit in
    take (page_end (length xs) page limit - start) (drop start xs)

module _ (u : Unicode) where
  abbrev pub matches_query : Text → StockMetadata → Bool
  matches_query query stock =
      is_empty query
      || contains (to_upper u stock.symbol) query
      || contains (to_upper u stock.name) query

  unfoldable pub stock_search_rank : Text → StockMetadata → ℕ
  stock_search_rank query stock =
      let symbol = to_upper u stock.symbol in
      let name = to_upper u stock.name in
      if text_eq symbol query
      then 0
      else if has_prefix symbol query
      then 1
      else if contains symbol query
      then 2
      else if has_prefix name query
      then 3
      else if any (λ word. has_prefix word query) (fields u name)
      then 4
      else 5

  abbrev pub by_rank : Text → StockMetadata → StockMetadata → Bool
  by_rank query a b =
      ltb (stock_search_rank query a) (stock_search_rank query b)
      || (stock_search_rank query a == stock_search_rank query b && by_symbol a b)

  -- The stocks that the query finds, in the order of the result.
  unfoldable pub found : Text → List StockMetadata → List StockMetadata
  found query stocks =
      let filtered = filter (matches_query query) stocks in
      if is_empty query then filtered else sort_by (by_rank query) filtered

  abbrev pub paged :
      Text → ℕ → ℕ → Result ProviderError Catalog → Result Error (StockPage × Catalog)
  paged search page limit (err e) = err (map_stock_provider_error e)
  paged search page limit (ok catalog) =
      let stocks = found (normalize u search) catalog.stocks in
      ok (
        record {
          stocks = page_of stocks page limit;
          page = page;
          limit = limit;
          total = length stocks;
        },
        catalog,
      )

  abbrev pub with_limit :
      StockProvider
      → ℕ
      → Catalog
      → Text
      → ℕ
      → Result (Unit {0}) ℕ
      → Result Error (StockPage × Catalog)
  with_limit provider now catalog search page (err _) =
      err (new_error Code.invalid_filter "Limit must be between 1 and 100.")
  with_limit provider now catalog search page (ok limit) =
      paged search page limit (stock_catalog provider now catalog)

  abbrev pub with_page :
      StockProvider
      → ℕ
      → Catalog
      → Text
      → Text
      → Result (Unit {0}) ℕ
      → Result Error (StockPage × Catalog)
  with_page provider now catalog search limit_value (err _) =
      err (new_error Code.invalid_filter "Page must be a positive integer.")
  with_page provider now catalog search limit_value (ok page) =
      with_limit provider now catalog search page (positive_int limit_value 20 100)

  -- The page, and the catalog that the service then keeps.
  unfoldable pub search_stocks :
      StockProvider → ℕ → Catalog → Text → Text → Text → Result Error (StockPage × Catalog)
  search_stocks provider now catalog search page_value limit_value =
      with_page provider now catalog search limit_value (positive_int page_value 1 0)

-- The symbols of a comma-separated list, each once; `seen` are those so far, last first.
unfoldable pub unique_symbols : Unicode → List Text → List Text → Result Error (List Text)
unique_symbols u seen [] = ok (reverse seen)
unique_symbols u seen (part ∷ parts) =
    let symbol = normalize u part in
    elim (not (matches_symbol symbol)) [
      | true ↦
          err (
            new_error Code.invalid_filter "Symbols must be valid comma-separated US stock symbols.")
      | false ↦ unique_symbols u (if any (text_eq symbol) seen then seen else symbol ∷ seen) parts
    ]

abbrev pub bounded_symbols : Text → Result Error (List Text) → Result Error (List Text)
bounded_symbols raw (err e) = err e
bounded_symbols raw (ok symbols) =
    if is_empty raw || ltb 50 (length symbols)
    then err (new_error Code.invalid_filter "Provide between 1 and 50 unique symbols.")
    else ok symbols

unfoldable pub parse_symbols : Unicode → Text → Result Error (List Text)
unfolding unique_symbols
parse_symbols u raw = bounded_symbols raw (unique_symbols u [] (split_from b',' [] raw))

pub record QuoteError : Type 0 where
  pub symbol : Text
  pub error : Error

pub record MultipleQuotesResult : Type 0 where
  pub quotes : List StockQuote
  pub errors : List QuoteError

abbrev pub supported : Catalog → Text → Bool
supported catalog symbol = any (λ (s : StockMetadata). text_eq s.symbol symbol) catalog.stocks

abbrev pub cached : Result ProviderError (Option StockQuote) → Option StockQuote
cached (ok o) = o
cached (err _) = none

module _ (provider : StockProvider) where
  abbrev pub load : Text → Option StockQuote → M ProviderError StockQuote
  load symbol (some q) = pure q
  load symbol none = do
    q ← lift_result (provider.quote symbol)
    attempt {E = ProviderError} (cache_set ProviderError.other q)
    pure q

  -- The flight looks into the cache again.
  abbrev pub fly : Text → Option StockQuote → M ProviderError StockQuote
  fly symbol (some q) = pure q
  fly symbol none =
      attempt (cache_get ProviderError.other symbol) >>= λ hit. load symbol (cached hit)

  unfoldable pub cached_quote : Text → M ProviderError StockQuote
  cached_quote symbol =
      attempt (cache_get ProviderError.other symbol) >>= λ hit. fly symbol (cached hit)

  abbrev pub add_outcome :
      Text → Result ProviderError StockQuote → MultipleQuotesResult → MultipleQuotesResult
  add_outcome symbol (ok q) r = record r { quotes = q ∷ r.quotes }
  add_outcome symbol (err e) r = record r {
    errors = record { symbol = symbol; error = map_stock_provider_error e } ∷ r.errors;
  }

  -- The outcome of one symbol; the goroutines run one after the other.
  abbrev pub one_quote : Catalog → Text → M ⊥ (Result ProviderError StockQuote)
  one_quote catalog symbol = elim (supported catalog symbol) [
    | false ↦ pure (err ProviderError.stock_not_found)
    | true ↦ attempt (cached_quote symbol)
  ]

  unfoldable pub collect : Catalog → List Text → M ⊥ MultipleQuotesResult
  collect catalog [] = pure (record { quotes = []; errors = [] })
  collect catalog (symbol ∷ symbols) = do
    outcome ← one_quote catalog symbol
    rest ← collect catalog symbols
    pure (add_outcome symbol outcome rest)

  abbrev pub in_order : MultipleQuotesResult → MultipleQuotesResult
  in_order r = record {
    quotes = sort_by (λ (a b : StockQuote). not (text_lt b.symbol a.symbol)) r.quotes;
    errors = sort_by (λ (a b : QuoteError). not (text_lt b.symbol a.symbol)) r.errors;
  }

  abbrev never : {A : Type 0} → ⊥ → A
  never e = absurd e

  -- The quotes, and the catalog that the service then keeps.
  unfoldable pub quotes : Unicode → Catalog → Text → M Error (MultipleQuotesResult × Catalog)
  quotes u before raw_symbols = do
    symbols ← lift_result (parse_symbols u raw_symbols)
    now ← read_clock
    catalog ← map_err map_stock_provider_error (lift_result (stock_catalog provider now before))
    result ← map_err never (collect catalog symbols)
    pure (in_order result, catalog)
