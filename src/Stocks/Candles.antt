-- ===== src/Stocks/Candles.antt =====
-- StockService.Candles of backend/internal/services/stock_service.go: price histories, with their cache.
pub mod Served
mod Tests
use line_stock_alert.Common.{
  ℕ, Bool, true, false, not, Option, none, some, List, [], ◌∷◌, ◌++◌, if◌then◌else◌, find?,
}
use line_stock_alert.Text.{Text, Unicode, text, text_eq, is_empty}
use line_stock_alert.Errors.{Error, Code, new_error}
use line_stock_alert.World.{
  M, Result, ok, err, pure, raise, raise_if, attempt, lift_result, map_err, ◌>>=◌, ◌>>◌,
  StockCandleSeries, cache_get_candles, cache_set_candles,
}
use line_stock_alert.Models.{StockProvider, StockMetadata}
use line_stock_alert.Symbols.{matches_symbol, normalize, map_stock_provider_error}

-- ErrCandleNotFound, ErrCandleProviderRateLimit, context.DeadlineExceeded and every other error.
pub data CandleError : Type 0 where
  candle_not_found candle_rate_limit candle_deadline_exceeded candle_other : CandleError

-- By symbol, interval and output size: the answers are the environment's.
pub record CandleProvider : Type 0 where
  pub candles : Text → Text → ℕ → Result CandleError StockCandleSeries

pub record CandleRange : Type 0 where
  pub name : Text
  pub interval : Text
  pub output_size : ℕ

abbrev range_of : Text → Text → ℕ → CandleRange
range_of name interval output_size = record {
  name = name;
  interval = interval;
  output_size = output_size;
}

abbrev pub candle_ranges : List CandleRange
candle_ranges =
    range_of (text "1D") (text "5min") 78
    ∷ range_of (text "1W") (text "30min") 70
    ∷ range_of (text "1M") (text "1day") 31
    ∷ range_of (text "3M") (text "1day") 93
    ∷ range_of (text "1Y") (text "1week") 53
    ∷ range_of (text "MAX") (text "1month") 240
    ∷ []

unfoldable pub map_candle_provider_error : CandleError → Error
map_candle_provider_error candle_not_found =
    new_error Code.candle_data_not_found "No historical prices were found for this stock and range."
map_candle_provider_error candle_rate_limit =
    new_error Code.candle_provider_rate_limit
      "Historical price provider rate limit reached. Try again shortly."
map_candle_provider_error candle_deadline_exceeded =
    new_error Code.candle_provider_timeout "Historical price provider timed out."
map_candle_provider_error candle_other =
    new_error Code.candle_provider_unavailable "Historical prices are temporarily unavailable."

-- The range of a name in capitals.
unfoldable pub known_range : Text → Option CandleRange
known_range name = find? (λ (r : CandleRange). text_eq r.name name) candle_ranges

abbrev pub or_one_day : Text → Text
or_one_day name = if is_empty name then text "1D" else name

abbrev pub range_or_error : Option CandleRange → Result Error CandleRange
range_or_error none =
    err (new_error Code.invalid_candle_range "Range must be one of 1D, 1W, 1M, 3M, 1Y, or MAX.")
range_or_error (some r) = ok r

-- The provider and the cache, once ConfigureCandles has set them.
abbrev pub configured : Option CandleProvider → Result Error CandleProvider
configured none =
    err
      (new_error Code.candle_provider_unavailable "Historical prices are temporarily unavailable.")
configured (some p) = ok p

abbrev pub cached : Result CandleError (Option StockCandleSeries) → Option StockCandleSeries
cached (ok o) = o
cached (err _) = none

abbrev pub cache_key : Text → CandleRange → Text
cache_key symbol range = symbol ++ (b':' ∷ range.name)

abbrev pub named : CandleRange → StockCandleSeries → StockCandleSeries
named range s = record s { range = range.name }

module _ (source : CandleProvider) (symbol : Text) (range : CandleRange) where
  abbrev pub load : Option StockCandleSeries → M CandleError StockCandleSeries
  load (some s) = pure s
  load none = do
    s ← lift_result (source.candles symbol range.interval range.output_size)
    attempt {E = CandleError}
        (cache_set_candles CandleError.candle_other (cache_key symbol range) (named range s))
    pure (named range s)

  -- The flight looks into the cache again.
  abbrev pub fly : Option StockCandleSeries → M CandleError StockCandleSeries
  fly (some s) = pure s
  fly none =
      attempt (cache_get_candles CandleError.candle_other (cache_key symbol range)) >>= λ hit.
      load (cached hit)

  unfoldable pub cached_series : M CandleError StockCandleSeries
  cached_series =
      attempt (cache_get_candles CandleError.candle_other (cache_key symbol range)) >>= λ hit.
      fly (cached hit)

unfoldable pub candles :
    Unicode → StockProvider → Option CandleProvider → Text → Text → M Error StockCandleSeries
candles u provider candle_provider raw_symbol raw_range = do
  let symbol = normalize u raw_symbol
  raise_if (not (matches_symbol symbol))
      (new_error Code.stock_not_found "The US stock symbol was not found.")
  range ← lift_result (range_or_error (known_range (or_one_day (normalize u raw_range))))
  source ← lift_result (configured candle_provider)
  stock ← map_err map_stock_provider_error (lift_result (provider.validate_us_stock symbol))
  map_err map_candle_provider_error (cached_series source stock.symbol range)
