-- ===== src/Stocks/Candles/Tests.antt =====
-- Histories on a small cache.
use line_stock_alert.Common.{◌≡◌, refl, some, none, false, [], ◌∷◌}
use line_stock_alert.Common.Int.{pos}
use line_stock_alert.Text.{text, ascii, text_eq, to_upper, trim_space}
use line_stock_alert.Symbols.{matches_symbol}
use line_stock_alert.Errors.{Code, new_error}
use line_stock_alert.World.{
  World, ok, err, ◌>>=◌, StockCandleSeries, cache_get_candles, cache_set_candles, candle_entry,
}
use line_stock_alert.Examples.{world, quoting}
use line_stock_alert.Stocks.Candles.{
  CandleProvider, CandleError, known_range, cached_series, candles,
}
use line_stock_alert.Stocks.Candles.Served.{IsHistory, calm, marked, candles_served, candles_cached}

abbrev pub week : StockCandleSeries
week = record {
  symbol = text "AAPL";
  range = text "1W";
  interval = text "30min";
  currency = text "USD";
  timezone = text "UTC";
  candles =
      record {
        timestamp = 40;
        open_price = pos 1;
        high = pos 3;
        low = pos 1;
        close_price = pos 2;
        volume = pos 9;
      }
      ∷ [];
  cached = false;
}

abbrev source : CandleProvider
source = record { candles = λ symbol interval size. ok (record week { range = [] }) }

abbrev silent : CandleProvider
silent = record { candles = λ symbol interval size. err CandleError.candle_other }

abbrev filled : World
filled = record (calm world) { candles = (text "AAPL:1W", week) ∷ [] }

candles_served_example :
    IsHistory ascii (quoting 7) (some source) (text "aapl") (text " 1w") (calm world) filled week
unfolding candles cached_series cache_get_candles cache_set_candles candle_entry ◌>>=◌ known_range
    matches_symbol to_upper trim_space text_eq
candles_served_example =
    candles_served ascii (quoting 7) (some source) (text "aapl") (text " 1w") world

candles_cached_example :
    candles ascii (quoting 8) (some silent) (text "aapl") (text " 1w") filled
    ≡ (ok (marked week), filled)
unfolding candles cached_series cache_get_candles cache_set_candles candle_entry ◌>>=◌ known_range
    matches_symbol to_upper trim_space text_eq
candles_cached_example =
    candles_cached ascii (quoting 7) (some source) (text "aapl") (text " 1w") world filled
      (quoting 8) silent week refl refl

unknown_range : candles ascii (quoting 7) none (text "AAPL") (text "2D") world ≡ (
  err (new_error Code.invalid_candle_range "Range must be one of 1D, 1W, 1M, 3M, 1Y, or MAX."),
  world,
)
unfolding candles ◌>>=◌ known_range matches_symbol to_upper trim_space text_eq
unknown_range = refl
