-- ===== src/Stocks/Detail.antt =====
-- StockService.Quote and MarketStatus of backend/internal/services/stock_service.go: the quote of one symbol
-- with the status of the market.
pub mod Status
use line_stock_alert.Common.{ℕ, Bool, not, Option, none, some}
use mathlib.Core.Option.{map}
use line_stock_alert.Common.Int.{ℤ}
use line_stock_alert.Text.{Text, Unicode, text}
use line_stock_alert.Errors.{Error, Code, new_error}
use line_stock_alert.World.{
  M, pure, raise_if, lift_result, map_err, read_clock, ◌>>=◌, ◌>>◌, StockQuote, MarketEvent,
}
use line_stock_alert.Models.{StockProvider}
use line_stock_alert.Symbols.{matches_symbol, normalize, map_stock_provider_error}
use line_stock_alert.MarketHours.Session.{Zone, us_regular_market_status}
use line_stock_alert.Stocks.{cached_quote}

pub record MarketSession : Type 0 where
  pub status : MarketEvent
  pub until : ℕ
  pub market : Text

pub record StockQuoteDetail : Type 0 where
  pub symbol : Text
  pub name : Text
  pub price : ℤ
  pub market_status : MarketEvent
  pub market_status_until : ℕ
  pub updated_at : ℕ
  pub cached : Bool

abbrev us_session : MarketEvent × ℕ → MarketSession
us_session (status, until) = record { status = status; until = until; market = text "US" }

-- Nothing where the loop to the next trading day runs out of rounds, as in quote_detail.
unfoldable pub market_status : Option Zone → ℕ → Option MarketSession
market_status zone now = map us_session (us_regular_market_status zone now)

abbrev pub detail_of : Text → StockQuote → MarketEvent × ℕ → StockQuoteDetail
detail_of name q (status, until) = record {
  symbol = q.symbol;
  name = name;
  price = q.price;
  market_status = status;
  market_status_until = until;
  updated_at = q.updated_at;
  cached = q.cached;
}

unfoldable pub quote_detail : Option Zone → ℕ → Text → StockQuote → Option StockQuoteDetail
quote_detail zone now name q = map (detail_of name q) (us_regular_market_status zone now)

unfoldable pub stock_quote :
    Unicode → StockProvider → Option Zone → Text → M Error (Option StockQuoteDetail)
stock_quote u provider zone raw_symbol = do
  let symbol = normalize u raw_symbol
  raise_if (not (matches_symbol symbol))
      (new_error Code.stock_not_found "The US stock symbol was not found.")
  stock ← map_err map_stock_provider_error (lift_result (provider.validate_us_stock symbol))
  quote ← map_err map_stock_provider_error (cached_quote provider stock.symbol)
  now ← read_clock
  pure (quote_detail zone now stock.name quote)
