-- ===== src/TwelveData/Tests.antt =====
-- The client of Twelve Data on a small answer.
use line_stock_alert.Common.{◌≡◌, refl, some, false, [], ◌∷◌}
use line_stock_alert.Common.Int.{pos}
use line_stock_alert.Text.{text, text_eq}
use line_stock_alert.Text.Atoi.{atoi}
use line_stock_alert.World.{ok, err, StockCandleSeries}
use line_stock_alert.Stocks.Candles.{CandleError}
use line_stock_alert.TwelveData.{
  TwelveDataHttp, TwelveDataResponse, candle, all_candles, time_series, twelve_candles,
}
use line_stock_alert.TwelveData.Answers.{IsAnswered, candles-IsAnswered}

abbrev payload : TwelveDataResponse
payload = record {
  currency = text "USD";
  values =
      record {
        datetime = text "2026-07-06";
        open_price = text "1";
        high = text "3";
        low = text "1";
        close_price = text "2";
        volume = text "9";
      }
      ∷ [];
  status = text "ok";
  code = pos 0;
}

abbrev http : TwelveDataHttp
http = record {
  send = λ address query. ok (200, text "{}");
  decode = λ body. ok payload;
  parse_time = λ layout value. some 40;
  parse_float = atoi;
}

abbrev series : StockCandleSeries
series = record {
  symbol = text "AAPL";
  range = [];
  interval = text "1day";
  currency = text "USD";
  timezone = text "UTC";
  candles =
      record {
        timestamp = 40;
        open_price = pos 1;
        high = pos 3;
        low = pos 1;
        close_price = pos 2;
        volume = pos 9;
      }
      ∷ [];
  cached = false;
}

candles-IsAnswered_example :
    IsAnswered http
      (text "AAPL")
      (text "1day")
      (time_series http (text "https://api/") (text "k") (text "AAPL") (text "1day") 31)
      series
unfolding twelve_candles all_candles candle atoi text_eq
candles-IsAnswered_example =
    candles-IsAnswered http (text "https://api/") (text "k") (text "AAPL") (text "1day") 31 series
      refl

abbrev limited : TwelveDataHttp
limited = record http {
  decode = λ body. ok (record payload { status = text "error"; code = pos 429 });
}

rate_limited :
    twelve_candles limited (text "https://api") (text "k") (text "AAPL") (text "1day") 31
    ≡ err CandleError.candle_rate_limit
unfolding twelve_candles text_eq
rate_limited = refl
