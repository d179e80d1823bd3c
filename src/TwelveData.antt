-- ===== src/TwelveData.antt =====
-- backend/internal/services/twelve_data_client.go: the provider of price histories, as a client of the API
-- of Twelve Data.
pub mod Answers
mod Tests
use line_stock_alert.Common.{
  ℕ, Bool, true, false, ◌||◌, Option, none, some, List, [], ◌∷◌, ◌++◌, if◌then◌else◌, ◌==◌,
}
use line_stock_alert.Common.Int.{ℤ, pos, ◌==ℤ◌}
use line_stock_alert.Text.{Text, text, text_eq}
use line_stock_alert.Text.Atoi.{itoa}
use line_stock_alert.World.{Result, ok, err, StockCandle, StockCandleSeries}
use line_stock_alert.Stocks.Candles.{CandleError, CandleProvider}
use line_stock_alert.LineWebhook.{trim_slashes}

pub record TwelveDataValue : Type 0 where
  pub datetime : Text
  pub open_price : Text
  pub high : Text
  pub low : Text
  pub close_price : Text
  pub volume : Text

-- The message, which only goes into the text of an error, is left out.
pub record TwelveDataResponse : Type 0 where
  pub currency : Text
  pub values : List TwelveDataValue
  pub status : Text
  pub code : ℤ

-- A GET request by an address and its query, with the status and the body of the answer; its errors are a
-- deadline or others, an address that does not parse included. And encoding/json on the body, time.Parse by
-- a layout, and strconv.ParseFloat, here to units of 10^-8.
pub record TwelveDataHttp : Type 0 where
  pub send : Text → List (Text × Text) → Result CandleError (ℕ × Text)
  pub decode : Text → Result CandleError TwelveDataResponse
  pub parse_time : Text → Text → Option ℕ
  pub parse_float : Text → Option ℤ

module _ (http : TwelveDataHttp) where
  abbrev or_date : Text → Option ℕ → Option ℕ
  or_date value none = http.parse_time (text "2006-01-02") value
  or_date value (some t) = some t

  abbrev pub timestamp_of : Text → Option ℕ
  timestamp_of value = or_date value (http.parse_time (text "2006-01-02 15:04:05") value)

  abbrev pub with_volume : ℕ → ℤ → ℤ → ℤ → ℤ → Option ℤ → Result CandleError StockCandle
  with_volume t o h l c none = err CandleError.candle_other
  with_volume t o h l c (some v) =
      ok (record { timestamp = t; open_price = o; high = h; low = l; close_price = c; volume = v })

  abbrev pub with_close : ℕ → ℤ → ℤ → ℤ → Text → Option ℤ → Result CandleError StockCandle
  with_close t o h l volume none = err CandleError.candle_other
  with_close t o h l volume (some c) = with_volume t o h l c (http.parse_float volume)

  abbrev pub with_low : ℕ → ℤ → ℤ → Text → Text → Option ℤ → Result CandleError StockCandle
  with_low t o h close volume none = err CandleError.candle_other
  with_low t o h close volume (some l) = with_close t o h l volume (http.parse_float close)

  abbrev pub with_high : ℕ → ℤ → Text → Text → Text → Option ℤ → Result CandleError StockCandle
  with_high t o low close volume none = err CandleError.candle_other
  with_high t o low close volume (some h) = with_low t o h close volume (http.parse_float low)

  abbrev pub with_open : ℕ → TwelveDataValue → Option ℤ → Result CandleError StockCandle
  with_open t v none = err CandleError.candle_other
  with_open t v (some o) = with_high t o v.low v.close_price v.volume (http.parse_float v.high)

  abbrev pub with_timestamp : TwelveDataValue → Option ℕ → Result CandleError StockCandle
  with_timestamp v none = err CandleError.candle_other
  with_timestamp v (some t) = with_open t v (http.parse_float v.open_price)

  unfoldable pub candle : TwelveDataValue → Result CandleError StockCandle
  candle v = with_timestamp v (timestamp_of v.datetime)

  abbrev pub then_candle :
      StockCandle → Result CandleError (List StockCandle) → Result CandleError (List StockCandle)
  then_candle c (err e) = err e
  then_candle c (ok cs) = ok (c ∷ cs)

  abbrev pub and_rest :
      Result CandleError StockCandle
      → Result CandleError (List StockCandle)
      → Result CandleError (List StockCandle)
  and_rest (err e) rest = err e
  and_rest (ok c) rest = then_candle c rest

  -- The candles of the values, or the first error.
  unfoldable pub all_candles : List TwelveDataValue → Result CandleError (List StockCandle)
  all_candles [] = ok []
  all_candles (v ∷ vs) = and_rest (candle v) (all_candles vs)

  abbrev pub series_of :
      Text
      → Text
      → Text
      → Result CandleError (List StockCandle)
      → Result CandleError StockCandleSeries
  series_of symbol interval currency (err e) = err e
  series_of symbol interval currency (ok []) = err CandleError.candle_not_found
  series_of symbol interval currency (ok (c ∷ cs)) = ok (record {
    symbol = symbol;
    range = [];
    interval = interval;
    currency = currency;
    timezone = text "UTC";
    candles = c ∷ cs;
    cached = false;
  })

  abbrev pub of_payload :
      Text → Text → Result CandleError TwelveDataResponse → Result CandleError StockCandleSeries
  of_payload symbol interval (err e) = err e
  of_payload symbol interval (ok payload) =
      if text_eq payload.status (text "error")
      then (if payload.code ==ℤ pos 429
          then err CandleError.candle_rate_limit
          else if (payload.code ==ℤ pos 400) || (payload.code ==ℤ pos 404)
          then err CandleError.candle_not_found
          else err CandleError.candle_other)
      else series_of symbol interval payload.currency (all_candles payload.values)

  abbrev pub of_answer :
      Text → Text → Result CandleError (ℕ × Text) → Result CandleError StockCandleSeries
  of_answer symbol interval (err e) = err e
  of_answer symbol interval (ok (status, body)) =
      if status == 429
      then err CandleError.candle_rate_limit
      else if status == 200
      then of_payload symbol interval (http.decode body)
      else err CandleError.candle_other

  -- The answer to the request; NewTwelveDataClient cuts the slashes off the address.
  abbrev pub time_series : Text → Text → Text → Text → ℕ → Result CandleError (ℕ × Text)
  time_series base_url api_key symbol interval output_size =
      http.send (trim_slashes base_url ++ text "/time_series") (
        (text "symbol", symbol)
        ∷ (text "interval", interval)
        ∷ (text "outputsize", itoa output_size)
        ∷ (text "timezone", text "UTC")
        ∷ (text "order", text "ASC")
        ∷ (text "apikey", api_key)
        ∷ [])

  unfoldable pub twelve_candles :
      Text → Text → Text → Text → ℕ → Result CandleError StockCandleSeries
  unfolding all_candles
  twelve_candles base_url api_key symbol interval output_size =
      of_answer symbol interval (time_series base_url api_key symbol interval output_size)

  -- The client as the provider of the service.
  abbrev pub twelve_data : Text → Text → CandleProvider
  twelve_data base_url api_key = record { candles = twelve_candles base_url api_key }
