-- ===== src/TwelveData/Answers.antt =====
-- backend/internal/services/twelve_data_client.go: what a history that the client answers with shows.
use line_stock_alert.Common.{
  ℕ, ◌≤◌, ◌≡◌, refl, subst, ap, ◌∙◌, inl, inr, false, List, [], ◌∷◌, arith, map, length, ◌==◌,
  Bool-cases,
}
use line_stock_alert.Text.{Text, text, text_eq}
use line_stock_alert.World.{Result, Result-cases, ok, err, StockCandle, StockCandleSeries}
use line_stock_alert.Stocks.Candles.{CandleError}
use line_stock_alert.TwelveData.{
  TwelveDataValue, TwelveDataResponse, TwelveDataHttp, candle, all_candles, series_of, of_payload,
  of_answer, time_series, twelve_candles,
}

-- The series that a payload without an error makes: every value a candle, in order, and at least one.
pub record IsSeries (http : TwelveDataHttp) (symbol interval : Text) (payload : TwelveDataResponse)
    (s : StockCandleSeries) : Type 0 where
  pub no_error : text_eq payload.status (text "error") ≡ false
  pub parsed : map (candle http) payload.values ≡ map ok s.candles
  pub nonempty : 1 ≤ length s.candles
  pub of_symbol : s.symbol ≡ symbol
  pub of_interval : s.interval ≡ interval
  pub of_currency : s.currency ≡ payload.currency

module _ (http : TwelveDataHttp) where
  all_candles-ok :
      (vs : List TwelveDataValue) (cs : List StockCandle)
      → all_candles http vs ≡ ok cs
      → map (candle http) vs ≡ map ok cs
  unfolding all_candles
  all_candles-ok [] cs e = let same : [] ≡ cs = cc in ap (map ok) same
  all_candles-ok (v ∷ vs) cs e = elim (Result-cases (candle http v)) [
    | inr (x, h) ↦ let e' : err x ≡ ok cs = rw h at e in cc
    | inl (c, h) ↦ elim (Result-cases (all_candles http vs)) [
      | inr (x, k) ↦ let e' : err x ≡ ok cs = rw (h, k) at e in cc
      | inl (rest, k) ↦
          let e' : ok (c ∷ rest) ≡ ok cs = rw (h, k) at e in
          let same : c ∷ rest ≡ cs = cc in
          let ih : map (candle http) vs ≡ map ok rest = all_candles-ok vs rest k in
          rw h (ap (λ r. ok c ∷ r) ih) ∙ ap (map ok) same
    ]
  ]

  series_of-ok :
      (symbol interval : Text) (payload : TwelveDataResponse)
      (r : Result CandleError (List StockCandle)) (s : StockCandleSeries)
      → text_eq payload.status (text "error") ≡ false
      → ((cs : List StockCandle) → r ≡ ok cs → map (candle http) payload.values ≡ map ok cs)
      → series_of http symbol interval payload.currency r ≡ ok s
      → IsSeries http symbol interval payload s
  series_of-ok symbol interval payload (err x) s clean parsed e = let e' : err x ≡ ok s = e in cc
  series_of-ok symbol interval payload (ok []) s clean parsed e =
      let e' : err CandleError.candle_not_found ≡ ok s = e in cc
  series_of-ok symbol interval payload (ok (c ∷ cs)) s clean parsed e =
      let made : StockCandleSeries = record {
        symbol = symbol;
        range = [];
        interval = interval;
        currency = payload.currency;
        timezone = text "UTC";
        candles = c ∷ cs;
        cached = false;
      } in
      let e' : ok made ≡ ok s = e in
      let same : made ≡ s = cc in
      subst (λ x. IsSeries http symbol interval payload x) same
        record {
          no_error = clean;
          parsed = parsed (c ∷ cs) refl;
          nonempty = omega arith;
          of_symbol = refl;
          of_interval = refl;
          of_currency = refl;
        }

  -- What an answer that gives a series has been.
  pub record IsAnswered (symbol interval : Text) (r : Result CandleError (ℕ × Text))
      (s : StockCandleSeries) : Type 0 where
    pub body : Text
    pub payload : TwelveDataResponse
    pub sent : r ≡ ok (200, body)
    pub decoded : http.decode body ≡ ok payload
    pub series : IsSeries http symbol interval payload s

  payload-IsSeries :
      (symbol interval : Text) (payload : TwelveDataResponse) (s : StockCandleSeries)
      → of_payload http symbol interval (ok payload) ≡ ok s
      → IsSeries http symbol interval payload s
  payload-IsSeries symbol interval payload s e =
      elim (Bool-cases (text_eq payload.status (text "error"))) [
        | inl failed ↦ ground (arith, failed, e)
        | inr clean ↦
            series_of-ok symbol interval payload (all_candles http payload.values) s clean
              (all_candles-ok payload.values) (rw (clean, of_payload) at e)
      ]

  answer-IsAnswered :
      (symbol interval body : Text) (status : ℕ) (s : StockCandleSeries)
      → of_answer http symbol interval (ok (status, body)) ≡ ok s
      → IsAnswered symbol interval (ok (status, body)) s
  answer-IsAnswered symbol interval body status s e = elim (Bool-cases (status == 429)) [
    | inl limited ↦
        let e' : err CandleError.candle_rate_limit ≡ ok s = rw (limited, of_answer) at e in cc
    | inr free ↦ elim (Bool-cases (status == 200)) [
      | inr odd ↦
          let e' : err CandleError.candle_other ≡ ok s = rw (free, odd, of_answer) at e in cc
      | inl fine ↦
          let e' : of_payload http symbol interval (http.decode body) ≡ ok s =
            rw (free, fine, of_answer) at e in
          elim (Result-cases (http.decode body)) [
            | inr (x, h) ↦ let e2 : err x ≡ ok s = rw h at e' in cc
            | inl (payload, h) ↦
                let status_fine : status ≡ 200 = ground (arith, fine) in
                record {
                  body = body;
                  payload = payload;
                  sent = ap (λ (n : ℕ). ok (n, body)) status_fine;
                  decoded = h;
                  series = payload-IsSeries symbol interval payload s (rw h at e');
                }
          ]
    ]
  ]

  -- A history that the client answers with is of the symbol and the interval asked for. It comes from an
  -- answer of status 200 whose payload is no error, and has one candle for each of its values, in order,
  -- all of which parse, and at least one.
  pub candles-IsAnswered :
      (base_url api_key symbol interval : Text) (output_size : ℕ) (s : StockCandleSeries)
      → twelve_candles http base_url api_key symbol interval output_size ≡ ok s
      → IsAnswered symbol interval (time_series http base_url api_key symbol interval output_size) s
  unfolding twelve_candles
  candles-IsAnswered base_url api_key symbol interval output_size s e =
      elim (Result-cases (time_series http base_url api_key symbol interval output_size)) [
        | inr (x, h) ↦ let e' : err x ≡ ok s = rw h at e in cc
        | inl ((status, body), h) ↦
            let a = answer-IsAnswered symbol interval body status s (rw h at e) in
            record {
              body = a.body;
              payload = a.payload;
              sent = h ∙ a.sent;
              decoded = a.decoded;
              series = a.series;
            }
      ]
