-- ===== src/Stocks/Detail/Status.antt =====
-- StockService.Quote of backend/internal/services/stock_service.go: the status of the market that a quote
-- comes with.
use line_stock_alert.Common.{ℕ, ◌<◌, ◌≡◌, refl, sym, subst, ap, not, Option, none, some}
use mathlib.Core.Option.{map}
use line_stock_alert.Text.{Text, Unicode}
use line_stock_alert.World.{
  World, M, Result, ok, err, read_clock, attempt, StockQuote, cache_get, cache_set,
}
use line_stock_alert.World.Triples.{
  Post, Triple, ◌⟫◌, consequence, with_fact, return_rule, raise_if_rule, lift_rule, map_err_rule,
  external_rule, attempt_rule, Post-either,
}
use line_stock_alert.Models.{StockProvider, ProviderError}
use line_stock_alert.Symbols.{matches_symbol, normalize}
use line_stock_alert.MarketHours.Session.{Zone, zone_or_fixed}
use line_stock_alert.MarketHours.Session.Status.{IsForward, IsStatus, market_status_lem}
use line_stock_alert.Stocks.{cached_quote, load, fly, cached}
use line_stock_alert.Stocks.Detail.{StockQuoteDetail, detail_of, quote_detail, stock_quote}

abbrev Is : ℕ → World → Type 0
Is n w = w.now ≡ n

Post-same :
    {E A : Type 0} (P : World → Type 0) (r : Result E A) (w : World)
    → P w
    → Post (λ _ v. P v) (λ _ v. P v) (r, w)
Post-same P (ok a) w h = h
Post-same P (err e) w h = h

clock_rule :
    {E : Type 0} {n : ℕ} {R : E → World → Type 0}
    → Triple (Is n) read_clock (λ t w. (t ≡ n) × Is n w) R
unfolding read_clock
clock_rule = record { at = λ w h. (h, h) }

module _ {n : ℕ} (provider : StockProvider) where
  cache_get-Is :
      {E : Type 0} (e : E) (symbol : Text)
      → Triple (Is n) (cache_get e symbol) (λ _ w. Is n w) (λ _ w. Is n w)
  unfolding cache_get
  cache_get-Is e symbol =
      external_rule e (λ w fs h. h) (λ w h. h) (record { at = λ w h. Post-same (Is n) _ w h })

  cache_set-Is :
      {E : Type 0} (e : E) (q : StockQuote)
      → Triple (Is n) (cache_set e q) (λ _ w. Is n w) (λ _ w. Is n w)
  unfolding cache_set
  cache_set-Is e q = external_rule e (λ w fs h. h) (λ w h. h) (record { at = λ w h. h })

  attempt-Is :
      {E F A : Type 0} {m : M E A} {R : F → World → Type 0}
      → Triple (Is n) m (λ _ w. Is n w) (λ _ w. Is n w)
      → Triple (Is n) (attempt m) (λ _ w. Is n w) R
  attempt-Is h =
      consequence (λ w p. p) (λ r w p. Post-either (Is n) (r, w) p) (λ _ _ p. p) (attempt_rule h)

  load-Is :
      (symbol : Text) (o : Option StockQuote)
      → Triple (Is n) (load provider symbol o) (λ _ w. Is n w) (λ _ w. Is n w)
  load-Is symbol (some q) = return_rule q (λ w h. h)
  load-Is symbol none = lift_rule (provider.quote symbol) (λ e w _ h. h) ⟫ λ q.
      with_fact λ _. attempt-Is (cache_set-Is ProviderError.other q) ⟫ λ _. return_rule q (λ w h. h)

  fly-Is :
      (symbol : Text) (o : Option StockQuote)
      → Triple (Is n) (fly provider symbol o) (λ _ w. Is n w) (λ _ w. Is n w)
  fly-Is symbol (some q) = return_rule q (λ w h. h)
  fly-Is symbol none =
      attempt-Is (cache_get-Is ProviderError.other symbol) ⟫ λ hit. load-Is symbol (cached hit)

  cached_quote-Is :
      (symbol : Text) → Triple (Is n) (cached_quote provider symbol) (λ _ w. Is n w) (λ _ w. Is n w)
  unfolding cached_quote
  cached_quote-Is symbol =
      attempt-Is (cache_get-Is ProviderError.other symbol) ⟫ λ hit. fly-Is symbol (cached hit)

-- A quote that comes out with the status of the market at the time `n`.
pub record IsDetail (zone : Zone) (n : ℕ) (o : Option StockQuoteDetail) : Type 0 where
  pub detail : StockQuoteDetail
  pub is : o ≡ some detail
  pub status : IsStatus zone n detail.market_status detail.market_status_until
  pub ahead : n < detail.market_status_until

quote_detail-IsDetail :
    (zone : Option Zone) (n : ℕ) (name : Text) (q : StockQuote)
    → IsForward (zone_or_fixed zone)
    → IsDetail (zone_or_fixed zone) n (quote_detail zone n name q)
unfolding quote_detail
quote_detail-IsDetail zone n name q forward =
    let h = market_status_lem zone n forward in
    record {
      detail = detail_of name q (h.event, h.until);
      is = ap (map (detail_of name q)) h.is;
      status = h.status;
      ahead = h.ahead;
    }

-- A quote that is answered comes with the status of the market at that time, whatever the cache holds and
-- however it fails: open in a session, and closed up to the next opening otherwise, with the time until
-- which this holds, still to come. This needs a clock that goes forward from day to day.
pub quote_status :
    (u : Unicode) (provider : StockProvider) (zone : Option Zone) (raw_symbol : Text) (w : World)
    → IsForward (zone_or_fixed zone)
    → Post
        (λ o _. IsDetail (zone_or_fixed zone) w.now o)
        (λ _ _. Unit {0})
        (stock_quote u provider zone raw_symbol w)
unfolding stock_quote
quote_status u provider zone raw_symbol w forward =
    (raise_if_rule {P = Is w.now} (not (matches_symbol (normalize u raw_symbol))) _ (λ v e h. tt)
        ⟫ λ _. with_fact λ _.
          map_err_rule _
            (lift_rule (provider.validate_us_stock (normalize u raw_symbol)) (λ e v _ h. tt))
          ⟫ λ stock. with_fact λ _.
            map_err_rule _ (
              consequence (λ v h. h) (λ _ v h. h) (λ _ _ _. tt)
                (cached_quote-Is provider stock.symbol))
            ⟫ λ q. clock_rule ⟫ λ now. with_fact λ same.
              return_rule (quote_detail zone now stock.name q) (λ v h.
                subst (λ t. IsDetail (zone_or_fixed zone) w.now (quote_detail zone t stock.name q))
                  (sym same) (quote_detail-IsDetail zone w.now stock.name q forward))).at
      w refl
