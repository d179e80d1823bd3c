-- ===== src/Stocks/Candles/Served.antt =====
-- StockService.Candles of backend/internal/services/stock_service.go: what a history comes from.
use line_stock_alert.Common.{
  ◌≡◌, refl, sym, ◌∙◌, subst, ◌⊎◌, inl, inr, Bool, true, false, not, Option, none, some, [], ◌∷◌,
  arith, Option-cases,
}
use line_stock_alert.Text.{Text, Unicode}
use line_stock_alert.Text.Laws.{text_eq_refl}
use line_stock_alert.World.{
  World, Result-cases, ok, err, ◌>>=◌, StockCandleSeries, cache_get_candles, cache_set_candles,
  candle_entry,
}
use line_stock_alert.World.Triples.{
  Post, Triple, ◌⟫◌, consequence, with_fact, raise_if_rule, lift_rule, map_err_rule,
}
use line_stock_alert.Models.{StockProvider, StockMetadata}
use line_stock_alert.Symbols.{matches_symbol, normalize}
use line_stock_alert.Stocks.Candles.{
  CandleProvider, CandleRange, CandleError, known_range, or_one_day, range_or_error, configured,
  cache_key, named, cached_series, candles,
}

-- What the cache holds under the key.
abbrev pub held : Text → World → Option (Text × StockCandleSeries)
held key w = candle_entry key w.candles

abbrev pub marked : StockCandleSeries → StockCandleSeries
marked s = record s { cached = true }

-- What a series of the symbol and the range comes from: the cache, which is then as it was, or the provider,
-- whose answer is then on top of it.
pub record IsServed (source : CandleProvider) (symbol : Text) (range : CandleRange) (w v : World)
    (s : StockCandleSeries) : Type 0 where
  pub origin :
      ((e : Text × StockCandleSeries) × (held (cache_key symbol range) w ≡ some e)
        × (s ≡ marked e.1)
        × (v ≡ w))
      ⊎ ((answer : StockCandleSeries) × (held (cache_key symbol range) w ≡ none)
          × (source.candles symbol range.interval range.output_size ≡ ok answer)
          × (s ≡ named range answer)
          × (v ≡ record w {
            candles = (cache_key symbol range, record s { cached = false }) ∷ w.candles;
          }))

abbrev pub calm : World → World
calm w = record w { faults = [] }

module _ (source : CandleProvider) (symbol : Text) (range : CandleRange) where
  cached_series-hit :
      (w : World) (e : Text × StockCandleSeries)
      → held (cache_key symbol range) w ≡ some e
      → cached_series source symbol range (calm w) ≡ (ok (marked e.1), calm w)
  unfolding cached_series cache_get_candles ◌>>=◌
  cached_series-hit w e h = rw h refl

  cached_series-miss :
      (w : World) (answer : StockCandleSeries)
      → held (cache_key symbol range) w ≡ none
      → source.candles symbol range.interval range.output_size ≡ ok answer
      → cached_series source symbol range (calm w) ≡ (
        ok (named range answer),
        record (calm w) {
          candles =
              (cache_key symbol range, record (named range answer) { cached = false }) ∷ w.candles;
        },
      )
  unfolding cached_series cache_get_candles cache_set_candles ◌>>=◌
  cached_series-miss w answer h a = rw (h, h, a) refl

  cached_series-refused :
      (w : World) (e : CandleError)
      → held (cache_key symbol range) w ≡ none
      → source.candles symbol range.interval range.output_size ≡ err e
      → cached_series source symbol range (calm w) ≡ (err e, calm w)
  unfolding cached_series cache_get_candles cache_set_candles ◌>>=◌
  cached_series-refused w e h a = rw (h, h, a) refl

  held-set :
      (w : World) (s : StockCandleSeries)
      → held
          (cache_key symbol range)
          (record w { candles = (cache_key symbol range, s) ∷ w.candles })
        ≡ some (cache_key symbol range, s)
  unfolding candle_entry
  held-set w s = ground (arith, text_eq_refl (cache_key symbol range))

  cached_series-IsServed :
      (w : World)
      → Post
          (λ s v. IsServed source symbol range (calm w) v s)
          (λ _ v. v ≡ calm w)
          (cached_series source symbol range (calm w))
  cached_series-IsServed w = elim (Option-cases (held (cache_key symbol range) w)) [
    | inr (e, h) ↦ rw (cached_series-hit w e h) (record { origin = inl (e, h, refl, refl) })
    | inl h ↦ elim (Result-cases (source.candles symbol range.interval range.output_size)) [
      | inl (answer, a) ↦
          rw (cached_series-miss w answer h a) (record { origin = inr (answer, h, a, refl, refl) })
      | inr (e, a) ↦ rw (cached_series-refused w e h a) refl
    ]
  ]

cached_series_rule :
    (source : CandleProvider) (symbol : Text) (range : CandleRange) (w : World)
    → Triple
        (λ v. v ≡ calm w)
        (cached_series source symbol range)
        (λ s v. IsServed source symbol range (calm w) v s)
        (λ _ v. v ≡ calm w)
cached_series_rule source symbol range w = record {
  at = λ v same.
      subst
        (λ x.
          Post (λ s y. IsServed source symbol range (calm w) y s) (λ _ y. y ≡ calm w)
            (cached_series source symbol range x))
        (sym same) (cached_series-IsServed source symbol range w);
}

-- A series that has been served is served from the cache afterwards.
cached_series-again :
    (source other : CandleProvider) (symbol : Text) (range : CandleRange) (w v : World)
    (s : StockCandleSeries)
    → IsServed source symbol range (calm w) v s
    → cached_series other symbol range v ≡ (ok (marked s), v)
cached_series-again source other symbol range w v s h = elim h.origin [
  | inl (e, held_e, is, same) ↦ rw (same, is) (cached_series-hit other symbol range w e held_e)
  | inr (answer, missing, answered, is, same) ↦
      let entry : StockCandleSeries = record s { cached = false } in
      let filled : World = record w { candles = (cache_key symbol range, entry) ∷ w.candles } in
      rw same (
        cached_series-hit other symbol range filled (cache_key symbol range, entry)
          (held-set other symbol range w entry))
]

-- What a history answered has been asked for and has been found with.
pub record IsHistory (u : Unicode) (provider : StockProvider) (sources : Option CandleProvider)
    (raw_symbol raw_range : Text) (w v : World) (s : StockCandleSeries) : Type 0 where
  pub range : CandleRange
  pub source : CandleProvider
  pub stock : StockMetadata
  pub symbol : matches_symbol (normalize u raw_symbol) ≡ true
  pub known : known_range (or_one_day (normalize u raw_range)) ≡ some range
  pub set_up : sources ≡ some source
  pub validated : provider.validate_us_stock (normalize u raw_symbol) ≡ ok stock
  pub served : IsServed source stock.symbol range w v s

range_or_error-ok :
    (o : Option CandleRange) (r : CandleRange) → range_or_error o ≡ ok r → o ≡ some r
range_or_error-ok none r e = ground (arith, e)
range_or_error-ok (some x) r e = cc

configured-ok : (o : Option CandleProvider) (p : CandleProvider) → configured o ≡ ok p → o ≡ some p
configured-ok none p e = ground (arith, e)
configured-ok (some x) p e = cc

not-false : (b : Bool) → not b ≡ false → b ≡ true
not-false b h = ground arith

module _ (u : Unicode) (provider : StockProvider) (sources : Option CandleProvider)
    (raw_symbol raw_range : Text) where
  candles-IsHistory :
      (w : World)
      → Triple
          (λ v. v ≡ calm w)
          (candles u provider sources raw_symbol raw_range)
          (λ s v. IsHistory u provider sources raw_symbol raw_range (calm w) v s)
          (λ _ v. v ≡ calm w)
  unfolding candles
  candles-IsHistory w =
      raise_if_rule (not (matches_symbol (normalize u raw_symbol))) _ (λ v e h. h) ⟫ λ _.
      with_fact λ fits.
        lift_rule (range_or_error (known_range (or_one_day (normalize u raw_range)))) (λ e v _ h. h)
        ⟫ λ range. with_fact λ known. lift_rule (configured sources) (λ e v _ h. h) ⟫ λ source.
            with_fact λ set_up.
              map_err_rule _
                (lift_rule (provider.validate_us_stock (normalize u raw_symbol)) (λ e v _ h. h))
              ⟫ λ stock. with_fact λ validated. map_err_rule _ (
                  consequence (λ _ same. same)
                    (λ s y served. record {
                      range = range;
                      source = source;
                      stock = stock;
                      symbol = not-false (matches_symbol (normalize u raw_symbol)) fits;
                      known = range_or_error-ok _ range known;
                      set_up = configured-ok sources source set_up;
                      validated = validated;
                      served = served;
                    })
                    (λ _ _ h. h) (cached_series_rule source stock.symbol range w))

  -- Where the cache does not fail: a history that is answered is of a valid symbol that the stock provider
  -- confirms and of one of the six ranges, 1D where none is named. It is what the cache holds for the two,
  -- marked as cached, and nothing changes; or, where it holds nothing, the answer of the candle provider
  -- for the interval and size of that range, which is then in the cache. An error changes nothing.
  pub candles_served :
      (w : World)
      → Post
          (λ s v. IsHistory u provider sources raw_symbol raw_range (calm w) v s)
          (λ _ v. v ≡ calm w)
          (candles u provider sources raw_symbol raw_range (calm w))
  candles_served w = (candles-IsHistory w).at (calm w) refl

  -- A history that is answered is answered again from the cache, as long as the entry is there, the cache
  -- does not fail and the stock provider, which is asked on every call, still answers the same stock for
  -- the symbol; whatever the candle provider, and the stock provider on other questions, would then say.
  pub candles_cached :
      (w v : World) (later : StockProvider) (source : CandleProvider) (s : StockCandleSeries)
      → candles u provider sources raw_symbol raw_range (calm w) ≡ (ok s, v)
      → later.validate_us_stock (normalize u raw_symbol)
        ≡ provider.validate_us_stock (normalize u raw_symbol)
      → candles u later (some source) raw_symbol raw_range v ≡ (ok (marked s), v)
  unfolding candles ◌>>=◌
  candles_cached w v later source s e same =
      let h : IsHistory u provider sources raw_symbol raw_range (calm w) v s =
        rw e at (candles_served w) in
      rw
        (
          h.symbol,
          h.known,
          same ∙ h.validated,
          cached_series-again h.source source h.stock.symbol h.range w v s h.served,
        )
        refl
