-- ===== src/Finnhub/Answers.antt =====
-- backend/internal/services/finnhub_client.go: what the answers of the client show, and the catalog of stocks
-- that StockService keeps of them.
use line_stock_alert.Common.{
  ℕ, ◌+◌, ◌≤◌, ◌<◌, ◌≡◌, refl, sym, subst, ◌∙◌, ◌++◌, inl, inr, Bool, true, false, not, ◌&&◌, List,
  [], ◌∷◌, arith, map, count, any, ltb, Bool-cases,
}
use line_stock_alert.Common.Int.{ℤ, pos, negsuc, pos_part, leb_ℤ}
use line_stock_alert.Text.{Text, Unicode, text, text_eq}
use line_stock_alert.Text.Query.{query_escape}
use line_stock_alert.Text.Laws.{text_eq_iff}
use line_stock_alert.Sort.{sort_by}
use line_stock_alert.Sort.Laws.{count-sort_by, count-map}
use line_stock_alert.World.{Result, Result-cases, ok, err, StockQuote}
use line_stock_alert.Models.{StockMetadata, ProviderError}
use line_stock_alert.Symbols.{matches_symbol}
use line_stock_alert.Stocks.{Catalog, stock_catalog, by_symbol}
use line_stock_alert.Stocks.Quotes.{IsUnique, is_invalid}
use line_stock_alert.Finnhub.{
  SymbolEntry, RawQuote, FinnhubHttp, listed_symbol, listed_stocks, checked_quote, and_then, get,
  search_us_stocks, quote, finnhub,
}

abbrev pub symbols_of : List StockMetadata → List Text
symbols_of stocks = map (λ (s : StockMetadata). s.symbol) stocks

abbrev is_listed : Unicode → List Text → SymbolEntry → Bool
is_listed u seen e =
    matches_symbol (listed_symbol u e) && not (any (text_eq (listed_symbol u e)) seen)

module _ (u : Unicode) where
  listed_stocks-new :
      (t : Text) (seen : List Text) (es : List SymbolEntry)
      → any (text_eq t) seen ≡ true
      → count (text_eq t) (symbols_of (listed_stocks u seen es)) ≡ 0
  unfolding listed_stocks
  listed_stocks-new t seen [] h = refl
  listed_stocks-new t seen (e ∷ es) h = elim (Bool-cases (is_listed u seen e)) [
    | inr out ↦ rw (out, listed_stocks) (listed_stocks-new t seen es h)
    | inl listed ↦
        let s = listed_symbol u e in
        elim (Bool-cases (text_eq t s)) [
          | inr other ↦
              let more : any (text_eq t) (s ∷ seen) ≡ true = ground (arith, other, h) in
              let rest = listed_stocks-new t (s ∷ seen) es more in
              rw (listed, listed_stocks) (ground (arith, other, rest))
          | inl same ↦
              let eq : t ≡ s = (text_eq_iff t s).0 same in
              let h' : any (text_eq s) seen ≡ true = rw eq at h in ground (arith, listed, h')
        ]
  ]

  listed_stocks-once :
      (t : Text) (seen : List Text) (es : List SymbolEntry)
      → count (text_eq t) (symbols_of (listed_stocks u seen es)) ≤ 1
  unfolding listed_stocks
  listed_stocks-once t seen [] = omega arith
  listed_stocks-once t seen (e ∷ es) = elim (Bool-cases (is_listed u seen e)) [
    | inr out ↦ rw (out, listed_stocks) (listed_stocks-once t seen es)
    | inl listed ↦
        let s = listed_symbol u e in
        elim (Bool-cases (text_eq t s)) [
          | inr other ↦
              let rest = listed_stocks-once t (s ∷ seen) es in
              rw (listed, listed_stocks) (ground (arith, other, rest))
          | inl same ↦
              let more : any (text_eq t) (s ∷ seen) ≡ true = ground (arith, same) in
              let rest = listed_stocks-new t (s ∷ seen) es more in
              rw (listed, listed_stocks) (ground (arith, same, rest))
        ]
  ]

  listed_stocks-valid :
      (seen : List Text) (es : List SymbolEntry)
      → count is_invalid (symbols_of (listed_stocks u seen es)) ≡ 0
  unfolding listed_stocks
  listed_stocks-valid seen [] = refl
  listed_stocks-valid seen (e ∷ es) = elim (Bool-cases (is_listed u seen e)) [
    | inr out ↦ rw (out, listed_stocks) (listed_stocks-valid seen es)
    | inl listed ↦
        let s = listed_symbol u e in
        let fits : matches_symbol s ≡ true = ground (arith, listed) in
        let rest = listed_stocks-valid (s ∷ seen) es in
        rw (listed, listed_stocks) (ground (arith, fits, rest))
  ]

  listed_stocks-IsUnique : (es : List SymbolEntry) → IsUnique (symbols_of (listed_stocks u [] es))
  listed_stocks-IsUnique es = record {
    once = λ t. listed_stocks-once t [] es;
    valid = listed_stocks-valid [] es;
  }

symbols_of-sort_by :
    (p : Text → Bool) (le : StockMetadata → StockMetadata → Bool) (xs : List StockMetadata)
    → count p (symbols_of (sort_by le xs)) ≡ count p (symbols_of xs)
symbols_of-sort_by p le xs =
    let symbol : StockMetadata → Text = λ (s : StockMetadata). s.symbol in
    count-map p symbol (sort_by le xs)
    ∙ count-sort_by (λ s. p s.symbol) le xs
    ∙ sym (count-map p symbol xs)

sort_by-IsUnique :
    (le : StockMetadata → StockMetadata → Bool) (xs : List StockMetadata)
    → IsUnique (symbols_of xs)
    → IsUnique (symbols_of (sort_by le xs))
sort_by-IsUnique le xs h = record {
  once = λ t. omega (arith, symbols_of-sort_by (text_eq t) le xs, h.once t);
  valid = symbols_of-sort_by is_invalid le xs ∙ h.valid;
}

and_then-ok :
    {A B : Type 0} (f : A → Result ProviderError B) (r : Result ProviderError A) (b : B)
    → and_then f r ≡ ok b
    → (a : A) × (r ≡ ok a) × (f a ≡ ok b)
and_then-ok f (err x) b e = let e' : err x ≡ ok b = e in cc
and_then-ok f (ok a) b e = (a, refl, e)

leb_ℤ-pos_part : (t : ℤ) → leb_ℤ t (pos 0) ≡ false → 0 < pos_part t
leb_ℤ-pos_part (pos n) h = ground (arith, h)
leb_ℤ-pos_part (negsuc n) h = ground (arith, h)

checked_quote-ok :
    (symbol : Text) (raw : RawQuote) (q : StockQuote)
    → checked_quote symbol raw ≡ ok q
    → (q.symbol ≡ symbol) × (leb_ℤ q.price (pos 0) ≡ false) × (0 < q.updated_at)
checked_quote-ok symbol raw q e = elim (Bool-cases (leb_ℤ raw.current (pos 0))) [
  | inl bad ↦ let e' : err ProviderError.stock_not_found ≡ ok q = rw (bad, checked_quote) at e in cc
  | inr priced ↦ elim (Bool-cases (leb_ℤ raw.timestamp (pos 0))) [
    | inl bad ↦
        let e' : err ProviderError.stock_not_found ≡ ok q = rw (priced, bad, checked_quote) at e in
        cc
    | inr timed ↦
        let made : StockQuote = record {
          symbol = symbol;
          price = raw.current;
          updated_at = pos_part raw.timestamp;
          cached = false;
        } in
        let e' : ok made ≡ ok q = rw (priced, timed, checked_quote) at e in
        let same : made ≡ q = cc in
        subst
          (λ (x : StockQuote).
            (x.symbol ≡ symbol) × (leb_ℤ x.price (pos 0) ≡ false) × (0 < x.updated_at))
          same (refl, priced, leb_ℤ-pos_part raw.timestamp timed)
  ]
]

module _ (u : Unicode) (http : FinnhubHttp) (base_url : Text) where
  search_us_stocks-IsUnique :
      (stocks : List StockMetadata)
      → search_us_stocks u http base_url ≡ ok stocks
      → IsUnique (symbols_of stocks)
  unfolding search_us_stocks
  search_us_stocks-IsUnique stocks e =
      let got =
        and_then-ok (λ es. ok (listed_stocks u [] es))
          (get u http base_url http.decode_symbols (text "/stock/symbol?exchange=US")) stocks e in
      let e' : ok (listed_stocks u [] got.0) ≡ ok stocks = got.2 in
      let same : listed_stocks u [] got.0 ≡ stocks = cc in
      subst (λ x. IsUnique (symbols_of x)) same (listed_stocks-IsUnique u got.0)

  -- The catalog that the service keeps of the client's answers has valid symbols only, none of them twice.
  pub catalog-IsUnique :
      (now : ℕ) (before after : Catalog)
      → IsUnique (symbols_of before.stocks)
      → stock_catalog (finnhub u http base_url) now before ≡ ok after
      → IsUnique (symbols_of after.stocks)
  unfolding stock_catalog
  catalog-IsUnique now before after h e = elim (Bool-cases (ltb now before.expires)) [
    | inl fresh ↦
        let e' : ok before ≡ ok after = rw fresh at e in
        let same : before ≡ after = cc in rw same at h
    | inr old ↦ elim (Result-cases (search_us_stocks u http base_url)) [
      | inr (x, failed) ↦ let e' : err x ≡ ok after = rw (old, failed) at e in cc
      | inl (stocks, got) ↦
          let sorted = sort_by by_symbol stocks in
          let e' : ok (record { stocks = sorted; expires = now + 3600 }) ≡ ok after =
            rw (old, got) at e in
          let same : sorted ≡ after.stocks = cc in
          let r : IsUnique (symbols_of sorted) =
            sort_by-IsUnique by_symbol stocks (search_us_stocks-IsUnique stocks got) in
          rw same at r
    ]
  ]

  -- A quote that the client answers with is of the symbol asked for, of a price and a time above zero.
  pub quote_positive :
      (symbol : Text) (q : StockQuote)
      → quote u http base_url symbol ≡ ok q
      → (q.symbol ≡ symbol) × (leb_ℤ q.price (pos 0) ≡ false) × (0 < q.updated_at)
  unfolding quote
  quote_positive symbol q e =
      let got =
        and_then-ok (checked_quote symbol)
          (get u http base_url http.decode_quote (text "/quote?symbol=" ++ query_escape symbol)) q
          e in
      checked_quote-ok symbol got.0 q got.2
