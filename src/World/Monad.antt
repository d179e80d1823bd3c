-- ===== src/World/Monad.antt =====
-- A call of a service or repository: a function from the world to a result and the new world.
-- A write that a failing call has made stays made, unless a transaction rolls it back.
use line_stock_alert.Common.{
  ℕ, Bool, true, false, List, [], ◌∷◌, Option, none, some, find?, ◌≡◌, refl, ◌⊎◌, inl, inr,
}
use line_stock_alert.Text.{Text, text_eq}
use line_stock_alert.World.Tables.{Db, StockQuote, StockCandleSeries, MarketEvent, MenuRequest}

pub data Result (E A : Type 0) : Type 0 where
  ok : A → Result E A
  err : E → Result E A

pub Result-cases :
    {E A : Type 0} (r : Result E A) → ((a : A) × (r ≡ ok a)) ⊎ ((e : E) × (r ≡ err e))
Result-cases (ok a) = inl (a, refl)
Result-cases (err e) = inr (e, refl)

-- `faults` says of each statement, query or message in turn whether it fails; past its end nothing
-- fails. `uuids` are the
-- random values to come: those of gen_random_uuid() and of randomToken. `sent` holds the LINE messages that
-- went out, newest first, as the recipient or reply token and the text. `quotes` is what the Redis
-- cache holds of them, and `candles` what it holds of series, by key; entries expire at any time between
-- two calls. `market_keys` are the notifications
-- that Redis has as claimed, `menu_requests` those that LINE has accepted, newest first.
pub record World : Type 0 where
  pub db : Db
  pub now : ℕ
  pub uuids : List Text
  pub faults : List Bool
  pub sent : List (Text × Text)
  pub quotes : List StockQuote
  pub candles : List (Text × StockCandleSeries)
  pub market_keys : List (MarketEvent × ℕ)
  pub menu_requests : List MenuRequest

abbrev pub M : Type 0 → Type 0 → Type 0
M E A = World → Result E A × World

module _ {E A : Type 0} where
  unfoldable pub pure : A → M E A
  pure a w = (ok a, w)

  unfoldable pub raise : E → M E A
  raise e w = (err e, w)

  unfoldable pub lift_result : Result E A → M E A
  lift_result r w = (r, w)

  -- A value computed from the tables.
  unfoldable pub read : (Db → A) → M E A
  read f w = (ok (f w.db), w)

unfoldable pub write : {E : Type 0} → (Db → Db) → M E (Unit {0})
write f w = (ok tt, record w { db = f w.db })

-- NOW() and time.Now(); the clock stands still during a statement.
unfoldable pub read_clock : {E : Type 0} → M E ℕ
read_clock w = (ok w.now, w)

unfoldable pub raise_if : {E : Type 0} → Bool → E → M E (Unit {0})
raise_if true e w = (err e, w)
raise_if false e w = (ok tt, w)

-- A message that LINE has accepted.
unfoldable pub record_sent : {E : Type 0} → Text → Text → M E (Unit {0})
record_sent to message w = (ok tt, record w { sent = (to, message) ∷ w.sent })

abbrev pub take_uuid : {E : Type 0} → E → List Text → M E Text
take_uuid e [] w = (err e, w)
take_uuid e (id ∷ ids) w = (ok id, record w { uuids = ids })

-- gen_random_uuid(); the error stands for a supply that has run out.
unfoldable pub fresh_uuid : {E : Type 0} → E → M E Text
fresh_uuid e w = take_uuid e w.uuids w

abbrev pub continue : {E A B : Type 0} → Result E A × World → (A → M E B) → Result E B × World
continue (ok a, w) f = f a w
continue (err e, w) f = (err e, w)

abbrev pub relabel : {E F A : Type 0} → (E → F) → Result E A × World → Result F A × World
relabel f (ok a, w) = (ok a, w)
relabel f (err e, w) = (err (f e), w)

-- `if err != nil { return …, f(err) }`
unfoldable pub map_err : {E F A : Type 0} → (E → F) → M E A → M F A
map_err f m w = relabel f (m w)

-- `x, err := m()`, where the caller goes on also after an error.
unfoldable pub attempt : {E F A : Type 0} → M E A → M F (Result E A)
attempt m w = let (r, w') = m w in (ok r, w')

-- Whether the next statement fails.
abbrev pub next_fails : List Bool → Bool
next_fails [] = false
next_fails (b ∷ _) = b

abbrev pub later_faults : List Bool → List Bool
later_faults [] = []
later_faults (_ ∷ fs) = fs

-- A call of something outside the process, which fails as `faults` says with the error `e`.
unfoldable pub external : {E A : Type 0} → E → M E A → M E A
external e m w = elim (next_fails w.faults) [
  | true ↦ (err e, record w { faults = later_faults w.faults })
  | false ↦ m (record w { faults = later_faults w.faults })
]

abbrev pub rollback_on_err : {E A : Type 0} → Db → Result E A × World → Result E A × World
rollback_on_err db (ok a, w) = (ok a, w)
rollback_on_err db (err e, w) = (err e, record w { db = db })

unfoldable pub rollback : {E A : Type 0} → M E A → M E A
rollback m w = rollback_on_err w.db (m w)

infixl 5 ◌>>=◌ ◌>>◌
-- Opening this opens the other combinators too.
unfoldable pub ◌>>=◌ : {E A B : Type 0} → M E A → (A → M E B) → M E B
unfolding pure raise lift_result read write read_clock raise_if record_sent fresh_uuid map_err
    attempt external rollback
◌>>=◌ m f w = continue (m w) f

abbrev pub ◌>>◌ : {E A B : Type 0} → M E A → M E B → M E B
m >> k = m >>= λ _. k

-- tx.Begin … tx.Commit with the deferred Rollback: an error puts the tables back.
unfoldable pub transaction : {E A : Type 0} → E → M E A → M E A
transaction e body = rollback (do external e (pure tt); a ← body; external e (pure a))

abbrev cache_entry : Text → List StockQuote → Option StockQuote
cache_entry symbol quotes = find? (λ q. text_eq q.symbol symbol) quotes

-- backend/internal/services/quote_cache.go, RedisQuoteCache.Get: what is found is marked as cached.
unfoldable pub cache_get : {E : Type 0} → E → Text → M E (Option StockQuote)
cache_get e symbol = external e λ w. (
  elim (cache_entry symbol w.quotes) [
    | none ↦ ok none
    | some q ↦ ok (some (record q { cached = true }))
  ],
  w,
)

-- RedisQuoteCache.Set: the entry is stored as not cached, over an older one of its symbol.
unfoldable pub cache_set : {E : Type 0} → E → StockQuote → M E (Unit {0})
cache_set e q =
    external e λ w. (ok tt, record w { quotes = record q { cached = false } ∷ w.quotes })

unfoldable pub candle_entry :
    Text → List (Text × StockCandleSeries) → Option (Text × StockCandleSeries)
candle_entry key entries = find? (λ (e : Text × StockCandleSeries). text_eq e.0 key) entries

abbrev pub as_cached : Option (Text × StockCandleSeries) → Option StockCandleSeries
as_cached none = none
as_cached (some (_, series)) = some (record series { cached = true })

-- RedisQuoteCache.GetCandles and SetCandles, likewise.
unfoldable pub cache_get_candles : {E : Type 0} → E → Text → M E (Option StockCandleSeries)
cache_get_candles e key = external e λ w. (ok (as_cached (candle_entry key w.candles)), w)

unfoldable pub cache_set_candles : {E : Type 0} → E → Text → StockCandleSeries → M E (Unit {0})
cache_set_candles e key series =
    external e
      λ w. (ok tt, record w { candles = (key, record series { cached = false }) ∷ w.candles })
