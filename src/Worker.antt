-- ===== src/Worker.antt =====
-- backend/internal/services/alert_worker.go: the worker that watches prices and notifies users.
pub mod Budget
mod Tests
-- The goroutines of one cycle are run one after the other, in the order of the symbols. The text of
-- formatAlertMessage (fmt.Sprintf over prices and times) is a parameter.
use line_stock_alert.Common.{
  ℕ, ◌+◌, Bool, true, false, not, ◌&&◌, ◌||◌, Option, none, some, List, [], ◌∷◌, if◌then◌else◌, ltb,
  ◌==◌, length,
}
use line_stock_alert.Common.Int.{ℤ, leb_ℤ}
use line_stock_alert.Text.{Text, text, text_eq, is_empty}
use line_stock_alert.World.{
  M, Result, ok, err, World, pure, raise, attempt, external, record_sent, cache_get, cache_set,
  map_err, lift_result, ◌>>=◌, ◌>>◌, StockQuote,
}
use line_stock_alert.Models.{ActiveAlertJob, StockProvider, ProviderError}
use line_stock_alert.Repositories.{RepositoryError, failure}
use line_stock_alert.Repositories.Worker as Store

-- Errors that a cycle only logs do not stop it.
abbrev pub Task : Type 0 → Type 0
Task A = M ⊥ A

unfoldable pub alert_matches : ActiveAlertJob → ℤ → Bool
alert_matches alert price =
    (text_eq alert.condition (text "ABOVE") && leb_ℤ alert.target_price price)
    || (text_eq alert.condition (text "BELOW") && leb_ℤ price alert.target_price)

-- `_ = w.store.LogError(…)`
unfoldable pub log_error : Text → Task (Unit {0})
log_error code = do attempt (Store.log_error code); pure tt

-- A nil or empty LINE id, or a push that fails, is a delivery error.
abbrev pub deliver : Option Text → Text → M RepositoryError (Unit {0})
deliver none message = raise failure
deliver (some line_id) message =
    if is_empty line_id then raise failure else external failure (record_sent line_id message)

abbrev pub succeeded : {E A : Type 0} → Result E A → Bool
succeeded (ok _) = true
succeeded (err _) = false

abbrev pub when : Bool → Task (Unit {0}) → Task (Unit {0})
when true m = m
when false m = pure tt

abbrev pub if_failed : {E A : Type 0} → Result E A → Task (Unit {0}) → Task (Unit {0})
if_failed (ok _) m = pure tt
if_failed (err _) m = m

-- The offset of the next cycle.
unfoldable pub next_offset : ℕ → ℕ → List Text → ℕ
next_offset batch_size offset symbols =
    if length symbols == 0
    then 0
    else if ltb (length symbols) batch_size
    then 0
    else offset + length symbols

module _ (message_of : ActiveAlertJob → StockQuote → Text) (provider : StockProvider) where
  unfoldable pub notify : ActiveAlertJob → StockQuote → Task (Unit {0})
  notify alert quote = do
    let message = message_of alert quote
    delivery ← attempt (deliver alert.line_user_id message)
    recorded ← attempt (Store.record_line_delivery alert (succeeded delivery) message quote.price)
    if_failed recorded (log_error (text "ALERT_LOG_FAILED"))

  -- What follows the attempt to claim one alert.
  abbrev pub after_claim :
      ActiveAlertJob → StockQuote → Result RepositoryError Bool → Task (Unit {0})
  after_claim alert quote (err _) = log_error (text "ALERT_CLAIM_FAILED")
  after_claim alert quote (ok false) = pure tt
  after_claim alert quote (ok true) = notify alert quote

  unfoldable pub process_alert : StockQuote → ActiveAlertJob → Task (Unit {0})
  process_alert quote alert =
      when (alert_matches alert quote.price)
        (attempt (Store.claim_triggered alert.id quote.updated_at) >>= after_claim alert quote)

  -- The loop over the alerts of one symbol.
  unfoldable pub process_alerts : StockQuote → List ActiveAlertJob → Task (Unit {0})
  process_alerts quote [] = pure tt
  process_alerts quote (a ∷ rest) = process_alert quote a >> process_alerts quote rest

  -- The cache, and the provider where the cache fails or has no entry.
  abbrev pub fetch : Text → Option StockQuote → M ProviderError StockQuote
  fetch symbol (some q) = pure q
  fetch symbol none = do
    q ← lift_result (provider.quote symbol)
    attempt {E = ProviderError} (cache_set ProviderError.other q)
    pure q

  abbrev pub cached : {E : Type 0} → Result E (Option StockQuote) → Option StockQuote
  cached (ok o) = o
  cached (err _) = none

  unfoldable pub quote : Text → M ProviderError StockQuote
  quote symbol = do
    hit ← attempt {E = ProviderError} (cache_get ProviderError.other symbol)
    fetch symbol (cached hit)

  abbrev pub after_load :
      StockQuote → Result RepositoryError (List ActiveAlertJob) → Task (Unit {0})
  after_load q (err _) = log_error (text "ALERT_LOAD_FAILED")
  after_load q (ok alerts) = process_alerts q alerts

  abbrev pub after_quote : Text → Result ProviderError StockQuote → Task (Unit {0})
  after_quote symbol (err _) = log_error (text "STOCK_QUOTE_FAILED")
  after_quote symbol (ok q) = do
    saved ← attempt (Store.update_stock_quote symbol q.price q.updated_at)
    if_failed saved (log_error (text "STOCK_QUOTE_SAVE_FAILED"))
    alerts ← attempt (Store.active_alerts symbol)
    after_load q alerts

  unfoldable pub process_symbol : Text → Task (Unit {0})
  process_symbol symbol = attempt (quote symbol) >>= after_quote symbol

  unfoldable pub process_symbols : List Text → Task (Unit {0})
  process_symbols [] = pure tt
  process_symbols (symbol ∷ rest) = process_symbol symbol >> process_symbols rest

  abbrev pub after_symbols : ℕ → ℕ → Result RepositoryError (List Text) → Task ℕ
  after_symbols batch_size offset (err _) = do log_error (text "ALERT_SYMBOLS_FAILED"); pure offset
  after_symbols batch_size offset (ok symbols) = do
    process_symbols symbols
    pure (next_offset batch_size offset symbols)

  -- One cycle at an offset; the result is the offset of the next.
  unfoldable pub run_cycle : ℕ → ℕ → Task ℕ
  unfolding process_symbols
  run_cycle batch_size offset =
      attempt (Store.active_symbols batch_size offset) >>= after_symbols batch_size offset
