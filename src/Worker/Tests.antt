-- ===== src/Worker/Tests.antt =====
-- AlertWorker of backend/internal/services/alert_worker.go on concrete tables.
use line_stock_alert.Common.{◌+◌, ◌≤◌, ◌≡◌, refl, [], ◌∷◌, length}
use line_stock_alert.Text.{Text, text, text_eq}
use line_stock_alert.World.{◌>>=◌, cache_get, cache_set, StockQuote}
use line_stock_alert.Models.{ActiveAlertJob}
use line_stock_alert.Repositories.Worker as Store
use line_stock_alert.Examples.{world, quoting}
use line_stock_alert.Worker.{
  run_cycle, process_symbol, process_alerts, process_alert, quote, notify, alert_matches, log_error,
  next_offset,
}
use line_stock_alert.Worker.Budget.{active_total, run_cycle_claims_first}

abbrev message_of : ActiveAlertJob → StockQuote → Text
message_of alert q = text "fired"

-- The alert is notified of once.
run_cycle_sends :
    (run_cycle message_of (quoting 12) 10 0 world).1.sent ≡ (text "L3", text "fired") ∷ []
unfolding run_cycle process_symbol process_alerts process_alert quote notify alert_matches log_error
    next_offset cache_get cache_set ◌>>=◌ text_eq Store.active_symbols Store.watched_symbols
    Store.update_stock_quote Store.active_alerts Store.claim_triggered Store.record_line_delivery
run_cycle_sends = refl

run_cycle_claims_first_example :
    length (run_cycle message_of (quoting 12) 10 0 world).1.sent
      + active_total (run_cycle message_of (quoting 12) 10 0 world).1
    ≤ 1
unfolding run_cycle process_symbol process_alerts process_alert quote notify alert_matches log_error
    next_offset cache_get cache_set ◌>>=◌ text_eq Store.active_symbols Store.watched_symbols
    Store.update_stock_quote Store.active_alerts Store.claim_triggered Store.record_line_delivery
run_cycle_claims_first_example = (run_cycle_claims_first message_of (quoting 12) 10 0 world).0
