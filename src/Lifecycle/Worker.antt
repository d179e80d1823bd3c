-- ===== src/Lifecycle/Worker.antt =====
-- AlertWorker of backend/internal/services/alert_worker.go runs the machine of alerts.
use mathlib.Core.Bool.{true≢false}
use line_stock_alert.Common.{
  ℕ, ◌≡◌, refl, sym, Bool, true, false, Option, none, some, List, [], ◌∷◌, arith, if◌then◌else◌,
}
use line_stock_alert.Common.Int.{ℤ}
use line_stock_alert.Text.{Text, is_empty}
use line_stock_alert.World.{
  Result, ok, err, AlertRow, AlertStatus, alert_is_active, StockQuote, external, raise, record_sent,
}
use line_stock_alert.Models.{ActiveAlertJob, StockProvider, ProviderError}
use line_stock_alert.Repositories.{RepositoryError, failure}
use line_stock_alert.Repositories.Worker as Store
use line_stock_alert.Worker as Cycle
use line_stock_alert.Lifecycle.{IsMoved, Move, fire, done}
use line_stock_alert.Lifecycle.Keeps.{
  Keeps, IsPreorder, pure-Keeps, raise-Keeps, lift-Keeps, read-Keeps, external-Keeps, attempt-Keeps,
  clock-Keeps, raise_if-Keeps, sent-Keeps, cache_get-Keeps, cache_set-Keeps, bind-Keeps,
  write-Keeps,
}
use line_stock_alert.Lifecycle.Runs.{Runs, Runs-IsPreorder, update_where-Run}

fire_move : (s : AlertStatus) → alert_is_active s ≡ true → Move s AlertStatus.triggered
fire_move AlertStatus.active e = fire
fire_move AlertStatus.triggered e = absurd (true≢false (sym e))
fire_move AlertStatus.disabled e = absurd (true≢false (sym e))

fired :
    (a : AlertRow) (at now : ℕ)
    → alert_is_active a.status ≡ true
    → IsMoved a (Store.trigger at now a)
fired a at now e = record { id = refl; owner = refl; status = fire_move a.status e }

module _ (b : Bool) where
  abbrev o : IsPreorder (Runs b)
  o = Runs-IsPreorder b

  claim_triggered-Keeps : (id : Text) (at : ℕ) → Keeps (Runs b) (Store.claim_triggered id at)
  unfolding Store.claim_triggered
  claim_triggered-Keeps id at = external-Keeps o _ (
      bind-Keeps o (read-Keeps o _) λ affected. bind-Keeps o (clock-Keeps o) λ now.
        bind-Keeps o
          (write-Keeps _ λ d.
            update_where-Run b (Store.is_claimable id) (Store.trigger at now) d.alerts
              λ a e. fired a at now (ground (arith, e)))
          λ _. pure-Keeps o _)

  update_stock_quote-Keeps :
      (symbol : Text) (price : ℤ) (at : ℕ)
      → Keeps (Runs b) (Store.update_stock_quote symbol price at)
  unfolding Store.update_stock_quote
  update_stock_quote-Keeps symbol price at = external-Keeps o _ (
      bind-Keeps o (read-Keeps o _)
        λ found. bind-Keeps o (raise_if-Keeps o _ _) λ _. write-Keeps _ λ d. done d.alerts)

  record_line_delivery-Keeps :
      (job : ActiveAlertJob) (sent : Bool) (message : Text) (price : ℤ)
      → Keeps (Runs b) (Store.record_line_delivery job sent message price)
  unfolding Store.record_line_delivery
  record_line_delivery-Keeps job sent message price = external-Keeps o _ (
      bind-Keeps o (clock-Keeps o)
        λ now. bind-Keeps o (raise_if-Keeps o _ _) λ _. write-Keeps _ λ d. done d.alerts)

  log_error-Keeps : (code : Text) → Keeps (Runs b) (Cycle.log_error code)
  unfolding Cycle.log_error Store.log_error
  log_error-Keeps code =
      bind-Keeps o (attempt-Keeps o (external-Keeps o _ (write-Keeps _ λ d. done d.alerts)))
        λ _. pure-Keeps o _

  if_failed-Keeps :
      {E A : Type 0} (r : Result E A) (code : Text)
      → Keeps (Runs b) (Cycle.if_failed r (Cycle.log_error code))
  if_failed-Keeps (ok _) code = pure-Keeps o tt
  if_failed-Keeps (err _) code = log_error-Keeps code

  send-Keeps :
      (c : Bool) (to message : Text)
      → Keeps (Runs b) (if c then raise failure else external failure (record_sent to message))
  send-Keeps true to message = raise-Keeps o failure
  send-Keeps false to message = external-Keeps o failure (sent-Keeps o to message)

  deliver-Keeps : (to : Option Text) (message : Text) → Keeps (Runs b) (Cycle.deliver to message)
  deliver-Keeps none message = raise-Keeps o failure
  deliver-Keeps (some id) message = send-Keeps (is_empty id) id message

  module _ (message_of : ActiveAlertJob → StockQuote → Text) (provider : StockProvider) where
    notify-Keeps :
        (alert : ActiveAlertJob) (q : StockQuote)
        → Keeps (Runs b) (Cycle.notify message_of provider alert q)
    unfolding Cycle.notify
    notify-Keeps alert q = bind-Keeps o (attempt-Keeps o (deliver-Keeps _ _)) λ delivery.
        bind-Keeps o (attempt-Keeps o (record_line_delivery-Keeps alert _ _ _))
          λ r. if_failed-Keeps r _

    after_claim-Keeps :
        (alert : ActiveAlertJob) (q : StockQuote) (r : Result RepositoryError Bool)
        → Keeps (Runs b) (Cycle.after_claim message_of provider alert q r)
    after_claim-Keeps alert q (err _) = log_error-Keeps _
    after_claim-Keeps alert q (ok false) = pure-Keeps o tt
    after_claim-Keeps alert q (ok true) = notify-Keeps alert q

    when-Keeps :
        (c : Bool) (m : Cycle.Task (Unit {0})) → Keeps (Runs b) m → Keeps (Runs b) (Cycle.when c m)
    when-Keeps true m h = h
    when-Keeps false m h = pure-Keeps o tt

    process_alerts-Keeps :
        (q : StockQuote) (alerts : List ActiveAlertJob)
        → Keeps (Runs b) (Cycle.process_alerts message_of provider q alerts)
    unfolding Cycle.process_alerts Cycle.process_alert
    process_alerts-Keeps q [] = pure-Keeps o tt
    process_alerts-Keeps q (a ∷ rest) =
        bind-Keeps o
          (when-Keeps _ _ (
            bind-Keeps o (attempt-Keeps o (claim_triggered-Keeps a.id q.updated_at))
              λ r. after_claim-Keeps a q r))
          λ _. process_alerts-Keeps q rest

    fetch-Keeps :
        (symbol : Text) (hit : Option StockQuote)
        → Keeps (Runs b) (Cycle.fetch message_of provider symbol hit)
    fetch-Keeps symbol (some q) = pure-Keeps o q
    fetch-Keeps symbol none =
        bind-Keeps o (lift-Keeps o _)
          λ q. bind-Keeps o (attempt-Keeps o (cache_set-Keeps o _ q)) λ _. pure-Keeps o q

    after_load-Keeps :
        (q : StockQuote) (r : Result RepositoryError (List ActiveAlertJob))
        → Keeps (Runs b) (Cycle.after_load message_of provider q r)
    after_load-Keeps q (err _) = log_error-Keeps _
    after_load-Keeps q (ok alerts) = process_alerts-Keeps q alerts

    after_quote-Keeps :
        (symbol : Text) (r : Result ProviderError StockQuote)
        → Keeps (Runs b) (Cycle.after_quote message_of provider symbol r)
    unfolding Store.active_alerts
    after_quote-Keeps symbol (err _) = log_error-Keeps _
    after_quote-Keeps symbol (ok q) =
        bind-Keeps o (attempt-Keeps o (update_stock_quote-Keeps symbol _ _)) λ saved.
          bind-Keeps o (if_failed-Keeps saved _) λ _.
            bind-Keeps o (attempt-Keeps o (external-Keeps o _ (read-Keeps o _)))
              λ r. after_load-Keeps q r

    process_symbols-Keeps :
        (symbols : List Text) → Keeps (Runs b) (Cycle.process_symbols message_of provider symbols)
    unfolding Cycle.process_symbols Cycle.process_symbol Cycle.quote
    process_symbols-Keeps [] = pure-Keeps o tt
    process_symbols-Keeps (symbol ∷ rest) =
        bind-Keeps o
          (bind-Keeps o
            (attempt-Keeps o (
              bind-Keeps o (attempt-Keeps o (cache_get-Keeps o _ symbol))
                λ hit. fetch-Keeps symbol _))
            λ r. after_quote-Keeps symbol r)
          λ _. process_symbols-Keeps rest

    after_symbols-Keeps :
        (size offset : ℕ) (r : Result RepositoryError (List Text))
        → Keeps (Runs b) (Cycle.after_symbols message_of provider size offset r)
    after_symbols-Keeps size offset (err _) =
        bind-Keeps o (log_error-Keeps _) λ _. pure-Keeps o offset
    after_symbols-Keeps size offset (ok symbols) =
        bind-Keeps o (process_symbols-Keeps symbols) λ _. pure-Keeps o _

    pub run_cycle-Keeps :
        (size offset : ℕ) → Keeps (Runs b) (Cycle.run_cycle message_of provider size offset)
    unfolding Cycle.run_cycle Store.active_symbols
    run_cycle-Keeps size offset =
        bind-Keeps o (attempt-Keeps o (external-Keeps o _ (read-Keeps o _)))
          λ r. after_symbols-Keeps size offset r
