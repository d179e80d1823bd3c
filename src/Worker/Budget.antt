-- ===== src/Worker/Budget.antt =====
-- AlertWorker.processSymbol and runCycle: a LINE message or a delivery record is paid for by an alert
-- that the worker has just claimed, whatever fails on the way.
use line_stock_alert.Common.{
  ℕ, suc, ◌+◌, ◌≤◌, ◌≡◌, Bool, true, false, Option, none, some, List, [], ◌∷◌, arith, count, length,
  Bool-cases, inl, inr,
}
use line_stock_alert.Common.Int.{ℤ}
use line_stock_alert.Text.{Text, text, is_empty}
use line_stock_alert.World.{
  ◌>>=◌, cache_get, cache_set, World, Result, ok, err, AlertRow, alert_is_active, StockQuote,
}
use line_stock_alert.World.Triples.{
  Triple, ◌⟫◌, Post, consequence, attempt_rule, external_rule, return_rule, raise_rule,
}
use line_stock_alert.Rows.{update_where}
use line_stock_alert.Models.{ActiveAlertJob, StockProvider, ProviderError}
use line_stock_alert.Repositories.{RepositoryError, failure}
use line_stock_alert.Repositories.Worker as Store
use line_stock_alert.Repositories.Worker.{is_claimable, trigger, claim_triggered}
use line_stock_alert.Worker.{
  Task, deliver, log_error, notify, process_alert, process_alerts, quote, process_symbol,
  process_symbols, run_cycle, after_claim, after_load, after_quote, after_symbols, alert_matches,
  if_failed, when, succeeded, next_offset,
}

abbrev pub active_total : World → ℕ
active_total w = count (λ (a : AlertRow). alert_is_active a.status) w.db.alerts

-- So many messages and delivery records may still be afforded.
pub record Affords (messages logs : ℕ) (w : World) : Type 0 where
  pub by_message : length w.sent + active_total w ≤ messages
  pub by_log : length w.db.alert_logs + active_total w ≤ logs

-- A claim by id takes each row that it changes out of the active ones.
claim-count :
    (alert_id : Text) (at now : ℕ) (rows : List AlertRow)
    → count
          (λ (a : AlertRow). alert_is_active a.status)
          (update_where (is_claimable alert_id) (trigger at now) rows)
        + count (is_claimable alert_id) rows
      ≡ count (λ (a : AlertRow). alert_is_active a.status) rows
claim-count alert_id at now [] = omega arith
claim-count alert_id at now (r ∷ rows) = ground (arith, claim-count alert_id at now rows)

-- As Affords, with one message and one record to spare.
abbrev Spares : ℕ → ℕ → World → Type 0
Spares m l w =
    (suc (length w.sent + active_total w) ≤ m) × (suc (length w.db.alert_logs + active_total w) ≤ l)

abbrev Claimed : ℕ → ℕ → Bool → World → Type 0
Claimed m l true w = Spares m l w
Claimed m l false w = Affords m l w

module _ (m l : ℕ) where
  claim-Claimed :
      (alert_id : Text) (at : ℕ)
      → Triple (Affords m l) (claim_triggered alert_id at) (Claimed m l) (λ _ w. Affords m l w)
  unfolding claim_triggered
  claim-Claimed alert_id at =
      external_rule failure (λ w fs h. record { by_message = h.by_message; by_log = h.by_log })
        (λ w h. h)
        (unfold ◌>>=◌ in
          record { at = λ w h. ground (arith, claim-count alert_id at w.now w.db.alerts) })

  -- The message may have gone out; the delivery record is still to be written.
  abbrev Delivered : World → Type 0
  Delivered w =
      (length w.sent + active_total w ≤ m) × (suc (length w.db.alert_logs + active_total w) ≤ l)

  deliver-Delivered :
      (to : Option Text) (message : Text)
      → Triple (Spares m l) (deliver to message) (λ _ w. Delivered w) (λ _ w. Delivered w)
  deliver-Delivered none message = raise_rule _ failure (λ w h. omega arith)
  deliver-Delivered (some id) message = elim (Bool-cases (is_empty id)) [
    | inl e ↦ rw e (raise_rule _ failure (λ w h. omega arith))
    | inr e ↦ rw e (
        external_rule {P = Spares m l} failure (λ w fs h. h) (λ w h. omega arith)
          (unfold ◌>>=◌ in record { at = λ w h. omega arith }))
  ]

  record_line_delivery-Affords :
      (job : ActiveAlertJob) (delivered : Bool) (message : Text) (price : ℤ)
      → Triple Delivered
          (Store.record_line_delivery job delivered message price)
          (λ _ w. Affords m l w)
          (λ _ w. Affords m l w)
  unfolding Store.record_line_delivery
  record_line_delivery-Affords job delivered message price =
      external_rule {P = Delivered} failure (λ w fs h. h)
        (λ w h. record { by_message = omega arith; by_log = omega arith })
        (unfold ◌>>=◌ in record { at = λ w h. ground arith })

  log_error-Affords :
      (code : Text) → Triple (Affords m l) (log_error code) (λ _ w. Affords m l w) (λ _ _. ⊥)
  unfolding log_error Store.log_error ◌>>=◌
  log_error-Affords code = record { at = λ w h. ground arith }

  update_stock_quote-Affords :
      (symbol : Text) (price : ℤ) (at : ℕ)
      → Triple
          (Affords m l)
          (Store.update_stock_quote symbol price at)
          (λ _ w. Affords m l w)
          (λ _ w. Affords m l w)
  unfolding Store.update_stock_quote ◌>>=◌
  update_stock_quote-Affords symbol price at = record { at = λ w h. ground arith }

  active_alerts-Affords :
      (symbol : Text)
      → Triple
          (Affords m l)
          (Store.active_alerts symbol)
          (λ _ w. Affords m l w)
          (λ _ w. Affords m l w)
  unfolding Store.active_alerts ◌>>=◌
  active_alerts-Affords symbol = record { at = λ w h. ground arith }

  active_symbols-Affords :
      (limit offset : ℕ)
      → Triple
          (Affords m l)
          (Store.active_symbols limit offset)
          (λ _ w. Affords m l w)
          (λ _ w. Affords m l w)
  unfolding Store.active_symbols ◌>>=◌
  active_symbols-Affords limit offset = record { at = λ w h. ground arith }

  if_failed-Affords :
      {E A : Type 0} (r : Result E A) (code : Text)
      → Triple
          (λ w. Post (λ _ v. Affords m l v) (λ _ v. Affords m l v) (r, w))
          (if_failed r (log_error code))
          (λ _ w. Affords m l w)
          (λ _ _. ⊥)
  if_failed-Affords (ok a) code = return_rule tt (λ w h. h)
  if_failed-Affords (err e) code = log_error-Affords code

  when-Affords :
      (b : Bool) {t : Task (Unit {0})}
      → Triple (Affords m l) t (λ _ w. Affords m l w) (λ _ _. ⊥)
      → Triple (Affords m l) (when b t) (λ _ w. Affords m l w) (λ _ _. ⊥)
  when-Affords true h = h
  when-Affords false h = return_rule tt (λ w h. h)

  module _ (message_of : ActiveAlertJob → StockQuote → Text) (provider : StockProvider) where
    quote-Affords :
        (symbol : Text)
        → Triple
            (Affords m l)
            (quote message_of provider symbol)
            (λ _ w. Affords m l w)
            (λ _ w. Affords m l w)
    unfolding quote cache_get cache_set ◌>>=◌
    quote-Affords symbol = record { at = λ w h. ground arith }

    notify-Affords :
        (alert : ActiveAlertJob) (q : StockQuote)
        → Triple (Spares m l) (notify message_of provider alert q) (λ _ w. Affords m l w) (λ _ _. ⊥)
    unfolding notify
    notify-Affords alert q =
        attempt_rule (deliver-Delivered alert.line_user_id (message_of alert q)) ⟫ λ delivery.
        attempt_rule (
          consequence {P = Delivered} (λ w h. of_delivery delivery w h) (λ a w h. h) (λ e w h. h)
            (record_line_delivery-Affords alert (succeeded delivery) (message_of alert q) q.price))
        ⟫ λ recorded. if_failed-Affords recorded (text "ALERT_LOG_FAILED")
      where
        of_delivery :
            (r : Result RepositoryError (Unit {0})) (w : World)
            → Post (λ _ v. Delivered v) (λ _ v. Delivered v) (r, w)
            → Delivered w
        of_delivery (ok a) w h = h
        of_delivery (err e) w h = h

    after_claim-Affords :
        (alert : ActiveAlertJob) (q : StockQuote) (r : Result RepositoryError Bool)
        → Triple
            (λ w. Post (Claimed m l) (λ _ v. Affords m l v) (r, w))
            (after_claim message_of provider alert q r)
            (λ _ w. Affords m l w)
            (λ _ _. ⊥)
    after_claim-Affords alert q (err e) = log_error-Affords (text "ALERT_CLAIM_FAILED")
    after_claim-Affords alert q (ok false) = return_rule tt (λ w h. h)
    after_claim-Affords alert q (ok true) = notify-Affords alert q

    process_alert-Affords :
        (q : StockQuote) (alert : ActiveAlertJob)
        → Triple
            (Affords m l)
            (process_alert message_of provider q alert)
            (λ _ w. Affords m l w)
            (λ _ _. ⊥)
    unfolding process_alert
    process_alert-Affords q alert =
        when-Affords (alert_matches alert q.price)
          (attempt_rule (claim-Claimed alert.id q.updated_at) ⟫ λ r. after_claim-Affords alert q r)

    process_alerts-Affords :
        (q : StockQuote) (alerts : List ActiveAlertJob)
        → Triple
            (Affords m l)
            (process_alerts message_of provider q alerts)
            (λ _ w. Affords m l w)
            (λ _ _. ⊥)
    unfolding process_alerts
    process_alerts-Affords q [] = return_rule tt (λ w h. h)
    process_alerts-Affords q (a ∷ rest) =
        process_alert-Affords q a ⟫ λ _. process_alerts-Affords q rest

    after_load-Affords :
        (q : StockQuote) (r : Result RepositoryError (List ActiveAlertJob))
        → Triple
            (λ w. Post (λ _ v. Affords m l v) (λ _ v. Affords m l v) (r, w))
            (after_load message_of provider q r)
            (λ _ w. Affords m l w)
            (λ _ _. ⊥)
    after_load-Affords q (err e) = log_error-Affords (text "ALERT_LOAD_FAILED")
    after_load-Affords q (ok alerts) = process_alerts-Affords q alerts

    after_quote-Affords :
        (symbol : Text) (r : Result ProviderError StockQuote)
        → Triple
            (λ w. Post (λ _ v. Affords m l v) (λ _ v. Affords m l v) (r, w))
            (after_quote message_of provider symbol r)
            (λ _ w. Affords m l w)
            (λ _ _. ⊥)
    after_quote-Affords symbol (err e) = log_error-Affords (text "STOCK_QUOTE_FAILED")
    after_quote-Affords symbol (ok q) =
        attempt_rule (update_stock_quote-Affords symbol q.price q.updated_at) ⟫ λ saved.
        if_failed-Affords saved (text "STOCK_QUOTE_SAVE_FAILED") ⟫ λ _.
        attempt_rule (active_alerts-Affords symbol) ⟫ λ alerts. after_load-Affords q alerts

    process_symbol-Affords :
        (symbol : Text)
        → Triple
            (Affords m l)
            (process_symbol message_of provider symbol)
            (λ _ w. Affords m l w)
            (λ _ _. ⊥)
    unfolding process_symbol
    process_symbol-Affords symbol =
        attempt_rule (quote-Affords symbol) ⟫ λ r. after_quote-Affords symbol r

    process_symbols-Affords :
        (symbols : List Text)
        → Triple
            (Affords m l)
            (process_symbols message_of provider symbols)
            (λ _ w. Affords m l w)
            (λ _ _. ⊥)
    unfolding process_symbols
    process_symbols-Affords [] = return_rule tt (λ w h. h)
    process_symbols-Affords (s ∷ rest) =
        process_symbol-Affords s ⟫ λ _. process_symbols-Affords rest

    after_symbols-Affords :
        (batch_size offset : ℕ) (r : Result RepositoryError (List Text))
        → Triple
            (λ w. Post (λ _ v. Affords m l v) (λ _ v. Affords m l v) (r, w))
            (after_symbols message_of provider batch_size offset r)
            (λ _ w. Affords m l w)
            (λ _ _. ⊥)
    after_symbols-Affords batch_size offset (err e) =
        log_error-Affords (text "ALERT_SYMBOLS_FAILED") ⟫ λ _. return_rule offset (λ w h. h)
    after_symbols-Affords batch_size offset (ok symbols) = process_symbols-Affords symbols ⟫ λ _.
        return_rule (next_offset batch_size offset symbols) (λ w h. h)

    run_cycle-Affords :
        (batch_size offset : ℕ)
        → Triple
            (Affords m l)
            (run_cycle message_of provider batch_size offset)
            (λ _ w. Affords m l w)
            (λ _ _. ⊥)
    unfolding run_cycle
    run_cycle-Affords batch_size offset =
        attempt_rule (active_symbols-Affords batch_size offset) ⟫ λ r.
        after_symbols-Affords batch_size offset r

-- One cycle of the worker sends at most as many LINE messages, and writes at most as many delivery
-- records, as it turns active alerts into triggered ones, whatever statements and pushes fail; and
-- it always ends without an error.
pub run_cycle_claims_first :
    (message_of : ActiveAlertJob → StockQuote → Text) (provider : StockProvider)
    (batch_size offset : ℕ) (w : World)
    → Post
        (λ _ w'.
          (length w'.sent + active_total w' ≤ length w.sent + active_total w)
          × (length w'.db.alert_logs + active_total w' ≤ length w.db.alert_logs + active_total w))
        (λ _ _. ⊥)
        (run_cycle message_of provider batch_size offset w)
run_cycle_claims_first message_of provider batch_size offset w =
    let budget : Affords (length w.sent + active_total w) (length w.db.alert_logs + active_total w)
        w =
      record { by_message = omega arith; by_log = omega arith } in
    (consequence (λ v h. h) (λ _ v h. (h.by_message, h.by_log)) (λ e v h. h)
        (run_cycle-Affords (length w.sent + active_total w)
          (length w.db.alert_logs + active_total w) message_of provider batch_size offset)).at
      w budget
