-- ===== src/Repositories/Worker.antt =====
-- backend/internal/repositories/alert_worker_repository.go: the queries of the alert worker.
use line_stock_alert.Common.{
  ℕ, Bool, false, not, ◌&&◌, Option, none, some, List, [], ◌∷◌, map, if◌then◌else◌, find?, any,
  filter, count, take, drop, ◌==◌,
}
use line_stock_alert.Common.Int.{ℤ, pos, leb_ℤ}
use line_stock_alert.Text.{Text, text_eq, text_lt}
use line_stock_alert.World.{
  M, Db, pure, raise_if, read, write, read_clock, external, ◌>>=◌, ◌>>◌, AlertRow, AlertStatus,
  alert_is_active, StockRow, AlertLogRow, is_active,
}
use line_stock_alert.Sort.{sort_by}
use line_stock_alert.Rows.{update_where}
use line_stock_alert.Models.{ActiveAlertJob}
use line_stock_alert.Repositories.Errors.{RepositoryError, failure}
use line_stock_alert.Repositories.Alerts.{stock_of}

-- `a.status='ACTIVE' AND s.status='ACTIVE'`: the symbol of an alert that is watched.
abbrev pub watched_symbol : Db → AlertRow → Option Text
watched_symbol db a = elim (stock_of db a) [
  | none ↦ none
  | some s ↦ if alert_is_active a.status && is_active s.status then some s.symbol else none
]

-- SELECT DISTINCT
unfoldable pub distinct_symbols : Db → List AlertRow → List Text
distinct_symbols db [] = []
distinct_symbols db (a ∷ rest) =
    let symbols = distinct_symbols db rest in
    elim (watched_symbol db a) [
      | none ↦ symbols
      | some symbol ↦ if any (text_eq symbol) symbols then symbols else symbol ∷ symbols
    ]

unfoldable pub watched_symbols : Db → List Text
unfolding distinct_symbols sort_by
watched_symbols db = sort_by (λ s t. not (text_lt t s)) (distinct_symbols db db.alerts)

unfoldable pub active_symbols : ℕ → ℕ → M RepositoryError (List Text)
active_symbols limit offset =
    external failure (read λ db. take limit (drop offset (watched_symbols db)))

-- `LEFT JOIN user_identities ui ON ui.user_id=a.user_id AND ui.provider='LINE'`
abbrev pub line_id_of : Db → Text → Option Text
line_id_of db user_id = elim (find? (λ i. text_eq i.user_id user_id) db.identities) [
  | none ↦ none
  | some i ↦ some i.provider_user_id
]

abbrev pub user_is_active : Db → Text → Bool
user_is_active db user_id = elim (find? (λ u. text_eq u.id user_id) db.users) [
  | none ↦ false
  | some u ↦ is_active u.status
]

abbrev pub job_of : Db → Text → AlertRow → ActiveAlertJob
job_of db symbol a = record {
  id = a.id;
  user_id = a.user_id;
  line_user_id = line_id_of db a.user_id;
  symbol = symbol;
  condition = a.condition;
  target_price = a.target_price;
}

abbrev pub is_watched_for : Db → Text → AlertRow → Bool
is_watched_for db symbol a = elim (watched_symbol db a) [
  | none ↦ false
  | some s ↦ text_eq s symbol && user_is_active db a.user_id
]

unfoldable pub active_alerts : Text → M RepositoryError (List ActiveAlertJob)
active_alerts symbol =
    external failure
      (read λ db. map (job_of db symbol) (filter (is_watched_for db symbol) db.alerts))

abbrev pub is_claimable : Text → AlertRow → Bool
is_claimable alert_id a = text_eq a.id alert_id && alert_is_active a.status

-- `SET status='TRIGGERED',triggered_at=$2,disabled_reason=NULL,disabled_at=NULL`
abbrev pub trigger : ℕ → ℕ → AlertRow → AlertRow
trigger at now a = record a {
  status = AlertStatus.triggered;
  triggered_at = some at;
  disabled_reason = none;
  disabled_at = none;
  updated_at = now;
}

-- `result.RowsAffected() == 1`
unfoldable pub claim_triggered : Text → ℕ → M RepositoryError Bool
claim_triggered alert_id at = external failure (do
  affected ← read (λ db. count (is_claimable alert_id) db.alerts)
  now ← read_clock
  write
      (λ db. record db { alerts = update_where (is_claimable alert_id) (trigger at now) db.alerts })
  pure (affected == 1))

abbrev set_quote : ℤ → ℕ → StockRow → StockRow
set_quote price at s = record s { last_quote_price = some price; last_quote_at = some at }

-- The CHECK on last_quote_price refuses a negative price.
unfoldable pub update_stock_quote : Text → ℤ → ℕ → M RepositoryError (Unit {0})
update_stock_quote symbol price at = external failure (do
  found ← read (λ db. any (λ s. text_eq s.symbol symbol) db.stocks)
  raise_if (found && not (leb_ℤ (pos 0) price)) failure
  write (λ db. record db {
    stocks = update_where (λ s. text_eq s.symbol symbol) (set_quote price at) db.stocks;
  }))

-- The CHECK on triggered_price refuses a negative price.
unfoldable pub record_line_delivery :
    ActiveAlertJob → Bool → Text → ℤ → M RepositoryError (Unit {0})
record_line_delivery job delivered message price = external failure (do
  now ← read_clock
  raise_if (not (leb_ℤ (pos 0) price)) failure
  write (λ db.
      let row : AlertLogRow = record {
        alert_id = job.id;
        user_id = job.user_id;
        sent = delivered;
        message = message;
        triggered_price = price;
        sent_at = if delivered then some now else none;
      } in
      record db { alert_logs = row ∷ db.alert_logs }))

unfoldable pub log_error : Text → M RepositoryError (Unit {0})
log_error code =
    external failure (write λ db. record db { application_logs = code ∷ db.application_logs })
