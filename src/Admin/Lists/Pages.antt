-- ===== src/Admin/Lists/Pages.antt =====
-- List of backend/internal/services/admin_alert_service.go, with the queries of
-- backend/internal/repositories/admin_alert_repository.go: what a page is.
use line_stock_alert.Common.{◌-◌, ◌*◌, ◌≤◌, ◌≡◌, true, ◌||◌, length}
use line_stock_alert.Text.{Text, Unicode, is_empty, trim_space}
use line_stock_alert.World.{Db, World}
use line_stock_alert.Symbols.{matches_symbol, normalize}
use line_stock_alert.Repositories.AdminLists as Store
use line_stock_alert.Repositories.AdminLists.{
  AdminAlert, slice, with_stocks, with_users, alert_passes, selected_alerts,
}
use line_stock_alert.Admin.Lists.{
  AdminAlertPage, is_alert_status, uuid_filter_pattern, alert_filter,
}

-- What a page of alerts is, of the tables `d`.
pub record IsAlertPage (u : Unicode) (raw_symbol raw_status raw_user_id : Text) (d : Db)
    (p : AdminAlertPage) : Type 0 where
  pub page_positive : 1 ≤ p.page
  pub page_bounded : p.page ≤ 1000000
  pub limit_positive : 1 ≤ p.limit
  pub limit_bounded : p.limit ≤ 100
  pub symbol : (is_empty (normalize u raw_symbol) || matches_symbol (normalize u raw_symbol)) ≡ true
  pub status :
      (is_empty (normalize u raw_status) || is_alert_status (normalize u raw_status)) ≡ true
  pub user :
      (is_empty (trim_space u raw_user_id) || uuid_filter_pattern (trim_space u raw_user_id)) ≡ true
  pub counted :
      p.total
      ≡ length (
          selected_alerts
            (alert_filter
              (normalize u raw_symbol)
              (normalize u raw_status)
              (trim_space u raw_user_id)
              p.page
              p.limit)
            d)
  pub cut_out :
      p.alerts
      ≡ slice p.limit ((p.page - 1) * p.limit) (
          selected_alerts
            (alert_filter
              (normalize u raw_symbol)
              (normalize u raw_status)
              (trim_space u raw_user_id)
              p.page
              p.limit)
            d)

abbrev Same : Db → World → Type 0
Same d w = w.db ≡ d
