-- ===== src/Admin/Stocks.antt =====
-- AdminStockService and AdminAlertService of backend/internal/services: what Disable and Enable leave of
-- the tables, on every branch and whatever fails on the way.
use line_stock_alert.Common.{ℕ, ◌≡◌, refl, true, false, [], arith}
use line_stock_alert.Text.{Text, Unicode, trim_space}
use line_stock_alert.World.{Db, World, Standing}
use line_stock_alert.World.Triples.{
  Post, Triple, ◌⟫◌, consequence, with_fact, raise_if_rule, map_err_rule,
}
use line_stock_alert.World.Clock.{At}
use line_stock_alert.Symbols.{matches_symbol, normalize}
use line_stock_alert.Repositories.Admin.{AdminActionContext}
use line_stock_alert.Admin.{
  bad_reason, set_stock_status, disable_stock, enable_stock, disable_alert, map_admin_stock_error,
  map_admin_alert_error,
}
use line_stock_alert.Admin.Transactions.{
  HasSetStock, set_stock_status-HasSetStock, HasDisabledAlert, disable_alert-HasDisabledAlert,
}

module _ (u : Unicode) (action : AdminActionContext) {d : Db} {n : ℕ} where
  pub set_stock-HasSetStock :
      (raw_symbol : Text) (status : Standing) (reason : Text)
      → Triple
          (At d n)
          (set_stock_status u action raw_symbol status reason)
          (λ _ w.
            (matches_symbol (normalize u raw_symbol) ≡ true)
            × HasSetStock action (normalize u raw_symbol) status reason d n w.db)
          (λ _ w. w.db ≡ d)
  unfolding set_stock_status
  set_stock-HasSetStock raw_symbol status reason = raise_if_rule _ _ (λ w _ h. h.0) ⟫ λ _.
      with_fact λ good.
        consequence (λ w h. h) (λ _ w h. (ground arith, h)) (λ _ _ h. h)
          (map_err_rule map_admin_stock_error
            (set_stock_status-HasSetStock action (normalize u raw_symbol) status reason))

  pub disable_stock-HasSetStock :
      (raw_symbol raw_reason : Text)
      → Triple
          (At d n)
          (disable_stock u action raw_symbol raw_reason)
          (λ _ w.
            (bad_reason (trim_space u raw_reason) ≡ false)
            × (matches_symbol (normalize u raw_symbol) ≡ true)
            × HasSetStock action
                (normalize u raw_symbol)
                Standing.disabled
                (trim_space u raw_reason)
                d
                n
                w.db)
          (λ _ w. w.db ≡ d)
  unfolding disable_stock
  disable_stock-HasSetStock raw_symbol raw_reason = raise_if_rule _ _ (λ w _ h. h.0) ⟫ λ _.
      with_fact λ good.
        consequence (λ w h. h) (λ _ w h. (good, h.0, h.1)) (λ _ _ h. h)
          (set_stock-HasSetStock raw_symbol Standing.disabled (trim_space u raw_reason))

  pub disable_alert-triple :
      (raw_id raw_reason : Text)
      → Triple
          (At d n)
          (disable_alert u action raw_id raw_reason)
          (λ _ w.
            (bad_reason (trim_space u raw_reason) ≡ false)
            × HasDisabledAlert action (trim_space u raw_id) (trim_space u raw_reason) d n w.db)
          (λ _ w. w.db ≡ d)
  unfolding disable_alert
  disable_alert-triple raw_id raw_reason = raise_if_rule _ _ (λ w _ h. h.0) ⟫ λ _. with_fact λ good.
      consequence (λ w h. h) (λ _ w h. (good, h)) (λ _ _ h. h)
        (map_err_rule map_admin_alert_error
          (disable_alert-HasDisabledAlert action (trim_space u raw_id) (trim_space u raw_reason)))

-- Enabling a stock that succeeds is of a disabled stock with a valid symbol, and changes that row and
-- the audit log alone; no alert of it becomes active again. One that fails leaves every table as it was.
pub enable_stock_keeps_alerts :
    (u : Unicode) (action : AdminActionContext) (raw_symbol : Text) (w : World)
    → Post
        (λ _ w'.
          HasSetStock action (normalize u raw_symbol) Standing.active [] w.db w.now w'.db
          × (w'.db.alerts ≡ w.db.alerts))
        (λ _ w'. w'.db ≡ w.db)
        (enable_stock u action raw_symbol w)
unfolding enable_stock
enable_stock_keeps_alerts u action raw_symbol w =
    (consequence (λ w' h. h) (λ _ w' h. (h.1, rw h.1.after refl)) (λ _ _ h. h)
        (set_stock-HasSetStock u action raw_symbol Standing.active [])).at
      w (refl, refl)

-- Disabling an alert that succeeds is of an alert that was not disabled, for a reason of 1 to 1000
-- bytes; the tables then differ by the rows with its id and one entry of the audit log. One that fails
-- leaves every table as it was.
pub disable_alert_audited :
    (u : Unicode) (action : AdminActionContext) (raw_id raw_reason : Text) (w : World)
    → Post
        (λ _ w'.
          (bad_reason (trim_space u raw_reason) ≡ false)
          × HasDisabledAlert action
              (trim_space u raw_id)
              (trim_space u raw_reason)
              w.db
              w.now
              w'.db)
        (λ _ w'. w'.db ≡ w.db)
        (disable_alert u action raw_id raw_reason w)
disable_alert_audited u action raw_id raw_reason w =
    (disable_alert-triple u action raw_id raw_reason).at w (refl, refl)
