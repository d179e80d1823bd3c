-- ===== src/Repositories/Admin.antt =====
-- SetStatus and Disable of backend/internal/repositories/admin_user_repository.go,
-- admin_stock_repository.go and admin_alert_repository.go: the transactions of an administrator.
use line_stock_alert.Common.{
  ℕ, Bool, true, false, not, ◌&&◌, Option, none, some, ◌∷◌, ◌++◌, find?, count, leb,
}
use line_stock_alert.Text.{Text, text, text_eq}
use line_stock_alert.World.{
  M, pure, raise, raise_if, read, write, read_clock, external, transaction, ◌>>=◌, ◌>>◌, UserRow,
  TokenRow, StockRow, AlertRow, AuditRow, Role, Standing, AlertStatus, is_admin, is_active,
  alert_is_active, alert_is_disabled,
}
use line_stock_alert.Rows.{update_where}
use line_stock_alert.Repositories.Errors.{
  RepositoryError, failure, admin_user_not_found, admin_action_not_allowed, admin_stock_not_found,
  admin_stock_action_not_allowed, admin_alert_not_found, admin_alert_action_not_allowed,
}
use line_stock_alert.Repositories.Auth.{of_user, is_revoked, revoke}

-- The address and agent of the administrator are only written to the audit log.
pub record AdminActionContext : Type 0 where
  pub admin_user_id : Text

abbrev pub same_standing : Standing → Standing → Bool
same_standing Standing.active Standing.active = true
same_standing Standing.disabled Standing.disabled = true
same_standing _ _ = false

abbrev pub audit_row : AdminActionContext → Text → Text → Text → AuditRow
audit_row action what target_id reason = record {
  admin_user_id = action.admin_user_id;
  action = what;
  target_id = target_id;
  reason = reason;
}

unfoldable pub insert_audit : AuditRow → M RepositoryError (Unit {0})
insert_audit entry = write (λ db. record db { audit_logs = entry ∷ db.audit_logs })

unfoldable pub one_or : {A : Type 0} → RepositoryError → Option A → M RepositoryError A
one_or e none = raise e
one_or e (some a) = pure a

abbrev pub user_id_is : Text → UserRow → Bool
user_id_is id u = text_eq u.id id

-- `WHERE role = 'ADMIN' AND status = 'ACTIVE'`
abbrev pub is_active_admin : UserRow → Bool
is_active_admin u = is_admin u.role && is_active u.status

abbrev pub disable_user_row : Text → ℕ → UserRow → UserRow
disable_user_row reason now u = record u {
  status = Standing.disabled;
  disabled_reason = some reason;
  disabled_at = some now;
}

abbrev pub enable_user_row : UserRow → UserRow
enable_user_row u = record u {
  status = Standing.active;
  disabled_reason = none;
  disabled_at = none;
}

-- `WHERE user_id::text = $1 AND revoked_at IS NULL`
abbrev pub is_live_of : Text → TokenRow → Bool
is_live_of user_id t = of_user user_id t && not (is_revoked t)

-- `if status == "DISABLED" && role == "ADMIN"`: the last active administrator stays.
abbrev pub keep_an_admin : Standing → Role → M RepositoryError (Unit {0})
keep_an_admin Standing.disabled Role.admin = do
  admins ← external failure (read (λ db. count is_active_admin db.users))
  raise_if (leb admins 1) admin_action_not_allowed
keep_an_admin _ _ = pure tt

abbrev pub update_user_status : Text → Standing → Text → M RepositoryError (Unit {0})
update_user_status id Standing.disabled reason = do
  external failure (do
    now ← read_clock
    write (λ db. record db {
      users = update_where (user_id_is id) (disable_user_row reason now) db.users;
    }))
  external failure (do
    now ← read_clock
    write (λ db. record db { tokens = update_where (is_live_of id) (revoke now) db.tokens }))
update_user_status id Standing.active reason =
    external failure
      (write (λ db. record db { users = update_where (user_id_is id) enable_user_row db.users }))

abbrev pub user_action : Standing → Text
user_action Standing.disabled = text "USER_DISABLED"
user_action Standing.active = text "USER_ENABLED"

unfoldable pub set_user_status :
    AdminActionContext → Text → Standing → Text → M RepositoryError (Unit {0})
unfolding insert_audit one_or
set_user_status action target_id status reason = transaction failure (do
  external failure (pure tt)
  found ← external failure (read (λ db. find? (user_id_is target_id) db.users))
  row ← one_or admin_user_not_found found
  raise_if (same_standing row.status status) admin_action_not_allowed
  keep_an_admin status row.role
  update_user_status target_id status reason
  external failure (insert_audit (audit_row action (user_action status) target_id reason)))

abbrev pub symbol_is : Text → StockRow → Bool
symbol_is symbol s = text_eq s.symbol symbol

abbrev pub stock_id_is : Text → StockRow → Bool
stock_id_is id s = text_eq s.id id

abbrev pub disable_stock_row : Text → ℕ → StockRow → StockRow
disable_stock_row reason now s = record s {
  status = Standing.disabled;
  disabled_reason = some reason;
  disabled_at = some now;
}

abbrev pub enable_stock_row : StockRow → StockRow
enable_stock_row s = record s {
  status = Standing.active;
  disabled_reason = none;
  disabled_at = none;
}

-- `WHERE stock_id = $1 AND status = 'ACTIVE'`
abbrev pub is_active_for : Text → AlertRow → Bool
is_active_for stock_id a = text_eq a.stock_id stock_id && alert_is_active a.status

-- The trigger of the schema also sets updated_at.
abbrev pub disable_alert_row : Text → ℕ → AlertRow → AlertRow
disable_alert_row reason now a = record a {
  status = AlertStatus.disabled;
  triggered_at = none;
  disabled_reason = some reason;
  disabled_at = some now;
  updated_at = now;
}

abbrev pub update_stock_status : Text → Standing → Text → M RepositoryError (Unit {0})
update_stock_status id Standing.disabled reason = do
  external failure (do
    now ← read_clock
    write (λ db. record db {
      stocks = update_where (stock_id_is id) (disable_stock_row reason now) db.stocks;
    }))
  external failure (do
    now ← read_clock
    write (λ db. record db {
      alerts =
          update_where (is_active_for id)
            (disable_alert_row (text "Stock disabled: " ++ reason) now) db.alerts;
    }))
update_stock_status id Standing.active reason =
    external failure (
      write (λ db. record db { stocks = update_where (stock_id_is id) enable_stock_row db.stocks }))

abbrev pub stock_action : Standing → Text
stock_action Standing.disabled = text "STOCK_DISABLED"
stock_action Standing.active = text "STOCK_ENABLED"

unfoldable pub set_stock_status :
    AdminActionContext → Text → Standing → Text → M RepositoryError (Unit {0})
unfolding insert_audit one_or
set_stock_status action symbol status reason = transaction failure (do
  found ← external failure (read (λ db. find? (symbol_is symbol) db.stocks))
  row ← one_or admin_stock_not_found found
  raise_if (same_standing row.status status) admin_stock_action_not_allowed
  update_stock_status row.id status reason
  external failure (insert_audit (audit_row action (stock_action status) symbol reason)))

abbrev pub alert_id_is : Text → AlertRow → Bool
alert_id_is id a = text_eq a.id id

unfoldable pub disable_alert : AdminActionContext → Text → Text → M RepositoryError (Unit {0})
unfolding insert_audit one_or
disable_alert action alert_id reason = transaction failure (do
  found ← external failure (read (λ db. find? (alert_id_is alert_id) db.alerts))
  row ← one_or admin_alert_not_found found
  raise_if (alert_is_disabled row.status) admin_alert_action_not_allowed
  external failure (do
    now ← read_clock
    write (λ db. record db {
      alerts = update_where (alert_id_is alert_id) (disable_alert_row reason now) db.alerts;
    }))
  external failure (insert_audit (audit_row action (text "ALERT_DISABLED") alert_id reason)))
