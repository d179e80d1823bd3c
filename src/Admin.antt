-- ===== src/Admin.antt =====
-- Disable and Enable of backend/internal/services/admin_user_service.go, admin_stock_service.go and
-- admin_alert_service.go.
pub mod Transactions
pub mod Users
pub mod Stocks
pub mod Lockout
pub mod Lists
pub mod Reads
mod Tests
use line_stock_alert.Common.{ℕ, Bool, not, ◌||◌, [], ltb}
use line_stock_alert.Text.{Text, Unicode, text_eq, is_empty, trim_space, byte_length}
use line_stock_alert.Errors.{Error, Code, new_error}
use line_stock_alert.World.{M, raise_if, map_err, ◌>>=◌, ◌>>◌, Standing}
use line_stock_alert.Symbols.{matches_symbol, normalize}
use line_stock_alert.Repositories.{
  RepositoryError, admin_user_not_found, admin_action_not_allowed, admin_stock_not_found,
  admin_stock_action_not_allowed, admin_alert_not_found, admin_alert_action_not_allowed,
}
use line_stock_alert.Repositories.Admin as Store
use line_stock_alert.Repositories.Admin.{AdminActionContext}

unfoldable pub map_admin_user_mutation_error : RepositoryError → Error
map_admin_user_mutation_error admin_user_not_found =
    new_error Code.admin_user_not_found "User not found."
map_admin_user_mutation_error admin_action_not_allowed =
    new_error Code.admin_action_not_allowed "The requested account action is not allowed."
map_admin_user_mutation_error _ =
    new_error Code.internal_server_error "Could not update the user account."

unfoldable pub map_admin_stock_error : RepositoryError → Error
map_admin_stock_error admin_stock_not_found =
    new_error Code.admin_stock_not_found "Stock not found."
map_admin_stock_error admin_stock_action_not_allowed =
    new_error Code.admin_action_not_allowed "The stock already has the requested status."
map_admin_stock_error _ = new_error Code.internal_server_error "Could not update the stock."

unfoldable pub map_admin_alert_error : RepositoryError → Error
map_admin_alert_error admin_alert_not_found =
    new_error Code.admin_alert_not_found "Alert not found."
map_admin_alert_error admin_alert_action_not_allowed =
    new_error Code.admin_action_not_allowed "The alert is already disabled."
map_admin_alert_error _ = new_error Code.internal_server_error "Could not disable the alert."

-- `reason == "" || len(reason) > 1000`
abbrev pub bad_reason : Text → Bool
bad_reason reason = is_empty reason || ltb 1000 (byte_length reason)

abbrev reason_required : Error
reason_required =
    new_error Code.admin_action_not_allowed
      "A disable reason between 1 and 1000 characters is required."

module _ (u : Unicode) where
  unfoldable pub disable_user : AdminActionContext → Text → Text → M Error (Unit {0})
  disable_user action raw_target raw_reason = do
    let target_id = trim_space u raw_target
    let reason = trim_space u raw_reason
    raise_if (text_eq target_id action.admin_user_id)
        (new_error Code.admin_action_not_allowed "Administrators cannot disable their own account.")
    raise_if (bad_reason reason) reason_required
    map_err map_admin_user_mutation_error
        (Store.set_user_status action target_id Standing.disabled reason)

  unfoldable pub enable_user : AdminActionContext → Text → M Error (Unit {0})
  enable_user action raw_target =
      map_err map_admin_user_mutation_error
        (Store.set_user_status action (trim_space u raw_target) Standing.active [])

  -- setStatus
  unfoldable pub set_stock_status : AdminActionContext → Text → Standing → Text → M Error (Unit {0})
  set_stock_status action raw_symbol status reason = do
    let symbol = normalize u raw_symbol
    raise_if (not (matches_symbol symbol)) (new_error Code.admin_stock_not_found "Stock not found.")
    map_err map_admin_stock_error (Store.set_stock_status action symbol status reason)

  unfoldable pub disable_stock : AdminActionContext → Text → Text → M Error (Unit {0})
  unfolding set_stock_status
  disable_stock action raw_symbol raw_reason = do
    let reason = trim_space u raw_reason
    raise_if (bad_reason reason) reason_required
    set_stock_status action raw_symbol Standing.disabled reason

  unfoldable pub enable_stock : AdminActionContext → Text → M Error (Unit {0})
  unfolding set_stock_status
  enable_stock action raw_symbol = set_stock_status action raw_symbol Standing.active []

  unfoldable pub disable_alert : AdminActionContext → Text → Text → M Error (Unit {0})
  disable_alert action raw_id raw_reason = do
    let reason = trim_space u raw_reason
    raise_if (bad_reason reason) reason_required
    map_err map_admin_alert_error (Store.disable_alert action (trim_space u raw_id) reason)
