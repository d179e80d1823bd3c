-- ===== src/Alerts.antt =====
-- backend/internal/services/alert_service.go: a user's alerts over the repository and the provider.
pub mod Limit
pub mod Changes
mod Tests
use line_stock_alert.Common.{ℕ, Bool, ◌&&◌, ◌||◌, not, List, leb, if◌then◌else◌, String}
use line_stock_alert.Common.Int.{ℤ, pos, leb_ℤ}
use line_stock_alert.Text.{Text, Unicode, text, text_eq, is_empty, trim_space}
use line_stock_alert.Errors.{Error, Code, new_error}
use line_stock_alert.World.{
  M, Result, ok, err, raise_if, lift_result, map_err, ◌>>=◌, ◌>>◌, alert_is_triggered,
}
use line_stock_alert.Models.{Alert, CreateAlertRequest, UpdateAlertRequest, StockProvider}
use line_stock_alert.Symbols.{matches_symbol, normalize, map_stock_provider_error}
use line_stock_alert.Repositories.{
  RepositoryError, alert_already_exists, alert_not_found, alert_not_triggered, stock_disabled,
}
use line_stock_alert.Repositories.Alerts as Store

unfoldable pub alert_condition_met : Text → ℤ → ℤ → Bool
alert_condition_met condition current target =
    (text_eq condition (text "ABOVE") && leb_ℤ target current)
    || (text_eq condition (text "BELOW") && leb_ℤ current target)

unfoldable pub validate_alert : Text → ℤ → Result Error (Unit {0})
validate_alert condition price =
    if not (text_eq condition (text "ABOVE")) && not (text_eq condition (text "BELOW"))
    then err (new_error Code.invalid_alert_condition "Condition must be ABOVE or BELOW.")
    else if leb_ℤ price (pos 0)
    then err (new_error Code.invalid_target_price "Target price must be greater than zero.")
    else ok tt

unfoldable pub map_alert_repository_error : String → RepositoryError → Error
map_alert_repository_error fallback alert_already_exists =
    new_error Code.alert_already_exists "An identical active alert already exists."
map_alert_repository_error fallback stock_disabled =
    new_error Code.stock_not_found "This stock is not currently supported."
map_alert_repository_error fallback alert_not_found =
    new_error Code.alert_not_found "Alert not found."
map_alert_repository_error fallback alert_not_triggered =
    new_error Code.alert_not_triggered "Only a triggered alert can be re-armed."
map_alert_repository_error fallback _ = new_error Code.internal_server_error fallback

abbrev pub internal : String → RepositoryError → Error
internal message _ = new_error Code.internal_server_error message

module _ (u : Unicode) (provider : StockProvider) (limit : ℕ) where
  unfoldable pub list : Text → Text → Text → M Error (List Alert)
  list user_id raw_symbol raw_status = do
    let symbol = normalize u raw_symbol
    let status = normalize u raw_status
    raise_if (not (is_empty symbol) && not (matches_symbol symbol))
        (new_error Code.invalid_filter "The symbol filter is invalid.")
    raise_if
        (not (is_empty status)
          && not (text_eq status (text "ACTIVE"))
          && not (text_eq status (text "TRIGGERED"))
          && not (text_eq status (text "DISABLED")))
        (new_error Code.invalid_filter "The status filter is invalid.")
    map_err (internal "Could not load alerts.")
        (Store.list user_id (record { symbol = symbol; status = status }))

  -- `if count >= s.limit`
  unfoldable pub below_limit : Text → M Error (Unit {0})
  below_limit user_id = do
    count ← map_err (internal "Could not check the alert limit.") (Store.count_active user_id)
    raise_if (leb limit count)
        (new_error Code.alert_limit_reached "The active alert limit has been reached.")

  unfoldable pub create : Text → CreateAlertRequest → M Error Alert
  unfolding below_limit
  create user_id request = do
    let symbol = normalize u request.symbol
    let condition = normalize u request.condition
    raise_if (not (matches_symbol symbol))
        (new_error Code.stock_not_found "The US stock symbol was not found.")
    lift_result (validate_alert condition request.target_price)
    below_limit user_id
    stock ← map_err map_stock_provider_error (lift_result (provider.validate_us_stock symbol))
    map_err (map_alert_repository_error "Could not create the alert.")
        (Store.create user_id stock condition request.target_price)

  unfoldable pub update : Text → Text → UpdateAlertRequest → M Error Alert
  update user_id alert_id request = do
    let condition = normalize u request.condition
    lift_result (validate_alert condition request.target_price)
    map_err (map_alert_repository_error "Could not update the alert.")
        (Store.update user_id (trim_space u alert_id) condition request.target_price)

  unfoldable pub delete : Text → Text → M Error (Unit {0})
  delete user_id alert_id =
      map_err (map_alert_repository_error "Could not delete the alert.")
        (Store.delete user_id (trim_space u alert_id))

  unfoldable pub rearm : Text → Text → M Error Alert
  unfolding below_limit
  rearm user_id raw_alert_id = do
    let alert_id = trim_space u raw_alert_id
    alert ←
        map_err (map_alert_repository_error "Could not load the alert.")
          (Store.get user_id alert_id)
    raise_if (not (alert_is_triggered alert.status))
        (new_error Code.alert_not_triggered "Only a triggered alert can be re-armed.")
    below_limit user_id
    quote ← map_err map_stock_provider_error (lift_result (provider.quote alert.symbol))
    raise_if (alert_condition_met alert.condition quote.price alert.target_price) (
        new_error Code.alert_condition_still_met
          "The price must move away from the target before this alert can be re-armed.")
    map_err (map_alert_repository_error "Could not re-arm the alert.")
        (Store.rearm user_id alert_id)
