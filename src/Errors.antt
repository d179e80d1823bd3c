-- ===== src/Errors.antt =====
-- backend/internal/services/errors.go and the table of handleServiceError in
-- backend/internal/handlers/auth_handler.go: the errors that the services return to a client.
-- The wrapped cause of an error is left out: it is only logged.
use line_stock_alert.Common.{ℕ, String}

-- The codes that the services and handlers write as strings.
pub data Code : Type 0 where
  invalid_request validation_error invalid_credentials invalid_refresh_token : Code
  refresh_token_expired refresh_token_revoked email_not_verified account_disabled : Code
  user_not_found rate_limit_exceeded login_rate_limited admin_login_required : Code
  invalid_oauth_state line_auth_cancelled invalid_oauth_code line_auth_provider_error : Code
  line_auth_provider_unavailable stock_not_found stock_provider_rate_limit : Code
  stock_provider_unavailable stock_provider_timeout invalid_candle_range : Code
  candle_data_not_found candle_provider_rate_limit candle_provider_unavailable : Code
  candle_provider_timeout invalid_filter alert_limit_reached alert_already_exists : Code
  alert_not_found alert_not_triggered alert_condition_still_met invalid_alert_condition : Code
  invalid_target_price invalid_webhook_payload admin_forbidden admin_user_not_found : Code
  admin_action_not_allowed admin_alert_not_found admin_stock_not_found : Code
  invalid_rich_menu_image invalid_frontend_url line_rich_menu_provider_error : Code
  internal_server_error unauthorized invalid_line_signature : Code

pub record Error : Type 0 where
  pub code : Code
  pub message : String

abbrev pub new_error : Code → String → Error
new_error c m = record { code = c; message = m }

-- The status that handleServiceError answers with; a code that its map lacks gets 500.
unfoldable pub http_status : Code → ℕ
http_status Code.invalid_request = 400
http_status Code.validation_error = 422
http_status Code.invalid_credentials = 401
http_status Code.invalid_refresh_token = 401
http_status Code.refresh_token_expired = 401
http_status Code.refresh_token_revoked = 401
http_status Code.email_not_verified = 403
http_status Code.account_disabled = 403
http_status Code.user_not_found = 404
http_status Code.rate_limit_exceeded = 429
http_status Code.login_rate_limited = 429
http_status Code.admin_login_required = 403
http_status Code.invalid_oauth_state = 400
http_status Code.line_auth_cancelled = 400
http_status Code.invalid_oauth_code = 400
http_status Code.line_auth_provider_error = 502
http_status Code.line_auth_provider_unavailable = 503
http_status Code.stock_not_found = 404
http_status Code.stock_provider_rate_limit = 429
http_status Code.stock_provider_unavailable = 503
http_status Code.stock_provider_timeout = 504
http_status Code.invalid_candle_range = 422
http_status Code.candle_data_not_found = 404
http_status Code.candle_provider_rate_limit = 429
http_status Code.candle_provider_unavailable = 503
http_status Code.candle_provider_timeout = 504
http_status Code.invalid_filter = 422
http_status Code.alert_limit_reached = 403
http_status Code.alert_already_exists = 409
http_status Code.alert_not_found = 404
http_status Code.alert_not_triggered = 409
http_status Code.alert_condition_still_met = 409
http_status Code.invalid_alert_condition = 422
http_status Code.invalid_target_price = 422
http_status Code.invalid_webhook_payload = 400
http_status Code.admin_forbidden = 403
http_status Code.admin_user_not_found = 404
http_status Code.admin_action_not_allowed = 400
http_status Code.admin_alert_not_found = 404
http_status Code.admin_stock_not_found = 404
http_status Code.invalid_rich_menu_image = 422
http_status Code.invalid_frontend_url = 422
http_status Code.line_rich_menu_provider_error = 502
http_status _ = 500
