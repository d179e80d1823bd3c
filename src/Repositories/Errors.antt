-- ===== src/Repositories/Errors.antt =====
-- The sentinel errors of backend/internal/repositories; `failure` is any error that the repositories
-- wrap by fmt.Errorf or return from the driver.
pub data RepositoryError : Type 0 where
  alert_already_exists alert_not_found alert_not_triggered stock_disabled : RepositoryError
  not_found token_conflict : RepositoryError
  admin_user_not_found admin_action_not_allowed : RepositoryError
  admin_stock_not_found admin_stock_action_not_allowed : RepositoryError
  admin_alert_not_found admin_alert_action_not_allowed : RepositoryError
  failure : RepositoryError
