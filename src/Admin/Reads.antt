-- ===== src/Admin/Reads.antt =====
-- List and Get of backend/internal/services/admin_user_service.go, admin_dashboard_service.go and
-- admin_monitoring_service.go.
use line_stock_alert.Common.{ℕ, ◌-◌, ◌*◌, ◌||◌, not, Bool, String, List, ltb}
use line_stock_alert.Text.{Text, Unicode, text, text_eq, is_empty, trim_space, byte_length}
use line_stock_alert.Errors.{Error, Code, new_error}
use line_stock_alert.World.{
  M, raise_if, lift_result, map_err, pure, ◌>>=◌, ◌>>◌, UserRow, AlertLogRow, AuditRow,
}
use line_stock_alert.Symbols.{normalize}
use line_stock_alert.Stocks.{positive_int}
use line_stock_alert.Repositories.{RepositoryError, admin_user_not_found}
use line_stock_alert.Repositories.AdminReads as Store
use line_stock_alert.Repositories.AdminReads.{
  AdminUser, AdminUserDetail, AdminUserFilter, AdminDashboard, AdminLineStats,
}

-- The items of a page with its number, size and total.
pub record Page (A : Type 0) : Type 0 where
  pub items : List A
  pub page : ℕ
  pub limit : ℕ
  pub total : ℕ

abbrev pub paged : {A : Type 0} → ℕ × ℕ → List A × ℕ → Page A
paged at found = record { items = found.0; page = at.0; limit = at.1; total = found.1 }

abbrev pub offset_of : ℕ × ℕ → ℕ
offset_of at = (at.0 - 1) * at.1

-- monitoringPagination, where the size of a page is 50 by default; List of users has 20.
unfoldable pub pagination : ℕ → Text → Text → M Error (ℕ × ℕ)
pagination default page_value limit_value = do
  page ←
      map_err (λ _. new_error Code.invalid_filter "Page must be a positive integer.")
        (lift_result (positive_int page_value 1 1000000))
  limit ←
      map_err (λ _. new_error Code.invalid_filter "Limit must be between 1 and 100.")
        (lift_result (positive_int limit_value default 100))
  pure (page, limit)

abbrev internal : String → RepositoryError → Error
internal message _ = new_error Code.internal_server_error message

unfoldable pub get_user_error : RepositoryError → Error
get_user_error admin_user_not_found = new_error Code.admin_user_not_found "User not found."
get_user_error _ = new_error Code.internal_server_error "Could not load the user."

unfoldable pub dashboard : M Error AdminDashboard
dashboard = map_err (internal "Could not load the admin dashboard.") Store.get_dashboard

unfoldable pub line_stats : M Error AdminLineStats
line_stats = map_err (internal "Could not load LINE statistics.") Store.line_stats

unfoldable pub failed_line_messages : Text → Text → M Error (Page AlertLogRow)
unfolding pagination
failed_line_messages page_value limit_value = do
  at ← pagination 50 page_value limit_value
  found ←
      map_err (internal "Could not load failed LINE messages.")
        (Store.failed_line_messages at.1 (offset_of at))
  pure (paged at found)

unfoldable pub audit_logs : Text → Text → M Error (Page AuditRow)
unfolding pagination
audit_logs page_value limit_value = do
  at ← pagination 50 page_value limit_value
  found ← map_err (internal "Could not load audit logs.") (Store.audit_logs at.1 (offset_of at))
  pure (paged at found)

abbrev is_level : Text → Bool
is_level s =
    text_eq s (text "DEBUG")
    || text_eq s (text "INFO")
    || text_eq s (text "WARN")
    || text_eq s (text "ERROR")

module _ (u : Unicode) where
  unfoldable pub application_logs : Text → Text → Text → Text → M Error (Page Text)
  unfolding pagination
  application_logs raw_level raw_service page_value limit_value = do
    at ← pagination 50 page_value limit_value
    let level = normalize u raw_level
    let service = trim_space u raw_service
    raise_if (not (is_empty level || is_level level))
        (new_error Code.invalid_filter "Level must be DEBUG, INFO, WARN, or ERROR.")
    raise_if (ltb 100 (byte_length service))
        (new_error Code.invalid_filter "Service must not exceed 100 characters.")
    found ←
        map_err (internal "Could not load application logs.")
          (Store.application_logs level service at.1 (offset_of at))
    pure (paged at found)

  module _ (display_name : UserRow → Text) where
    unfoldable pub list_users : Text → Text → Text → Text → M Error (Page AdminUser)
    unfolding pagination
    list_users search raw_status page_value limit_value = do
      at ← pagination 20 page_value limit_value
      let status = normalize u raw_status
      raise_if
          (not
            (is_empty status || text_eq status (text "ACTIVE") || text_eq status (text "DISABLED")))
          (new_error Code.invalid_filter "Status must be ACTIVE or DISABLED.")
      found ← map_err (internal "Could not load users.") (
          Store.list_users u display_name (record {
            search = trim_space u search;
            status = status;
            limit = at.1;
            offset = offset_of at;
          }))
      pure (paged at found)

    unfoldable pub get_user : Text → M Error AdminUserDetail
    get_user id = map_err get_user_error (Store.get_user u display_name (trim_space u id))
