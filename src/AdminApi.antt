-- ===== src/AdminApi.antt =====
-- The group /api/v1/admin of backend/main.go with the handlers of admin_user_handler.go,
-- admin_stock_handler.go, admin_alert_handler.go, admin_dashboard_handler.go, admin_monitoring_handler.go and
-- rich_menu_handler.go: a request goes through RequireAuth and RequireAdmin to
-- the handler, which calls the service. The body of a successful answer is left out.
pub mod Reading
pub mod Accounts
pub mod Guarded
mod Tests
use line_stock_alert.Common.{ℕ, Option, none, some, List, take}
use line_stock_alert.Text.{Text, Unicode}
use line_stock_alert.Errors.{Error, Code, http_status}
use line_stock_alert.World.{M, pure, raise, lift_result, map_err, ◌>>=◌, ◌>>◌, UserRow}
use line_stock_alert.Repositories.Admin.{AdminActionContext}
use line_stock_alert.Middleware.{
  Rejection, AccessClaims, Identity, reject, require_auth, require_admin,
}
use line_stock_alert.Admin as Service
use line_stock_alert.Admin.Lists as Lists
use line_stock_alert.Admin.Reads as Reads
use line_stock_alert.RichMenu.{Outside, publish}

-- The file of a form: it is missing, it cannot be opened or read, or it has these bytes.
pub data Upload : Type 0 where
  no_file unreadable : Upload
  file : List ℕ → Upload

-- What the services of the group are constructed with, besides the database. The display names of the
-- users are a column that no other code of the model reads.
pub record AdminSettings : Type 0 where
  pub menu : Outside
  pub frontend_url : Text
  pub display_name : UserRow → Text

-- The seventeen routes with their parameters and query values; a body is nothing where c.Bind fails, and
-- otherwise the reason in it.
pub data AdminCall : Type 0 where
  disable_user disable_stock disable_alert : Text → Option Text → AdminCall
  enable_user enable_stock : Text → AdminCall
  list_alerts : Text → Text → Text → Text → Text → AdminCall
  get_alert : Text → AdminCall
  list_stocks : Text → Text → Text → Text → AdminCall
  get_stock : Text → AdminCall
  dashboard line_stats : AdminCall
  list_users : Text → Text → Text → Text → AdminCall
  get_user : Text → AdminCall
  failed_line_messages audit_logs : Text → Text → AdminCall
  application_logs : Text → Text → Text → Text → AdminCall
  publish_rich_menu : Upload → AdminCall

-- handleServiceError
unfoldable pub handle_service_error : Error → Rejection
handle_service_error e = record { status = http_status e.code; code = e.code; message = e.message }

abbrev pub invalid_body : Rejection
invalid_body = reject 400 Code.invalid_request "The request body is invalid."

-- The administrator's id as the middleware has set it.
abbrev pub admin_action : Identity → AdminActionContext
admin_action identity = record { admin_user_id = identity.user_id }

-- A service call, answered with 200.
abbrev pub answered : {A : Type 0} → M Error A → M Rejection ℕ
answered m = map_err handle_service_error m >> pure 200

abbrev pub with_reason : Option Text → (Text → M Error (Unit {0})) → M Rejection ℕ
with_reason none service = raise invalid_body
with_reason (some reason) service = answered (service reason)

-- Publish of RichMenuHandler; one byte more than the limit of the service is read.
abbrev pub rich_menu_publish : AdminSettings → AdminActionContext → Upload → M Rejection ℕ
rich_menu_publish settings action no_file =
    raise (reject 400 Code.invalid_rich_menu_image "An image file is required.")
rich_menu_publish settings action unreadable =
    raise (reject 400 Code.invalid_rich_menu_image "The image could not be read.")
rich_menu_publish settings action (file bytes) =
    map_err handle_service_error
      (publish settings.menu settings.frontend_url action (take 1048577 bytes))
    >> pure 201

module _ (u : Unicode) (settings : AdminSettings) where
  abbrev user_disable : AdminActionContext → Text → Option Text → M Rejection ℕ
  user_disable action id body = with_reason body (Service.disable_user u action id)

  abbrev user_enable : AdminActionContext → Text → M Rejection ℕ
  user_enable action id = answered (Service.enable_user u action id)

  abbrev stock_disable : AdminActionContext → Text → Option Text → M Rejection ℕ
  stock_disable action symbol body = with_reason body (Service.disable_stock u action symbol)

  abbrev stock_enable : AdminActionContext → Text → M Rejection ℕ
  stock_enable action symbol = answered (Service.enable_stock u action symbol)

  abbrev stock_list : Text → Text → Text → Text → M Rejection ℕ
  stock_list search status page limit = answered (Lists.list_stocks u search status page limit)

  abbrev stock_get : Text → M Rejection ℕ
  stock_get symbol = answered (Lists.get_stock u symbol)

  abbrev alert_disable : AdminActionContext → Text → Option Text → M Rejection ℕ
  alert_disable action id body = with_reason body (Service.disable_alert u action id)

  abbrev alert_list : Text → Text → Text → Text → Text → M Rejection ℕ
  alert_list symbol status user_id page limit =
      answered (Lists.list_alerts u symbol status user_id page limit)

  abbrev alert_get : Text → M Rejection ℕ
  alert_get id = answered (Lists.get_alert u id)

  abbrev user_list : Text → Text → Text → Text → M Rejection ℕ
  user_list search status page limit =
      answered (Reads.list_users u settings.display_name search status page limit)

  abbrev user_get : Text → M Rejection ℕ
  user_get id = answered (Reads.get_user u settings.display_name id)

  abbrev monitoring_logs : Text → Text → Text → Text → M Rejection ℕ
  monitoring_logs level service page limit =
      answered (Reads.application_logs u level service page limit)

  unfoldable pub handle : AdminActionContext → AdminCall → M Rejection ℕ
  handle action (disable_user id body) = user_disable action id body
  handle action (enable_user id) = user_enable action id
  handle action (disable_stock symbol body) = stock_disable action symbol body
  handle action (enable_stock symbol) = stock_enable action symbol
  handle action (disable_alert id body) = alert_disable action id body
  handle action (list_alerts symbol status user_id page limit) =
      alert_list symbol status user_id page limit
  handle action (get_alert id) = alert_get id
  handle action (list_stocks search status page limit) = stock_list search status page limit
  handle action (get_stock symbol) = stock_get symbol
  handle action dashboard = answered Reads.dashboard
  handle action line_stats = answered Reads.line_stats
  handle action (list_users search status page limit) = user_list search status page limit
  handle action (get_user id) = user_get id
  handle action (failed_line_messages page limit) = answered (Reads.failed_line_messages page limit)
  handle action (audit_logs page limit) = answered (Reads.audit_logs page limit)
  handle action (application_logs level service page limit) =
      monitoring_logs level service page limit
  handle action (publish_rich_menu upload) = rich_menu_publish settings action upload

  -- `parse` is the parser of jwt, as for RequireAuth.
  unfoldable pub serve_admin : (Text → Option AccessClaims) → Text → AdminCall → M Rejection ℕ
  unfolding handle
  serve_admin parse header call = do
    identity ← lift_result (require_auth u parse header)
    require_admin identity.user_id
    handle (admin_action identity) call
