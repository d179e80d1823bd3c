-- ===== src/AdminApi/Tests.antt =====
-- An administrator's request on concrete tables; the parser takes every token as one of that user.
use line_stock_alert.Common.{◌≡◌, refl, some, Option}
use line_stock_alert.Text.{Text, text, ascii, text_eq, trim_space, fields, byte_length}
use line_stock_alert.Errors.{Code}
use line_stock_alert.World.{World, err, ◌>>=◌, transaction}
use line_stock_alert.Repositories.Admin as Store
use line_stock_alert.Examples.{world}
use line_stock_alert.Middleware.{
  AccessClaims, reject, require_auth, of_parts, folds_to_bearer, require_admin, find_user_access,
}
use line_stock_alert.Admin as Service
use line_stock_alert.AdminApi.{AdminCall, AdminSettings, disable_user, handle, serve_admin}
use line_stock_alert.AdminApi.Guarded.{IsAuthorized, admin_request-IsAuthorized}

abbrev parse : Text → Option AccessClaims
parse token =
    some
      (record { token_type = some (text "access"); sub = some token; role = some (text "ADMIN") })

abbrev settings : AdminSettings
settings = record {
  menu = record {
    parse_url = λ url. some (text "https", url);
    created_id = some (text "rm");
    size_message = λ w h. "";
  };
  frontend_url = text "x";
  display_name = λ r. r.id;
}

abbrev call : AdminCall
call = disable_user (text "u2") (some (text "left"))

abbrev after : World
after = (serve_admin ascii settings parse (text "Bearer u1") call world).1

admin_request-IsAuthorized_example : IsAuthorized ascii parse (text "Bearer u1") world.db after.db
unfolding serve_admin handle require_auth of_parts folds_to_bearer require_admin find_user_access
    Service.disable_user Store.set_user_status Store.insert_audit Store.one_or ◌>>=◌ transaction
    trim_space text_eq fields byte_length
admin_request-IsAuthorized_example =
    admin_request-IsAuthorized ascii settings parse (text "Bearer u1") call world

-- A customer is turned away.
customer_refused :
    serve_admin ascii settings parse (text "Bearer u3") call world
    ≡ (err (reject 403 Code.admin_forbidden "Administrator access is required."), world)
unfolding serve_admin require_auth of_parts folds_to_bearer require_admin find_user_access ◌>>=◌
    text_eq fields
customer_refused = refl
