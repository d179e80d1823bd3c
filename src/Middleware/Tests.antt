-- ===== src/Middleware/Tests.antt =====
-- backend/middleware on concrete requests.
use line_stock_alert.Common.{◌≡◌, refl, none, some, Option, ◌∷◌}
use line_stock_alert.Text.{Text, text, ascii, text_eq, fields, trim_space, byte_length}
use line_stock_alert.World.{World, ◌>>=◌, transaction}
use line_stock_alert.Repositories.Admin as Store
use line_stock_alert.Examples.{world, by_root}
use line_stock_alert.Admin.{disable_user}
use line_stock_alert.Middleware.{
  AccessClaims, Identity, require_auth, of_parts, folds_to_bearer, require_admin, find_user_access,
}
use line_stock_alert.Middleware.Guards.{disabled_admin_rejected}
use line_stock_alert.Middleware.Requests.{IsBearer, require_auth-IsBearer}

abbrev without_second : World
without_second = (disable_user ascii by_root (text "u2") (text "left") world).1

disabled_admin_rejected_example :
    (require_admin (text "u2") without_second).1.db ≡ without_second.db
unfolding disable_user Store.set_user_status ◌>>=◌ transaction text_eq trim_space byte_length
    require_admin find_user_access
disabled_admin_rejected_example =
    disabled_admin_rejected ascii by_root (text "u2") (text "left") world without_second
      without_second refl refl

abbrev accepts : Text → Option AccessClaims
accepts token = some (record { token_type = some (text "access"); sub = some token; role = none })

abbrev caller : Identity
caller = record { user_id = text "u3"; user_role = none }

require_auth-IsBearer_example : IsBearer ascii accepts (text "bearer  u3") caller
unfolding require_auth of_parts folds_to_bearer fields text_eq
require_auth-IsBearer_example = require_auth-IsBearer ascii accepts (text "bearer  u3") caller refl

abbrev mac : Text → Text
mac body = 1 ∷ body

abbrev decode : Text → Option Text
decode header = some header
