-- ===== src/Admin/Tests.antt =====
-- The administrator's actions of backend/internal/services/admin_*_service.go on concrete tables.
use line_stock_alert.Common.{◌≤◌, ◌≡◌, refl, [], ◌∷◌, false, count, arith, find?, some}
use line_stock_alert.Text.{text, ascii, text_eq, trim_space, byte_length}
use line_stock_alert.World.{◌>>=◌, transaction, World, Standing, TokenRow}
use line_stock_alert.Repositories.Admin as Store
use line_stock_alert.Repositories.Admin.{is_active_admin, is_active_for}
use line_stock_alert.Examples.{tables, world, apple, by_root, plain_crypto, auth_config, token}
use line_stock_alert.Admin.{disable_user, enable_user}
use line_stock_alert.Admin.Users.{disable_user_revokes, admin_stays}
use line_stock_alert.Auth.Login.{live_user_tokens}
use line_stock_alert.Admin.Lockout.{disabled_user_no_refresh}
use line_stock_alert.Auth.{
  LoginRequest, refresh, rotate, hash_token, create_access_token, random_token,
}
use line_stock_alert.Repositories.Auth as Tokens
use line_stock_alert.Models.{TokenResponse}

abbrev after_disable : World
after_disable = (disable_user ascii by_root (text "u3") (text "spam") world).1

disable_user_revokes_example : live_user_tokens (text "u3") after_disable.db ≡ 0
unfolding disable_user Store.set_user_status ◌>>=◌ transaction text_eq trim_space byte_length
disable_user_revokes_example =
    (disable_user_revokes ascii by_root (text "u3") (text "spam") world).3

admin_stays_example :
    (1
      ≤ count is_active_admin
          (disable_user ascii by_root (text "u2") (text "left") world).1.db.users)
    × (1 ≤ count is_active_admin (enable_user ascii by_root (text "u2") world).1.db.users)
unfolding text_eq
admin_stays_example =
    admin_stays ascii by_root (text "u2") (text "left") world (refl, (refl, (refl, tt)))
      (omega arith)

-- A second token, of the administrator who disables the customer.
abbrev root_token : TokenRow
root_token = record token { user_id = text "u1"; token_hash = text "raw2"; id = text "t2" }

abbrev two_tokens : World
two_tokens = record world { db = record tables { tokens = token ∷ root_token ∷ [] } }

abbrev without_customer : World
without_customer = (disable_user ascii by_root (text "u3") (text "spam") two_tokens).1

abbrev root_response : TokenResponse
root_response = record { access_token = text "u1"; refresh_token = text "n1"; expires_in = 60 }

disabled_user_no_refresh_example :
    (old : TokenRow) × (find? (Tokens.has_hash (text "raw2")) without_customer.db.tokens ≡ some old)
    × (Tokens.of_user (text "u3") old ≡ false)
unfolding disable_user Store.set_user_status ◌>>=◌ transaction text_eq trim_space byte_length
    refresh Tokens.find_refresh_token Tokens.one_token rotate create_access_token random_token
    hash_token Tokens.rotate_refresh_token Tokens.insert_token Tokens.retire
disabled_user_no_refresh_example =
    disabled_user_no_refresh ascii by_root (text "u3") (text "spam") two_tokens without_customer
      without_customer refl refl plain_crypto auth_config (text "raw2") root_response
      (refresh ascii plain_crypto auth_config (text "raw2") without_customer).1 refl

abbrev credentials : LoginRequest
credentials = record { email = text "root@x"; password = text "pw" }

abbrev halted : World
halted = record world {
  db = record tables {
    stocks = record apple { status = Standing.disabled; disabled_at = some 3 } ∷ [];
  };
}
