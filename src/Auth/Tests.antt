-- ===== src/Auth/Tests.antt =====
-- AuthService of backend/internal/services/auth_service.go on concrete tables.
use line_stock_alert.Common.{◌≡◌, refl, true, some}
use line_stock_alert.Text.{text, ascii, text_eq, to_lower, trim_space, contains}
use line_stock_alert.Errors.{Code, new_error}
use line_stock_alert.World.{◌>>=◌, transaction, World, err}
use line_stock_alert.Models.{TokenResponse}
use line_stock_alert.Repositories.Auth as Store
use line_stock_alert.Repositories.Auth.{has_email}
use line_stock_alert.Examples.{root, tables, world, plain_crypto, auth_config}
use line_stock_alert.Auth.{
  LoginRequest, refresh, rotate, login, logout, issue, hash_token, normalize_email,
  create_access_token, random_token,
}
use line_stock_alert.Auth.Rotation.{HasRotated, refresh_rotates}
use line_stock_alert.Auth.Replay.{replay_revokes_family}
use line_stock_alert.Auth.Login.{HasLoggedIn, live_user_tokens, login_issues, logout_revokes}

abbrev answered : TokenResponse
answered = record { access_token = text "u3"; refresh_token = text "n1"; expires_in = 60 }

abbrev refreshed : World
refreshed = (refresh ascii plain_crypto auth_config (text "raw1") world).1

refresh_rotates_example : HasRotated (text "raw1") (text "n1") 720 tables 50 refreshed.db
unfolding refresh Store.find_refresh_token Store.one_token rotate create_access_token random_token
    hash_token Store.rotate_refresh_token Store.insert_token Store.retire ◌>>=◌ transaction text_eq
refresh_rotates_example = refresh_rotates ascii plain_crypto auth_config (text "raw1") world

replay_revokes_family_example :
    (refresh ascii plain_crypto auth_config (text "raw1") refreshed).0
    ≡ err (new_error Code.refresh_token_revoked "The refresh token has been revoked.")
unfolding refresh Store.find_refresh_token Store.one_token rotate create_access_token random_token
    hash_token Store.rotate_refresh_token Store.insert_token Store.retire ◌>>=◌ transaction text_eq
replay_revokes_family_example =
    (replay_revokes_family ascii plain_crypto auth_config (text "raw1") world refreshed refreshed
      answered refl refl refl).0

abbrev credentials : LoginRequest
credentials = record { email = text " Root@x"; password = text "pw" }

abbrev logged_in : TokenResponse
logged_in = record { access_token = text "u1"; refresh_token = text "n1"; expires_in = 60 }

login_issues_example :
    HasLoggedIn ascii plain_crypto auth_config credentials tables 50 logged_in
      (login ascii plain_crypto auth_config credentials world).1.db
unfolding login normalize_email Store.find_user_by_email issue create_access_token random_token
    Store.create_refresh_token Store.insert_token hash_token ◌>>=◌ text_eq to_lower trim_space
    contains
login_issues_example = login_issues ascii plain_crypto auth_config credentials world

logout_revokes_example :
    live_user_tokens (text "u3") (logout ascii plain_crypto auth_config (text "u3") world).1.db ≡ 0
unfolding logout Store.revoke_all_user_tokens ◌>>=◌
logout_revokes_example = (logout_revokes ascii plain_crypto auth_config (text "u3") world).0

-- The case of an email does not matter to the database.
found_in_lower_case :
    has_email ascii (text "root@x") (record root { email = some (text "Root@X") }) ≡ true
unfolding text_eq to_lower
found_in_lower_case = refl
