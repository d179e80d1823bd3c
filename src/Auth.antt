-- ===== src/Auth.antt =====
-- backend/internal/services/auth_service.go: password login of administrators, refresh token rotation
-- and logout.
pub mod Tokens
pub mod Rotation
pub mod Replay
pub mod Login
mod Tests
use line_stock_alert.Common.{
  ℕ, ◌+◌, Bool, true, false, not, ◌||◌, Option, none, some, List, leb, if◌then◌else◌, is_some,
}
use line_stock_alert.Text.{Text, Unicode, text, text_eq, is_empty, to_lower, trim_space, contains}
use line_stock_alert.Errors.{Error, Code, new_error}
use line_stock_alert.World.{
  M, Result, ok, err, pure, raise, raise_if, lift_result, map_err, attempt, read_clock, fresh_uuid,
  ◌>>=◌, ◌>>◌, Role, is_admin, is_active,
}
use line_stock_alert.Models.{User, RefreshToken, TokenResponse}
use line_stock_alert.Repositories.{RepositoryError, not_found}
use line_stock_alert.Repositories.Auth as Store
use line_stock_alert.Alerts.{internal}

-- The claims of an access token.
pub record Claims : Type 0 where
  pub sub : Text
  pub role : Role
  pub token_type : Text
  pub iss : Text
  pub iat : ℕ
  pub exp : ℕ

-- What the service takes from bcrypt, jwt and the standard library: sha256 in hexadecimal, the
-- address that mail.ParseAddress finds, the signature by a secret.
pub record Crypto : Type 0 where
  pub sha256_hex : Text → Text
  pub password_matches : Text → Text → Bool
  pub parse_address : Text → Option Text
  pub signed_string : Text → Claims → Result (Unit {0}) Text

-- Durations are in seconds.
pub record AuthConfig : Type 0 where
  pub access_secret : Text
  pub issuer : Text
  pub access_ttl : ℕ
  pub refresh_ttl : ℕ

pub record LoginRequest : Type 0 where
  pub email : Text
  pub password : Text

abbrev pub account_disabled : Error
account_disabled = new_error Code.account_disabled "This account is disabled."

abbrev pub invalid_refresh_token : Error
invalid_refresh_token = new_error Code.invalid_refresh_token "The refresh token is invalid."

abbrev pub refresh_failed : Error
refresh_failed = new_error Code.internal_server_error "Unable to refresh token."

-- `errors.Is(err, repositories.ErrNotFound)`, and every other error.
unfoldable pub map_refresh_error : RepositoryError → Error
map_refresh_error not_found = invalid_refresh_token
map_refresh_error _ = refresh_failed

unfoldable pub random_token : M (Unit {0}) Text
random_token = fresh_uuid tt

abbrev address_is : Text → Option Text → Bool
address_is value none = false
address_is value (some a) = text_eq a value

module _ (u : Unicode) (c : Crypto) (cfg : AuthConfig) where
  unfoldable pub hash_token : Text → Text
  hash_token raw = c.sha256_hex raw

  unfoldable pub normalize_email : Text → Result (Unit {0}) Text
  normalize_email raw =
      let value = to_lower u (trim_space u raw) in
      if not (address_is value (c.parse_address value)) || not (contains value (text "@"))
      then err tt
      else ok value

  abbrev access_claims : User → ℕ → Claims
  access_claims user now = record {
    sub = user.id;
    role = user.role;
    token_type = text "access";
    iss = cfg.issuer;
    iat = now;
    exp = now + cfg.access_ttl;
  }

  unfoldable pub create_access_token : User → M (Unit {0}) Text
  create_access_token user = do
    now ← read_clock
    lift_result (c.signed_string cfg.access_secret (access_claims user now))

  abbrev token_response : Text → Text → TokenResponse
  token_response access refresh = record {
    access_token = access;
    refresh_token = refresh;
    expires_in = cfg.access_ttl;
  }

  -- issueTokens
  unfoldable pub issue : User → M Error TokenResponse
  issue user = do
    let failed = new_error Code.internal_server_error "Unable to create tokens."
    access ← map_err (λ _. failed) (create_access_token user)
    refresh ← map_err (λ _. failed) random_token
    now ← read_clock
    map_err (λ _. failed)
        (Store.create_refresh_token user.id (hash_token refresh) (now + cfg.refresh_ttl))
    pure (token_response access refresh)

  -- IssueTokens, with which LINE login ends
  unfoldable pub issue_tokens : User → M Error TokenResponse
  issue_tokens user = do raise_if (not (is_active user.status)) account_disabled; issue user

  unfoldable pub login : LoginRequest → M Error TokenResponse
  login req = do
    let refused = new_error Code.invalid_credentials "Email or password is incorrect."
    email ← map_err (λ _. refused) (lift_result (normalize_email req.email))
    user ← map_err (λ _. refused) (Store.find_user_by_email u email)
    raise_if (not (c.password_matches user.password_hash req.password)) refused
    raise_if (not (is_active user.status)) account_disabled
    raise_if (not (is_some user.email_verified_at))
        (new_error Code.email_not_verified "The administrator email is not verified.")
    raise_if (not (is_admin user.role)) (
        new_error Code.admin_login_required
          "Password login is available to administrators only. Please use LINE Login.")
    issue user

  -- `if token.RevokedAt != nil`
  abbrev pub reject_if : Bool → RefreshToken → M Error (Unit {0})
  reject_if false token = pure tt
  reject_if true token =
      attempt (Store.revoke_token_family token.family_id)
      >> raise (new_error Code.refresh_token_revoked "The refresh token has been revoked.")

  -- The rest of Refresh.
  unfoldable pub rotate : RefreshToken → User → M Error TokenResponse
  rotate token user = do
    now ← read_clock
    raise_if (leb token.expires_at now)
        (new_error Code.refresh_token_expired "The refresh token has expired.")
    raise_if (not (is_active user.status)) account_disabled
    access ← map_err (λ _. refresh_failed) (create_access_token user)
    raw ← map_err (λ _. refresh_failed) random_token
    later ← read_clock
    map_err (λ _. invalid_refresh_token)
        (Store.rotate_refresh_token token.id user.id token.family_id (hash_token raw)
          (later + cfg.refresh_ttl))
    pure (token_response access raw)

  unfoldable pub refresh : Text → M Error TokenResponse
  refresh raw_token = do
    raise_if (is_empty raw_token) invalid_refresh_token
    found ← map_err map_refresh_error (Store.find_refresh_token (hash_token raw_token))
    reject_if (is_some found.0.revoked_at) found.0
    rotate found.0 found.1

  unfoldable pub logout : Text → M Error (Unit {0})
  logout user_id = map_err (internal "Unable to log out.") (Store.revoke_all_user_tokens user_id)
