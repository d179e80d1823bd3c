-- ===== src/Middleware.antt =====
-- backend/middleware: auth.go, admin.go and line_signature.go, with FindUserAccess of
-- backend/internal/repositories/admin_access_repository.go. A middleware either rejects the request or
-- goes on to the handler, with what it has set in the context.
pub mod Guards
pub mod Requests
mod Tests
use line_stock_alert.Common.{
  ℕ, ◌^◌, Bool, true, false, not, ◌||◌, Option, none, some, List, [], ◌∷◌, map, if◌then◌else◌, ltb,
  length, find?, String,
}
use line_stock_alert.Text.{Text, Unicode, text, text_eq, is_empty, fields}
use line_stock_alert.Errors.{Code}
use line_stock_alert.World.{
  M, Result, ok, err, pure, raise, raise_if, read, external, map_err, ◌>>=◌, ◌>>◌, Role, Standing,
  UserRow, is_admin, is_active,
}
use line_stock_alert.Repositories.{RepositoryError, failure}
use line_stock_alert.Repositories.Admin.{user_id_is}
use line_stock_alert.LineWebhook.{ascii_upper}

-- The answer of utils.JSONError.
pub record Rejection : Type 0 where
  pub status : ℕ
  pub code : Code
  pub message : String

abbrev pub reject : ℕ → Code → String → Rejection
reject s c m = record { status = s; code = c; message = m }

-- The claims that the middleware reads, where they are texts.
pub record AccessClaims : Type 0 where
  pub token_type : Option Text
  pub sub : Option Text
  pub role : Option Text

-- The user id and the role that the context has afterwards.
pub record Identity : Type 0 where
  pub user_id : Text
  pub user_role : Option Text

-- strings.EqualFold(s, "Bearer"): no other rune folds to one of these letters.
unfoldable pub folds_to_bearer : Text → Bool
folds_to_bearer s = text_eq (map ascii_upper s) (text "BEARER")

abbrev pub is_text : Text → Option Text → Bool
is_text expected none = false
is_text expected (some t) = text_eq t expected

abbrev pub unauthorized : String → Rejection
unauthorized = reject 401 Code.unauthorized

abbrev pub of_subject : Option Text → Option Text → Result Rejection Identity
of_subject none role = err (unauthorized "The access token is invalid.")
of_subject (some id) role =
    if is_empty id
    then err (unauthorized "The access token is invalid.")
    else ok (record { user_id = id; user_role = role })

abbrev pub of_claims : Option AccessClaims → Result Rejection Identity
of_claims none = err (unauthorized "The access token is invalid or expired.")
of_claims (some c) =
    if not (is_text (text "access") c.token_type)
    then err (unauthorized "The access token is invalid or expired.")
    else of_subject c.sub c.role

-- `parse` is the parser of jwt, with the secret, the method HS256 and the issuer: the claims of a valid
-- token.
unfoldable pub of_parts : (Text → Option AccessClaims) → List Text → Result Rejection Identity
of_parts parse (scheme ∷ token ∷ []) =
    if not (folds_to_bearer scheme)
    then err (unauthorized "Authentication is required.")
    else of_claims (parse token)
of_parts parse _ = err (unauthorized "Authentication is required.")

unfoldable pub require_auth :
    Unicode → (Text → Option AccessClaims) → Text → Result Rejection Identity
require_auth u parse header = of_parts parse (fields u header)

abbrev pub access_of : Option UserRow → Option (Role × Standing)
access_of none = none
access_of (some u) = some (u.role, u.status)

unfoldable pub find_user_access : Text → M RepositoryError (Option (Role × Standing))
find_user_access user_id = do
  row ← external failure (read (λ db. find? (user_id_is user_id) db.users))
  pure (access_of row)

abbrev pub check_access : Option (Role × Standing) → M Rejection (Unit {0})
check_access none = raise (unauthorized "The authenticated user no longer exists.")
check_access (some (role, status)) = do
  raise_if (not (is_active status)) (reject 403 Code.account_disabled "This account is disabled.")
  raise_if (not (is_admin role))
      (reject 403 Code.admin_forbidden "Administrator access is required.")

-- On the user id of the context.
unfoldable pub require_admin : Text → M Rejection (Unit {0})
require_admin user_id = do
  raise_if (is_empty user_id) (unauthorized "Authentication is required.")
  access ←
      map_err (λ _. reject 500 Code.internal_server_error "Could not verify administrator access.")
        (find_user_access user_id)
  check_access access

abbrev pub max_line_webhook_body : ℕ
max_line_webhook_body = 2 ^ 20

abbrev pub signed_by : Text → Option Text → Bool
signed_by mac none = false
signed_by mac (some signature) = text_eq signature mac

abbrev pub signed_body :
    (Text → Text) → (Text → Option Text) → Text → Option Text → Result Rejection Text
signed_body mac decode header none =
    err (reject 400 Code.invalid_webhook_payload "The LINE webhook payload is invalid.")
signed_body mac decode header (some body) =
    if ltb max_line_webhook_body (length body)
    then err (reject 400 Code.invalid_webhook_payload "The LINE webhook payload is invalid.")
    else if not (signed_by (mac body) (decode header))
    then err (reject 401 Code.invalid_line_signature "The LINE signature is invalid.")
    else ok body

-- `mac` is HMAC-SHA256 with the channel secret and `decode` the decoder of base64, on bytes; the body is
-- none where reading it fails, and is what the context has afterwards.
unfoldable pub verify_line_signature :
    (Text → Text) → (Text → Option Text) → Text → Option Text → Result Rejection Text
verify_line_signature mac decode header body = signed_body mac decode header body
