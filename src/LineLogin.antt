-- ===== src/LineLogin.antt =====
-- backend/internal/services/line_oauth_service.go and line_client.go: login with a LINE account. The
-- browser is sent to LINE with a signed state, and comes back with the state and a code.
pub mod State
pub mod Accounts
pub mod Login
mod Tests
use line_stock_alert.Common.{
  ℕ, ◌+◌, Bool, true, false, not, ◌||◌, Option, none, some, List, [], ◌∷◌, ◌++◌, if◌then◌else◌,
  ◌==◌,
}
use line_stock_alert.Text.{Text, Unicode, text, text_eq, is_empty}
use line_stock_alert.Text.Query.{values_encode}
use line_stock_alert.Errors.{Error, Code, new_error}
use line_stock_alert.World.{
  M, Result, ok, err, pure, raise, raise_if, lift_result, map_err, read_clock, ◌>>=◌, ◌>>◌,
}
use line_stock_alert.Models.{TokenResponse}
use line_stock_alert.Repositories.Auth.{find_or_create_line_user}
use line_stock_alert.Auth.{Crypto, AuthConfig, random_token, issue_tokens}

-- Errors that errors.As finds a net.Error in, and all others.
pub data LineError : Type 0 where
  network other : LineError

pub record LineIdentity : Type 0 where
  pub user_id : Text
  pub display_name : Text

-- What the client reaches outside: http.Client.Do on a form, with the status and the body of the answer;
-- and encoding/json on a body, where a missing field is the empty text.
pub record LineHttp : Type 0 where
  pub send : Text → List (Text × Text) → Result LineError (ℕ × Text)
  pub id_token : Text → Result LineError Text
  pub identity : Text → Result LineError LineIdentity

pub record LineClient : Type 0 where
  pub channel_id : Text
  pub channel_secret : Text

abbrev pub line_token_url : Text
line_token_url = text "https://api.line.me/oauth2/v2.1/token"

abbrev pub line_verify_url : Text
line_verify_url = text "https://api.line.me/oauth2/v2.1/verify"

module _ {A : Type 0} (decode : Text → Result LineError A) where
  abbrev pub decoded : Result LineError (ℕ × Text) → Result LineError A
  decoded (err e) = err e
  decoded (ok (status, body)) = if status == 200 then decode body else err LineError.other

  unfoldable pub post_form : LineHttp → Text → List (Text × Text) → Result LineError A
  post_form http endpoint form = decoded (http.send endpoint form)

abbrev pub with_subject : Result LineError LineIdentity → Result LineError LineIdentity
with_subject (err e) = err e
with_subject (ok i) = if is_empty i.user_id then err LineError.other else ok i

abbrev pub verify :
    LineHttp → LineClient → Text → Result LineError Text → Result LineError LineIdentity
verify http c nonce (err e) = err e
verify http c nonce (ok id_token) =
    if is_empty id_token
    then err LineError.other
    else with_subject (
        post_form http.identity http line_verify_url (
          (text "id_token", id_token)
          ∷ (text "client_id", c.channel_id)
          ∷ (text "nonce", nonce)
          ∷ []))

unfoldable pub exchange_and_verify :
    LineHttp → LineClient → Text → Text → Text → Result LineError LineIdentity
unfolding post_form
exchange_and_verify http c code nonce callback_url = verify http c nonce (
    post_form http.id_token http line_token_url (
      (text "grant_type", text "authorization_code")
      ∷ (text "code", code)
      ∷ (text "redirect_uri", callback_url)
      ∷ (text "client_id", c.channel_id)
      ∷ (text "client_secret", c.channel_secret)
      ∷ []))

pub record LineOauthConfig : Type 0 where
  pub channel_id : Text
  pub callback_url : Text
  pub state_secret : Text
  pub issuer : Text
  pub state_ttl : ℕ

pub record StateClaims : Type 0 where
  pub purpose : Text
  pub nonce : Text
  pub issuer : Text
  pub issued_at : ℕ
  pub expires_at : ℕ

-- jwt with the method HS256: `signed` by a secret, and `parsed` by a secret, an issuer and the time, with
-- an expiry required; nothing where the token is not valid.
pub record Jwt : Type 0 where
  pub signed : Text → StateClaims → Result (Unit {0}) Text
  pub parsed : Text → Text → ℕ → Text → Option StateClaims

abbrev pub line_authorization_url : Text
line_authorization_url = text "https://access.line.me/oauth2/v2.1/authorize"

unfoldable pub line_provider_error : LineError → Error
line_provider_error LineError.network =
    new_error Code.line_auth_provider_unavailable "LINE Login is temporarily unavailable."
line_provider_error LineError.other =
    new_error Code.line_auth_provider_error "LINE could not authenticate this request."

abbrev pub invalid_state : Error
invalid_state = new_error Code.invalid_oauth_state "The OAuth state is invalid or expired."

abbrev pub checked_claims : Text → Option StateClaims → Result Error StateClaims
checked_claims purpose none = err invalid_state
checked_claims purpose (some c) =
    if not (text_eq c.purpose purpose) || is_empty c.nonce then err invalid_state else ok c

module _ (jwt : Jwt) (cfg : LineOauthConfig) where
  abbrev pub state_claims : Text → ℕ → StateClaims
  state_claims nonce now = record {
    purpose = text "LINE_LOGIN";
    nonce = nonce;
    issuer = cfg.issuer;
    issued_at = now;
    expires_at = now + cfg.state_ttl;
  }

  abbrev pub authorization_params : Text → Text → List (Text × Text)
  authorization_params nonce state =
      (text "response_type", text "code")
      ∷ (text "client_id", cfg.channel_id)
      ∷ (text "redirect_uri", cfg.callback_url)
      ∷ (text "state", state)
      ∷ (text "scope", text "openid profile")
      ∷ (text "nonce", nonce)
      ∷ []

  unfoldable pub authorization_url : M Error Text
  authorization_url = do
    let failed = new_error Code.internal_server_error "Unable to start LINE login."
    nonce ← map_err (λ _. failed) random_token
    now ← read_clock
    state ←
        map_err (λ _. failed) (lift_result (jwt.signed cfg.state_secret (state_claims nonce now)))
    pure (line_authorization_url ++ (b'?' ∷ values_encode (authorization_params nonce state)))

  unfoldable pub parse_state : Text → Text → M Error StateClaims
  parse_state raw_state purpose = do
    now ← read_clock
    lift_result (checked_claims purpose (jwt.parsed cfg.state_secret cfg.issuer now raw_state))

  -- `exchange` is ExchangeAndVerify of the provider.
  unfoldable pub line_login :
      Unicode
      → Crypto
      → AuthConfig
      → (Text → Text → Text → Result LineError LineIdentity)
      → Text
      → Text
      → M Error TokenResponse
  line_login u crypto auth exchange code raw_state = do
    raise_if (is_empty code)
        (new_error Code.invalid_oauth_code "The LINE authorization code is invalid.")
    claims ← parse_state raw_state (text "LINE_LOGIN")
    identity ←
        map_err line_provider_error (lift_result (exchange code claims.nonce cfg.callback_url))
    user ←
        map_err (λ _. new_error Code.internal_server_error "Unable to complete LINE login.")
          (find_or_create_line_user identity.user_id)
    issue_tokens u crypto auth user
