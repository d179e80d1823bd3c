-- ===== src/LineLogin/Tests.antt =====
-- Login with LINE on concrete tables, with a jwt that writes the claims down behind the secret.
use line_stock_alert.Common.{
  ℕ, ◌<◌, ◌≡◌, refl, subst, ◌&&◌, Option, none, some, [], ◌∷◌, ◌++◌, arith, length, take, drop, ltb,
  if◌then◌else◌,
}
use line_stock_alert.Text.{Text, text, ascii, text_eq, text_lt}
use line_stock_alert.Text.Laws.{text_eq_refl}
use line_stock_alert.Text.Query.{values_encode, query_escape}
use line_stock_alert.Sort.{sort_by}
use line_stock_alert.World.{World, Result, ok, ◌>>=◌, transaction}
use line_stock_alert.Models.{TokenResponse}
use line_stock_alert.Repositories.Auth as Store
use line_stock_alert.Auth.{random_token, issue_tokens, issue, create_access_token, hash_token}
use line_stock_alert.Examples.{world, tables, plain_crypto, auth_config}
use line_stock_alert.LineLogin.{
  Jwt, LineOauthConfig, StateClaims, LineIdentity, LineError, state_claims, authorization_url,
  parse_state, line_login, LineHttp, LineClient, exchange_and_verify, post_form, line_token_url,
}
use line_stock_alert.LineLogin.State.{signed_claims, state_accepted}
use line_stock_alert.LineLogin.Login.{HasLineLogin, line_login_issues}

-- A text behind its length.
abbrev sized : Text → Text → Text
sized s rest = length s ∷ (s ++ rest)

abbrev first : Text → Text × Text
first [] = ([], [])
first (n ∷ s) = (take n s, drop n s)

abbrev written : Text → StateClaims → Text
written secret c =
    c.issued_at ∷ c.expires_at ∷ sized secret (sized c.purpose (sized c.nonce c.issuer))

abbrev of_fields : ℕ → ℕ → Text → Text → Text → StateClaims
of_fields iat exp purpose nonce issuer = record {
  purpose = purpose;
  nonce = nonce;
  issuer = issuer;
  issued_at = iat;
  expires_at = exp;
}

abbrev read_back : Text → Text → ℕ → Text → Option StateClaims
read_back secret issuer now (iat ∷ exp ∷ s) =
    let p = first s in
    let q = first p.1 in
    let r = first q.1 in
    if text_eq p.0 secret && text_eq r.1 issuer && ltb now exp
    then some (of_fields iat exp q.0 r.0 r.1)
    else none
read_back secret issuer now _ = none

abbrev plain_jwt : Jwt
plain_jwt = record { signed = λ secret c. ok (written secret c); parsed = read_back }

take-append : (s t : Text) → take (length s) (s ++ t) ≡ s
take-append [] t = refl
take-append (c ∷ s) t = ground (arith, take-append s t)

drop-append : (s t : Text) → drop (length s) (s ++ t) ≡ t
drop-append [] t = refl
drop-append (c ∷ s) t = drop-append s t

read_back-written :
    (secret : Text) (c : StateClaims) (now : ℕ)
    → now < c.expires_at
    → read_back secret c.issuer now (written secret c) ≡ some c
read_back-written secret c now early =
    let p = sized c.purpose (sized c.nonce c.issuer) in
    let q = sized c.nonce c.issuer in
    rw
      (
        take-append secret p,
        drop-append secret p,
        take-append c.purpose q,
        drop-append c.purpose q,
        take-append c.nonce c.issuer,
        drop-append c.nonce c.issuer,
        text_eq_refl secret,
        text_eq_refl c.issuer,
      )
      (ground (arith, early))

plain_jwt_parses :
    (secret raw : Text) (c : StateClaims) (now : ℕ)
    → plain_jwt.signed secret c ≡ ok raw
    → now < c.expires_at
    → plain_jwt.parsed secret c.issuer now raw ≡ some c
plain_jwt_parses secret raw c now e early =
    let same : written secret c ≡ raw = cc in
    subst (λ x. read_back secret c.issuer now x ≡ some c) same
      (read_back-written secret c now early)

abbrev config : LineOauthConfig
config = record {
  channel_id = text "7";
  callback_url = text "https://a.b/cb";
  state_secret = text "k";
  issuer = text "api";
  state_ttl = 300;
}

abbrev state : Text
state = written (text "k") (state_claims plain_jwt config (text "n1") 50)

abbrev later : World
later = record world { now = 349 }

state_accepted_example :
    (authorization_url plain_jwt config world ≡ (
      ok (
          text "https://access.line.me/oauth2/v2.1/authorize?"
          ++ values_encode (
              (text "response_type", text "code")
              ∷ (text "client_id", text "7")
              ∷ (text "redirect_uri", text "https://a.b/cb")
              ∷ (text "state", state)
              ∷ (text "scope", text "openid profile")
              ∷ (text "nonce", text "n1")
              ∷ [])),
      record world { uuids = text "n2" ∷ text "n3" ∷ text "n4" ∷ [] },
    ))
    × (parse_state plain_jwt config state (text "LINE_LOGIN") later
        ≡ (ok (signed_claims config (text "n1") 50), later))
unfolding text_eq
state_accepted_example =
    state_accepted plain_jwt config (plain_jwt_parses (text "k")) world later (text "n1") state
      (text "LINE_LOGIN") (text "n2" ∷ text "n3" ∷ text "n4" ∷ []) refl refl refl (omega arith)

abbrev line_knows : Text → Text → Text → Result LineError LineIdentity
line_knows code nonce callback = ok (record { user_id = text "L9"; display_name = text "Nok" })

abbrev tokens : TokenResponse
tokens = record { access_token = text "n1"; refresh_token = text "n2"; expires_in = 60 }

-- A LINE user who is new gets an account and tokens.
line_login_issues_example :
    HasLineLogin plain_jwt config ascii plain_crypto auth_config line_knows
      (text "c")
      state
      tables
      50
      tokens
      (line_login plain_jwt config ascii plain_crypto auth_config line_knows
        (text "c")
        state
        world).1.db
unfolding line_login parse_state Store.find_or_create_line_user Store.create_line_user
    Store.insert_user Store.insert_identity issue_tokens issue create_access_token random_token
    Store.create_refresh_token Store.insert_token hash_token ◌>>=◌ transaction text_eq
line_login_issues_example =
    line_login_issues plain_jwt config ascii plain_crypto auth_config line_knows (text "c") state
      world

encoded :
    values_encode ((text "scope", text "openid profile") ∷ (text "a&b", text "é~") ∷ [])
    ≡ text "a%26b=%C3%A9~&scope=openid+profile"
unfolding values_encode query_escape text_lt sort_by
encoded = refl

abbrev line_http : LineHttp
line_http = record {
  send = λ endpoint form. ok (200, if text_eq endpoint line_token_url then text "t" else text "L9");
  id_token = λ body. ok body;
  identity = λ body. ok (record { user_id = body; display_name = [] });
}

abbrev client : LineClient
client = record { channel_id = text "7"; channel_secret = text "s" }

exchanged :
    exchange_and_verify line_http client (text "c") (text "n1") (text "https://a.b/cb")
    ≡ ok (record { user_id = text "L9"; display_name = [] })
unfolding exchange_and_verify post_form text_eq
exchanged = refl
