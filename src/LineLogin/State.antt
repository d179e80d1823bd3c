-- ===== src/LineLogin/State.antt =====
-- The state of backend/internal/services/line_oauth_service.go: what authorizationURL signs, parseState
-- takes back.
use line_stock_alert.Common.{
  ℕ, ◌+◌, ◌<◌, ◌≡◌, refl, inl, inr, false, some, List, [], ◌∷◌, ◌++◌, if◌then◌else◌, Bool-cases,
}
use line_stock_alert.Text.{Text, text, text_eq, is_empty}
use line_stock_alert.Text.Query.{values_encode}
use line_stock_alert.Errors.{Code, new_error}
use line_stock_alert.World.{World, ok, err, ◌>>=◌}
use line_stock_alert.Auth.{random_token}
use line_stock_alert.LineLogin.{
  Jwt, LineOauthConfig, StateClaims, state_claims, authorization_params, authorization_url,
  line_authorization_url, parse_state,
}

-- The claims that a state is signed with at a time.
abbrev pub signed_claims : LineOauthConfig → Text → ℕ → StateClaims
signed_claims cfg nonce now = record {
  purpose = text "LINE_LOGIN";
  nonce = nonce;
  issuer = cfg.issuer;
  issued_at = now;
  expires_at = now + cfg.state_ttl;
}

module _ (jwt : Jwt) (cfg : LineOauthConfig) where
  authorization_url_lem :
      (w : World) (nonce raw : Text) (ids : List Text)
      → w.uuids ≡ nonce ∷ ids
      → jwt.signed cfg.state_secret (state_claims jwt cfg nonce w.now) ≡ ok raw
      → authorization_url jwt cfg w ≡ (
        ok (
            line_authorization_url
            ++ (b'?' ∷ values_encode (authorization_params jwt cfg nonce raw))),
        record w { uuids = ids },
      )
  unfolding authorization_url random_token ◌>>=◌
  authorization_url_lem w nonce raw ids drawn signed = rw (drawn, signed) refl

  -- With a jwt that parses what it has signed until that expires: the browser is sent to LINE with the
  -- response type, the channel, the callback, the scope, the nonce drawn and the state signed for it in
  -- the query, and nothing but the nonce is used up. That state is taken back, with the same nonce, at
  -- every time before the time to live is over, where the purpose is LINE_LOGIN; for another purpose it
  -- is refused.
  pub state_accepted :
      ((raw : Text) (claims : StateClaims) (now : ℕ)
        → jwt.signed cfg.state_secret claims ≡ ok raw
        → now < claims.expires_at
        → jwt.parsed cfg.state_secret claims.issuer now raw ≡ some claims)
      → (w v : World) (nonce raw purpose : Text) (ids : List Text) → w.uuids ≡ nonce ∷ ids
      → is_empty nonce ≡ false
      → jwt.signed cfg.state_secret (signed_claims cfg nonce w.now) ≡ ok raw
      → v.now < w.now + cfg.state_ttl
      → (authorization_url jwt cfg w ≡ (
        ok (
            text "https://access.line.me/oauth2/v2.1/authorize?"
            ++ values_encode (
                (text "response_type", text "code")
                ∷ (text "client_id", cfg.channel_id)
                ∷ (text "redirect_uri", cfg.callback_url)
                ∷ (text "state", raw)
                ∷ (text "scope", text "openid profile")
                ∷ (text "nonce", nonce)
                ∷ [])),
        record w { uuids = ids },
      ))
        × (parse_state jwt cfg raw purpose v ≡ (
          if text_eq (text "LINE_LOGIN") purpose
              then ok (signed_claims cfg nonce w.now)
              else err
                  (new_error Code.invalid_oauth_state "The OAuth state is invalid or expired."),
          v,
        ))
  unfolding parse_state ◌>>=◌
  state_accepted parses w v nonce raw purpose ids drawn nonempty signed early = (
    authorization_url_lem w nonce raw ids drawn signed,
    elim (Bool-cases (text_eq (text "LINE_LOGIN") purpose)) [
      | inl same ↦
          rw (parses raw (state_claims jwt cfg nonce w.now) v.now signed early, same, nonempty) refl
      | inr other ↦
          rw (parses raw (state_claims jwt cfg nonce w.now) v.now signed early, other) refl
    ],
  )
