-- ===== src/LineLogin/Login.antt =====
-- Login of backend/internal/services/line_oauth_service.go: who gets tokens, and what a call leaves of the
-- tables.
use line_stock_alert.Common.{
  ℕ, ◌≡◌, refl, ap, ◌∙◌, ◌⊎◌, inl, inr, true, false, Option, none, some, arith, Bool-cases,
}
use line_stock_alert.Text.{Text, Unicode, text, text_eq, is_empty}
use line_stock_alert.Text.Laws.{text_eq_iff}
use line_stock_alert.World.{Db, World, Result, ok, err, is_active}
use line_stock_alert.World.Triples.{
  Post, Triple, ◌⟫◌, consequence, with_fact, raise_if_rule, lift_rule, map_err_rule,
}
use line_stock_alert.World.Clock.{At, clock_known_rule}
use line_stock_alert.Models.{User, TokenResponse}
use line_stock_alert.Auth.{Crypto, AuthConfig}
use line_stock_alert.Auth.Login.{HasIssued, issue_tokens-HasIssued}
use line_stock_alert.LineLogin.{
  Jwt, LineOauthConfig, StateClaims, LineIdentity, LineError, checked_claims, parse_state,
  line_login,
}
use line_stock_alert.LineLogin.Accounts.{IsAccount, find_or_create_line_user-IsAccount}

-- ExchangeAndVerify of a provider.
abbrev pub Exchange : Type 0
Exchange = Text → Text → Text → Result LineError LineIdentity

-- The claims of a state that is taken at the time `n`.
pub record IsState (jwt : Jwt) (cfg : LineOauthConfig) (raw : Text) (n : ℕ) (c : StateClaims)
    : Type 0 where
  pub valid : jwt.parsed cfg.state_secret cfg.issuer n raw ≡ some c
  pub purpose : c.purpose ≡ text "LINE_LOGIN"
  pub nonce : is_empty c.nonce ≡ false

-- What a successful login has found, and done to the tables `d` at `n`.
pub record HasLineLogin (jwt : Jwt) (cfg : LineOauthConfig) (u : Unicode) (crypto : Crypto)
    (auth : AuthConfig) (exchange : Exchange) (code raw : Text) (d : Db) (n : ℕ) (t : TokenResponse)
    (db : Db) : Type 0 where
  pub claims : StateClaims
  pub identity : LineIdentity
  pub user : User
  pub between : Db
  pub code_given : is_empty code ≡ false
  pub state : IsState jwt cfg raw n claims
  pub exchanged : exchange code claims.nonce cfg.callback_url ≡ ok identity
  pub account : IsAccount identity.user_id d between user
  pub enabled : is_active user.status ≡ true
  pub issued : HasIssued u crypto auth user between n t db

-- The tables are unchanged, but for an account that the login has made.
abbrev pub AtMostCreated : Db → Db → Type 0
AtMostCreated d db =
    (db ≡ d) ⊎ ((line_user_id : Text) × (user : User) × IsAccount line_user_id d db user)

checked_claims-IsState :
    (jwt : Jwt) (cfg : LineOauthConfig) (raw : Text) (n : ℕ) (o : Option StateClaims)
    (c : StateClaims)
    → jwt.parsed cfg.state_secret cfg.issuer n raw ≡ o
    → checked_claims (text "LINE_LOGIN") o ≡ ok c
    → IsState jwt cfg raw n c
checked_claims-IsState jwt cfg raw n none c p e = ground (arith, e)
checked_claims-IsState jwt cfg raw n (some x) c p e =
    elim (Bool-cases (text_eq x.purpose (text "LINE_LOGIN"))) [
      | inr bad ↦ let e' : err _ ≡ ok c = rw (bad, checked_claims) at e in cc
      | inl good ↦ elim (Bool-cases (is_empty x.nonce)) [
        | inl bad ↦ let e' : err _ ≡ ok c = rw (good, bad, checked_claims) at e in cc
        | inr full ↦
            let e' : ok x ≡ ok c = rw (good, full, checked_claims) at e in
            let same : x ≡ c = cc in
            let fits : x.purpose ≡ text "LINE_LOGIN" =
              (text_eq_iff x.purpose (text "LINE_LOGIN")).0 good in
            record { valid = p ∙ ap some same; purpose = rw same at fits; nonce = rw same at full }
      ]
    ]

module _ (jwt : Jwt) (cfg : LineOauthConfig) (u : Unicode) (crypto : Crypto) (auth : AuthConfig)
    (exchange : Exchange) where
  parse_state-IsState :
      {d : Db} {n : ℕ} (raw : Text)
      → Triple
          (At d n)
          (parse_state jwt cfg raw (text "LINE_LOGIN"))
          (λ c w. (IsState jwt cfg raw n c) × At d n w)
          (λ _ w. w.db ≡ d)
  unfolding parse_state
  parse_state-IsState {n = n} raw = clock_known_rule ⟫ λ now. with_fact λ en.
      consequence (λ w h. h)
        (λ c w h. (
          checked_claims-IsState jwt cfg raw n (jwt.parsed cfg.state_secret cfg.issuer n raw) c refl
              (rw en at h.0),
          h.1,
        ))
        (λ _ _ h. h) (lift_rule _ (λ e w _ h. h.0))

  line_login-HasLineLogin :
      {d : Db} {n : ℕ} (code raw : Text)
      → Triple
          (At d n)
          (line_login jwt cfg u crypto auth exchange code raw)
          (λ t w. HasLineLogin jwt cfg u crypto auth exchange code raw d n t w.db)
          (λ _ w. AtMostCreated d w.db)
  unfolding line_login
  line_login-HasLineLogin code raw = raise_if_rule (is_empty code) _ (λ w e h. inl h.0) ⟫ λ _.
      with_fact λ given.
        consequence (λ w h. h) (λ _ w h. h) (λ _ w h. inl h) (parse_state-IsState raw) ⟫ λ claims.
        with_fact λ state.
          map_err_rule _
            (lift_rule (exchange code claims.nonce cfg.callback_url) (λ e w _ h. inl h.0))
          ⟫ λ identity. with_fact λ exchanged.
            map_err_rule _ (
              consequence (λ w h. h) (λ _ w h. h) (λ _ w h. inl h)
                (find_or_create_line_user-IsAccount identity.user_id))
            ⟫ λ user. record {
              at = λ w h.
                  (consequence (λ w h. h)
                      (λ t w k. record {
                        claims = claims;
                        identity = identity;
                        user = user;
                        between = h.0;
                        code_given = given;
                        state = state;
                        exchanged = exchanged;
                        account = h.1;
                        enabled = k.0;
                        issued = k.1;
                      })
                      (λ _ w k. inr (identity.user_id, user, rw k h.1))
                      (issue_tokens-HasIssued u crypto auth user)).at
                    w h.2;
            }

  -- A login with LINE answers with tokens only for a code and a state that is valid at that time, was signed
  -- for a login and has a nonce, when LINE gives an identity for the code and that nonce, and its account,
  -- found or made, is active; one live token of that account, with the hash of the refresh token answered,
  -- is then on top of the tables. A login that fails leaves the tables as they were, but for an account
  -- that it may have made.
  pub line_login_issues :
      (code raw : Text) (w : World)
      → Post
          (λ t w'. HasLineLogin jwt cfg u crypto auth exchange code raw w.db w.now t w'.db)
          (λ _ w'. AtMostCreated w.db w'.db)
          (line_login jwt cfg u crypto auth exchange code raw w)
  line_login_issues code raw w = (line_login-HasLineLogin code raw).at w (refl, refl)
