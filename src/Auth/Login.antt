-- ===== src/Auth/Login.antt =====
-- AuthService.Login, IssueTokens and Logout of backend/internal/services/auth_service.go: who gets
-- tokens, and what a call leaves of the tables on every branch.
use line_stock_alert.Common.{
  ℕ, ◌+◌, ◌≡◌, refl, sym, ◌∙◌, inl, inr, Bool, true, false, not, ◌&&◌, some, List, [], ◌∷◌, arith,
  find?, count, Option-cases, is_some,
}
use line_stock_alert.Text.{Text, Unicode}
use line_stock_alert.World.{Db, World, ok, TokenRow, UserRow, is_active, is_admin}
use line_stock_alert.World.Triples.{
  Post, Triple, ◌⟫◌, consequence, with_fact, return_rule, raise_rule, raise_if_rule,
  fresh_uuid_rule, lift_rule, map_err_rule, external_rule,
}
use line_stock_alert.World.Clock.{At, clock_known_rule, read_known_rule, write_known_rule}
use line_stock_alert.Rows.{update_where}
use line_stock_alert.Models.{User, TokenResponse}
use line_stock_alert.Repositories.{failure, not_found}
use line_stock_alert.Repositories.Auth.{
  create_refresh_token, find_user_by_email, has_email, scan_user, of_user, is_revoked, revoke,
  revoke_all_user_tokens,
}
use line_stock_alert.Auth.{
  Crypto, AuthConfig, LoginRequest, hash_token, normalize_email, random_token, issue, issue_tokens,
  login, logout,
}
use line_stock_alert.Auth.Tokens.{IsInserted, insert_token-IsInserted}
use line_stock_alert.Auth.Rotation.{create_access_token-At}

-- One live token of the user, with the hash of the one answered, is on top of the unchanged tables.
pub record HasIssued (u : Unicode) (c : Crypto) (cfg : AuthConfig) (user : User) (d : Db) (n : ℕ)
    (t : TokenResponse) (db : Db) : Type 0 where
  pub family_id : Text
  pub new : TokenRow
  pub inserted :
      IsInserted user.id family_id
        (hash_token u c cfg t.refresh_token)
        (n + cfg.refresh_ttl)
        d
        n
        new
  pub after : db ≡ record d { tokens = new ∷ d.tokens }

-- What a successful password login has found in the tables `d` at `n`, and done to them.
pub record HasLoggedIn (u : Unicode) (c : Crypto) (cfg : AuthConfig) (req : LoginRequest) (d : Db)
    (n : ℕ) (t : TokenResponse) (db : Db) : Type 0 where
  pub email : Text
  pub row : UserRow
  pub normalized : normalize_email u c cfg req.email ≡ ok email
  pub found : find? (has_email u email) d.users ≡ some row
  pub password : c.password_matches (scan_user row).password_hash req.password ≡ true
  pub enabled : is_active row.status ≡ true
  pub verified : is_some row.email_verified_at ≡ true
  pub administrator : is_admin row.role ≡ true
  pub issued : HasIssued u c cfg (scan_user row) d n t db

not-false : (b : Bool) → not b ≡ false → b ≡ true
not-false b h = ground arith

module _ (u : Unicode) (c : Crypto) (cfg : AuthConfig) {d : Db} {n : ℕ} where
  create_refresh_token-IsInserted :
      (user_id hash : Text) (expires_at : ℕ)
      → Triple
          (At d n)
          (create_refresh_token user_id hash expires_at)
          (λ _ w.
            (family_id : Text) × (t : TokenRow) × IsInserted user_id family_id hash expires_at d n t
            × (w.db ≡ record d { tokens = t ∷ d.tokens }))
          (λ _ w. w.db ≡ d)
  unfolding create_refresh_token
  create_refresh_token-IsInserted user_id hash expires_at =
      external_rule failure (λ w fs h. h) (λ w h. h.0)
        (fresh_uuid_rule failure (λ w ids h. h) (λ w h. h.0) ⟫ λ family_id.
          consequence (λ w h. h) (λ _ w h. h) (λ _ w h. h.0)
            (insert_token-IsInserted user_id family_id hash expires_at)
          ⟫ λ t. return_rule tt (λ w h. (family_id, t, h.0, h.1.0)))

  issue-HasIssued :
      (user : User)
      → Triple
          (At d n)
          (issue u c cfg user)
          (λ t w. HasIssued u c cfg user d n t w.db)
          (λ _ w. w.db ≡ d)
  unfolding issue random_token
  issue-HasIssued user =
      map_err_rule _ (create_access_token-At u c cfg user (λ w h. h.0)) ⟫ λ access.
      map_err_rule _ (fresh_uuid_rule tt (λ w ids h. h) (λ w h. h.0)) ⟫ λ raw.
      clock_known_rule ⟫ λ now. with_fact λ en.
        map_err_rule _
          (create_refresh_token-IsInserted user.id (hash_token u c cfg raw) (now + cfg.refresh_ttl))
        ⟫ λ _.
            return_rule _
              (λ w h. record { family_id = h.0; new = h.1; inserted = rw en at h.2; after = h.3 })

  -- The row that a user was loaded from by email.
  find_user-At :
      (email : Text)
      → Triple
          (At d n)
          (find_user_by_email u email)
          (λ x w.
            ((row : UserRow) × (find? (has_email u email) d.users ≡ some row) × (x ≡ scan_user row))
            × At d n w)
          (λ _ w. At d n w)
  unfolding find_user_by_email
  find_user-At email =
      external_rule failure (λ w fs h. h) (λ w h. h)
        (read_known_rule _ ⟫ λ o. with_fact λ e. elim (Option-cases o) [
          | inl h ↦ rw h (raise_rule _ not_found (λ w k. k))
          | inr (row, h) ↦ rw h (
              raise_if_rule (not (is_some row.password_hash)) failure (λ w _ k. k) ⟫ λ _.
              with_fact λ _. return_rule _ (λ w k. ((row, sym e ∙ h, refl), k)))
        ])

  login-HasIssued :
      (req : LoginRequest)
      → Triple
          (At d n)
          (login u c cfg req)
          (λ t w. HasLoggedIn u c cfg req d n t w.db)
          (λ _ w. w.db ≡ d)
  unfolding login
  login-HasIssued req =
      map_err_rule _ (lift_rule (normalize_email u c cfg req.email) (λ e w _ h. h.0)) ⟫ λ email.
      with_fact λ normal.
        map_err_rule _ (consequence (λ w h. h) (λ _ w h. h) (λ _ w h. h.0) (find_user-At email))
        ⟫ λ user. with_fact λ found.
          raise_if_rule (not (c.password_matches user.password_hash req.password)) _ (λ w e h. h.0)
          ⟫ λ _. with_fact λ matches.
            raise_if_rule (not (is_active user.status)) _ (λ w e h. h.0) ⟫ λ _. with_fact λ enabled.
              raise_if_rule (not (is_some user.email_verified_at)) _ (λ w e h. h.0) ⟫ λ _.
              with_fact λ verified. raise_if_rule (not (is_admin user.role)) _ (λ w e h. h.0) ⟫ λ _.
              with_fact λ admin.
                consequence (λ w h. h)
                  (λ t w h. record {
                    email = email;
                    row = found.0;
                    normalized = normal;
                    found = found.1;
                    password =
                        rw found.2 at
                          (not-false (c.password_matches user.password_hash req.password) matches);
                    enabled = rw found.2 at (not-false (is_active user.status) enabled);
                    verified = rw found.2 at (not-false (is_some user.email_verified_at) verified);
                    administrator = rw found.2 at (not-false (is_admin user.role) admin);
                    issued = rw found.2 at h;
                  })
                  (λ _ w h. h) (issue-HasIssued user)

  pub issue_tokens-HasIssued :
      (user : User)
      → Triple
          (At d n)
          (issue_tokens u c cfg user)
          (λ t w. (is_active user.status ≡ true) × HasIssued u c cfg user d n t w.db)
          (λ _ w. w.db ≡ d)
  unfolding issue_tokens
  issue_tokens-HasIssued user = raise_if_rule (not (is_active user.status)) _ (λ w e h. h.0) ⟫ λ _.
      with_fact λ enabled.
        consequence (λ w h. h) (λ t w h. (not-false (is_active user.status) enabled, h))
          (λ _ w h. h) (issue-HasIssued user)

-- A password login answers with tokens only for an email that normalizes, to the user found by it,
-- whose password matches and who is an active and verified administrator; one live token of that
-- user, with the hash of the refresh token answered, is then on top of the unchanged tables. A login
-- that fails, for whatever reason, leaves every table as it was.
pub login_issues :
    (u : Unicode) (c : Crypto) (cfg : AuthConfig) (req : LoginRequest) (w : World)
    → Post
        (λ t w'. HasLoggedIn u c cfg req w.db w.now t w'.db)
        (λ _ w'. w'.db ≡ w.db)
        (login u c cfg req w)
login_issues u c cfg req w = (login-HasIssued u c cfg req).at w (refl, refl)

-- Tokens are issued to a user loaded elsewhere, as LINE login does, only if the user is active, and as
-- for a login; otherwise every table is left as it was.
pub issue_tokens_active :
    (u : Unicode) (c : Crypto) (cfg : AuthConfig) (user : User) (w : World)
    → Post
        (λ t w'. (is_active user.status ≡ true) × HasIssued u c cfg user w.db w.now t w'.db)
        (λ _ w'. w'.db ≡ w.db)
        (issue_tokens u c cfg user w)
issue_tokens_active u c cfg user w = (issue_tokens-HasIssued u c cfg user).at w (refl, refl)

-- The tokens of a user that are not revoked.
abbrev pub live_user_tokens : Text → Db → ℕ
live_user_tokens user_id db =
    count (λ (t : TokenRow). of_user user_id t && not (is_revoked t)) db.tokens

revoked-dead :
    (user_id : Text) (n : ℕ) (ts : List TokenRow)
    → count
        (λ (t : TokenRow). of_user user_id t && not (is_revoked t))
        (update_where (of_user user_id) (revoke n) ts)
      ≡ 0
revoked-dead user_id n [] = refl
revoked-dead user_id n (t ∷ ts) = ground (arith, revoked-dead user_id n ts)

-- After a logout no token of the user is live, and nothing but tokens has changed; a logout that fails
-- leaves every table as it was.
pub logout_revokes :
    (u : Unicode) (c : Crypto) (cfg : AuthConfig) (user_id : Text) (w : World)
    → Post
        (λ _ w'.
          (live_user_tokens user_id w'.db ≡ 0) × (record w'.db { tokens = w.db.tokens } ≡ w.db))
        (λ _ w'. w'.db ≡ w.db)
        (logout u c cfg user_id w)
unfolding logout revoke_all_user_tokens
logout_revokes u c cfg user_id w =
    (map_err_rule
        {Q = λ _ w'.
          (live_user_tokens user_id w'.db ≡ 0) × (record w'.db { tokens = w.db.tokens } ≡ w.db)}
        {R = λ _ w'. w'.db ≡ w.db} _
        (external_rule failure (λ w' fs h. h) (λ w' h. h.0)
          (clock_known_rule ⟫ λ now. with_fact λ _.
            consequence (λ w' h. h) (λ _ w' h. rw h.0 (revoked-dead user_id now w.db.tokens, refl))
              (λ _ _ h. h) (write_known_rule _)))).at
      w (refl, refl)
