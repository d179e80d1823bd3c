-- ===== src/AdminApi/Guarded.antt =====
-- The group /api/v1/admin of backend/main.go: who gets through, and what a request leaves of the tables.
use line_stock_alert.Common.{◌≡◌, refl, Option}
use line_stock_alert.Text.{Text, Unicode}
use line_stock_alert.World.{Db, World}
use line_stock_alert.World.Triples.{Post, ◌⟫◌, consequence, with_fact, lift_rule}
use line_stock_alert.World.Clock.{At}
use line_stock_alert.Middleware.{AccessClaims, Identity, require_auth}
use line_stock_alert.Middleware.Guards.{IsActiveAdmin, require_admin-At}
use line_stock_alert.Middleware.Requests.{IsBearer, require_auth-IsBearer}
use line_stock_alert.AdminApi.{AdminCall, AdminSettings, admin_action, serve_admin}
use line_stock_alert.AdminApi.Accounts.{IsAccounted, handle-IsAccounted}

-- What a request that is answered with success has shown, and done to the tables `d`.
pub record IsAuthorized (u : Unicode) (parse : Text → Option AccessClaims) (header : Text)
    (d db : Db) : Type 0 where
  pub identity : Identity
  pub bearer : IsBearer u parse header identity
  pub administrator : IsActiveAdmin identity.user_id d
  pub account : IsAccounted identity.user_id d db

module _ (u : Unicode) (settings : AdminSettings) (parse : Text → Option AccessClaims) where
  -- A request to any of the seventeen routes of the group succeeds only with a bearer token that the
  -- parser accepts, for a user who is at that time an active administrator; the tables are then as they
  -- were, or an entry of that administrator is on top of the audit log. A request that does not
  -- succeed, for whatever reason, leaves every table as it was.
  pub admin_request-IsAuthorized :
      (header : Text) (call : AdminCall) (w : World)
      → Post
          (λ _ w'. IsAuthorized u parse header w.db w'.db)
          (λ _ w'. w'.db ≡ w.db)
          (serve_admin u settings parse header call w)
  unfolding serve_admin
  admin_request-IsAuthorized header call w =
      (lift_rule {P = At w.db w.now} (require_auth u parse header) (λ e v _ h. h.0) ⟫ λ identity.
      with_fact λ shown. require_admin-At identity.user_id ⟫ λ _. with_fact λ active.
        consequence (λ v h. h)
          (λ _ v h. record {
            identity = identity;
            bearer = require_auth-IsBearer u parse header identity shown;
            administrator = active;
            account = h;
          })
          (λ _ v h. h) (handle-IsAccounted u (admin_action identity) settings call)).at
        w (refl, refl)
