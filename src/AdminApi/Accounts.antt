-- ===== src/AdminApi/Accounts.antt =====
-- The handlers of the group /api/v1/admin of backend/main.go: what a call leaves of the tables.
use line_stock_alert.Common.{
  ℕ, ◌≡◌, refl, ap, ◌⊎◌, inl, inr, Option, none, some, List, [], ◌∷◌, ◌∙◌,
}
use line_stock_alert.Text.{Text, Unicode, text, trim_space}
use line_stock_alert.Errors.{Error}
use line_stock_alert.World.{Db, World, M, Result, ok, err, AuditRow, Standing}
use line_stock_alert.World.Triples.{
  Post, Triple, ◌⟫◌, consequence, return_rule, raise_rule, map_err_rule,
}
use line_stock_alert.World.Clock.{At}
use line_stock_alert.Repositories.Admin.{AdminActionContext, audit_row}
use line_stock_alert.Admin as Service
use line_stock_alert.Admin.Transactions.{set_user_status-HasSetUser}
use line_stock_alert.Admin.Users.{disable_user-HasSetUser}
use line_stock_alert.Admin.Stocks.{
  set_stock-HasSetStock, disable_stock-HasSetStock, disable_alert-triple,
}
use line_stock_alert.World.Faults.{failures}
use line_stock_alert.RichMenu.{Outside, RichMenuPublishResult, publish}
use line_stock_alert.RichMenu.Requests.{HasFailed}
use line_stock_alert.RichMenu.Publishing.{IsPublished, publish_outcome}
use line_stock_alert.AdminApi.Reading.{
  Stays, list_alerts-Stays, get_alert-Stays, list_stocks-Stays, get_stock-Stays, dashboard-Stays,
  line_stats-Stays, list_users-Stays, get_user-Stays, failed_line_messages-Stays, audit_logs-Stays,
  application_logs-Stays,
}
use line_stock_alert.AdminApi.{
  AdminCall, disable_user, disable_stock, disable_alert, enable_user, enable_stock, list_alerts,
  get_alert, list_stocks, get_stock, dashboard, line_stats, list_users, get_user,
  failed_line_messages, audit_logs, application_logs, publish_rich_menu, AdminSettings, Upload,
  no_file, unreadable, file, rich_menu_publish, answered, with_reason, handle,
}

-- The tables are as they were, or one entry of the administrator is on top of the audit log.
abbrev pub IsAccounted : Text → Db → Db → Type 0
IsAccounted admin d db =
    (db ≡ d) ⊎ ((r : AuditRow) × (db.audit_logs ≡ r ∷ d.audit_logs) × (r.admin_user_id ≡ admin))

module _ {d : Db} {n : ℕ} (action : AdminActionContext) where
  answered_rule :
      {A : Type 0} (m : M Error A)
      → Triple (At d n) m (λ _ w. IsAccounted action.admin_user_id d w.db) (λ _ w. w.db ≡ d)
      → Triple
          (At d n)
          (answered m)
          (λ _ w. IsAccounted action.admin_user_id d w.db)
          (λ _ w. w.db ≡ d)
  answered_rule m h = map_err_rule _ h ⟫ λ _. return_rule 200 (λ w k. k)

  with_reason_rule :
      (body : Option Text) (service : Text → M Error (Unit {0}))
      → ((reason : Text)
          → Triple
              (At d n)
              (service reason)
              (λ _ w. IsAccounted action.admin_user_id d w.db)
              (λ _ w. w.db ≡ d))
      → Triple
          (At d n)
          (with_reason body service)
          (λ _ w. IsAccounted action.admin_user_id d w.db)
          (λ _ w. w.db ≡ d)
  with_reason_rule none service h = raise_rule _ _ (λ w k. k.0)
  with_reason_rule (some reason) service h = answered_rule (service reason) (h reason)

-- A call whose changes are accounted for.
abbrev Accounts : {A : Type 0} → Text → Db → ℕ → M Error A → Type 0
Accounts admin d n m = Triple (At d n) m (λ _ w. IsAccounted admin d w.db) (λ _ w. w.db ≡ d)

accounted :
    {d db : Db} {admin : Text} (r : AuditRow)
    → db.audit_logs ≡ r ∷ d.audit_logs
    → r.admin_user_id ≡ admin
    → IsAccounted admin d db
accounted r e same = inr (r, e, same)

audit_logs_of : {x y : Db} → x ≡ y → x.audit_logs ≡ y.audit_logs
audit_logs_of e = ap (λ (x : Db). x.audit_logs) e

module _ {d : Db} (action : AdminActionContext) where
  publish-IsAccounted :
      (o : Outside) (url : Text) (bytes : List ℕ) (w : World)
      (r : Result Error RichMenuPublishResult × World)
      → Post
          (λ x. IsPublished o url action bytes x.rich_menu_id w)
          (λ e w'. (w'.db ≡ w.db) × HasFailed o w.menu_requests (failures w.faults) e.code w')
          r
      → w.db ≡ d
      → Post (λ _ w'. IsAccounted action.admin_user_id d w'.db) (λ _ w'. w'.db ≡ d) r
  publish-IsAccounted o url bytes w (ok x, w') h e =
      accounted _
        (audit_logs_of h.recorded
          ∙ ap
              (λ (y : Db).
                audit_row action (text "RICH_MENU_PUBLISHED") x.rich_menu_id [] ∷ y.audit_logs)
              e)
        refl
  publish-IsAccounted o url bytes w (err x, w') h e = h.0 ∙ e

module _ {d : Db} {n : ℕ} (u : Unicode) (action : AdminActionContext) where
  reads : {A : Type 0} {m : M Error A} → Stays d n m → Accounts action.admin_user_id d n m
  reads h = consequence (λ w k. k) (λ _ w k. inl k.0) (λ _ w k. k) h

  disable_user-Accounts :
      (id reason : Text)
      → Accounts action.admin_user_id d n (Service.disable_user u action id reason)
  disable_user-Accounts id reason =
      consequence (λ w h. h) (λ _ w h. accounted _ (audit_logs_of h.2.after) refl) (λ _ w h. h)
        (disable_user-HasSetUser u action id reason)

  enable_user-Accounts :
      (id : Text) → Accounts action.admin_user_id d n (Service.enable_user u action id)
  unfolding Service.enable_user
  enable_user-Accounts id = map_err_rule _ (
      consequence (λ w h. h) (λ _ w h. accounted _ (audit_logs_of h.after) refl) (λ _ w h. h)
        (set_user_status-HasSetUser action (trim_space u id) Standing.active []))

  disable_stock-Accounts :
      (symbol reason : Text)
      → Accounts action.admin_user_id d n (Service.disable_stock u action symbol reason)
  disable_stock-Accounts symbol reason =
      consequence (λ w h. h) (λ _ w h. accounted _ (audit_logs_of h.2.after) refl) (λ _ w h. h)
        (disable_stock-HasSetStock u action symbol reason)

  enable_stock-Accounts :
      (symbol : Text) → Accounts action.admin_user_id d n (Service.enable_stock u action symbol)
  unfolding Service.enable_stock
  enable_stock-Accounts symbol =
      consequence (λ w h. h) (λ _ w h. accounted _ (audit_logs_of h.1.after) refl) (λ _ w h. h)
        (set_stock-HasSetStock u action symbol Standing.active [])

  disable_alert-Accounts :
      (id reason : Text)
      → Accounts action.admin_user_id d n (Service.disable_alert u action id reason)
  disable_alert-Accounts id reason =
      consequence (λ w h. h) (λ _ w h. accounted _ (audit_logs_of h.1.after) refl) (λ _ w h. h)
        (disable_alert-triple u action id reason)

  publish-Accounts :
      (o : Outside) (url : Text) (bytes : List ℕ)
      → Accounts action.admin_user_id d n (publish o url action bytes)
  publish-Accounts o url bytes = record {
    at = λ w h.
        publish-IsAccounted action o url bytes w (publish o url action bytes w)
          (publish_outcome o url action bytes w) h.0;
  }

  upload-IsAccounted :
      (settings : AdminSettings) (upload : Upload)
      → Triple
          (At d n)
          (rich_menu_publish settings action upload)
          (λ _ w. IsAccounted action.admin_user_id d w.db)
          (λ _ w. w.db ≡ d)
  upload-IsAccounted settings no_file = raise_rule _ _ (λ w h. h.0)
  upload-IsAccounted settings unreadable = raise_rule _ _ (λ w h. h.0)
  upload-IsAccounted settings (file bytes) =
      map_err_rule _ (publish-Accounts _ _ _) ⟫ λ _. return_rule 201 (λ w h. h)

  pub handle-IsAccounted :
      (settings : AdminSettings) (call : AdminCall)
      → Triple
          (At d n)
          (handle u settings action call)
          (λ _ w. IsAccounted action.admin_user_id d w.db)
          (λ _ w. w.db ≡ d)
  unfolding handle
  handle-IsAccounted settings (disable_user id body) =
      with_reason_rule action body _ (disable_user-Accounts id)
  handle-IsAccounted settings (enable_user id) = answered_rule action _ (enable_user-Accounts id)
  handle-IsAccounted settings (disable_stock symbol body) =
      with_reason_rule action body _ (disable_stock-Accounts symbol)
  handle-IsAccounted settings (enable_stock symbol) =
      answered_rule action _ (enable_stock-Accounts symbol)
  handle-IsAccounted settings (disable_alert id body) =
      with_reason_rule action body _ (disable_alert-Accounts id)
  handle-IsAccounted settings (list_alerts symbol status user_id page limit) =
      answered_rule action _ (reads (list_alerts-Stays u symbol status user_id page limit))
  handle-IsAccounted settings (get_alert id) = answered_rule action _ (reads (get_alert-Stays u id))
  handle-IsAccounted settings (list_stocks search status page limit) =
      answered_rule action _ (reads (list_stocks-Stays u search status page limit))
  handle-IsAccounted settings (get_stock symbol) =
      answered_rule action _ (reads (get_stock-Stays u symbol))
  handle-IsAccounted settings dashboard = answered_rule action _ (reads dashboard-Stays)
  handle-IsAccounted settings line_stats = answered_rule action _ (reads line_stats-Stays)
  handle-IsAccounted settings (list_users search status page limit) =
      answered_rule action _
        (reads (list_users-Stays u settings.display_name search status page limit))
  handle-IsAccounted settings (get_user id) =
      answered_rule action _ (reads (get_user-Stays u settings.display_name id))
  handle-IsAccounted settings (failed_line_messages page limit) =
      answered_rule action _ (reads (failed_line_messages-Stays page limit))
  handle-IsAccounted settings (audit_logs page limit) =
      answered_rule action _ (reads (audit_logs-Stays page limit))
  handle-IsAccounted settings (application_logs level service page limit) =
      answered_rule action _ (reads (application_logs-Stays u level service page limit))
  handle-IsAccounted settings (publish_rich_menu upload) = upload-IsAccounted settings upload
