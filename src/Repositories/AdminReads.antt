-- ===== src/Repositories/AdminReads.antt =====
-- List and Get of backend/internal/repositories/admin_user_repository.go, admin_dashboard_repository.go and
-- admin_monitoring_repository.go. Rows are added on top of the tables, which are so in the order of
-- created_at or attempted_at from the newest. Columns that the tables of the model do not have are left
-- out of the answers; the display name of a user, which is searched, is a parameter.
use line_stock_alert.Common.{
  ℕ, suc, Bool, true, false, not, ◌&&◌, ◌||◌, Option, none, some, List, [], ◌∷◌, map, if◌then◌else◌,
  find?, any, filter, count, take, length, is_some,
}
use line_stock_alert.Text.{Text, Unicode, text, text_eq, is_empty}
use line_stock_alert.Text.Like.{contains_like}
use line_stock_alert.World.{
  M, Db, read, external, ◌>>=◌, pure, UserRow, IdentityRow, AlertLogRow, AlertRow, AuditRow,
  EventRow, EventStatus, Role, Standing, is_active, alert_is_active, alert_is_triggered,
}
use line_stock_alert.Models.{Alert}
use line_stock_alert.Repositories.Errors.{RepositoryError, failure, admin_user_not_found}
use line_stock_alert.Repositories.Alerts.{select_alerts, by_created_desc}
use line_stock_alert.Repositories.Admin.{user_id_is, one_or}
use line_stock_alert.Repositories.AdminLists.{slice, standing_text}
use line_stock_alert.Repositories.Auth.{or_empty}

pub record AdminUser : Type 0 where
  pub id : Text
  pub email : Option Text
  pub display_name : Text
  pub role : Role
  pub status : Standing
  pub email_verified : Bool
  pub line_connected : Bool
  pub disabled_reason : Option Text
  pub disabled_at : Option ℕ

pub record AdminUserDetail : Type 0 where
  pub user : AdminUser
  pub providers : List Text
  pub alerts : List Alert

pub record AdminUserFilter : Type 0 where
  pub search : Text
  pub status : Text
  pub limit : ℕ
  pub offset : ℕ

abbrev has_identity : Db → Text → Bool
has_identity db id = any (λ (i : IdentityRow). text_eq i.user_id id) db.identities

module _ (u : Unicode) (display_name : UserRow → Text) where
  abbrev pub admin_user : Db → UserRow → AdminUser
  admin_user db r = record {
    id = r.id;
    email = r.email;
    display_name = display_name r;
    role = r.role;
    status = r.status;
    email_verified = is_some r.email_verified_at;
    line_connected = has_identity db r.id;
    disabled_reason = r.disabled_reason;
    disabled_at = r.disabled_at;
  }

  abbrev pub user_passes : AdminUserFilter → UserRow → Bool
  user_passes f r =
      (is_empty f.search
        || contains_like u f.search (or_empty r.email)
        || contains_like u f.search (display_name r))
      && (is_empty f.status || text_eq (standing_text r.status) f.status)

  unfoldable pub list_users : AdminUserFilter → M RepositoryError (List AdminUser × ℕ)
  list_users f = do
    total ← external failure (read (λ db. count (user_passes f) db.users))
    users ← external failure (
        read (λ db. map (admin_user db) (slice f.limit f.offset (filter (user_passes f) db.users))))
    pure (users, total)

  -- The provider of every identity of the user, which is LINE.
  abbrev identity_providers : Text → Db → List Text
  identity_providers id db =
      map (λ _. text "LINE") (filter (λ (i : IdentityRow). text_eq i.user_id id) db.identities)

  -- listAlerts
  abbrev alerts_of : Text → Db → List Alert
  alerts_of id db =
      select_alerts db (λ (a : AlertRow) s. text_eq a.user_id id) (by_created_desc db.alerts)

  abbrev with_email : AdminUser → List Text → List Text
  with_email user providers = if is_some user.email then text "EMAIL" ∷ providers else providers

  abbrev found_user : Text → Db → Option AdminUser
  found_user id db = elim (find? (user_id_is id) db.users) [
    | none ↦ none
    | some r ↦ some (admin_user db r)
  ]

  unfoldable pub get_user : Text → M RepositoryError AdminUserDetail
  get_user id = do
    user ← external failure (read (found_user id) >>= one_or admin_user_not_found)
    providers ← external failure (read (identity_providers id))
    alerts ← external failure (read (alerts_of id))
    pure (record { user = user; providers = with_email user providers; alerts = alerts })

-- COUNT(DISTINCT …)
unfoldable pub count_distinct : List Text → ℕ
count_distinct [] = 0
count_distinct (x ∷ xs) =
    let rest = count_distinct xs in if any (text_eq x) xs then rest else suc rest

abbrev connected_users : Db → ℕ
connected_users db = count_distinct (map (λ (i : IdentityRow). i.user_id) db.identities)

abbrev pub is_failed_log : AlertLogRow → Bool
is_failed_log r = not r.sent

pub record AdminDashboard : Type 0 where
  pub users : ℕ
  pub active_users : ℕ
  pub disabled_users : ℕ
  pub active_alerts : ℕ
  pub triggered_alerts : ℕ
  pub connected : ℕ
  pub failed_messages : ℕ

abbrev dashboard_of : Db → AdminDashboard
dashboard_of db = record {
  users = length db.users;
  active_users = count (λ (r : UserRow). is_active r.status) db.users;
  disabled_users = count (λ (r : UserRow). not (is_active r.status)) db.users;
  active_alerts = count (λ (a : AlertRow). alert_is_active a.status) db.alerts;
  triggered_alerts = count (λ (a : AlertRow). alert_is_triggered a.status) db.alerts;
  connected = connected_users db;
  failed_messages = count is_failed_log db.alert_logs;
}

unfoldable pub get_dashboard : M RepositoryError AdminDashboard
get_dashboard = external failure (read dashboard_of)

pub record AdminLineStats : Type 0 where
  pub connected : ℕ
  pub messages_sent : ℕ
  pub failed_messages : ℕ
  pub delivery_failures : ℕ
  pub recent_activity : List AlertLogRow

abbrev is_failed_event : EventStatus → Bool
is_failed_event EventStatus.failed = true
is_failed_event _ = false

abbrev line_counts : Db → List AlertLogRow → AdminLineStats
line_counts db recent = record {
  connected = connected_users db;
  messages_sent = count (λ (r : AlertLogRow). r.sent) db.alert_logs;
  failed_messages = count is_failed_log db.alert_logs;
  delivery_failures = count (λ (r : EventRow). is_failed_event r.status) db.events;
  recent_activity = recent;
}

unfoldable pub line_stats : M RepositoryError AdminLineStats
line_stats = do
  counts ← external failure (read line_counts)
  recent ← external failure (read (λ db. take 20 db.alert_logs))
  pure (counts recent)

unfoldable pub failed_line_messages : ℕ → ℕ → M RepositoryError (List AlertLogRow × ℕ)
failed_line_messages limit offset = do
  total ← external failure (read (λ db. count is_failed_log db.alert_logs))
  items ← external failure (read (λ db. slice limit offset (filter is_failed_log db.alert_logs)))
  pure (items, total)

-- The service that writes a code; every row has the level ERROR.
abbrev pub service_of : Text → Text
service_of code =
    if text_eq code (text "RECIPIENTS_FAILED") || text_eq code (text "LINE_PUSH_FAILED")
    then text "market-notification-worker"
    else text "alert-worker"

abbrev pub log_passes : Text → Text → Text → Bool
log_passes level service code =
    (is_empty level || text_eq (text "ERROR") level)
    && (is_empty service || text_eq (service_of code) service)

unfoldable pub application_logs : Text → Text → ℕ → ℕ → M RepositoryError (List Text × ℕ)
application_logs level service limit offset = do
  total ← external failure (read (λ db. count (log_passes level service) db.application_logs))
  logs ←
      external failure
        (read (λ db. slice limit offset (filter (log_passes level service) db.application_logs)))
  pure (logs, total)

unfoldable pub audit_logs : ℕ → ℕ → M RepositoryError (List AuditRow × ℕ)
audit_logs limit offset = do
  total ← external failure (read (λ db. length db.audit_logs))
  logs ← external failure (read (λ db. slice limit offset db.audit_logs))
  pure (logs, total)
