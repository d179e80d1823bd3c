-- ===== src/Lifecycle/Admin.antt =====
-- The services of the administrators in backend/internal/services run the machine of alerts.
use line_stock_alert.Common.{ℕ, refl, Bool, ◌++◌, Option, none, some}
use line_stock_alert.Text.{Text, Unicode, text}
use line_stock_alert.World.{AlertRow, Standing, Role}
use line_stock_alert.Repositories.{RepositoryError}
use line_stock_alert.Repositories.Admin as Store
use line_stock_alert.Admin as Office
use line_stock_alert.Lifecycle.{IsMoved, withdraw, done}
use line_stock_alert.Lifecycle.Keeps.{
  Keeps, IsPreorder, pure-Keeps, raise-Keeps, read-Keeps, external-Keeps, map_err-Keeps,
  clock-Keeps, raise_if-Keeps, bind-Keeps, write-Keeps, transaction-Keeps,
}
use line_stock_alert.Lifecycle.Runs.{Runs, Runs-IsPreorder, update_where-Run}

withdrawn :
    (a : AlertRow) (reason : Text) (now : ℕ) → IsMoved a (Store.disable_alert_row reason now a)
withdrawn a reason now = record { id = refl; owner = refl; status = withdraw a.status }

module _ (b : Bool) (action : Store.AdminActionContext) where
  abbrev o : IsPreorder (Runs b)
  o = Runs-IsPreorder b

  one_or-Keeps :
      {A : Type 0} (e : RepositoryError) (r : Option A) → Keeps (Runs b) (Store.one_or e r)
  unfolding Store.one_or
  one_or-Keeps e none = raise-Keeps o e
  one_or-Keeps e (some a) = pure-Keeps o a

  audit-Keeps :
      (what id reason : Text)
      → Keeps (Runs b) (Store.insert_audit (Store.audit_row action what id reason))
  unfolding Store.insert_audit
  audit-Keeps what id reason = write-Keeps _ λ d. done d.alerts

  keep_an_admin-Keeps : (s : Standing) (r : Role) → Keeps (Runs b) (Store.keep_an_admin s r)
  keep_an_admin-Keeps Standing.disabled Role.admin =
      bind-Keeps o (external-Keeps o _ (read-Keeps o _)) λ n. raise_if-Keeps o _ _
  keep_an_admin-Keeps Standing.disabled Role.user = pure-Keeps o tt
  keep_an_admin-Keeps Standing.active r = pure-Keeps o tt

  update_user_status-Keeps :
      (id : Text) (s : Standing) (reason : Text)
      → Keeps (Runs b) (Store.update_user_status id s reason)
  update_user_status-Keeps id Standing.disabled reason =
      bind-Keeps o
        (external-Keeps o _ (bind-Keeps o (clock-Keeps o) λ now. write-Keeps _ λ d. done d.alerts))
        λ _.
          external-Keeps o _ (bind-Keeps o (clock-Keeps o) λ now. write-Keeps _ λ d. done d.alerts)
  update_user_status-Keeps id Standing.active reason =
      external-Keeps o _ (write-Keeps _ λ d. done d.alerts)

  set_user_status-Keeps :
      (id : Text) (s : Standing) (reason : Text)
      → Keeps (Runs b) (Store.set_user_status action id s reason)
  unfolding Store.set_user_status
  set_user_status-Keeps id s reason = transaction-Keeps o _ (
      bind-Keeps o (external-Keeps o _ (pure-Keeps o _)) λ _.
        bind-Keeps o (external-Keeps o _ (read-Keeps o _)) λ found.
          bind-Keeps o (one_or-Keeps _ found) λ row. bind-Keeps o (raise_if-Keeps o _ _) λ _.
            bind-Keeps o (keep_an_admin-Keeps s row.role) λ _.
              bind-Keeps o (update_user_status-Keeps id s reason)
                λ _. external-Keeps o _ (audit-Keeps _ _ _))

  update_stock_status-Keeps :
      (id : Text) (s : Standing) (reason : Text)
      → Keeps (Runs b) (Store.update_stock_status id s reason)
  update_stock_status-Keeps id Standing.disabled reason =
      bind-Keeps o
        (external-Keeps o _ (bind-Keeps o (clock-Keeps o) λ now. write-Keeps _ λ d. done d.alerts))
        λ _. external-Keeps o _ (
          bind-Keeps o (clock-Keeps o) λ now. write-Keeps _ λ d.
            update_where-Run b (Store.is_active_for id) _ d.alerts
              λ a _. withdrawn a (text "Stock disabled: " ++ reason) now)
  update_stock_status-Keeps id Standing.active reason =
      external-Keeps o _ (write-Keeps _ λ d. done d.alerts)

  set_stock_status-Keeps :
      (symbol : Text) (s : Standing) (reason : Text)
      → Keeps (Runs b) (Store.set_stock_status action symbol s reason)
  unfolding Store.set_stock_status
  set_stock_status-Keeps symbol s reason = transaction-Keeps o _ (
      bind-Keeps o (external-Keeps o _ (read-Keeps o _)) λ found.
        bind-Keeps o (one_or-Keeps _ found) λ row. bind-Keeps o (raise_if-Keeps o _ _) λ _.
          bind-Keeps o (update_stock_status-Keeps row.id s reason)
            λ _. external-Keeps o _ (audit-Keeps _ _ _))

  disable_alert-Keeps : (id reason : Text) → Keeps (Runs b) (Store.disable_alert action id reason)
  unfolding Store.disable_alert
  disable_alert-Keeps id reason = transaction-Keeps o _ (
      bind-Keeps o (external-Keeps o _ (read-Keeps o _)) λ found.
        bind-Keeps o (one_or-Keeps _ found) λ row. bind-Keeps o (raise_if-Keeps o _ _) λ _.
          bind-Keeps o
            (external-Keeps o _ (
              bind-Keeps o (clock-Keeps o) λ now. write-Keeps _ λ d.
                update_where-Run b (Store.alert_id_is id) _ d.alerts λ a _. withdrawn a reason now))
            λ _. external-Keeps o _ (audit-Keeps _ _ _))

  -- The methods of the services, on top of those of the repositories.
  module _ (u : Unicode) where
    pub disable_user-Keeps :
        (target reason : Text) → Keeps (Runs b) (Office.disable_user u action target reason)
    unfolding Office.disable_user
    disable_user-Keeps target reason = bind-Keeps o (raise_if-Keeps o _ _) λ _.
        bind-Keeps o (raise_if-Keeps o _ _) λ _. map_err-Keeps o _ (set_user_status-Keeps _ _ _)

    pub enable_user-Keeps : (target : Text) → Keeps (Runs b) (Office.enable_user u action target)
    unfolding Office.enable_user
    enable_user-Keeps target = map_err-Keeps o _ (set_user_status-Keeps _ _ _)

    service_stock-Keeps :
        (symbol : Text) (s : Standing) (reason : Text)
        → Keeps (Runs b) (Office.set_stock_status u action symbol s reason)
    unfolding Office.set_stock_status
    service_stock-Keeps symbol s reason =
        bind-Keeps o (raise_if-Keeps o _ _)
          λ _. map_err-Keeps o _ (set_stock_status-Keeps _ s reason)

    pub disable_stock-Keeps :
        (symbol reason : Text) → Keeps (Runs b) (Office.disable_stock u action symbol reason)
    unfolding Office.disable_stock
    disable_stock-Keeps symbol reason =
        bind-Keeps o (raise_if-Keeps o _ _) λ _. service_stock-Keeps symbol _ _

    pub enable_stock-Keeps : (symbol : Text) → Keeps (Runs b) (Office.enable_stock u action symbol)
    unfolding Office.enable_stock
    enable_stock-Keeps symbol = service_stock-Keeps symbol _ _

    pub service_alert-Keeps :
        (id reason : Text) → Keeps (Runs b) (Office.disable_alert u action id reason)
    unfolding Office.disable_alert
    service_alert-Keeps id reason =
        bind-Keeps o (raise_if-Keeps o _ _) λ _. map_err-Keeps o _ (disable_alert-Keeps _ _)
