-- ===== src/Admin/Transactions.antt =====
-- SetStatus and Disable of backend/internal/repositories/admin_user_repository.go,
-- admin_stock_repository.go and admin_alert_repository.go: the tables after each transaction.
use line_stock_alert.Common.{
  ℕ, ◌≡◌, refl, sym, ap, ◌∙◌, false, ◌&&◌, Option, none, some, ◌∷◌, ◌++◌, find?, count, leb,
}
use line_stock_alert.Text.{Text, text}
use line_stock_alert.World.{
  Db, World, UserRow, StockRow, AlertRow, AuditRow, Standing, Role, is_admin, pure, read, write,
  read_clock, external, ◌>>=◌, ◌>>◌, alert_is_disabled,
}
use line_stock_alert.World.Triples.{
  Triple, ◌⟫◌, consequence, with_fact, return_rule, raise_rule, raise_if_rule, external_rule,
  transaction_from_rule,
}
use line_stock_alert.World.Clock.{At, clock_known_rule, read_known_rule, write_known_rule}
use line_stock_alert.Rows.{update_where}
use line_stock_alert.Repositories.{
  RepositoryError, failure, admin_user_not_found, admin_action_not_allowed, admin_stock_not_found,
  admin_stock_action_not_allowed, admin_alert_not_found, admin_alert_action_not_allowed,
}
use line_stock_alert.Repositories.Auth.{revoke}
use line_stock_alert.Repositories.Admin.{
  AdminActionContext, same_standing, audit_row, insert_audit, one_or, user_id_is, is_active_admin,
  disable_user_row, enable_user_row, is_live_of, keep_an_admin, update_user_status, user_action,
  set_user_status, symbol_is, stock_id_is, disable_stock_row, enable_stock_row, is_active_for,
  disable_alert_row, update_stock_status, stock_action, set_stock_status, alert_id_is,
  disable_alert,
}

-- Every error inside a transaction.
abbrev Any : RepositoryError → World → Type 0
Any _ _ = Unit

abbrev pub audited : AuditRow → Db → Db
audited entry d = record d { audit_logs = entry ∷ d.audit_logs }

module _ {d : Db} {n : ℕ} where
  one_or-some :
      {A : Type 0} (e : RepositoryError) (o : Option A)
      → Triple (At d n) (one_or e o) (λ a w. (o ≡ some a) × At d n w) Any
  unfolding one_or
  one_or-some e none = raise_rule _ e (λ w h. tt)
  one_or-some e (some a) = return_rule a (λ w h. (refl, h))

  lock_known : Triple (At d n) (external failure (pure tt)) (λ _ w. At d n w) Any
  lock_known = external_rule failure (λ w fs h. h) (λ w h. tt) (return_rule tt (λ w h. h))

  select_one :
      {A : Type 0} (g : Db → A)
      → Triple (At d n) (external failure (read g)) (λ a w. (a ≡ g d) × At d n w) Any
  select_one g = external_rule failure (λ w fs h. h) (λ w h. tt) (read_known_rule g)

  update_one :
      (f : Db → Db) → Triple (At d n) (external failure (write f)) (λ _ w. At (f d) n w) Any
  update_one f = external_rule failure (λ w fs h. h) (λ w h. tt) (write_known_rule f)

  audit-audited :
      (entry : AuditRow)
      → Triple
          (At d n)
          (external failure (insert_audit entry))
          (λ _ w. At (audited entry d) n w)
          Any
  unfolding insert_audit
  audit-audited entry = update_one (audited entry)

  -- An UPDATE that writes the time.
  update_now :
      (f : ℕ → Db → Db)
      → Triple
          (At d n)
          (external failure (read_clock >>= λ now. write (f now)))
          (λ _ w. At (f n d) n w)
          Any
  update_now f =
      external_rule failure (λ w fs h. h) (λ w h. tt)
        (clock_known_rule ⟫ λ now. with_fact λ en.
          consequence (λ w h. h) (λ _ w h. (h.0 ∙ ap (λ t. f t d) en, h.1)) (λ _ _ h. h)
            (write_known_rule (f now)))

  keep_an_admin-At :
      (status : Standing) (role : Role)
      → Triple
          (At d n)
          (keep_an_admin status role)
          (λ _ w.
            ((same_standing status Standing.disabled
                && is_admin role
                && leb (count is_active_admin d.users) 1)
              ≡ false)
            × At d n w)
          Any
  keep_an_admin-At Standing.disabled Role.admin =
      external_rule failure (λ w fs h. h) (λ w h. tt) (read_known_rule _) ⟫ λ admins. with_fact λ e.
        consequence (λ w h. h) (λ _ w h. (rw e at h.0, h.1)) (λ _ _ h. h)
          (raise_if_rule (leb admins 1) admin_action_not_allowed (λ w _ h. tt))
  keep_an_admin-At Standing.disabled Role.user = return_rule tt (λ w h. (refl, h))
  keep_an_admin-At Standing.active role = return_rule tt (λ w h. (refl, h))

-- The tables after the status of a user has been set.
abbrev pub user_status_set : AdminActionContext → Text → Standing → Text → ℕ → Db → Db
user_status_set action id Standing.disabled reason n d =
    audited (audit_row action (text "USER_DISABLED") id reason) (record d {
      users = update_where (user_id_is id) (disable_user_row reason n) d.users;
      tokens = update_where (is_live_of id) (revoke n) d.tokens;
    })
user_status_set action id Standing.active reason n d =
    audited (audit_row action (text "USER_ENABLED") id reason)
      (record d { users = update_where (user_id_is id) enable_user_row d.users })

update_user-At :
    {d : Db} {n : ℕ} (action : AdminActionContext) (id : Text) (status : Standing) (reason : Text)
    → Triple
        (At d n)
        (update_user_status id status reason
          >> external failure (insert_audit (audit_row action (user_action status) id reason)))
        (λ _ w. At (user_status_set action id status reason n d) n w)
        Any
update_user-At action id Standing.active reason =
    update_one _ ⟫ λ _. audit-audited (audit_row action (text "USER_ENABLED") id reason)
update_user-At {d = d} {n = n} action id Standing.disabled reason =
    (update_now (λ now db. record db {
      users = update_where (user_id_is id) (disable_user_row reason now) db.users;
    })
      ⟫ λ _.
          update_now
            (λ now db. record db { tokens = update_where (is_live_of id) (revoke now) db.tokens }))
    ⟫ λ _. audit-audited (audit_row action (text "USER_DISABLED") id reason)

-- What a successful change of a user's status has found, and done to the tables.
pub record HasSetUser (action : AdminActionContext) (id : Text) (status : Standing) (reason : Text)
    (d : Db) (n : ℕ) (db : Db) : Type 0 where
  pub row : UserRow
  pub found : find? (user_id_is id) d.users ≡ some row
  pub changed : same_standing row.status status ≡ false
  pub guarded :
      (same_standing status Standing.disabled
        && is_admin row.role
        && leb (count is_active_admin d.users) 1)
      ≡ false
  pub after : db ≡ user_status_set action id status reason n d

pub set_user_status-HasSetUser :
    {d : Db} {n : ℕ} (action : AdminActionContext) (id : Text) (status : Standing) (reason : Text)
    → Triple
        (At d n)
        (set_user_status action id status reason)
        (λ _ w. HasSetUser action id status reason d n w.db)
        (λ _ w. w.db ≡ d)
unfolding set_user_status
set_user_status-HasSetUser {d = d} {n = n} action id status reason =
    transaction_from_rule failure d (λ w fs h. h) (λ w h. h.0) (λ _ w fs h. h) (λ _ w h. h)
      (lock_known ⟫ λ _. select_one (λ db. find? (user_id_is id) db.users) ⟫ λ o. with_fact λ eo.
        one_or-some admin_user_not_found o ⟫ λ row. with_fact λ er.
          raise_if_rule (same_standing row.status status) admin_action_not_allowed (λ w _ h. tt)
          ⟫ λ _. with_fact λ changed. keep_an_admin-At status row.role ⟫ λ _. with_fact λ guarded.
            consequence (λ w h. h)
              (λ _ w h. (record {
                row = row;
                found = sym eo ∙ er;
                changed = changed;
                guarded = guarded;
                after = h.0;
              }))
              (λ _ _ h. h) (update_user-At action id status reason))

abbrev pub stock_status_set : AdminActionContext → Text → Text → Standing → Text → ℕ → Db → Db
stock_status_set action symbol id Standing.disabled reason n d =
    audited (audit_row action (text "STOCK_DISABLED") symbol reason) (record d {
      stocks = update_where (stock_id_is id) (disable_stock_row reason n) d.stocks;
      alerts =
          update_where (is_active_for id) (disable_alert_row (text "Stock disabled: " ++ reason) n)
            d.alerts;
    })
stock_status_set action symbol id Standing.active reason n d =
    audited (audit_row action (text "STOCK_ENABLED") symbol reason)
      (record d { stocks = update_where (stock_id_is id) enable_stock_row d.stocks })

update_stock-At :
    {d : Db} {n : ℕ} (action : AdminActionContext) (symbol id : Text) (status : Standing)
    (reason : Text)
    → Triple
        (At d n)
        (update_stock_status id status reason
          >> external failure (insert_audit (audit_row action (stock_action status) symbol reason)))
        (λ _ w. At (stock_status_set action symbol id status reason n d) n w)
        Any
update_stock-At action symbol id Standing.active reason =
    update_one _ ⟫ λ _. audit-audited (audit_row action (text "STOCK_ENABLED") symbol reason)
update_stock-At {d = d} {n = n} action symbol id Standing.disabled reason =
    (update_now (λ now db. record db {
      stocks = update_where (stock_id_is id) (disable_stock_row reason now) db.stocks;
    })
      ⟫ λ _. update_now (λ now db. record db {
        alerts =
            update_where (is_active_for id)
              (disable_alert_row (text "Stock disabled: " ++ reason) now) db.alerts;
      }))
    ⟫ λ _. audit-audited (audit_row action (text "STOCK_DISABLED") symbol reason)

-- What a successful change of a stock's status has found, and done to the tables.
pub record HasSetStock (action : AdminActionContext) (symbol : Text) (status : Standing)
    (reason : Text) (d : Db) (n : ℕ) (db : Db) : Type 0 where
  pub row : StockRow
  pub found : find? (symbol_is symbol) d.stocks ≡ some row
  pub changed : same_standing row.status status ≡ false
  pub after : db ≡ stock_status_set action symbol row.id status reason n d

pub set_stock_status-HasSetStock :
    {d : Db} {n : ℕ} (action : AdminActionContext) (symbol : Text) (status : Standing)
    (reason : Text)
    → Triple
        (At d n)
        (set_stock_status action symbol status reason)
        (λ _ w. HasSetStock action symbol status reason d n w.db)
        (λ _ w. w.db ≡ d)
unfolding set_stock_status
set_stock_status-HasSetStock {d = d} {n = n} action symbol status reason =
    transaction_from_rule failure d (λ w fs h. h) (λ w h. h.0) (λ _ w fs h. h) (λ _ w h. h)
      (select_one (λ db. find? (symbol_is symbol) db.stocks) ⟫ λ o. with_fact λ eo.
        one_or-some admin_stock_not_found o ⟫ λ row. with_fact λ er.
          raise_if_rule (same_standing row.status status) admin_stock_action_not_allowed
            (λ w _ h. tt)
          ⟫ λ _. with_fact λ changed.
            consequence (λ w h. h)
              (λ _ w h. record { row = row; found = sym eo ∙ er; changed = changed; after = h.0 })
              (λ _ _ h. h) (update_stock-At action symbol row.id status reason))

-- What the disabling of an alert has found, and done to the tables.
pub record HasDisabledAlert (action : AdminActionContext) (id : Text) (reason : Text) (d : Db)
    (n : ℕ) (db : Db) : Type 0 where
  pub row : AlertRow
  pub found : find? (alert_id_is id) d.alerts ≡ some row
  pub was_enabled : alert_is_disabled row.status ≡ false
  pub after :
      db
      ≡ audited (audit_row action (text "ALERT_DISABLED") id reason) (record d {
        alerts = update_where (alert_id_is id) (disable_alert_row reason n) d.alerts;
      })

pub disable_alert-HasDisabledAlert :
    {d : Db} {n : ℕ} (action : AdminActionContext) (id reason : Text)
    → Triple
        (At d n)
        (disable_alert action id reason)
        (λ _ w. HasDisabledAlert action id reason d n w.db)
        (λ _ w. w.db ≡ d)
unfolding disable_alert
disable_alert-HasDisabledAlert {d = d} {n = n} action id reason =
    transaction_from_rule failure d (λ w fs h. h) (λ w h. h.0) (λ _ w fs h. h) (λ _ w h. h)
      (select_one (λ db. find? (alert_id_is id) db.alerts) ⟫ λ o. with_fact λ eo.
        one_or-some admin_alert_not_found o ⟫ λ row. with_fact λ er.
          raise_if_rule (alert_is_disabled row.status) admin_alert_action_not_allowed (λ w _ h. tt)
          ⟫ λ _. with_fact λ enabled.
            update_now (λ now db. record db {
              alerts = update_where (alert_id_is id) (disable_alert_row reason now) db.alerts;
            })
            ⟫ λ _.
                consequence (λ w h. h)
                  (λ _ w h. record {
                    row = row;
                    found = sym eo ∙ er;
                    was_enabled = enabled;
                    after = h.0;
                  })
                  (λ _ _ h. h) (audit-audited (audit_row action (text "ALERT_DISABLED") id reason)))
