-- ===== src/Middleware/Guards.antt =====
-- backend/middleware/admin.go: who gets past RequireAdmin.
use line_stock_alert.Common.{ℕ, ◌≡◌, refl, sym, true, not, Option, none, some, arith, find?}
use line_stock_alert.Text.{Text, Unicode, is_empty, trim_space}
use line_stock_alert.World.{Db, World, ok, UserRow, is_admin, is_active}
use line_stock_alert.World.Triples.{
  Post, Triple, ◌⟫◌, consequence, with_fact, return_rule, raise_rule, raise_if_rule, map_err_rule,
  external_rule,
}
use line_stock_alert.World.Clock.{At, read_known_rule}
use line_stock_alert.Rows.{update_where}
use line_stock_alert.Rows.Laws.{find?-holds}
use line_stock_alert.Repositories.{failure}
use line_stock_alert.Repositories.Admin.{user_id_is, AdminActionContext, disable_user_row}
use line_stock_alert.Admin.{disable_user}
use line_stock_alert.Admin.Users.{disable_user_revokes}
use line_stock_alert.Admin.Lockout.{disabled-row}
use line_stock_alert.Middleware.{access_of, find_user_access, check_access, require_admin}

-- The row of an active administrator.
pub record IsActiveAdmin (user_id : Text) (d : Db) : Type 0 where
  pub row : UserRow
  pub found : find? (user_id_is user_id) d.users ≡ some row
  pub administrator : is_admin row.role ≡ true
  pub enabled : is_active row.status ≡ true

check-IsActiveAdmin :
    (user_id : Text) (d : Db) (n : ℕ) (o : Option UserRow)
    → find? (user_id_is user_id) d.users ≡ o
    → Triple
        (At d n)
        (check_access (access_of o))
        (λ _ w. (IsActiveAdmin user_id d) × At d n w)
        (λ _ w. w.db ≡ d)
check-IsActiveAdmin user_id d n none e = raise_rule _ _ (λ w h. h.0)
check-IsActiveAdmin user_id d n (some r) e =
    raise_if_rule (not (is_active r.status)) _ (λ w _ h. h.0) ⟫ λ _. with_fact λ enabled.
      consequence (λ w h. h)
        (λ _ w h. (
          record {
            row = r;
            found = e;
            administrator = ground (arith, h.0);
            enabled = ground (arith, enabled);
          },
          h.1,
        ))
        (λ _ _ h. h) (raise_if_rule (not (is_admin r.role)) _ (λ w _ h. h.0))

pub require_admin-At :
    {d : Db} {n : ℕ} (user_id : Text)
    → Triple
        (At d n)
        (require_admin user_id)
        (λ _ w. (IsActiveAdmin user_id d) × At d n w)
        (λ _ w. w.db ≡ d)
unfolding require_admin find_user_access
require_admin-At {d = d} {n = n} user_id = raise_if_rule (is_empty user_id) _ (λ w _ h. h.0) ⟫ λ _.
    with_fact λ _.
      map_err_rule _ (
        external_rule failure (λ w fs h. h) (λ w h. h.0)
          (read_known_rule (λ db. find? (user_id_is user_id) db.users))
        ⟫ λ o. with_fact {F = o ≡ find? (user_id_is user_id) d.users} λ e.
          return_rule
            {Q = λ a w.
              ((p : Option UserRow) × (a ≡ access_of p) × (find? (user_id_is user_id) d.users ≡ p))
              × At d n w}
            (access_of o) (λ w h. ((o, refl, sym e), h)))
      ⟫ λ access. with_fact λ f. rw f.1 (check-IsActiveAdmin user_id d n f.0 f.2)

-- A request gets past RequireAdmin only for the id of a user who is at that time an active
-- administrator; and the middleware changes no table, however it ends.
pub require_admin-IsActiveAdmin :
    (user_id : Text) (w : World)
    → Post
        (λ _ w'. IsActiveAdmin user_id w.db × (w'.db ≡ w.db))
        (λ _ w'. w'.db ≡ w.db)
        (require_admin user_id w)
require_admin-IsActiveAdmin user_id w =
    (consequence (λ v h. h) (λ _ v h. (h.0, h.1.0)) (λ _ v h. h) (require_admin-At user_id)).at w
      (refl, refl)

-- Once an administrator has disabled a user, and as long as the tables stay so, RequireAdmin rejects
-- every request of the user.
pub disabled_admin_rejected :
    (u : Unicode) (action : AdminActionContext) (raw_target raw_reason : Text) (w w' later : World)
    → disable_user u action raw_target raw_reason w ≡ (ok tt, w')
    → later.db ≡ w'.db
    → Post
        (λ _ _. ⊥)
        (λ _ after. after.db ≡ later.db)
        (require_admin (trim_space u raw_target) later)
disabled_admin_rejected u action raw_target raw_reason w w' later done same =
    let id = trim_space u raw_target in
    let gone = rw done at (disable_user_revokes u action raw_target raw_reason w) in
    (consequence (λ v h. h)
        (λ _ v h.
          let found : find? (user_id_is id) (
                update_where (user_id_is id) (disable_user_row (trim_space u raw_reason) w.now)
                  w.db.users)
              ≡ some h.0.row =
            rw (same, gone.2.after) at h.0.found in
          let off =
            disabled-row (user_id_is id) id (trim_space u raw_reason) w.now w.db.users h.0.row found
              (find?-holds (user_id_is id) _ h.0.row found) in
          let on = h.0.enabled in cc (off, on))
        (λ _ _ h. h) (require_admin-At {d = later.db} {n = later.now} id)).at
      later (refl, refl)
