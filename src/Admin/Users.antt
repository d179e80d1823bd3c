-- ===== src/Admin/Users.antt =====
-- AdminUserService.Disable and Enable of backend/internal/services/admin_user_service.go: what a call
-- leaves of the tables, on every branch and whatever fails on the way.
use line_stock_alert.Common.{ℕ, ◌≤◌, ◌≡◌, refl, true, false, not, ◌&&◌, List, [], ◌∷◌, arith, count}
use line_stock_alert.Text.{Text, Unicode, text_eq, trim_space}
use line_stock_alert.Text.Laws.{text_eq_iff}
use line_stock_alert.World.{Db, World, UserRow, TokenRow, Standing}
use line_stock_alert.World.Triples.{
  Post, Triple, Post-either, ◌⟫◌, consequence, with_fact, raise_if_rule, map_err_rule,
}
use line_stock_alert.World.Clock.{At}
use line_stock_alert.Rows.{update_where, UniqueKeys}
use line_stock_alert.Rows.Laws.{count-update}
use line_stock_alert.Repositories.Auth.{revoke, of_user, is_revoked}
use line_stock_alert.Repositories.Admin.{
  AdminActionContext, is_active_admin, user_id_is, is_live_of, disable_user_row, enable_user_row,
}
use line_stock_alert.Admin.{bad_reason, disable_user, enable_user, map_admin_user_mutation_error}
use line_stock_alert.Admin.Transactions.{HasSetUser, set_user_status-HasSetUser}
use line_stock_alert.Auth.Login.{live_user_tokens}

active_admins : Db → ℕ
active_admins d = count is_active_admin d.users

user_key : (id : Text) (r : UserRow) → user_id_is id r ≡ true → r.id ≡ id
user_key id r h = (text_eq_iff r.id id).0 h

-- An administrator stays active over a change of a user's status.
set-keeps :
    (action : AdminActionContext) (id : Text) (status : Standing) (reason : Text) (d db : Db)
    (n : ℕ)
    → UniqueKeys (λ (r : UserRow). r.id) d.users
    → HasSetUser action id status reason d n db
    → 1 ≤ count is_active_admin d.users
    → 1 ≤ count is_active_admin db.users
set-keeps action id Standing.disabled reason d db n unique h some_admin =
    let moved =
      count-update (λ (r : UserRow). r.id) is_active_admin (user_id_is id)
        (disable_user_row reason n) id d.users h.row unique (user_key id) h.found in
    rw h.after (ground (arith, moved, h.guarded))
set-keeps action id Standing.active reason d db n unique h some_admin =
    let moved =
      count-update (λ (r : UserRow). r.id) is_active_admin (user_id_is id) enable_user_row id
        d.users h.row unique (user_key id) h.found in
    rw h.after (ground (arith, moved, h.changed))

live_of-dead :
    (id : Text) (n : ℕ) (ts : List TokenRow)
    → count
        (λ (t : TokenRow). of_user id t && not (is_revoked t))
        (update_where (is_live_of id) (revoke n) ts)
      ≡ 0
live_of-dead id n [] = refl
live_of-dead id n (t ∷ ts) = ground (arith, live_of-dead id n ts)

module _ (u : Unicode) (action : AdminActionContext) {d : Db} {n : ℕ} where
  pub disable_user-HasSetUser :
      (raw_target raw_reason : Text)
      → Triple
          (At d n)
          (disable_user u action raw_target raw_reason)
          (λ _ w.
            (text_eq (trim_space u raw_target) action.admin_user_id ≡ false)
            × (bad_reason (trim_space u raw_reason) ≡ false)
            × HasSetUser action
                (trim_space u raw_target)
                Standing.disabled
                (trim_space u raw_reason)
                d
                n
                w.db)
          (λ _ w. w.db ≡ d)
  unfolding disable_user
  disable_user-HasSetUser raw_target raw_reason = raise_if_rule _ _ (λ w _ h. h.0) ⟫ λ _.
      with_fact λ other. raise_if_rule _ _ (λ w _ h. h.0) ⟫ λ _. with_fact λ good.
        consequence (λ w h. h) (λ _ w h. (other, good, h)) (λ _ _ h. h)
          (map_err_rule map_admin_user_mutation_error (
            set_user_status-HasSetUser action (trim_space u raw_target) Standing.disabled
              (trim_space u raw_reason)))

  enable_user-HasSetUser :
      (raw_target : Text)
      → Triple
          (At d n)
          (enable_user u action raw_target)
          (λ _ w. HasSetUser action (trim_space u raw_target) Standing.active [] d n w.db)
          (λ _ w. w.db ≡ d)
  unfolding enable_user
  enable_user-HasSetUser raw_target =
      map_err_rule map_admin_user_mutation_error
        (set_user_status-HasSetUser action (trim_space u raw_target) Standing.active [])

-- Disabling a user that succeeds is of an active user other than the administrator who asks, with a
-- reason of 1 to 1000 bytes, and, if the user is an administrator, with another active one; the
-- tables then differ by the user's row, the user's tokens and one entry of the audit log, and no
-- token of the user is live. One that fails, for whatever reason, leaves every table as it was.
pub disable_user_revokes :
    (u : Unicode) (action : AdminActionContext) (raw_target raw_reason : Text) (w : World)
    → Post
        (λ _ w'.
          (text_eq (trim_space u raw_target) action.admin_user_id ≡ false)
          × (bad_reason (trim_space u raw_reason) ≡ false)
          × HasSetUser action
              (trim_space u raw_target)
              Standing.disabled
              (trim_space u raw_reason)
              w.db
              w.now
              w'.db
          × (live_user_tokens (trim_space u raw_target) w'.db ≡ 0))
        (λ _ w'. w'.db ≡ w.db)
        (disable_user u action raw_target raw_reason w)
disable_user_revokes u action raw_target raw_reason w =
    (consequence (λ w' h. h)
        (λ _ w' h.
          (h.0, h.1, h.2, rw h.2.after (live_of-dead (trim_space u raw_target) w.now w.db.tokens)))
        (λ _ _ h. h) (disable_user-HasSetUser u action raw_target raw_reason)).at
      w (refl, refl)

-- Where no two users share an id and some administrator is active, one still is after any call that
-- disables or enables a user, whether it succeeds or fails.
pub admin_stays :
    (u : Unicode) (action : AdminActionContext) (raw_target raw_reason : Text) (w : World)
    → UniqueKeys (λ (r : UserRow). r.id) w.db.users
    → 1 ≤ count is_active_admin w.db.users
    → (1 ≤ count is_active_admin (disable_user u action raw_target raw_reason w).1.db.users)
      × (1 ≤ count is_active_admin (enable_user u action raw_target w).1.db.users)
admin_stays u action raw_target raw_reason w unique some_admin =
    let P : World → Type 0 = λ w'. 1 ≤ count is_active_admin w'.db.users in
    let kept : (w' : World) → w'.db ≡ w.db → P w' = λ w' e. rw e some_admin in
    let reason = trim_space u raw_reason in
    let id = trim_space u raw_target in
    (
      Post-either P _ (
          (consequence {Q' = λ _ w'. P w'} {R' = λ _ w'. P w'} (λ w' h. h)
              (λ _ w' h.
                set-keeps action id Standing.disabled reason w.db w'.db w.now unique h.2 some_admin)
              (λ _ w' h. kept w' h) (disable_user-HasSetUser u action raw_target raw_reason)).at
            w (refl, refl)),
      Post-either P _ (
          (consequence {Q' = λ _ w'. P w'} {R' = λ _ w'. P w'} (λ w' h. h)
              (λ _ w' h.
                set-keeps action id Standing.active [] w.db w'.db w.now unique h some_admin)
              (λ _ w' h. kept w' h) (enable_user-HasSetUser u action raw_target)).at
            w (refl, refl)),
    )
