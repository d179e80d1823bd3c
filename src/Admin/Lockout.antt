-- ===== src/Admin/Lockout.antt =====
-- AdminUserService.Disable of backend/internal/services/admin_user_service.go against Refresh and Login
-- of auth_service.go: a disabled user gets no tokens.
use line_stock_alert.Common.{
  ℕ, ◌≡◌, inl, inr, Bool, true, false, some, [], ◌∷◌, List, arith, find?, Bool-cases, ◌&&◌, not,
}
use line_stock_alert.Text.{Text, Unicode, trim_space}
use line_stock_alert.World.{Db, World, UserRow, TokenRow, is_active, ok}
use line_stock_alert.Rows.{update_where}
use line_stock_alert.Rows.Laws.{count-found}
use line_stock_alert.Models.{TokenResponse}
use line_stock_alert.Repositories.Auth.{has_hash, has_email, of_user, is_revoked}
use line_stock_alert.Repositories.Admin.{AdminActionContext, user_id_is, disable_user_row}
use line_stock_alert.Auth.{
  Crypto, AuthConfig, LoginRequest, hash_token, normalize_email, refresh, login,
}
use line_stock_alert.Auth.Rotation.{refresh_rotates}
use line_stock_alert.Auth.Login.{login_issues, live_user_tokens}
use line_stock_alert.Admin.{disable_user}
use line_stock_alert.Admin.Users.{disable_user_revokes}

-- A row with the id is disabled after the UPDATE.
pub disabled-row :
    (p : UserRow → Bool) (id reason : Text) (n : ℕ) (rs : List UserRow) (a : UserRow)
    → find? p (update_where (user_id_is id) (disable_user_row reason n) rs) ≡ some a
    → user_id_is id a ≡ true
    → is_active a.status ≡ false
disabled-row p id reason n [] a e h = cc
disabled-row p id reason n (r ∷ rs) a e h = ground (arith, disabled-row p id reason n rs a)

live-elsewhere :
    (id : Text) (p : TokenRow → Bool) (db : Db) (old : TokenRow)
    → live_user_tokens id db ≡ 0
    → find? p db.tokens ≡ some old
    → is_revoked old ≡ false
    → of_user id old ≡ false
live-elsewhere id p db old none_live found live = elim (Bool-cases (of_user id old)) [
  | inr e ↦ e
  | inl e ↦
      let some_live =
        count-found p (λ (t : TokenRow). of_user id t && not (is_revoked t)) db.tokens old found
          (ground (arith, e, live)) in
      absurd (omega (arith, some_live, none_live))
]

active-elsewhere :
    (id reason : Text) (n : ℕ) (p : UserRow → Bool) (rs : List UserRow) (row : UserRow)
    → find? p (update_where (user_id_is id) (disable_user_row reason n) rs) ≡ some row
    → is_active row.status ≡ true
    → user_id_is id row ≡ false
active-elsewhere id reason n p rs row found live = elim (Bool-cases (user_id_is id row)) [
  | inr e ↦ e
  | inl e ↦ ground (arith, disabled-row p id reason n rs row found e, live)
]

-- Once an administrator has disabled a user, and as long as the tables stay so, a Refresh that succeeds
-- was not by a token of the user.
pub disabled_user_no_refresh :
    (u : Unicode) (action : AdminActionContext) (raw_target raw_reason : Text) (w w' later : World)
    → disable_user u action raw_target raw_reason w ≡ (ok tt, w')
    → later.db ≡ w'.db
    → (c : Crypto) (cfg : AuthConfig) (raw : Text) (t : TokenResponse) (after : World)
    → refresh u c cfg raw later ≡ (ok t, after)
    → (old : TokenRow) × (find? (has_hash (hash_token u c cfg raw)) later.db.tokens ≡ some old)
      × (of_user (trim_space u raw_target) old ≡ false)
disabled_user_no_refresh u action raw_target raw_reason w w' later done same c cfg raw t after e =
    let id = trim_space u raw_target in
    let gone = rw done at (disable_user_revokes u action raw_target raw_reason w) in
    let h = rw e at (refresh_rotates u c cfg raw later) in
    (h.old, h.found, live-elsewhere id _ later.db h.old (rw same gone.3) h.found h.live)

-- Once an administrator has disabled a user, and as long as the tables stay so, a password login that
-- succeeds was not as the user.
pub disabled_user_no_login :
    (u : Unicode) (action : AdminActionContext) (raw_target raw_reason : Text) (w w' later : World)
    → disable_user u action raw_target raw_reason w ≡ (ok tt, w')
    → later.db ≡ w'.db
    → (c : Crypto) (cfg : AuthConfig) (req : LoginRequest) (t : TokenResponse) (after : World)
    → login u c cfg req later ≡ (ok t, after)
    → (email : Text) × (row : UserRow) × (normalize_email u c cfg req.email ≡ ok email)
      × (find? (has_email u email) later.db.users ≡ some row)
      × (user_id_is (trim_space u raw_target) row ≡ false)
disabled_user_no_login u action raw_target raw_reason w w' later done same c cfg req t after e =
    let id = trim_space u raw_target in
    let gone = rw done at (disable_user_revokes u action raw_target raw_reason w) in
    let h = rw e at (login_issues u c cfg req later) in
    (
      h.email,
      h.row,
      h.normalized,
      h.found,
      active-elsewhere id (trim_space u raw_reason) w.now (has_email u h.email) w.db.users h.row
          (rw (same, gone.2.after) at h.found) h.enabled,
    )
