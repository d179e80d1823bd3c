-- ===== src/Repositories/Auth.antt =====
-- backend/internal/repositories/auth_repository.go: users by email or LINE id, and refresh tokens.
use line_stock_alert.Common.{
  ℕ, Bool, false, not, ◌&&◌, ◌||◌, Option, none, some, [], ◌∷◌, if◌then◌else◌, find?, any, count,
  leb, ◌==◌, is_some,
}
use line_stock_alert.Text.{Text, Unicode, text_eq, to_lower}
use line_stock_alert.World.{
  M, Db, pure, raise, raise_if, read, write, read_clock, fresh_uuid, external, transaction, ◌>>=◌,
  ◌>>◌, UserRow, TokenRow, IdentityRow, Role, Standing,
}
use line_stock_alert.Rows.{update_where}
use line_stock_alert.Models.{User, RefreshToken}
use line_stock_alert.Repositories.Errors.{RepositoryError, failure, not_found, token_conflict}

-- COALESCE(column, '')
abbrev pub or_empty : Option Text → Text
or_empty none = []
or_empty (some t) = t

abbrev pub scan_user : UserRow → User
scan_user r = record {
  id = r.id;
  email = or_empty r.email;
  password_hash = or_empty r.password_hash;
  role = r.role;
  status = r.status;
  email_verified_at = r.email_verified_at;
}

abbrev pub scan_token : TokenRow → RefreshToken
scan_token t = record {
  id = t.id;
  user_id = t.user_id;
  family_id = t.family_id;
  token_hash = t.token_hash;
  expires_at = t.expires_at;
  revoked_at = t.revoked_at;
}

-- The column email is of type CITEXT, which compares the lower case of both sides.
abbrev pub has_email : Unicode → Text → UserRow → Bool
has_email u email r = elim r.email [
  | none ↦ false
  | some e ↦ text_eq (to_lower u e) (to_lower u email)
]

-- The column password_hash is scanned into a Go string, which fails on NULL.
abbrev pub scan_by_email : Option UserRow → M RepositoryError User
scan_by_email none = raise not_found
scan_by_email (some r) = raise_if (not (is_some r.password_hash)) failure >> pure (scan_user r)

unfoldable pub find_user_by_email : Unicode → Text → M RepositoryError User
find_user_by_email u email =
    external failure (read (λ db. find? (has_email u email) db.users) >>= scan_by_email)

abbrev pub new_token : Text → Text → Text → ℕ → Text → TokenRow
new_token user_id family_id hash expires_at id = record {
  id = id;
  user_id = user_id;
  family_id = family_id;
  token_hash = hash;
  replaced_by = none;
  expires_at = expires_at;
  last_used_at = none;
  revoked_at = none;
}

-- The primary key, and UNIQUE on token_hash.
abbrev pub breaks_token_unique : TokenRow → Db → Bool
breaks_token_unique t db =
    any (λ r. text_eq r.id t.id) db.tokens || any (λ r. text_eq r.token_hash t.token_hash) db.tokens

-- The INSERT of both CreateRefreshToken and RotateRefreshToken; a token that has expired already
-- breaks the CHECK on expires_at.
unfoldable pub insert_token : Text → Text → Text → ℕ → M RepositoryError TokenRow
insert_token user_id family_id hash expires_at = do
  id ← fresh_uuid failure
  let t = new_token user_id family_id hash expires_at id
  now ← read_clock
  raise_if (leb expires_at now) failure
  taken ← read (breaks_token_unique t)
  raise_if taken token_conflict
  write (λ db. record db { tokens = t ∷ db.tokens })
  pure t

unfoldable pub create_refresh_token : Text → Text → ℕ → M RepositoryError (Unit {0})
create_refresh_token user_id hash expires_at =
    external failure
      (do family_id ← fresh_uuid failure; insert_token user_id family_id hash expires_at; pure tt)

-- `JOIN users u ON u.id = rt.user_id`
abbrev pub join_user : Db → Option TokenRow → Option (TokenRow × UserRow)
join_user db none = none
join_user db (some t) = elim (find? (λ (u : UserRow). text_eq u.id t.user_id) db.users) [
  | none ↦ none
  | some u ↦ some (t, u)
]

abbrev pub has_hash : Text → TokenRow → Bool
has_hash hash t = text_eq t.token_hash hash

unfoldable pub one_token : Option (TokenRow × UserRow) → M RepositoryError (RefreshToken × User)
one_token none = raise not_found
one_token (some p) = pure (scan_token p.0, scan_user p.1)

unfoldable pub find_refresh_token : Text → M RepositoryError (RefreshToken × User)
find_refresh_token hash =
    external failure (read (λ db. join_user db (find? (has_hash hash) db.tokens)) >>= one_token)

abbrev pub is_revoked : TokenRow → Bool
is_revoked t = is_some t.revoked_at

-- `WHERE id = $1 AND revoked_at IS NULL`
abbrev pub is_rotatable : Text → TokenRow → Bool
is_rotatable id t = text_eq t.id id && not (is_revoked t)

-- `SET revoked_at = NOW(), last_used_at = NOW(), replaced_by_token_id = $2`
abbrev pub replace_by : Text → ℕ → TokenRow → TokenRow
replace_by new_id now t = record t {
  revoked_at = some now;
  last_used_at = some now;
  replaced_by = some new_id;
}

unfoldable pub retire : Text → Text → M RepositoryError (Unit {0})
retire old_id new_id = do
  affected ← read (λ db. count (is_rotatable old_id) db.tokens)
  now ← read_clock
  write (λ db. record db {
    tokens = update_where (is_rotatable old_id) (replace_by new_id now) db.tokens;
  })
  raise_if (affected == 0) not_found

unfoldable pub rotate_refresh_token : Text → Text → Text → Text → ℕ → M RepositoryError (Unit {0})
rotate_refresh_token old_id user_id family_id new_hash expires_at = transaction failure (do
  t ← external failure (insert_token user_id family_id new_hash expires_at)
  external failure (retire old_id t.id))

-- `SET revoked_at = COALESCE(revoked_at, NOW())`
abbrev pub revoke : ℕ → TokenRow → TokenRow
revoke now t = if is_revoked t then t else record t { revoked_at = some now }

abbrev pub in_family : Text → TokenRow → Bool
in_family family_id t = text_eq t.family_id family_id

unfoldable pub revoke_token_family : Text → M RepositoryError (Unit {0})
revoke_token_family family_id = external failure (do
  now ← read_clock
  write (λ db. record db { tokens = update_where (in_family family_id) (revoke now) db.tokens }))

abbrev pub of_user : Text → TokenRow → Bool
of_user user_id t = text_eq t.user_id user_id

unfoldable pub revoke_all_user_tokens : Text → M RepositoryError (Unit {0})
revoke_all_user_tokens user_id = external failure (do
  now ← read_clock
  write (λ db. record db { tokens = update_where (of_user user_id) (revoke now) db.tokens }))

-- `WHERE ui.provider = 'LINE' AND ui.provider_user_id = $1`, joined with the user.
abbrev pub line_user : Db → Text → Option UserRow
line_user db line_user_id =
    elim (find? (λ (i : IdentityRow). text_eq i.provider_user_id line_user_id) db.identities) [
      | none ↦ none
      | some i ↦ find? (λ (u : UserRow). text_eq u.id i.user_id) db.users
    ]

abbrev pub new_user : Text → UserRow
new_user id = record {
  id = id;
  email = none;
  password_hash = none;
  email_verified_at = none;
  role = Role.user;
  status = Standing.active;
  disabled_reason = none;
  disabled_at = none;
}

unfoldable pub insert_user : M RepositoryError UserRow
insert_user = do
  id ← fresh_uuid failure
  taken ← read (λ db. any (λ (u : UserRow). text_eq u.id id) db.users)
  raise_if taken failure
  write (λ db. record db { users = new_user id ∷ db.users })
  pure (new_user id)

-- UNIQUE (provider, provider_user_id) and UNIQUE (user_id, provider).
abbrev breaks_identity_unique : IdentityRow → Db → Bool
breaks_identity_unique i db =
    any
      (λ (j : IdentityRow).
        text_eq j.provider_user_id i.provider_user_id || text_eq j.user_id i.user_id)
      db.identities

unfoldable pub insert_identity : Text → Text → M RepositoryError (Unit {0})
insert_identity user_id line_user_id = do
  let i : IdentityRow = record { user_id = user_id; provider_user_id = line_user_id }
  taken ← read (breaks_identity_unique i)
  raise_if taken failure
  write (λ db. record db { identities = i ∷ db.identities })

unfoldable pub create_line_user : Text → M RepositoryError User
create_line_user line_user_id = transaction failure (do
  u ← external failure insert_user
  external failure (insert_identity u.id line_user_id)
  pure (scan_user u))

abbrev or_create : Text → Option UserRow → M RepositoryError User
or_create line_user_id (some u) = pure (scan_user u)
or_create line_user_id none = create_line_user line_user_id

-- The display name, which only administrators look at, is left out.
unfoldable pub find_or_create_line_user : Text → M RepositoryError User
find_or_create_line_user line_user_id = do
  found ← external failure (read (λ db. line_user db line_user_id))
  or_create line_user_id found
