-- ===== src/LineLogin/Accounts.antt =====
-- FindOrCreateLineUser of backend/internal/repositories/auth_repository.go: the account of a LINE user.
use line_stock_alert.Common.{
  ℕ, ◌≡◌, refl, sym, ap, ◌∙◌, ◌⊎◌, inl, inr, false, none, some, ◌∷◌, arith, any, Option-cases,
}
use line_stock_alert.Text.{Text, text_eq}
use line_stock_alert.Text.Laws.{text_eq_refl}
use line_stock_alert.World.{Db, UserRow}
use line_stock_alert.World.Triples.{
  Triple, ◌⟫◌, with_fact, return_rule, raise_if_rule, fresh_uuid_rule, external_rule,
  transaction_from_rule,
}
use line_stock_alert.World.Clock.{At, read_known_rule, write_known_rule}
use line_stock_alert.Models.{User}
use line_stock_alert.Repositories.{failure}
use line_stock_alert.Repositories.Auth.{
  scan_user, line_user, new_user, insert_user, insert_identity, create_line_user,
  find_or_create_line_user,
}

-- The tables with a new account.
abbrev pub with_account : Text → Text → Db → Db
with_account line_user_id id d = record d {
  users = new_user id ∷ d.users;
  identities = record { user_id = id; provider_user_id = line_user_id } ∷ d.identities;
}

-- How the account was come by.
pub record IsCreated (line_user_id : Text) (d d' : Db) (row : UserRow) : Type 0 where
  pub id : Text
  pub unknown : line_user d line_user_id ≡ none
  pub free : any (λ (u : UserRow). text_eq u.id id) d.users ≡ false
  pub is_new : row ≡ new_user id
  pub after : d' ≡ with_account line_user_id id d

-- The user of the tables `d'` that belongs to the LINE user: one of `d`, which is then unchanged, or a new
-- one.
pub record IsAccount (line_user_id : Text) (d d' : Db) (user : User) : Type 0 where
  pub row : UserRow
  pub scanned : user ≡ scan_user row
  pub linked : line_user d' line_user_id ≡ some row
  pub change : (d' ≡ d) ⊎ IsCreated line_user_id d d' row

line_user-with_account :
    (line_user_id id : Text) (d : Db)
    → line_user (with_account line_user_id id d) line_user_id ≡ some (new_user id)
line_user-with_account line_user_id id d =
    ground (arith, text_eq_refl line_user_id, text_eq_refl id)

module _ {d : Db} {n : ℕ} where
  insert_user-At :
      Triple
        (At d n)
        insert_user
        (λ row w.
          ((id : Text) × (any (λ (u : UserRow). text_eq u.id id) d.users ≡ false)
            × (row ≡ new_user id))
          × At (record d { users = row ∷ d.users }) n w)
        (λ _ _. Unit {0})
  unfolding insert_user
  insert_user-At = fresh_uuid_rule failure (λ w ids h. h) (λ w h. tt) ⟫ λ id.
      read_known_rule _ ⟫ λ taken. with_fact λ et. raise_if_rule taken failure (λ w e h. tt) ⟫ λ _.
      with_fact λ free.
        write_known_rule _ ⟫ λ _. return_rule (new_user id) (λ w h. ((id, sym et ∙ free, refl), h))

  insert_identity-At :
      (user_id line_user_id : Text)
      → Triple
          (At d n)
          (insert_identity user_id line_user_id)
          (λ _ w.
            At
              (record d {
                identities =
                    record { user_id = user_id; provider_user_id = line_user_id } ∷ d.identities;
              })
              n
              w)
          (λ _ _. Unit {0})
  unfolding insert_identity
  insert_identity-At user_id line_user_id = read_known_rule _ ⟫ λ taken.
      with_fact
        λ _. raise_if_rule taken failure (λ w e h. tt) ⟫ λ _. with_fact λ _. write_known_rule _

module _ {d : Db} {n : ℕ} where
  create_line_user-IsAccount :
      (line_user_id : Text)
      → line_user d line_user_id ≡ none
      → Triple
          (At d n)
          (create_line_user line_user_id)
          (λ user w. (d' : Db) × IsAccount line_user_id d d' user × At d' n w)
          (λ _ w. w.db ≡ d)
  unfolding create_line_user
  create_line_user-IsAccount line_user_id unknown =
      transaction_from_rule failure d (λ w fs h. h) (λ w h. h.0) (λ _ w fs h. h) (λ _ w h. h)
        (external_rule failure (λ w fs h. h) (λ w h. tt) insert_user-At ⟫ λ row. with_fact λ new.
          external_rule failure (λ w fs h. h) (λ w h. tt) (insert_identity-At row.id line_user_id)
          ⟫ λ _. return_rule (scan_user row) (λ w h. (
            with_account line_user_id new.0 d,
            record {
              row = row;
              scanned = refl;
              linked = line_user-with_account line_user_id new.0 d ∙ ap some (sym new.2);
              change = inr record {
                id = new.0;
                unknown = unknown;
                free = new.1;
                is_new = new.2;
                after = refl;
              };
            },
            rw new.2 at h,
          )))

  pub find_or_create_line_user-IsAccount :
      (line_user_id : Text)
      → Triple
          (At d n)
          (find_or_create_line_user line_user_id)
          (λ user w. (d' : Db) × IsAccount line_user_id d d' user × At d' n w)
          (λ _ w. w.db ≡ d)
  unfolding find_or_create_line_user
  find_or_create_line_user-IsAccount line_user_id =
      external_rule failure (λ w fs h. h) (λ w h. h.0) (read_known_rule _) ⟫ λ o. with_fact λ e.
        elim (Option-cases o) [
          | inl h ↦ rw h (create_line_user-IsAccount line_user_id (sym e ∙ h))
          | inr (row, h) ↦ rw h (
              return_rule (scan_user row) (λ w k. (
                d,
                record { row = row; scanned = refl; linked = sym e ∙ h; change = inl refl },
                k,
              )))
        ]
