-- ===== src/Auth/Tokens.antt =====
-- The token statements of backend/internal/repositories/auth_repository.go: what one call of each
-- leaves of the tables `d` at the time `n`.
use line_stock_alert.Common.{
  ℕ, ◌<◌, ◌≡◌, refl, sym, ap, ◌∙◌, inl, inr, false, Option, none, some, ◌∷◌, arith, find?,
  Option-cases, leb, ◌==◌,
}
use line_stock_alert.Text.{Text, text_eq}
use line_stock_alert.World.{Db, TokenRow, UserRow}
use line_stock_alert.World.Triples.{
  Triple, ◌⟫◌, consequence, with_fact, return_rule, raise_rule, raise_if_rule, fresh_uuid_rule,
  external_rule, transaction_from_rule,
}
use line_stock_alert.World.Clock.{At, clock_known_rule, read_known_rule, write_known_rule}
use line_stock_alert.Rows.{update_where}
use line_stock_alert.Models.{RefreshToken, User}
use line_stock_alert.Repositories.{failure, token_conflict, not_found}
use line_stock_alert.Repositories.Auth.{
  new_token, breaks_token_unique, insert_token, join_user, has_hash, one_token, find_refresh_token,
  scan_token, scan_user, is_rotatable, replace_by, retire, rotate_refresh_token, in_family, revoke,
  revoke_token_family,
}

pub record IsInserted (user_id family_id hash : Text) (expires_at : ℕ) (d : Db) (n : ℕ)
    (t : TokenRow) : Type 0 where
  pub id : Text
  pub is_new : t ≡ new_token user_id family_id hash expires_at id
  pub fresh : breaks_token_unique t d ≡ false
  pub unexpired : n < expires_at

-- The row and its owner that a token was scanned from.
pub record IsToken (hash : Text) (d : Db) (p : RefreshToken × User) : Type 0 where
  pub row : TokenRow
  pub owner : UserRow
  pub found : find? (has_hash hash) d.tokens ≡ some row
  pub owned : find? (λ (u : UserRow). text_eq u.id row.user_id) d.users ≡ some owner
  pub scanned : p ≡ (scan_token row, scan_user owner)

join_user-some :
    (d : Db) (o : Option TokenRow) (t : TokenRow) (u : UserRow)
    → join_user d o ≡ some (t, u)
    → (o ≡ some t) × (find? (λ (v : UserRow). text_eq v.id t.user_id) d.users ≡ some u)
join_user-some d none t u e = cc
join_user-some d (some s) t u e =
    elim (Option-cases (find? (λ (v : UserRow). text_eq v.id s.user_id) d.users)) [
      | inl h ↦ let e' : none ≡ some (t, u) = rw (h, join_user) at e in cc
      | inr (v, h) ↦
          let e' : some (s, v) ≡ some (t, u) = rw (h, join_user) at e in
          let same : s ≡ t = cc in
          let same_owner : v ≡ u = cc in (ap some same, rw (sym same) (h ∙ ap some same_owner))
    ]

module _ {d : Db} {n : ℕ} where
  pub insert_token-IsInserted :
      (user_id family_id hash : Text) (expires_at : ℕ)
      → Triple
          (At d n)
          (insert_token user_id family_id hash expires_at)
          (λ t w.
            (IsInserted user_id family_id hash expires_at d n t)
            × At (record d { tokens = t ∷ d.tokens }) n w)
          (λ _ w. At d n w)
  unfolding insert_token
  insert_token-IsInserted user_id family_id hash expires_at =
      fresh_uuid_rule failure (λ w ids h. h) (λ w h. h) ⟫ λ id. clock_known_rule ⟫ λ now.
      with_fact λ en. raise_if_rule (leb expires_at now) failure (λ w e h. h) ⟫ λ _.
      with_fact λ later.
        let t = new_token user_id family_id hash expires_at id in
        read_known_rule (breaks_token_unique t) ⟫ λ taken. with_fact λ et.
          raise_if_rule taken token_conflict (λ w e h. h) ⟫ λ _. with_fact λ free.
            write_known_rule _ ⟫ λ _. return_rule t (λ w h. (
              record { id = id; is_new = refl; fresh = sym et ∙ free; unexpired = ground arith },
              h,
            ))

  -- Nothing is found, or exactly one row that was not revoked is.
  pub retire-At :
      (old_id new_id : Text)
      → Triple
          (At d n)
          (retire old_id new_id)
          (λ _ w.
            At
              (record d {
                tokens = update_where (is_rotatable old_id) (replace_by new_id n) d.tokens;
              })
              n
              w)
          (λ _ _. Unit {0})
  unfolding retire
  retire-At old_id new_id = read_known_rule _ ⟫ λ affected. with_fact λ _. clock_known_rule ⟫ λ now.
      with_fact λ en. write_known_rule _ ⟫ λ _.
      consequence (λ w h. h) (λ _ w h. rw en at h.1) (λ _ _ h. h)
        (raise_if_rule (affected == 0) not_found (λ w e h. tt))

  pub find_refresh_token-IsToken :
      (hash : Text)
      → Triple
          (At d n)
          (find_refresh_token hash)
          (λ p w. (IsToken hash d p) × At d n w)
          (λ _ w. At d n w)
  unfolding find_refresh_token one_token
  find_refresh_token-IsToken hash =
      external_rule failure (λ w fs h. h) (λ w h. h)
        (read_known_rule _ ⟫ λ o. with_fact λ e. elim (Option-cases o) [
          | inl h ↦ rw h (raise_rule _ not_found (λ w k. k))
          | inr (p, h) ↦
              let js = join_user-some d (find? (has_hash hash) d.tokens) p.0 p.1 (sym e ∙ h) in
              rw h (
                return_rule _ (λ w k. (
                  record { row = p.0; owner = p.1; found = js.0; owned = js.1; scanned = refl },
                  k,
                )))
        ])

  pub revoke_token_family-At :
      (family_id : Text)
      → Triple
          (At d n)
          (revoke_token_family family_id)
          (λ _ w.
            w.db ≡ record d { tokens = update_where (in_family family_id) (revoke n) d.tokens })
          (λ _ w. w.db ≡ d)
  unfolding revoke_token_family
  revoke_token_family-At family_id =
      external_rule failure (λ w fs h. h) (λ w h. h.0)
        (clock_known_rule ⟫ λ now.
          with_fact
            λ en. consequence (λ w h. h) (λ _ w h. rw en at h.0) (λ _ _ h. h) (write_known_rule _))

-- The tables after a rotation by the token `t`.
abbrev pub rotated : Text → ℕ → Db → TokenRow → Db
rotated old_id n d t = record d {
  tokens = update_where (is_rotatable old_id) (replace_by t.id n) (t ∷ d.tokens);
}

pub rotate_refresh_token-rotated :
    {d : Db} {n : ℕ} (old_id user_id family_id hash : Text) (expires_at : ℕ)
    → Triple
        (At d n)
        (rotate_refresh_token old_id user_id family_id hash expires_at)
        (λ _ w.
          (t : TokenRow) × IsInserted user_id family_id hash expires_at d n t
          × At (rotated old_id n d t) n w)
        (λ _ w. w.db ≡ d)
unfolding rotate_refresh_token
rotate_refresh_token-rotated {d = d} {n = n} old_id user_id family_id hash expires_at =
    transaction_from_rule failure d (λ w fs h. h) (λ w h. h.0) (λ _ w fs h. h) (λ _ w h. h)
      (external_rule failure (λ w fs h. h) (λ w h. tt)
          (consequence (λ w h. h) (λ _ w h. h) (λ _ _ _. tt)
            (insert_token-IsInserted user_id family_id hash expires_at))
        ⟫ λ t. with_fact λ inserted.
          consequence (λ w h. h) (λ _ w h. (t, inserted, h)) (λ _ _ h. h)
            (external_rule failure (λ w fs h. h) (λ w h. tt) (retire-At old_id t.id)))
