-- ===== src/Auth/Rotation.antt =====
-- AuthService.Refresh of backend/internal/services/auth_service.go: what a call leaves of the tables,
-- on every branch and whatever fails on the way.
use line_stock_alert.Common.{
  ℕ, ◌+◌, ◌<◌, ◌≡◌, refl, ◌⊎◌, inl, inr, Bool, true, false, not, some, arith, find?, leb,
}
use line_stock_alert.Text.{Text, Unicode, text_eq, is_empty}
use line_stock_alert.Errors.{Error, Code, new_error}
use line_stock_alert.World.{Db, World, Result, ok, err, TokenRow, UserRow, raise, is_active}
use line_stock_alert.World.Triples.{
  Post, Triple, ◌⟫◌, consequence, with_fact, return_rule, raise_rule, raise_if_rule,
  fresh_uuid_rule, lift_rule, map_err_rule, attempt_rule,
}
use line_stock_alert.World.Clock.{At, clock_known_rule}
use line_stock_alert.Rows.{update_where}
use line_stock_alert.Models.{User}
use line_stock_alert.Repositories.{RepositoryError}
use line_stock_alert.Repositories.Auth.{
  has_hash, is_revoked, in_family, revoke, scan_token, scan_user,
}
use line_stock_alert.Auth.{
  Crypto, AuthConfig, hash_token, create_access_token, random_token, reject_if, rotate, refresh,
  map_refresh_error,
}
use line_stock_alert.Auth.Tokens.{
  IsInserted, rotated, find_refresh_token-IsToken, revoke_token_family-At,
  rotate_refresh_token-rotated,
}

-- The tables with a family of tokens revoked.
abbrev pub family_revoked : Text → ℕ → Db → Db
family_revoked family_id n d = record d {
  tokens = update_where (in_family family_id) (revoke n) d.tokens;
}

-- What a successful Refresh of the token with the hash `hash` has done to the tables `d` at `n`.
pub record HasRotated (hash : Text) (new_hash : Text) (ttl : ℕ) (d : Db) (n : ℕ) (db : Db)
    : Type 0 where
  pub old : TokenRow
  pub owner : UserRow
  pub new : TokenRow
  pub found : find? (has_hash hash) d.tokens ≡ some old
  pub owned : find? (λ (u : UserRow). text_eq u.id old.user_id) d.users ≡ some owner
  pub enabled : is_active owner.status ≡ true
  pub live : is_revoked old ≡ false
  pub unexpired : n < old.expires_at
  pub inserted : IsInserted owner.id old.family_id new_hash (n + ttl) d n new
  pub after : db ≡ rotated old.id n d new

-- What a failing Refresh has done: nothing, or it has revoked the family of a revoked token.
pub record HasRevokedFamily (hash : Text) (d : Db) (n : ℕ) (e : Error) (db : Db) : Type 0 where
  pub row : TokenRow
  pub found : find? (has_hash hash) d.tokens ≡ some row
  pub reused : is_revoked row ≡ true
  pub code : e.code ≡ Code.refresh_token_revoked
  pub after : db ≡ family_revoked row.family_id n d

abbrev Failed : Text → Db → ℕ → Error → World → Type 0
Failed hash d n e w = (w.db ≡ d) ⊎ HasRevokedFamily hash d n e w.db

module _ (u : Unicode) (c : Crypto) (cfg : AuthConfig) {d : Db} {n : ℕ} where
  pub create_access_token-At :
      {R : Unit {0} → World → Type 0} (user : User)
      → ((w : World) → At d n w → R tt w)
      → Triple (At d n) (create_access_token u c cfg user) (λ _ w. At d n w) R
  unfolding create_access_token
  create_access_token-At user r = clock_known_rule ⟫ λ now.
      with_fact
        λ _. consequence (λ w h. h) (λ _ w k. k.1) (λ _ _ h. h) (lift_rule _ (λ e w _ h. r w h))

  module _ (hash : Text) (row : TokenRow) (owner : UserRow)
      (found : find? (has_hash hash) d.tokens ≡ some row)
      (owned : find? (λ (v : UserRow). text_eq v.id row.user_id) d.users ≡ some owner) where
    after_revoke :
        (r : Result RepositoryError (Unit {0}))
        → is_revoked row ≡ true
        → Triple
            (λ w. Post (λ _ v. v.db ≡ family_revoked row.family_id n d) (λ _ v. v.db ≡ d) (r, w))
            (raise (new_error Code.refresh_token_revoked "The refresh token has been revoked."))
            (λ (_ : Unit {0}) w. (true ≡ false) × At d n w)
            (Failed hash d n)
    after_revoke (err _) dead = raise_rule _ _ (λ w k. inl k)
    after_revoke (ok _) dead =
        raise_rule _ _
          (λ w k. inr (record { row = row; found = found; reused = dead; code = refl; after = k }))

    reject_if-live :
        (b : Bool)
        → is_revoked row ≡ b
        → Triple
            (At d n)
            (reject_if u c cfg b (scan_token row))
            (λ _ w. (b ≡ false) × At d n w)
            (Failed hash d n)
    reject_if-live false e = return_rule tt (λ w k. (refl, k))
    reject_if-live true e =
        attempt_rule (revoke_token_family-At row.family_id) ⟫ λ r. after_revoke r e

    rotate-HasRotated :
        is_revoked row ≡ false
        → Triple
            (At d n)
            (rotate u c cfg (scan_token row) (scan_user owner))
            (λ t w. HasRotated hash (hash_token u c cfg t.refresh_token) cfg.refresh_ttl d n w.db)
            (Failed hash d n)
    unfolding rotate random_token
    rotate-HasRotated live = clock_known_rule ⟫ λ now. with_fact λ en.
        raise_if_rule (leb row.expires_at now) _ (λ w e k. inl k.0) ⟫ λ _. with_fact λ unexpired.
          raise_if_rule (not (is_active owner.status)) _ (λ w e k. inl k.0) ⟫ λ _.
          with_fact λ enabled.
            map_err_rule _ (create_access_token-At (scan_user owner) (λ w k. inl k.0)) ⟫ λ access.
            map_err_rule _ (fresh_uuid_rule tt (λ w ids k. k) (λ w k. inl k.0)) ⟫ λ raw.
            clock_known_rule ⟫ λ later. with_fact λ el.
              map_err_rule _ (
                consequence (λ w k. k) (λ _ _ k. k) (λ _ w k. inl k)
                  (rotate_refresh_token-rotated row.id owner.id row.family_id
                    (hash_token u c cfg raw) (later + cfg.refresh_ttl)))
              ⟫ λ _. return_rule _ (λ w k. record {
                old = row;
                owner = owner;
                new = k.0;
                found = found;
                owned = owned;
                enabled = ground arith;
                live = live;
                unexpired = ground arith;
                inserted = rw el at k.1;
                after = k.2.0;
              })

  refresh-HasRotated :
      (raw_token : Text)
      → Triple
          (At d n)
          (refresh u c cfg raw_token)
          (λ t w.
            HasRotated
              (hash_token u c cfg raw_token)
              (hash_token u c cfg t.refresh_token)
              cfg.refresh_ttl
              d
              n
              w.db)
          (λ e w. (w.db ≡ d) ⊎ HasRevokedFamily (hash_token u c cfg raw_token) d n e w.db)
  unfolding refresh
  refresh-HasRotated raw_token =
      let hash = hash_token u c cfg raw_token in
      raise_if_rule (is_empty raw_token) _ (λ w e k. inl k.0) ⟫ λ _. with_fact λ _.
        map_err_rule map_refresh_error
          (consequence (λ w k. k) (λ _ _ k. k) (λ _ w k. inl k.0) (find_refresh_token-IsToken hash))
        ⟫ λ p. with_fact λ h. rw h.scanned (
            reject_if-live hash h.row h.owner h.found h.owned (is_revoked h.row) refl ⟫ λ _.
            with_fact λ live. rotate-HasRotated hash h.row h.owner h.found h.owned live)

-- A Refresh that answers with tokens has found a token with the hash of the one sent that was neither
-- revoked nor expired, of an active user. It has retired that token and put one live token of the
-- same user and family, with the hash of the one answered and expiring a full TTL later, on top. A
-- call that fails, for whatever reason, has left every table as it was, or it answers that the token
-- is revoked, the token was, and its whole family is revoked.
pub refresh_rotates :
    (u : Unicode) (c : Crypto) (cfg : AuthConfig) (raw_token : Text) (w : World)
    → Post
        (λ t w'.
          HasRotated
            (hash_token u c cfg raw_token)
            (hash_token u c cfg t.refresh_token)
            cfg.refresh_ttl
            w.db
            w.now
            w'.db)
        (λ e w'.
          (w'.db ≡ w.db) ⊎ HasRevokedFamily (hash_token u c cfg raw_token) w.db w.now e w'.db)
        (refresh u c cfg raw_token w)
refresh_rotates u c cfg raw_token w = (refresh-HasRotated u c cfg raw_token).at w (refl, refl)
