-- ===== src/Auth/Replay.antt =====
-- AuthService.Refresh of backend/internal/services/auth_service.go on a token that it has already
-- exchanged: the whole family of the token dies, the token answered before included.
use line_stock_alert.Common.{
  ℕ, ◌≡◌, refl, ap, ◌∙◌, inl, inr, true, false, not, ◌&&◌, some, List, [], ◌∷◌, arith, find?, any,
  count, Bool-cases,
}
use line_stock_alert.Text.{Text, Unicode, text_eq, is_empty}
use line_stock_alert.Text.Laws.{text_eq_iff, text_eq_refl}
use line_stock_alert.Errors.{Code, new_error}
use line_stock_alert.World.{Db, World, ok, err, TokenRow, UserRow, ◌>>=◌}
use line_stock_alert.Rows.{update_where, update_if}
use line_stock_alert.Rows.Laws.{find?-update, any_of_find?}
use line_stock_alert.Models.{TokenResponse}
use line_stock_alert.Repositories.Auth.{
  has_hash, is_revoked, is_rotatable, replace_by, in_family, revoke, find_refresh_token, one_token,
  revoke_token_family,
}
use line_stock_alert.Auth.{Crypto, AuthConfig, hash_token, refresh}
use line_stock_alert.Auth.Rotation.{family_revoked, HasRotated, refresh_rotates}

-- The tokens of a family that are not revoked.
abbrev pub live_tokens : Text → Db → ℕ
live_tokens family_id db =
    count (λ (t : TokenRow). in_family family_id t && not (is_revoked t)) db.tokens

family_revoked-dead :
    (family_id : Text) (n : ℕ) (ts : List TokenRow)
    → count
        (λ (t : TokenRow). in_family family_id t && not (is_revoked t))
        (update_where (in_family family_id) (revoke n) ts)
      ≡ 0
family_revoked-dead family_id n [] = refl
family_revoked-dead family_id n (t ∷ ts) = ground (arith, family_revoked-dead family_id n ts)

module _ (u : Unicode) (c : Crypto) (cfg : AuthConfig) (raw : Text) where
  reuse_revokes :
      (w : World) (row : TokenRow) (owner : UserRow)
      → find? (has_hash (hash_token u c cfg raw)) w.db.tokens ≡ some row
      → find? (λ (v : UserRow). text_eq v.id row.user_id) w.db.users ≡ some owner
      → is_revoked row ≡ true
      → is_empty raw ≡ false
      → w.faults ≡ []
      → refresh u c cfg raw w ≡ (
        err (new_error Code.refresh_token_revoked "The refresh token has been revoked."),
        record w { faults = []; db = family_revoked row.family_id w.now w.db },
      )
  unfolding refresh find_refresh_token one_token revoke_token_family ◌>>=◌
  reuse_revokes w row owner found owned dead raw_given quiet =
      ground (arith, raw_given, quiet, found, owned, dead)

  refresh-given :
      (w w' : World) (t : TokenResponse) → refresh u c cfg raw w ≡ (ok t, w') → is_empty raw ≡ false
  unfolding refresh ◌>>=◌
  refresh-given w w' t e = elim (Bool-cases (is_empty raw)) [
    | inr h ↦ h
    | inl h ↦ ground (arith, e, h)
  ]

-- The token that was exchanged is found again, retired.
old_found :
    (hash new_hash : Text) (ttl : ℕ) (d db : Db) (n : ℕ)
    → (h : HasRotated hash new_hash ttl d n db)
    → find? (has_hash hash) db.tokens ≡ some (replace_by h.new.id n h.old)
old_found hash new_hash ttl d db n h =
    let q = is_rotatable h.old.id in
    let other : has_hash hash h.new ≡ false = elim (Bool-cases (has_hash hash h.new)) [
      | inr e ↦ e
      | inl e ↦
          let same : h.new.token_hash ≡ hash = (text_eq_iff h.new.token_hash hash).0 e in
          let taken : any (has_hash h.new.token_hash) d.tokens ≡ true =
            rw same (any_of_find? (has_hash hash) d.tokens h.old h.found) in
          ground (arith, taken, h.inserted.fresh)
    ] in
    let at : find? (has_hash hash) (h.new ∷ d.tokens) ≡ some h.old = rw (other, h.found) refl in
    let hit : q h.old ≡ true = ground (arith, text_eq_refl h.old.id, h.live) in
    let kept =
      find?-update (has_hash hash) q (replace_by h.new.id n) (h.new ∷ d.tokens) h.old (λ r. refl)
        at in
    rw h.after (kept ∙ rw hit refl)

new_found :
    (hash new_hash : Text) (ttl : ℕ) (d db : Db) (n : ℕ)
    → (h : HasRotated hash new_hash ttl d n db)
    → (new : TokenRow) × (find? (has_hash new_hash) db.tokens ≡ some new)
      × (new.family_id ≡ h.old.family_id)
new_found hash new_hash ttl d db n h =
    let q = is_rotatable h.old.id in
    let same : h.new.token_hash ≡ new_hash =
      ap (λ (t : TokenRow). t.token_hash) h.inserted.is_new in
    let at : has_hash new_hash h.new ≡ true = (text_eq_iff h.new.token_hash new_hash).1 same in
    let found : find? (has_hash new_hash) (h.new ∷ d.tokens) ≡ some h.new = rw at refl in
    let kept =
      find?-update (has_hash new_hash) q (replace_by h.new.id n) (h.new ∷ d.tokens) h.new
        (λ r. refl) found in
    let family : h.new.family_id ≡ h.old.family_id =
      ap (λ (t : TokenRow). t.family_id) h.inserted.is_new in
    (
      update_if q (replace_by h.new.id n) h.new,
      rw h.after kept,
      elim (Bool-cases (q h.new)) [ inl e ↦ rw e family | inr e ↦ rw e family ],
    )

-- A token that Refresh has exchanged: a further Refresh by it, on the same tables and with no failing
-- statement, is refused as revoked, and then no token is live in the family of the token answered.
pub replay_revokes_family :
    (u : Unicode) (c : Crypto) (cfg : AuthConfig) (raw : Text) (w w' later : World)
    (t : TokenResponse)
    → refresh u c cfg raw w ≡ (ok t, w')
    → later.db ≡ w'.db
    → later.faults ≡ []
    → (((refresh u c cfg raw later).0
          ≡ err (new_error Code.refresh_token_revoked "The refresh token has been revoked."))
        × ((new : TokenRow) × (find? (has_hash (hash_token u c cfg t.refresh_token)) w'.db.tokens
              ≡ some new)
            × (live_tokens new.family_id (refresh u c cfg raw later).1.db ≡ 0)))
replay_revokes_family u c cfg raw w w' later t e same quiet =
    let hash = hash_token u c cfg raw in
    let new_hash = hash_token u c cfg t.refresh_token in
    let h : HasRotated hash new_hash cfg.refresh_ttl w.db w.now w'.db =
      rw e at (refresh_rotates u c cfg raw w) in
    let row = replace_by h.new.id w.now h.old in
    let found : find? (has_hash hash) later.db.tokens ≡ some row =
      rw same (old_found hash new_hash cfg.refresh_ttl w.db w'.db w.now h) in
    let owned : find? (λ (v : UserRow). text_eq v.id row.user_id) later.db.users ≡ some h.owner =
      rw (same, h.after) h.owned in
    let given = refresh-given u c cfg raw w w' t e in
    let reused = reuse_revokes u c cfg raw later row h.owner found owned refl given quiet in
    let new = new_found hash new_hash cfg.refresh_ttl w.db w'.db w.now h in
    (
      ap (λ p. p.0) reused,
      (
        new.0,
        new.1,
        rw (reused, new.2) (family_revoked-dead row.family_id later.now later.db.tokens),
      ),
    )
