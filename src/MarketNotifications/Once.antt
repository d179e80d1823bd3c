-- ===== src/MarketNotifications/Once.antt =====
-- backend/internal/services/market_notification_worker.go: a transition is notified of once.
use line_stock_alert.Common.{
  ℕ, ◌+◌, ◌≡◌, refl, sym, ap, subst, ◌⊎◌, inl, inr, Bool, true, false, not, Option, some, List, [],
  ◌∷◌, ==_iff, if◌then◌else◌, ◌/◌,
}
use mathlib.Core.Bool.{true≢false}
use line_stock_alert.Text.{Text}
use line_stock_alert.World.{
  World, Db, M, Result, ok, err, read, write, attempt, record_sent, ◌>>=◌, MarketEvent, market_open,
  market_closed, read_clock,
}
use line_stock_alert.World.Triples.{
  Post, Triple, ◌⟫◌, consequence, with_fact, return_rule, attempt_rule, external_rule, Post-either,
}
use line_stock_alert.Repositories.{RepositoryError, failure}
use line_stock_alert.MarketHours.Session.{Zone, market_transition}
use line_stock_alert.MarketNotifications.{
  Key, same_key, event_key, is_claimed, set_nx, del, active_line_user_ids, log_error, push_text,
  report_push, push_all, notify, after_claim, announce, check,
}

same_key_refl : (key : Key) → same_key key key ≡ true
same_key_refl (market_open, n) = (==_iff n n).1 refl
same_key_refl (market_closed, n) = (==_iff n n).1 refl

claim-claims :
    (key : Key) (keys : List Key) (b : Bool)
    → is_claimed key keys ≡ b
    → is_claimed key (if b then keys else key ∷ keys) ≡ true
claim-claims key keys true e = e
claim-claims key keys false e = let s = same_key_refl key in rw s refl

module _ (key : Key) (s : List (Text × Text)) where
  abbrev Claimed : World → Type 0
  Claimed w = is_claimed key w.market_keys ≡ true

  abbrev Unsent : World → Type 0
  Unsent w = w.sent ≡ s

  -- No message has been sent, and the key is taken.
  abbrev Ready : World → Type 0
  Ready w = (w.sent ≡ s) × Claimed w

  set_nx_rule : Triple (λ w. w.sent ≡ s) (set_nx key) (λ _. Ready) (λ _ w. w.sent ≡ s)
  unfolding set_nx
  set_nx_rule =
      external_rule tt (λ w fs h. h) (λ w h. h)
        (record { at = λ w h. (h, claim-claims key w.market_keys _ refl) })

  report_push_rule :
      (r : Result RepositoryError (Unit {0}))
      → Triple
          (λ w. Post (λ _. Claimed) (λ _. Claimed) (r, w))
          (report_push r)
          (λ _. Claimed)
          (λ _. Claimed)
  unfolding log_error write
  report_push_rule (ok _) = return_rule tt (λ w h. h)
  report_push_rule (err e) =
      attempt_rule (
        external_rule {Q = λ _. Claimed} {R = λ _. Claimed} failure (λ w fs h. h) (λ w h. h)
          (record { at = λ w h. h }))
      ⟫ λ r. return_rule tt (λ w h. Post-either Claimed (r, w) h)

  push_all_rule :
      (message : Text) (ids : List Text)
      → Triple Claimed (push_all message ids) (λ _. Claimed) (λ _. Claimed)
  unfolding push_all push_text record_sent
  push_all_rule message [] = return_rule tt (λ w h. h)
  push_all_rule message (id ∷ ids) =
      attempt_rule (
        external_rule {Q = λ _. Claimed} {R = λ _. Claimed} failure (λ w fs h. h) (λ w h. h)
          (record { at = λ w h. h }))
      ⟫ (λ r. report_push_rule r)
      ⟫ λ _. push_all_rule message ids

  del_rule : Triple Unsent (del key) (λ _. Unsent) (λ _. Unsent)
  unfolding del
  del_rule = external_rule tt (λ w fs h. h) (λ w h. h) (record { at = λ w h. h })

  log_rule : (code : Text) → Triple Unsent (log_error code) (λ _. Unsent) (λ _. Unsent)
  unfolding log_error write
  log_rule code = external_rule failure (λ w fs h. h) (λ w h. h) (record { at = λ w h. h })

  abbrev Once : World → Type 0
  Once w = (w.sent ≡ s) ⊎ Claimed w

  notify_rule :
      (message : Text) (r : Result RepositoryError (List Text))
      → Triple
          (λ w. Post (λ _. Ready) (λ _. Ready) (r, w))
          (notify message key r)
          (λ _. Once)
          (λ _. Once)
  notify_rule message (ok ids) =
      consequence (λ w h. h.1) (λ _ w h. inr h) (λ _ w h. inr h) (push_all_rule message ids)
  notify_rule message (err e) =
      consequence (λ w h. h.0) (λ _ w h. inl h) (λ _ w h. inl h)
        (attempt_rule del_rule ⟫ λ r.
          consequence (λ w h. Post-either Unsent (r, w) h) (λ _ w h. h) (λ _ w h. h)
            (attempt_rule (log_rule _) ⟫ λ r'.
              return_rule {R = λ _. Unsent} tt (λ w h. Post-either Unsent (r', w) h)))

  after_claim_rule :
      (message : Text) (r : Result (Unit {0}) Bool)
      → Triple
          (λ w. Post (λ _. Ready) (λ _. Unsent) (r, w))
          (after_claim message key r)
          (λ _. Once)
          (λ _. Once)
  unfolding active_line_user_ids read
  after_claim_rule message (ok true) =
      attempt_rule (
        external_rule {P = Ready} {Q = λ _. Ready} {R = λ _. Ready} failure (λ w fs h. h) (λ w h. h)
          (record { at = λ w h. h }))
      ⟫ λ r. notify_rule message r
  after_claim_rule message (ok false) = return_rule tt (λ w h. inl h.0)
  after_claim_rule message (err e) = return_rule tt (λ w h. inl h)

module _ (message : MarketEvent → ℕ → Text) where
  announce_rule :
      (event : MarketEvent) (at : ℕ) (s : List (Text × Text))
      → Triple
          (λ w. w.sent ≡ s)
          (announce message (some (event, at)))
          (λ _. Once (event_key (event, at)) s)
          (λ _. Once (event_key (event, at)) s)
  unfolding announce
  announce_rule event at s =
      let key = event_key (event, at) in
      attempt_rule (set_nx_rule key s) ⟫ λ r. after_claim_rule key s (message event at) r

-- Once the key is taken, nothing is sent and no table changes.
module _ (key : Key) (d : Db) (s : List (Text × Text)) where
  abbrev Idle : World → Type 0
  Idle w = (w.db ≡ d) × (w.sent ≡ s) × Claimed key s w

  set_nx-Idle : Triple Idle (set_nx key) (λ b w. (b ≡ false) × Idle w) (λ _. Idle)
  unfolding set_nx
  set_nx-Idle =
      external_rule tt (λ w fs h. h) (λ w h. h)
        (record { at = λ w h. (ap not h.2, (h.0, h.1, claim-claims key w.market_keys _ refl)) })

  after_claim-Idle :
      (message : Text) (r : Result (Unit {0}) Bool)
      → Triple
          (λ w. Post (λ b w. (b ≡ false) × Idle w) (λ _. Idle) (r, w))
          (after_claim message key r)
          (λ _. Idle)
          (λ _. Idle)
  after_claim-Idle message (ok true) = with_fact λ e. absurd (true≢false e)
  after_claim-Idle message (ok false) = return_rule tt (λ w h. h.1)
  after_claim-Idle message (err e) = return_rule tt (λ w h. h)

  announce-Idle :
      (message : MarketEvent → ℕ → Text) (event : MarketEvent) (at : ℕ)
      → event_key (event, at) ≡ key
      → Triple Idle (announce message (some (event, at))) (λ _. Idle) (λ _. Idle)
  unfolding announce
  announce-Idle message event at e =
      subst
        (λ k.
          Triple Idle (attempt (set_nx k) >>= after_claim (message event at) k) (λ _. Idle)
            (λ _. Idle))
        (sym e) (attempt_rule set_nx-Idle ⟫ λ r. after_claim-Idle (message event at) r)

abbrev pub world_after : {E A : Type 0} → M E A → World → World
world_after m w = (m w).1

module _ (message : MarketEvent → ℕ → Text) (zone : Option Zone) (interval : ℕ) where
  check_rule :
      (w : World) (event : MarketEvent) (at : ℕ)
      → market_transition zone w.now (interval + 60) ≡ some (event, at)
      → Once (event_key (event, at)) w.sent (world_after (check message zone interval) w)
  unfolding check read_clock ◌>>=◌
  check_rule w event at e = Post-either (Once (event_key (event, at)) w.sent) _ (
      subst
        (λ o.
          Post (λ _. Once (event_key (event, at)) w.sent) (λ _. Once (event_key (event, at)) w.sent)
            (announce message o w))
        (sym e) ((announce_rule message event at w.sent).at w refl))

  check-Idle :
      (w : World) (event : MarketEvent) (at : ℕ)
      → market_transition zone w.now (interval + 60) ≡ some (event, at)
      → is_claimed (event_key (event, at)) w.market_keys ≡ true
      → Idle (event_key (event, at)) w.db w.sent (world_after (check message zone interval) w)
  unfolding check read_clock ◌>>=◌
  check-Idle w event at e taken =
      let key = event_key (event, at) in
      Post-either (Idle key w.db w.sent) _ (
        subst
          (λ o. Post (λ _. Idle key w.db w.sent) (λ _. Idle key w.db w.sent) (announce message o w))
          (sym e) ((announce-Idle key w.db w.sent message event at refl).at w (refl, refl, taken)))

  -- Two rounds of the worker that find the same transition of the same day: when the first has sent
  -- anything, whatever failed, the second sends nothing and changes no table.
  pub notified_once :
      (w : World) (t at at' : ℕ) (event : MarketEvent)
      → market_transition zone w.now (interval + 60) ≡ some (event, at)
      → market_transition zone t (interval + 60) ≡ some (event, at')
      → at / 86400 ≡ at' / 86400
      → let first = world_after (check message zone interval) w in
        let second = world_after (check message zone interval) (record first { now = t }) in
        (first.sent ≡ w.sent) ⊎ ((second.sent ≡ first.sent) × (second.db ≡ first.db))
  notified_once w t at at' event e e' same =
      let first = world_after (check message zone interval) w in
      elim (check_rule w event at e) [
        | inl unsent ↦ inl unsent
        | inr taken ↦
            let taken' : is_claimed (event, at' / 86400) first.market_keys ≡ true =
              subst (λ n. is_claimed (event, n) first.market_keys ≡ true) same taken in
            let idle = check-Idle (record first { now = t }) event at' e' taken' in
            inr (idle.1, idle.0)
      ]
