-- ===== src/LineWebhook/Delivery.antt =====
-- LineWebhookService.Process of backend/internal/services/line_webhook_service.go: what a webhook call
-- of LINE promises about the events it carries.
use line_stock_alert.Common.{
  ◌≡◌, refl, sym, ap, Bool, true, false, Option, none, some, List, [], ◌∷◌, All,
}
use line_stock_alert.Text.{Text, Unicode, text_eq}
use line_stock_alert.Text.Laws.{text_eq_refl}
use line_stock_alert.World.{Db, World, Result, ok, err, EventStatus, read, ◌>>=◌}
use line_stock_alert.World.Triples.{
  Triple, ◌⟫◌, consequence, with_fact, return_rule, raise_rule, attempt_rule, map_err_rule,
  external_rule, Post-either, both_rule, ignore_rule,
}
use line_stock_alert.Repositories.{RepositoryError, failure}
use line_stock_alert.Repositories.LineWebhook.{status_in, claim_over, claim_event}
use line_stock_alert.LineWebhook.{LineWebhookEvent, event_id, settle, handle_if, process}
use line_stock_alert.LineWebhook.Events.{
  is_processed, is_settled, status_is, event_status_is, Good, claim_event-Good, mark_failed-Good,
  mark_processed-Good, status-received, process_event-keeps,
}

module _ (u : Unicode) (sha256_of : LineWebhookEvent → Text) (error_text : RepositoryError → Text)
    (frontend_url : Text) where
  module _ (g : EventStatus → Bool) (failed_not : g EventStatus.failed ≡ false)
      (processed_is : g EventStatus.processed ≡ true) (x : Text) where
    settle-Good :
        (event : LineWebhookEvent) (r : Result RepositoryError (Unit {0}))
        → text_eq (event_id u sha256_of error_text frontend_url event) x ≡ false
        → Triple
            (Good g failed_not x)
            (settle u sha256_of error_text frontend_url event r)
            (λ _ w. Good g failed_not x w)
            (λ _ w. Good g failed_not x w)
    settle-Good event (ok _) other =
        map_err_rule _ (mark_processed-Good g failed_not x processed_is _)
    settle-Good event (err e) other =
        attempt_rule (mark_failed-Good g failed_not x _ _ other) ⟫ λ r.
        raise_rule _ _ (λ w h. Post-either (Good g failed_not x) (r, w) h)

    handle_if-Good :
        (b : Bool) (event : LineWebhookEvent)
        → (b ≡ true → text_eq (event_id u sha256_of error_text frontend_url event) x ≡ false)
        → Triple
            (Good g failed_not x)
            (handle_if u sha256_of error_text frontend_url b event)
            (λ _ w. Good g failed_not x w)
            (λ _ w. Good g failed_not x w)
    handle_if-Good false event other = return_rule tt (λ w h. h)
    handle_if-Good true event other =
        attempt_rule (
          process_event-keeps u sha256_of error_text frontend_url
            (λ db. event_status_is g x db ≡ true) event)
        ⟫ λ r.
            consequence (λ w h. Post-either (Good g failed_not x) (r, w) h) (λ _ w h. h)
              (λ _ w h. h) (settle-Good event r (other refl))

    process-Good :
        (events : List LineWebhookEvent)
        → Triple
            (Good g failed_not x)
            (process u sha256_of error_text frontend_url events)
            (λ _ w. Good g failed_not x w)
            (λ _ w. Good g failed_not x w)
    unfolding process
    process-Good [] = return_rule tt (λ w h. h)
    process-Good (event ∷ events) = map_err_rule _ (claim_event-Good g failed_not x _ _ _) ⟫ λ b.
        with_fact λ other. handle_if-Good b event other ⟫ λ _. process-Good events

  -- An event that is processed stays processed, whatever a webhook call carries and however it ends.
  pub processed_stays :
      (events : List LineWebhookEvent) (x : Text) (w : World)
      → event_status_is is_processed x w.db ≡ true
      → event_status_is is_processed x (process u sha256_of error_text frontend_url events w).1.db
        ≡ true
  processed_stays events x w h =
      Post-either (Good is_processed refl x) _
        ((process-Good is_processed refl refl x events).at w h)

  -- An event that is received or processed is not failed by a webhook call, whatever the call carries
  -- and however it ends.
  pub settled_stays :
      (events : List LineWebhookEvent) (x : Text) (w : World)
      → event_status_is is_settled x w.db ≡ true
      → event_status_is is_settled x (process u sha256_of error_text frontend_url events w).1.db
        ≡ true
  settled_stays events x w h =
      Post-either (Good is_settled refl x) _ ((process-Good is_settled refl refl x events).at w h)

  claim_over-settles :
      (id line_user_id event_type : Text) (o : Option EventStatus)
      → Triple
          (λ w. o ≡ status_in id w.db.events)
          (claim_over id line_user_id event_type o)
          (λ _ w. Good is_settled refl id w)
          (λ _ _. Unit {0})
  unfolding ◌>>=◌
  claim_over-settles id line_user_id event_type none = record {
    at = λ w h. rw (text_eq_refl id) refl;
  }
  claim_over-settles id line_user_id event_type (some EventStatus.failed) = record {
    at = λ w h. rw (status-received id w.db.events EventStatus.failed (sym h)) refl;
  }
  claim_over-settles id line_user_id event_type (some EventStatus.received) =
      return_rule false (λ w h. ap (status_is is_settled) (sym h))
  claim_over-settles id line_user_id event_type (some EventStatus.processed) =
      return_rule false (λ w h. ap (status_is is_settled) (sym h))

  settle-settled :
      (event : LineWebhookEvent) (r : Result RepositoryError (Unit {0})) (x : Text)
      → Triple
          (Good is_settled refl x)
          (settle u sha256_of error_text frontend_url event r)
          (λ _ w. Good is_settled refl x w)
          (λ _ _. Unit {0})
  settle-settled event (ok _) x = map_err_rule _ (
      consequence (λ w h. h) (λ _ w h. h) (λ _ _ _. tt)
        (mark_processed-Good is_settled refl x refl _))
  settle-settled event (err e) x = ignore_rule _ ⟫ λ r. raise_rule _ _ (λ w h. tt)

  claim-settles :
      (id line_user_id event_type : Text)
      → Triple {E = RepositoryError}
          (λ _. Unit {0})
          (claim_event id line_user_id event_type)
          (λ _ w. Good is_settled refl id w)
          (λ _ _. Unit {0})
  unfolding claim_event read
  claim-settles id line_user_id event_type =
      external_rule {P = λ _. Unit {0}} failure (λ w fs h. h) (λ w h. tt)
        (record { at = λ w h. refl } ⟫ λ o. claim_over-settles id line_user_id event_type o)

  handle_if-settled :
      (b : Bool) (event : LineWebhookEvent) (x : Text)
      → Triple
          (Good is_settled refl x)
          (handle_if u sha256_of error_text frontend_url b event)
          (λ _ w. Good is_settled refl x w)
          (λ _ _. Unit {0})
  handle_if-settled false event x = return_rule tt (λ w h. h)
  handle_if-settled true event x =
      attempt_rule (
        process_event-keeps u sha256_of error_text frontend_url
          (λ db. event_status_is is_settled x db ≡ true) event)
      ⟫ λ r.
          consequence (λ w h. Post-either (Good is_settled refl x) (r, w) h) (λ _ w h. h)
            (λ _ w h. h) (settle-settled event r x)

  unfoldable pub AllSettled : List LineWebhookEvent → World → Type 0
  AllSettled events w =
      All (λ e. Good is_settled refl (event_id u sha256_of error_text frontend_url e) w) events

  pub process-settles :
      (events : List LineWebhookEvent)
      → Triple
          (λ _. Unit {0})
          (process u sha256_of error_text frontend_url events)
          (λ _ w. AllSettled events w)
          (λ _ _. Unit {0})
  unfolding process AllSettled
  process-settles [] = return_rule tt (λ w h. tt)
  process-settles (event ∷ events) =
      let x = event_id u sha256_of error_text frontend_url event in
      map_err_rule _ (claim-settles x _ _) ⟫ λ b. handle_if-settled b event x ⟫ λ _.
      consequence (λ w h. (h, tt)) (λ _ w h. h) (λ _ w h. tt)
        (both_rule (process-Good is_settled refl refl x events) (process-settles events))

  abbrev Quiet : Db → List (Text × Text) → World → Type 0
  Quiet d sent w = (w.db ≡ d) × (w.sent ≡ sent)

  module _ (d : Db) (sent : List (Text × Text)) where
    claim_over-Quiet :
        (id line_user_id event_type : Text) (o : Option EventStatus)
        → status_is is_settled o ≡ true
        → Triple
            (Quiet d sent)
            (claim_over id line_user_id event_type o)
            (λ b w. (b ≡ false) × Quiet d sent w)
            (λ _ w. Quiet d sent w)
    claim_over-Quiet id line_user_id event_type none h = record { at = λ w k. cc }
    claim_over-Quiet id line_user_id event_type (some EventStatus.failed) h = record {
      at = λ w k. cc;
    }
    claim_over-Quiet id line_user_id event_type (some EventStatus.received) h =
        return_rule false (λ w k. (refl, k))
    claim_over-Quiet id line_user_id event_type (some EventStatus.processed) h =
        return_rule false (λ w k. (refl, k))

    claim-Quiet :
        (id line_user_id event_type : Text)
        → event_status_is is_settled id d ≡ true
        → Triple
            (Quiet d sent)
            (claim_event id line_user_id event_type)
            (λ b w. (b ≡ false) × Quiet d sent w)
            (λ _ w. Quiet d sent w)
    unfolding claim_event read
    claim-Quiet id line_user_id event_type h =
        external_rule {P = Quiet d sent} failure (λ w fs k. k) (λ w k. k)
          (record { at = λ w k. (ap (λ db. status_in id db.events) k.0, k) } ⟫ λ o.
            with_fact {F = o ≡ status_in id d.events}
              λ e. claim_over-Quiet id line_user_id event_type o (rw e h))

    process-Quiet :
        (events : List LineWebhookEvent)
        → All
            (λ e.
              event_status_is is_settled (event_id u sha256_of error_text frontend_url e) d ≡ true)
            events
        → Triple
            (Quiet d sent)
            (process u sha256_of error_text frontend_url events)
            (λ _ w. Quiet d sent w)
            (λ _ w. Quiet d sent w)
    unfolding process
    process-Quiet [] all = return_rule tt (λ w h. h)
    process-Quiet (event ∷ events) all = map_err_rule _ (claim-Quiet _ _ _ all.0) ⟫ λ b.
        with_fact λ e. rw e (return_rule tt (λ w h. h) ⟫ λ _. process-Quiet events all.1)

  -- A webhook call whose events are all received or processed already sends no message and leaves
  -- every table as it was, however it ends.
  pub redelivery_silent :
      (events : List LineWebhookEvent) (w : World)
      → All
          (λ e.
            event_status_is is_settled (event_id u sha256_of error_text frontend_url e) w.db ≡ true)
          events
      → ((process u sha256_of error_text frontend_url events w).1.db ≡ w.db)
        × ((process u sha256_of error_text frontend_url events w).1.sent ≡ w.sent)
  redelivery_silent events w all =
      Post-either (Quiet w.db w.sent) _ ((process-Quiet w.db w.sent events all).at w (refl, refl))
