-- ===== src/LineWebhook/Completion.antt =====
-- LineWebhookService.Process of backend/internal/services/line_webhook_service.go: what has become of the
-- events of a webhook call that succeeds.
use line_stock_alert.Common.{
  ℕ, ◌≡◌, refl, subst, ◌⊎◌, inl, inr, Bool, true, false, Option, none, some, List, [], ◌∷◌, All,
  arith, Bool-cases,
}
use line_stock_alert.Text.{Text, Unicode, text_eq}
use line_stock_alert.Text.Laws.{text_eq_iff}
use line_stock_alert.World.{Db, World, Result, ok, err, EventRow, EventStatus, ◌>>=◌, read, write}
use line_stock_alert.World.Triples.{
  Post, Triple, ◌⟫◌, consequence, return_rule, raise_rule, attempt_rule, map_err_rule,
  external_rule, Post-either, ignore_rule, read_clock_rule,
}
use line_stock_alert.Errors.{Error}
use line_stock_alert.Rows.{update_where}
use line_stock_alert.Repositories.{RepositoryError, failure}
use line_stock_alert.Repositories.LineWebhook.{
  status_in, event_is, receive_again, claim_over, claim_event, process_row, mark_processed,
}
use line_stock_alert.LineWebhook.{LineWebhookEvent, event_id, settle, handle_if, process}
use line_stock_alert.LineWebhook.Events.{
  is_processed, is_received, is_settled, status_is, event_status_is, status-other,
  process_event-keeps,
}
use line_stock_alert.LineWebhook.Delivery.{AllSettled, process-settles}

module _ (x : Text) where
  -- The event is not waiting to be handled.
  abbrev Clear : Db → Type 0
  Clear db = event_status_is is_received x db ≡ false

  -- A processed row is not a received one.
  processed-Clear :
      (id : Text) (now : ℕ) (rows : List EventRow)
      → text_eq id x ≡ true
      → status_is is_received (status_in x (update_where (event_is id) (process_row now) rows))
        ≡ false
  processed-Clear id now [] same = refl
  processed-Clear id now (r ∷ rows) same = elim (Bool-cases (text_eq r.line_event_id id)) [
    | inl hit ↦ ground (arith, hit, processed-Clear id now rows same)
    | inr miss ↦
        let away : text_eq r.line_event_id x ≡ false =
          subst (λ t. text_eq r.line_event_id t ≡ false) ((text_eq_iff id x).0 same) miss in
        ground (arith, miss, away, processed-Clear id now rows same)
  ]

  -- The event has just been claimed, or it is not waiting.
  abbrev ClaimedOr : Text → Bool → World → Type 0
  ClaimedOr id b w = ((text_eq id x ≡ true) × (b ≡ true)) ⊎ Clear w.db

  claim_over-ClaimedOr :
      (id line_user_id event_type : Text) (o : Option EventStatus)
      → Triple
          (λ w. Clear w.db)
          (claim_over id line_user_id event_type o)
          (ClaimedOr id)
          (λ _ _. Unit {0})
  unfolding ◌>>=◌
  claim_over-ClaimedOr id line_user_id event_type none = record {
    at = λ w h. elim (Bool-cases (text_eq id x)) [
      | inl same ↦ inl (same, refl)
      | inr other ↦ inr (rw other h)
    ];
  }
  claim_over-ClaimedOr id line_user_id event_type (some EventStatus.failed) = record {
    at = λ w h. elim (Bool-cases (text_eq id x)) [
      | inl same ↦ inl (same, refl)
      | inr other ↦ inr (rw (status-other x receive_again (λ r. refl) id w.db.events other) h)
    ];
  }
  claim_over-ClaimedOr id line_user_id event_type (some EventStatus.received) =
      return_rule false (λ w h. inr h)
  claim_over-ClaimedOr id line_user_id event_type (some EventStatus.processed) =
      return_rule false (λ w h. inr h)

  claim_event-ClaimedOr :
      (id line_user_id event_type : Text)
      → Triple
          (λ w. Clear w.db)
          (claim_event id line_user_id event_type)
          (ClaimedOr id)
          (λ _ _. Unit {0})
  unfolding claim_event read
  claim_event-ClaimedOr id line_user_id event_type =
      external_rule {P = λ w. Clear w.db} failure (λ w fs h. h) (λ w h. tt)
        (record { at = λ w h. h } ⟫ λ o. claim_over-ClaimedOr id line_user_id event_type o)

  mark_processed-Clear :
      (id : Text)
      → Triple (ClaimedOr id true) (mark_processed id) (λ _ w. Clear w.db) (λ _ _. Unit {0})
  unfolding mark_processed write
  mark_processed-Clear id =
      external_rule {P = ClaimedOr id true} failure (λ w fs h. h) (λ w h. tt)
        (read_clock_rule ⟫ λ now. record {
          at = λ w h. elim (Bool-cases (text_eq id x)) [
            | inl same ↦ processed-Clear id now w.db.events same
            | inr other ↦ elim h [
              | inl claimed ↦ absurd (ground (arith, other, claimed.0))
              | inr clear ↦
                  rw (status-other x (process_row now) (λ r. refl) id w.db.events other) clear
            ]
          ];
        })

  module _ (u : Unicode) (sha256_of : LineWebhookEvent → Text) (error_text : RepositoryError → Text)
      (frontend_url : Text) where
    settle-Clear :
        (event : LineWebhookEvent) (r : Result RepositoryError (Unit {0}))
        → Triple
            (ClaimedOr (event_id u sha256_of error_text frontend_url event) true)
            (settle u sha256_of error_text frontend_url event r)
            (λ _ w. Clear w.db)
            (λ _ _. Unit {0})
    settle-Clear event (ok _) = map_err_rule _ (mark_processed-Clear _)
    settle-Clear event (err e) = ignore_rule _ ⟫ λ r. raise_rule _ _ (λ w h. tt)

    handle_if-Clear :
        (b : Bool) (event : LineWebhookEvent)
        → Triple
            (ClaimedOr (event_id u sha256_of error_text frontend_url event) b)
            (handle_if u sha256_of error_text frontend_url b event)
            (λ _ w. Clear w.db)
            (λ _ _. Unit {0})
    handle_if-Clear false event =
        return_rule tt
          (λ w h. elim h [ inl claimed ↦ absurd (ground (arith, claimed.1)) | inr clear ↦ clear ])
    handle_if-Clear true event =
        let id = event_id u sha256_of error_text frontend_url event in
        attempt_rule (
          process_event-keeps u sha256_of error_text frontend_url
            (λ db. ((text_eq id x ≡ true) × (true ≡ true)) ⊎ Clear db) event)
        ⟫ λ r.
            consequence (λ w h. Post-either (ClaimedOr id true) (r, w) h) (λ _ w h. h) (λ _ w h. h)
              (settle-Clear event r)

    process-Clear :
        (events : List LineWebhookEvent)
        → Triple
            (λ w. Clear w.db)
            (process u sha256_of error_text frontend_url events)
            (λ _ w. Clear w.db)
            (λ _ _. Unit {0})
    unfolding process
    process-Clear [] = return_rule tt (λ w h. h)
    process-Clear (event ∷ events) = map_err_rule _ (claim_event-ClaimedOr _ _ _) ⟫ λ b.
        handle_if-Clear b event ⟫ λ _. process-Clear events

settled_clear :
    (o : Option EventStatus)
    → status_is is_settled o ≡ true
    → status_is is_received o ≡ false
    → status_is is_processed o ≡ true
settled_clear none h k = h
settled_clear (some EventStatus.received) h k = ground arith
settled_clear (some EventStatus.processed) h k = refl
settled_clear (some EventStatus.failed) h k = h

module _ (u : Unicode) (sha256_of : LineWebhookEvent → Text) (error_text : RepositoryError → Text)
    (frontend_url : Text) where
  -- The event is processed in the later tables, or was being handled in the earlier ones.
  abbrev pub IsCompleted : Db → Db → LineWebhookEvent → Type 0
  IsCompleted d db e =
      let x = event_id u sha256_of error_text frontend_url e in
      (event_status_is is_processed x db ≡ true) ⊎ (event_status_is is_received x d ≡ true)

  All-IsCompleted :
      (d db : Db) (events : List LineWebhookEvent)
      → All
          (λ e.
            event_status_is is_settled (event_id u sha256_of error_text frontend_url e) db ≡ true)
          events
      → ((x : Text)
          → event_status_is is_received x d ≡ false
          → event_status_is is_received x db ≡ false)
      → All (IsCompleted d db) events
  All-IsCompleted d db [] all clear = tt
  All-IsCompleted d db (e ∷ events) all clear =
      let x = event_id u sha256_of error_text frontend_url e in
      (
        elim (Bool-cases (event_status_is is_received x d)) [
          | inl h ↦ inr h
          | inr h ↦ inl (settled_clear (status_in x db.events) all.0 (clear x h))
        ],
        All-IsCompleted d db events all.1 clear,
      )

  IsCompleted-result :
      (d : Db) (events : List LineWebhookEvent) (r : Result Error (Unit {0}) × World)
      → Post (λ _ w. AllSettled u sha256_of error_text frontend_url events w) (λ _ _. Unit {0}) r
      → ((x : Text)
          → event_status_is is_received x d ≡ false
          → Post (λ _ w. event_status_is is_received x w.db ≡ false) (λ _ _. Unit {0}) r)
      → Post (λ _ w. All (IsCompleted d w.db) events) (λ _ _. Unit {0}) r
  unfolding AllSettled
  IsCompleted-result d events (ok _, w) all clear = All-IsCompleted d w.db events all clear
  IsCompleted-result d events (err _, w) all clear = tt

  -- After a webhook call that succeeds, every event that it carries is processed, unless the event was
  -- received and not yet processed before the call.
  pub process_completes :
      (events : List LineWebhookEvent) (w : World)
      → Post
          (λ _ w'. All (IsCompleted w.db w'.db) events)
          (λ _ _. Unit {0})
          (process u sha256_of error_text frontend_url events w)
  process_completes events w =
      IsCompleted-result w.db events _
        ((process-settles u sha256_of error_text frontend_url events).at w tt)
        (λ x h. (process-Clear x u sha256_of error_text frontend_url events).at w h)
