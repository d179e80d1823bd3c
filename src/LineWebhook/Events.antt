-- ===== src/LineWebhook/Events.antt =====
-- LineWebhookService.Process of backend/internal/services/line_webhook_service.go over
-- line_webhook_repository.go: how the status of an event moves, whatever fails on the way.
use line_stock_alert.Common.{
  ◌≡◌, refl, sym, ap, ◌∙◌, inl, inr, Bool, true, false, Option, none, some, List, [], ◌∷◌, arith,
  Bool-cases,
}
use line_stock_alert.Text.{Text, Unicode, text_eq}
use line_stock_alert.Text.Laws.{text_eq_iff}
use line_stock_alert.World.{
  Db, World, Result, ok, err, EventRow, EventStatus, ◌>>=◌, read, write, record_sent, Standing,
  UserRow,
}
use line_stock_alert.World.Triples.{
  Triple, ◌⟫◌, consequence, return_rule, raise_rule, attempt_rule, external_rule, Post-either,
  read_clock_rule,
}
use line_stock_alert.Rows.{update_where}
use line_stock_alert.Repositories.{RepositoryError, failure, not_found}
use line_stock_alert.Repositories.LineWebhook.{
  status_in, event_is, receive_again, claim_over, claim_event, process_row, mark_processed,
  fail_row, mark_failed, find_user_by_line_id, id_and_status,
}
use line_stock_alert.LineWebhook.{
  LineWebhookEvent, answer, answer_if, process_event, wants_reply, reply,
}

abbrev pub is_processed : EventStatus → Bool
is_processed EventStatus.processed = true
is_processed _ = false

abbrev pub is_received : EventStatus → Bool
is_received EventStatus.received = true
is_received _ = false

-- Received or processed: not to be handled again.
abbrev pub is_settled : EventStatus → Bool
is_settled EventStatus.failed = false
is_settled _ = true

-- Whether there is a status and it satisfies a test.
abbrev pub status_is : (EventStatus → Bool) → Option EventStatus → Bool
status_is g none = false
status_is g (some s) = g s

abbrev pub event_status_is : (EventStatus → Bool) → Text → Db → Bool
event_status_is g x db = status_is g (status_in x db.events)

module _ (x : Text) (f : EventRow → EventRow)
    (same_id : (r : EventRow) → text_eq (f r).line_event_id x ≡ text_eq r.line_event_id x) where
  pub status-other :
      (id : Text) (rows : List EventRow)
      → text_eq id x ≡ false
      → status_in x (update_where (event_is id) f rows) ≡ status_in x rows
  status-other id [] other = refl
  status-other id (r ∷ rows) other = elim (Bool-cases (text_eq r.line_event_id id)) [
    | inr miss ↦ rw (miss, status-other id rows other) refl
    | inl hit ↦
        let away : text_eq r.line_event_id x ≡ false =
          ap (λ t. text_eq t x) ((text_eq_iff r.line_event_id id).0 hit) ∙ other in
        ground (arith, hit, away, same_id r, status-other id rows other)
  ]

  status-good :
      (g : EventStatus → Bool) (id : Text) (rows : List EventRow)
      → ((r : EventRow) → g (f r).status ≡ true)
      → status_is g (status_in x rows) ≡ true
      → status_is g (status_in x (update_where (event_is id) f rows)) ≡ true
  status-good g id [] all h = h
  status-good g id (r ∷ rows) all h = ground (arith, all r, same_id r, status-good g id rows all)

-- After a claim over a failed row the event is received.
pub status-received :
    (x : Text) (rows : List EventRow) (s : EventStatus)
    → status_in x rows ≡ some s
    → status_in x (update_where (event_is x) receive_again rows) ≡ some EventStatus.received
status-received x [] s h = cc
status-received x (r ∷ rows) s h = ground (arith, status-received x rows s)

-- A test that a failed event does not pass.
module _ (g : EventStatus → Bool) (failed_not : g EventStatus.failed ≡ false) (x : Text) where
  abbrev pub Good : World → Type 0
  Good w = event_status_is g x w.db ≡ true

  -- The event claimed is another one.
  away :
      (id : Text) (rows : List EventRow) (o : Option EventStatus)
      → o ≡ status_in id rows
      → status_is g o ≡ false
      → status_is g (status_in x rows) ≡ true
      → text_eq id x ≡ false
  away id rows o e bad good = elim (Bool-cases (text_eq id x)) [
    | inr h ↦ h
    | inl h ↦
        let same : status_in id rows ≡ status_in x rows =
          ap (λ t. status_in t rows) ((text_eq_iff id x).0 h) in
        let worse : status_is g (status_in x rows) ≡ false = rw (sym same, sym e) bad in cc
  ]

  claim_over-Good :
      (id line_user_id event_type : Text) (o : Option EventStatus)
      → Triple
          (λ w. (o ≡ status_in id w.db.events) × Good w)
          (claim_over id line_user_id event_type o)
          (λ b w. (b ≡ true → text_eq id x ≡ false) × Good w)
          (λ _ w. Good w)
  unfolding ◌>>=◌
  claim_over-Good id line_user_id event_type none = record {
    at = λ w h. let other = away id w.db.events none h.0 refl h.1 in ((λ _. other), rw other h.1);
  }
  claim_over-Good id line_user_id event_type (some EventStatus.failed) = record {
    at = λ w h.
        let other = away id w.db.events (some EventStatus.failed) h.0 failed_not h.1 in
        ((λ _. other), rw (status-other x receive_again (λ r. refl) id w.db.events other) h.1);
  }
  claim_over-Good id line_user_id event_type (some EventStatus.received) =
      return_rule false (λ w h. ((λ e. ground arith), h.1))
  claim_over-Good id line_user_id event_type (some EventStatus.processed) =
      return_rule false (λ w h. ((λ e. ground arith), h.1))

  pub claim_event-Good :
      (id line_user_id event_type : Text)
      → Triple Good
          (claim_event id line_user_id event_type)
          (λ b w. (b ≡ true → text_eq id x ≡ false) × Good w)
          (λ _ w. Good w)
  unfolding claim_event read
  claim_event-Good id line_user_id event_type =
      external_rule {P = Good} failure (λ w fs h. h) (λ w h. h)
        (record { at = λ w h. (refl, h) } ⟫ λ o. claim_over-Good id line_user_id event_type o)

  pub mark_failed-Good :
      (id message : Text)
      → text_eq id x ≡ false
      → Triple Good (mark_failed id message) (λ _ w. Good w) (λ _ w. Good w)
  unfolding mark_failed write
  mark_failed-Good id message other =
      external_rule {P = Good} failure (λ w fs h. h) (λ w h. h)
        (record {
          at = λ w h. rw (status-other x (fail_row message) (λ r. refl) id w.db.events other) h;
        })

  module _ (processed_is : g EventStatus.processed ≡ true) where
    pub mark_processed-Good :
        (id : Text) → Triple Good (mark_processed id) (λ _ w. Good w) (λ _ w. Good w)
    unfolding mark_processed write
    mark_processed-Good id =
        external_rule {P = Good} failure (λ w fs h. h) (λ w h. h)
          (read_clock_rule ⟫ λ now. record {
            at = λ w h.
                status-good x (process_row now) (λ r. refl) g id w.db.events (λ r. processed_is) h;
          })

-- Answering an event does not touch the tables.
module _ (u : Unicode) (sha256_of : LineWebhookEvent → Text) (error_text : RepositoryError → Text)
    (frontend_url : Text) (P : Db → Type 0) where
  reply-keeps :
      (event : LineWebhookEvent) (message : Text)
      → Triple
          (λ w. P w.db)
          (reply u sha256_of error_text frontend_url event message)
          (λ _ w. P w.db)
          (λ _ w. P w.db)
  unfolding record_sent
  reply-keeps event message =
      external_rule {P = λ w. P w.db} failure (λ w fs h. h) (λ w h. h) (record { at = λ w h. h })

  answer-keeps :
      (event : LineWebhookEvent) (r : Result RepositoryError (Text × Standing))
      → Triple
          (λ w. P w.db)
          (answer u sha256_of error_text frontend_url event r)
          (λ _ w. P w.db)
          (λ _ w. P w.db)
  answer-keeps event (ok (_, Standing.active)) = reply-keeps event _
  answer-keeps event (ok (_, Standing.disabled)) = reply-keeps event _
  answer-keeps event (err not_found) = reply-keeps event _
  answer-keeps event (err e) = raise_rule _ e (λ w h. h)

  id_and_status-keeps :
      (o : Option UserRow) → Triple (λ w. P w.db) (id_and_status o) (λ _ w. P w.db) (λ _ w. P w.db)
  id_and_status-keeps none = raise_rule _ _ (λ w h. h)
  id_and_status-keeps (some r) = return_rule _ (λ w h. h)

  find_user-keeps :
      (id : Text) → Triple (λ w. P w.db) (find_user_by_line_id id) (λ _ w. P w.db) (λ _ w. P w.db)
  unfolding find_user_by_line_id read
  find_user-keeps id =
      external_rule {P = λ w. P w.db} failure (λ w fs h. h) (λ w h. h)
        (record { at = λ w h. h } ⟫ λ o. id_and_status-keeps o)

  answer_if-keeps :
      (b : Bool) (event : LineWebhookEvent)
      → Triple
          (λ w. P w.db)
          (answer_if u sha256_of error_text frontend_url b event)
          (λ _ w. P w.db)
          (λ _ w. P w.db)
  answer_if-keeps false event = return_rule tt (λ w h. h)
  answer_if-keeps true event = attempt_rule (find_user-keeps event.user_id) ⟫ λ r.
      consequence (λ w h. Post-either (λ v. P v.db) (r, w) h) (λ _ w h. h) (λ _ w h. h)
        (answer-keeps event r)

  pub process_event-keeps :
      (event : LineWebhookEvent)
      → Triple
          (λ w. P w.db)
          (process_event u sha256_of error_text frontend_url event)
          (λ _ w. P w.db)
          (λ _ w. P w.db)
  unfolding process_event
  process_event-keeps event = answer_if-keeps (wants_reply event) event
