-- ===== src/Repositories/LineWebhook.antt =====
-- backend/internal/repositories/line_webhook_repository.go: the events that LINE has delivered. The
-- payload, which nothing reads back, is left out.
use line_stock_alert.Common.{Option, none, some, List, [], ◌∷◌, Bool, true, false, if◌then◌else◌, ℕ}
use line_stock_alert.Text.{Text, text_eq, is_empty}
use line_stock_alert.World.{
  M, pure, raise, read, write, read_clock, external, ◌>>=◌, ◌>>◌, EventRow, EventStatus, UserRow,
  Standing,
}
use line_stock_alert.Rows.{update_where}
use line_stock_alert.Repositories.Errors.{RepositoryError, failure, not_found}
use line_stock_alert.Repositories.Auth.{line_user}

-- The status of the row with an event id.
abbrev pub status_in : Text → List EventRow → Option EventStatus
status_in event_id [] = none
status_in event_id (r ∷ rows) =
    if text_eq r.line_event_id event_id then some r.status else status_in event_id rows

abbrev pub event_is : Text → EventRow → Bool
event_is event_id r = text_eq r.line_event_id event_id

-- NULLIF(…, '')
abbrev null_if_empty : Text → Option Text
null_if_empty t = if is_empty t then none else some t

abbrev pub new_event : Text → Text → Text → EventRow
new_event event_id line_user_id event_type = record {
  line_event_id = event_id;
  line_user_id = null_if_empty line_user_id;
  event_type = event_type;
  status = EventStatus.received;
  processed_at = none;
  error_message = none;
}

abbrev pub receive_again : EventRow → EventRow
receive_again r = record r { status = EventStatus.received; error_message = none }

-- `ON CONFLICT … DO UPDATE … WHERE status = 'FAILED' RETURNING id`, by the status of the row there is.
abbrev pub claim_over : Text → Text → Text → Option EventStatus → M RepositoryError Bool
claim_over event_id line_user_id event_type none = do
  write (λ db. record db { events = new_event event_id line_user_id event_type ∷ db.events })
  pure true
claim_over event_id line_user_id event_type (some EventStatus.failed) = do
  write (λ db. record db { events = update_where (event_is event_id) receive_again db.events })
  pure true
claim_over event_id line_user_id event_type (some _) = pure false

unfoldable pub claim_event : Text → Text → Text → M RepositoryError Bool
claim_event event_id line_user_id event_type =
    external failure
      (read (λ db. status_in event_id db.events) >>= claim_over event_id line_user_id event_type)

abbrev pub id_and_status : Option UserRow → M RepositoryError (Text × Standing)
id_and_status none = raise not_found
id_and_status (some r) = pure (r.id, r.status)

unfoldable pub find_user_by_line_id : Text → M RepositoryError (Text × Standing)
find_user_by_line_id line_user_id =
    external failure (read (λ db. line_user db line_user_id) >>= id_and_status)

abbrev pub process_row : ℕ → EventRow → EventRow
process_row now r = record r {
  status = EventStatus.processed;
  processed_at = some now;
  error_message = none;
}

unfoldable pub mark_processed : Text → M RepositoryError (Unit {0})
mark_processed event_id = external failure (do
  now ← read_clock
  write (λ db. record db { events = update_where (event_is event_id) (process_row now) db.events }))

abbrev pub fail_row : Text → EventRow → EventRow
fail_row message r = record r {
  status = EventStatus.failed;
  processed_at = none;
  error_message = some message;
}

unfoldable pub mark_failed : Text → Text → M RepositoryError (Unit {0})
mark_failed event_id message = external failure (
    write
      (λ db. record db { events = update_where (event_is event_id) (fail_row message) db.events }))
