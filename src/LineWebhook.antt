-- ===== src/LineWebhook.antt =====
-- backend/internal/services/line_webhook_service.go: the events of one webhook call of LINE.
pub mod Events
pub mod Delivery
pub mod Completion
mod Tests
use mathlib.Core.List.{reverse}
use line_stock_alert.Common.{
  ℕ, ◌-◌, Bool, true, false, not, ◌&&◌, ◌||◌, Option, none, some, List, [], ◌∷◌, ◌++◌, map,
  if◌then◌else◌, leb, ltb, ◌==◌, length, take,
}
use line_stock_alert.Text.{Text, Unicode, text, text_eq, is_empty, trim_space}
use line_stock_alert.Errors.{Error, Code, new_error}
use line_stock_alert.World.{
  M, Result, ok, err, pure, raise, map_err, attempt, external, record_sent, ◌>>=◌, ◌>>◌, Standing,
}
use line_stock_alert.Repositories.{RepositoryError, failure, not_found}
use line_stock_alert.Repositories.LineWebhook as Store

-- The type and text of the message are those of models.LineMessage.
pub record LineWebhookEvent : Type 0 where
  pub type : Text
  pub webhook_event_id : Text
  pub reply_token : Text
  pub user_id : Text
  pub message : Option (Text × Text)

abbrev pub is_text_message : Option (Text × Text) → Bool
is_text_message none = false
is_text_message (some m) = text_eq m.0 (text "text")

-- The conditions under which an event is answered at all.
unfoldable pub wants_reply : LineWebhookEvent → Bool
wants_reply event =
    let is_message = text_eq event.type (text "message") in
    not (is_empty event.reply_token)
    && (is_message || text_eq event.type (text "follow"))
    && (not is_message || is_text_message event.message)

abbrev pub ascii_upper : ℕ → ℕ
ascii_upper c = if leb b'a' c && leb c b'z' then c - 32 else c

-- strings.EqualFold(s, "HELP"): no other rune folds to one of these letters.
unfoldable pub folds_to_help : Text → Bool
folds_to_help s = text_eq (map ascii_upper s) (text "HELP")

unfoldable pub drop_slashes : Text → Text
drop_slashes [] = []
drop_slashes (c ∷ s) = if c == b'/' then drop_slashes s else c ∷ s

-- strings.TrimRight(url, "/")
unfoldable pub trim_slashes : Text → Text
unfolding drop_slashes
trim_slashes url = reverse (drop_slashes (reverse url))

-- Of the bytes of a string.
unfoldable pub truncate_webhook_error : Text → Text
truncate_webhook_error value = if ltb 2000 (length value) then take 2000 value else value

abbrev message_text : Option (Text × Text) → Text
message_text none = []
message_text (some m) = m.1

-- `sha256_of` is the hash of an event in JSON, in hexadecimal, and `error_text` the bytes of err.Error().
module _ (u : Unicode) (sha256_of : LineWebhookEvent → Text) (error_text : RepositoryError → Text)
    (frontend_url : Text) where
  unfoldable pub event_id : LineWebhookEvent → Text
  event_id event =
      if is_empty event.webhook_event_id
      then text "legacy-" ++ sha256_of event
      else event.webhook_event_id

  abbrev pub reply : LineWebhookEvent → Text → M RepositoryError (Unit {0})
  reply event message = external failure (record_sent event.reply_token message)

  abbrev welcome : Text
  welcome =
      text "Welcome to Stock Alert. Open Stocks from the rich menu to continue with LINE Login: "
      ++ trim_slashes frontend_url
      ++ text "/stocks"

  abbrev menu : Text
  menu =
      text "Open Stocks or My Alerts from the rich menu. Stocks: "
      ++ trim_slashes frontend_url
      ++ text "/stocks\nMy Alerts: "
      ++ trim_slashes frontend_url
      ++ text "/alerts"

  abbrev help : Text
  help =
      text
        "Use Stocks to view US quotes and create ABOVE/BELOW alerts. Use My Alerts to edit or delete them.\nStocks: "
      ++ trim_slashes frontend_url
      ++ text "/stocks\nMy Alerts: "
      ++ trim_slashes frontend_url
      ++ text "/alerts"

  unfoldable pub reply_message : LineWebhookEvent → Text
  unfolding folds_to_help trim_slashes
  reply_message event =
      if text_eq event.type (text "message")
        && folds_to_help (trim_space u (message_text event.message))
      then help
      else menu

  abbrev pub answer :
      LineWebhookEvent → Result RepositoryError (Text × Standing) → M RepositoryError (Unit {0})
  answer event (err not_found) = reply event welcome
  answer event (err e) = raise e
  answer event (ok (_, Standing.active)) = reply event (reply_message event)
  answer event (ok (_, Standing.disabled)) =
      reply event (text "Your Stock Alert account is currently disabled.")

  abbrev pub answer_if : Bool → LineWebhookEvent → M RepositoryError (Unit {0})
  answer_if false event = pure tt
  answer_if true event = attempt (Store.find_user_by_line_id event.user_id) >>= answer event

  unfoldable pub process_event : LineWebhookEvent → M RepositoryError (Unit {0})
  unfolding wants_reply
  process_event event = answer_if (wants_reply event) event

  -- What Process does after processEvent.
  abbrev pub settle : LineWebhookEvent → Result RepositoryError (Unit {0}) → M Error (Unit {0})
  settle event (err e) =
      attempt (Store.mark_failed (event_id event) (truncate_webhook_error (error_text e)))
      >> raise (new_error Code.internal_server_error "Could not process the LINE webhook event.")
  settle event (ok _) =
      map_err
        (λ _. new_error Code.internal_server_error "Could not complete the LINE webhook event.")
        (Store.mark_processed (event_id event))

  abbrev pub handle_if : Bool → LineWebhookEvent → M Error (Unit {0})
  handle_if false event = pure tt
  handle_if true event = attempt (process_event event) >>= settle event

  -- Process, on the events of the request.
  unfoldable pub process : List LineWebhookEvent → M Error (Unit {0})
  process [] = pure tt
  process (event ∷ events) = do
    claimed ←
        map_err
          (λ _. new_error Code.internal_server_error "Could not record the LINE webhook event.")
          (Store.claim_event (event_id event) event.user_id event.type)
    handle_if claimed event
    process events
