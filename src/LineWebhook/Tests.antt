-- ===== src/LineWebhook/Tests.antt =====
-- LineWebhookService of backend/internal/services/line_webhook_service.go on concrete tables.
use line_stock_alert.Common.{◌≡◌, refl, none, some, List, [], ◌∷◌, All}
use line_stock_alert.Text.{Text, text, ascii, text_eq, trim_space}
use line_stock_alert.World.{World, ◌>>=◌}
use line_stock_alert.Repositories.{RepositoryError}
use line_stock_alert.Repositories.LineWebhook as Store
use line_stock_alert.Examples.{world}
use line_stock_alert.LineWebhook.{
  LineWebhookEvent, event_id, process, process_event, wants_reply, reply_message,
}
use line_stock_alert.LineWebhook.Completion.{IsCompleted, process_completes}
use line_stock_alert.LineWebhook.Delivery.{redelivery_silent}

abbrev help : LineWebhookEvent
help = record {
  type = text "message";
  webhook_event_id = text "e1";
  reply_token = text "r1";
  user_id = text "L3";
  message = some (text "text", text " help");
}

abbrev follow : LineWebhookEvent
follow = record {
  type = text "follow";
  webhook_event_id = [];
  reply_token = text "r2";
  user_id = text "L9";
  message = none;
}

abbrev hash : LineWebhookEvent → Text
hash event = event.reply_token

abbrev described : RepositoryError → Text
described e = text "error"

abbrev url : Text
url = text "https://x//"

abbrev events : List LineWebhookEvent
events = help ∷ follow ∷ []

abbrev delivered : World
delivered = (process ascii hash described url events world).1

-- Each of the two events is answered once.
follow_reply :
    delivered.sent
    ≡ (
      text "r2",
      text
          "Welcome to Stock Alert. Open Stocks from the rich menu to continue with LINE Login: https://x/stocks",
    )
      ∷ (
        text "r1",
        text
            "Use Stocks to view US quotes and create ABOVE/BELOW alerts. Use My Alerts to edit or delete them.\nStocks: https://x/stocks\nMy Alerts: https://x/alerts",
      )
      ∷ []
unfolding process Store.claim_event Store.find_user_by_line_id Store.mark_processed process_event
    event_id reply_message wants_reply trim_space text_eq ◌>>=◌
follow_reply = refl

process_completes_example : All (IsCompleted ascii hash described url world.db delivered.db) events
unfolding process Store.claim_event Store.find_user_by_line_id Store.mark_processed process_event
    event_id reply_message wants_reply trim_space text_eq ◌>>=◌
process_completes_example = process_completes ascii hash described url events world

redelivery_silent_example :
    ((process ascii hash described url events delivered).1.db ≡ delivered.db)
    × ((process ascii hash described url events delivered).1.sent ≡ delivered.sent)
unfolding process Store.claim_event Store.find_user_by_line_id Store.mark_processed process_event
    event_id reply_message wants_reply trim_space text_eq ◌>>=◌
redelivery_silent_example =
    redelivery_silent ascii hash described url events delivered (refl, (refl, tt))
