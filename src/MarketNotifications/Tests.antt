-- ===== src/MarketNotifications/Tests.antt =====
-- backend/internal/services/market_notification_worker.go on Monday, the sixth of July of 2026, five and
-- six minutes after the opening.
use line_stock_alert.Common.{ℕ, ◌≡◌, refl, ◌⊎◌, some, [], ◌∷◌}
use line_stock_alert.Text.{Text, text, text_eq}
use line_stock_alert.World.{World, MarketEvent, market_open, market_closed}
use line_stock_alert.Sort.{sort_by}
use line_stock_alert.Examples.{world}
use line_stock_alert.MarketHours.{
  date, year_of, year_day, seek_forward, seek_backward, nth_weekday, last_weekday, easter_sunday,
  is_us_market_holiday, is_us_trading_day,
}
use line_stock_alert.MarketHours.Session.{fixed_zone, market_transition}
use line_stock_alert.MarketNotifications.{check, recipients}
use line_stock_alert.MarketNotifications.Once.{world_after, notified_once}
use line_stock_alert.MarketNotifications.Recipients.{HasReached, check_reaches_all}

abbrev message : MarketEvent → ℕ → Text
message market_open at = text "open"
message market_closed at = text "closed"

abbrev morning : World
morning = record world { now = 1783348500 }

opened : market_transition (some fixed_zone) 1783348500 660 ≡ some (market_open, 1783348200)
unfolding market_transition date year_of year_day seek_forward seek_backward nth_weekday
    last_weekday easter_sunday is_us_market_holiday is_us_trading_day
opened = refl

later : market_transition (some fixed_zone) 1783348560 660 ≡ some (market_open, 1783348200)
unfolding market_transition date year_of year_day seek_forward seek_backward nth_weekday
    last_weekday easter_sunday is_us_market_holiday is_us_trading_day
later = refl

abbrev first : World
first = world_after (check message (some fixed_zone) 600) morning

abbrev second : World
second = world_after (check message (some fixed_zone) 600) (record first { now = 1783348560 })

notified_once_example :
    (first.sent ≡ morning.sent) ⊎ ((second.sent ≡ first.sent) × (second.db ≡ first.db))
notified_once_example =
    notified_once message (some fixed_zone) 600 morning 1783348560 1783348200 1783348200 market_open
      opened later refl

check_reaches_all_example : HasReached (text "open") (market_open, 20640) morning first
check_reaches_all_example =
    check_reaches_all message (some fixed_zone) 600 morning market_open 1783348200 opened refl refl

one_recipient : recipients world.db ≡ text "L3" ∷ []
unfolding recipients text_eq sort_by
one_recipient = refl
