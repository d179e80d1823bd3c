-- ===== src/MarketHours/Session/Tests.antt =====
-- backend/internal/services/market_hours.go and market_notification_worker.go on Monday, the sixth of July of
-- 2026, which is day 739803, by the clock five hours behind UTC.
use line_stock_alert.Common.{ℕ, ◌≡◌, refl, none, some, arith, ◌-◌, ◌*◌}
use line_stock_alert.World.{market_open, market_closed}
use line_stock_alert.MarketHours.{
  date, year_of, year_day, seek_forward, seek_backward, nth_weekday, last_weekday, easter_sunday,
  is_us_market_holiday, is_us_trading_day,
}
use line_stock_alert.MarketHours.Session.{
  fixed_zone, seek_trading_day, us_regular_market_status, market_transition,
}
use line_stock_alert.MarketHours.Session.Status.{HasStatus, fixed_zone-IsForward, market_status_lem}
use line_stock_alert.MarketHours.Session.Transitions.{transition-status}

-- 09:35
abbrev morning : ℕ
morning = 1783348500

status_open : us_regular_market_status none morning ≡ some (market_open, 1783371600)
unfolding us_regular_market_status date year_of year_day seek_forward seek_backward nth_weekday
    last_weekday easter_sunday is_us_market_holiday is_us_trading_day
status_open = refl

-- The third of July is the observed holiday; the exchanges open on the sixth.
status_holiday :
    us_regular_market_status none (1783348500 - 3 * 86400) ≡ some (market_closed, 1783348200)
unfolding us_regular_market_status date year_of year_day seek_forward seek_backward nth_weekday
    last_weekday easter_sunday is_us_market_holiday is_us_trading_day seek_trading_day
status_holiday = refl

market_status_lem_example : HasStatus fixed_zone morning (us_regular_market_status none morning)
market_status_lem_example = market_status_lem none morning fixed_zone-IsForward

opened : market_transition (some fixed_zone) morning 600 ≡ some (market_open, 1783348200)
unfolding market_transition date year_of year_day seek_forward seek_backward nth_weekday
    last_weekday easter_sunday is_us_market_holiday is_us_trading_day
opened = refl

transition-status_example :
    (until : ℕ) × (us_regular_market_status (some fixed_zone) morning ≡ some (market_open, until))
transition-status_example =
    transition-status fixed_zone morning 600 1783348200 market_open fixed_zone-IsForward
      (omega arith) opened
