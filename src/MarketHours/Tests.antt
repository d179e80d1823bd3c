-- ===== src/MarketHours/Tests.antt =====
-- backend/internal/services/market_hours.go on days of the years 2024 and 2026.
use line_stock_alert.Common.{true, false, ◌≡◌, refl, ◌≤◌, some, arith}
use line_stock_alert.MarketHours.{
  date, year_of, year_day, seek_forward, seek_backward, nth_weekday, last_weekday, easter_sunday,
  is_us_market_holiday, is_us_trading_day, observed_holiday,
}
use line_stock_alert.MarketHours.Holidays.{fixed_holidays_closed}

fixed_holidays_closed_example :
    (is_us_trading_day (observed_holiday (date 2026 1 1)) ≡ false)
    × (is_us_trading_day (observed_holiday (date 2026 7 4)) ≡ false)
    × (is_us_trading_day (observed_holiday (date 2026 12 25)) ≡ false)
    × (2022 ≤ 2026 → is_us_trading_day (observed_holiday (date 2026 6 19)) ≡ false)
fixed_holidays_closed_example = fixed_holidays_closed 2026 (omega arith)

thanksgiving : nth_weekday 2026 11 4 4 ≡ some (date 2026 11 26)
unfolding nth_weekday seek_forward date
thanksgiving = refl

memorial_day : last_weekday 2026 5 1 ≡ some (date 2026 5 25)
unfolding last_weekday seek_backward date
memorial_day = refl

easter_2024 : easter_sunday 2024 ≡ date 2024 3 31
unfolding easter_sunday date
easter_2024 = refl

leap_year_of : year_of (date 2024 12 31) ≡ 2024
unfolding date year_of
leap_year_of = refl

good_friday_closed : is_us_trading_day (date 2026 4 3) ≡ false
unfolding date year_of year_day seek_forward seek_backward nth_weekday last_weekday easter_sunday
    is_us_market_holiday is_us_trading_day
good_friday_closed = refl

-- The fourth of July of 2026 is a Saturday.
independence_day_closed : is_us_trading_day (date 2026 7 3) ≡ false
unfolding date year_of year_day seek_forward seek_backward nth_weekday last_weekday easter_sunday
    is_us_market_holiday is_us_trading_day
independence_day_closed = refl

monday_open : is_us_trading_day (date 2026 7 6) ≡ true
unfolding date year_of year_day seek_forward seek_backward nth_weekday last_weekday easter_sunday
    is_us_market_holiday is_us_trading_day
monday_open = refl
