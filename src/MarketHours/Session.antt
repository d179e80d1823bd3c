-- ===== src/MarketHours/Session.antt =====
-- usRegularMarketStatus of backend/internal/services/market_hours.go and marketTransition of
-- market_notification_worker.go: the session of the US exchanges at a time. Times are seconds; the loop to
-- the next trading day has 1000 rounds, which are enough.
mod Next
pub mod Status
pub mod Transitions
mod Tests
use line_stock_alert.Common.{
  ℕ, zero, suc, ◌+◌, ◌-◌, ◌*◌, ◌/◌, ◌%◌, Bool, true, false, not, ◌&&◌, Option, none, some,
  if◌then◌else◌, ltb, leb,
}
use mathlib.Core.Option.{map}
use line_stock_alert.World.{MarketEvent, market_open, market_closed}
use line_stock_alert.MarketHours.{is_us_trading_day}

-- A time on the clock of New York: the day, as in MarketHours, and the second of that day.
pub record LocalTime : Type 0 where
  pub day : ℕ
  pub second : ℕ

-- What the time zone database says of New York: time.Time.In and time.Date. Times are seconds since 1970.
pub record Zone : Type 0 where
  pub in_zone : ℕ → LocalTime
  pub instant : LocalTime → ℕ

-- The first of January of 1970
abbrev pub epoch : ℕ
epoch = 719163

-- time.FixedZone("ET", -5*60*60)
abbrev pub fixed_zone : Zone
fixed_zone = record {
  in_zone = λ t. record { day = epoch + (t - 18000) / 86400; second = (t - 18000) % 86400 };
  instant = λ l. (l.day - epoch) * 86400 + l.second + 18000;
}

-- 09:30 and 16:00
abbrev pub opening : ℕ → LocalTime
opening day = record { day = day; second = 34200 }

abbrev pub closing : ℕ → LocalTime
closing day = record { day = day; second = 57600 }

abbrev pub today : Zone → ℕ → ℕ
today zone now = (zone.in_zone now).day

abbrev pub open_at : Zone → ℕ → ℕ
open_at zone now = zone.instant (opening (today zone now))

abbrev pub close_at : Zone → ℕ → ℕ
close_at zone now = zone.instant (closing (today zone now))

-- The first trading day from the given day on.
unfoldable pub seek_trading_day : ℕ → ℕ → Option ℕ
seek_trading_day zero day = none
seek_trading_day (suc rounds) day = elim (is_us_trading_day day) [
  | true ↦ some day
  | false ↦ seek_trading_day rounds (day + 1)
]

-- time.LoadLocation, which finds no zone where it fails.
abbrev pub zone_or_fixed : Option Zone → Zone
zone_or_fixed none = fixed_zone
zone_or_fixed (some zone) = zone

abbrev pub next_opening : Zone → ℕ → Option (MarketEvent × ℕ)
next_opening zone day =
    map (λ next. (market_closed, zone.instant (opening next))) (seek_trading_day 1000 (day + 1))

abbrev pub status_in : Zone → ℕ → Option (MarketEvent × ℕ)
status_in zone now =
    if is_us_trading_day (today zone now)
      && not (ltb now (open_at zone now))
      && ltb now (close_at zone now)
    then some (market_open, close_at zone now)
    else if is_us_trading_day (today zone now) && ltb now (open_at zone now)
    then some (market_closed, open_at zone now)
    else next_opening zone (today zone now)

-- The status, and until when it holds.
unfoldable pub us_regular_market_status : Option Zone → ℕ → Option (MarketEvent × ℕ)
us_regular_market_status zone now = status_in (zone_or_fixed zone) now

abbrev pub late_transition : Zone → ℕ → ℕ → Option (MarketEvent × ℕ)
late_transition zone now window =
    if not (ltb now (close_at zone now)) && leb (now - close_at zone now) window
    then some (market_closed, close_at zone now)
    else none

abbrev pub day_transition : Zone → ℕ → ℕ → Option (MarketEvent × ℕ)
day_transition zone now window =
    if not (ltb now (open_at zone now)) && leb (now - open_at zone now) window
    then some (market_open, open_at zone now)
    else late_transition zone now window

abbrev pub transition_in : Zone → ℕ → ℕ → Option (MarketEvent × ℕ)
transition_in zone now window =
    if not (is_us_trading_day (today zone now)) then none else day_transition zone now window

-- The transition of at most `window` seconds ago.
unfoldable pub market_transition : Option Zone → ℕ → ℕ → Option (MarketEvent × ℕ)
market_transition none now window = none
market_transition (some zone) now window = transition_in zone now window
