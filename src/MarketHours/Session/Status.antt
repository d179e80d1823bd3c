-- ===== src/MarketHours/Session/Status.antt =====
-- backend/internal/services/market_hours.go and market_notification_worker.go: what the status and the
-- transitions of the market say.
use line_stock_alert.Common.{
  ℕ, ◌+◌, ◌<◌, ◌≤◌, ◌≡◌, refl, ap, inl, inr, ◌⊎◌, Bool, true, false, not, ◌&&◌, Option, some, arith,
  ltb, if◌then◌else◌,
}
use mathlib.Core.Option.{map}
use line_stock_alert.World.{MarketEvent, market_open, market_closed}
use line_stock_alert.MarketHours.{is_us_trading_day}
use line_stock_alert.MarketHours.Session.{
  LocalTime, Zone, opening, next_opening, zone_or_fixed, us_regular_market_status, fixed_zone,
  today, open_at, close_at,
}
use line_stock_alert.MarketHours.Session.Next.{IsNext, coming_day-IsNext}

-- The clock of a place goes forward: a time on a later day than it shows is still to come.
pub record IsForward (zone : Zone) : Type 0 where
  pub positive : (t : ℕ) → 0 < (zone.in_zone t).day
  pub later_day : (t : ℕ) (l : LocalTime) → (zone.in_zone t).day < l.day → t < zone.instant l

-- What the status at a time says: open from 09:30 to 16:00 of a trading day, and closed up to the next
-- opening, that of the day itself before 09:30 and that of the first later trading day otherwise.
pub data IsStatus (zone : Zone) (now : ℕ) : MarketEvent → ℕ → Type 0 where
  open_now :
      is_us_trading_day (today zone now) ≡ true
      → open_at zone now ≤ now
      → now < close_at zone now
      → IsStatus zone now market_open (close_at zone now)
  opens_today :
      is_us_trading_day (today zone now) ≡ true
      → now < open_at zone now
      → IsStatus zone now market_closed (open_at zone now)
  opens_later :
      (next : ℕ)
      → IsNext (today zone now + 1) next
      → (is_us_trading_day (today zone now) ≡ false) ⊎ (close_at zone now ≤ now)
      → IsStatus zone now market_closed (zone.instant (opening next))

-- The clock that stands in where the time zone cannot be loaded goes forward.
pub fixed_zone-IsForward : IsForward fixed_zone
fixed_zone-IsForward = record { positive = λ t. omega arith; later_day = λ t l h. omega (arith, h) }

-- The result, with what it says.
pub record HasStatus (zone : Zone) (now : ℕ) (r : Option (MarketEvent × ℕ)) : Type 0 where
  pub event : MarketEvent
  pub until : ℕ
  pub is : r ≡ some (event, until)
  pub status : IsStatus zone now event until
  pub ahead : now < until

module _ (zone : Zone) (forward : IsForward zone) (now : ℕ) where
  next_opening-HasStatus :
      (is_us_trading_day (today zone now) ≡ false) ⊎ (close_at zone now ≤ now)
      → HasStatus zone now (next_opening zone (today zone now))
  next_opening-HasStatus over =
      let next = coming_day-IsNext (today zone now) (forward.positive now) in
      record {
        event = market_closed;
        until = zone.instant (opening next.0);
        is = ap (map (λ n. (market_closed, zone.instant (opening n)))) next.1;
        status = opens_later next.0 next.2 over;
        ahead = forward.later_day now (opening next.0) (omega (arith, next.2.from));
      }

  before-HasStatus :
      (b c : Bool)
      → is_us_trading_day (today zone now) ≡ b
      → ltb now (open_at zone now) ≡ c
      → (b && not c && ltb now (close_at zone now)) ≡ false
      → HasStatus zone now (
          if b && c
          then some (market_closed, open_at zone now)
          else next_opening zone (today zone now))
  before-HasStatus false c t e h = next_opening-HasStatus (inl t)
  before-HasStatus true true t e h = record {
    event = market_closed;
    until = open_at zone now;
    is = refl;
    status = opens_today t (ground (arith, e));
    ahead = ground (arith, e);
  }
  before-HasStatus true false t e h = next_opening-HasStatus (inr (ground (arith, h)))

  status_in-HasStatus :
      (b : Bool)
      → (is_us_trading_day (today zone now)
          && not (ltb now (open_at zone now))
          && ltb now (close_at zone now))
        ≡ b
      → HasStatus zone now (
          if b
          then some (market_open, close_at zone now)
          else if is_us_trading_day (today zone now) && ltb now (open_at zone now)
          then some (market_closed, open_at zone now)
          else next_opening zone (today zone now))
  status_in-HasStatus true e = record {
    event = market_open;
    until = close_at zone now;
    is = refl;
    status = open_now (ground (arith, e)) (ground (arith, e)) (ground (arith, e));
    ahead = ground (arith, e);
  }
  status_in-HasStatus false e =
      before-HasStatus (is_us_trading_day (today zone now)) (ltb now (open_at zone now)) refl refl e

-- The status of the market comes out at any time: it is open from 09:30 to 16:00 of a trading day in New
-- York, and closed up to the next opening otherwise, that of the same day before 09:30 and that of the
-- first later trading day else; the time until which it holds is still to come. This needs a clock that
-- goes forward from day to day, as that of New York does.
pub market_status_lem :
    (zone : Option Zone) (now : ℕ)
    → IsForward (zone_or_fixed zone)
    → HasStatus (zone_or_fixed zone) now (us_regular_market_status zone now)
unfolding us_regular_market_status
market_status_lem zone now forward = status_in-HasStatus (zone_or_fixed zone) forward now _ refl
