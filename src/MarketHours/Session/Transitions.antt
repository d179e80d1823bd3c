-- ===== src/MarketHours/Session/Transitions.antt =====
-- backend/internal/services/market_notification_worker.go: a transition of the market that is reported agrees
-- with the status of market_hours.go.
use line_stock_alert.Common.{
  ℕ, ◌+◌, ◌-◌, ◌<◌, ◌≤◌, ◌≡◌, refl, inl, inr, Bool, true, false, not, ◌&&◌, Option, none, some,
  arith, ltb, leb, if◌then◌else◌, subst, ap, ◌∙◌,
}
use line_stock_alert.World.{MarketEvent, market_open, market_closed}
use line_stock_alert.MarketHours.{is_us_trading_day}
use line_stock_alert.MarketHours.Session.{
  Zone, today, open_at, close_at, late_transition, day_transition, us_regular_market_status,
  market_transition,
}
use line_stock_alert.MarketHours.Session.Status.{
  IsForward, IsStatus, open_now, opens_today, opens_later, market_status_lem,
}

-- What a transition that is reported says of the time.
data IsTransition (zone : Zone) (now window : ℕ) : MarketEvent → Type 0 where
  has_opened :
      open_at zone now ≤ now
      → now ≤ open_at zone now + window
      → IsTransition zone now window market_open
  has_closed : close_at zone now ≤ now → IsTransition zone now window market_closed

abbrev IsReported : Zone → ℕ → ℕ → Option (MarketEvent × ℕ) → Type 0
IsReported zone now window none = Unit
IsReported zone now window (some (event, at)) =
    (is_us_trading_day (today zone now) ≡ true) × IsTransition zone now window event

module _ (zone : Zone) (now window : ℕ) (trading : is_us_trading_day (today zone now) ≡ true) where
  late-IsReported :
      (b : Bool)
      → (not (ltb now (close_at zone now)) && leb (now - close_at zone now) window) ≡ b
      → IsReported zone now window (if b then some (market_closed, close_at zone now) else none)
  late-IsReported true e = (trading, has_closed (ground (arith, e)))
  late-IsReported false e = tt

  day-IsReported :
      (b : Bool)
      → (not (ltb now (open_at zone now)) && leb (now - open_at zone now) window) ≡ b
      → IsReported zone now window
          (if b then some (market_open, open_at zone now) else late_transition zone now window)
  day-IsReported true e = (trading, has_opened (ground (arith, e)) (ground (arith, e)))
  day-IsReported false e = late-IsReported _ refl

transition_in-IsReported :
    (zone : Zone) (now window : ℕ) (b : Bool)
    → is_us_trading_day (today zone now) ≡ b
    → IsReported zone now window (if not b then none else day_transition zone now window)
transition_in-IsReported zone now window true e = day-IsReported zone now window e _ refl
transition_in-IsReported zone now window false e = tt

agree :
    (zone : Zone) (now window : ℕ) (event shown : MarketEvent) (until : ℕ)
    → open_at zone now + window < close_at zone now
    → (is_us_trading_day (today zone now) ≡ true) × IsTransition zone now window event
    → IsStatus zone now shown until
    → shown ≡ event
agree zone now window event shown until short (t, has_opened _ h) (open_now _ _ _) = refl
agree zone now window event shown until short (t, has_opened h _) (opens_today _ k) =
    absurd (omega (arith, h, k))
agree zone now window event shown until short (t, has_opened h k) (opens_later _ _ (inl idle)) =
    absurd (ground (arith, t, idle))
agree zone now window event shown until short (t, has_opened h k) (opens_later _ _ (inr past)) =
    absurd (omega (arith, k, past, short))
agree zone now window event shown until short (t, has_closed h) (open_now _ _ k) =
    absurd (omega (arith, h, k))
agree zone now window event shown until short (t, has_closed h) (opens_today _ _) = refl
agree zone now window event shown until short (t, has_closed h) (opens_later _ _ _) = refl

-- A transition that the notifications report is to the status that the services show at the same time, as
-- long as the window is shorter than the session and the clock goes forward from day to day.
pub transition-status :
    (zone : Zone) (now window at : ℕ) (event : MarketEvent)
    → IsForward zone
    → open_at zone now + window < close_at zone now
    → market_transition (some zone) now window ≡ some (event, at)
    → (until : ℕ) × (us_regular_market_status (some zone) now ≡ some (event, until))
unfolding market_transition
transition-status zone now window at event forward short e =
    let shown = market_status_lem (some zone) now forward in
    let reported : IsReported zone now window (some (event, at)) =
      subst (IsReported zone now window) e (transition_in-IsReported zone now window _ refl) in
    let same = agree zone now window event shown.event shown.until short reported shown.status in
    (shown.until, shown.is ∙ ap (λ s. some (s, shown.until)) same)
