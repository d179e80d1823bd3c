-- ===== src/MarketHours/Calendar.antt =====
-- backend/internal/services/market_hours.go: the year of a day of the calendar.
use line_stock_alert.Common.{ℕ, ◌+◌, ◌-◌, ◌*◌, ◌/◌, ◌%◌, ◌<◌, ◌≤◌, ◌≡◌, ap, ◌∙◌, true, arith, ◌⊎◌}
use line_stock_alert.MarketHours.{days_before_year, year_in, year_of, is_leap}

year_in_lem :
    (a b c d k : ℕ)
    → b < 4
    → c < 25
    → d < 4
    → k < 365
    → year_in (146097 * a + 36524 * b + 1461 * c + 365 * d + k) ≡ 400 * a + 100 * b + 4 * c + d + 1
year_in_lem a b c d k hb hc hd hk = ground arith

year_in-last :
    (a b c : ℕ)
    → b < 4
    → c < 25
    → (c < 24) ⊎ (b ≡ 3)
    → year_in (146097 * a + 36524 * b + 1461 * c + 1460) ≡ 400 * a + 100 * b + 4 * c + 4
year_in-last a b c hb hc h = ground arith

pub year_of_lem :
    (year k : ℕ) → 0 < year → 0 < k → k ≤ 365 → year_of (days_before_year year + k) ≡ year
unfolding year_of
year_of_lem year k hy h hk =
    let n = year - 1 in
    let a = n / 400 in
    let b = n % 400 / 100 in
    let c = n % 100 / 4 in
    let d = n % 4 in
    let e : days_before_year year + k - 1 ≡ 146097 * a + 36524 * b + 1461 * c + 365 * d + (k - 1) =
      omega arith in
    ap year_in e
    ∙ (year_in_lem a b c d (k - 1) (omega arith) (omega arith) (omega arith) (omega arith)
        ∙ omega arith)

pub year_of-last :
    (year : ℕ) → 0 < year → is_leap year ≡ true → year_of (days_before_year year + 366) ≡ year
unfolding year_of
year_of-last year hy h =
    let n = year - 1 in
    let a = n / 400 in
    let b = n % 400 / 100 in
    let c = n % 100 / 4 in
    let e : days_before_year year + 366 - 1 ≡ 146097 * a + 36524 * b + 1461 * c + 1460 =
      ground (arith, h) in
    ap year_in e
    ∙ (year_in-last a b c (omega arith) (omega arith) (ground (arith, h)) ∙ ground (arith, h))

-- A day lies in its year.
pub year_of-in :
    (day : ℕ)
    → 0 < day
    → (0 < year_of day)
      × (days_before_year (year_of day) < day)
      × (day ≤ days_before_year (year_of day + 1))
unfolding year_of
year_of-in day h = ground arith
