-- ===== src/MarketHours.antt =====
-- backend/internal/services/market_hours.go: the trading days of the US stock exchanges. A time.Time is
-- here its day in New York, counted from 1 for the first of January of the year 1 of the Gregorian
-- calendar, a Monday. A loop of the code has a number of rounds, and none where they do not do.
mod Calendar
mod Holidays
pub mod Weekdays
mod August
pub mod Session
mod Tests
use line_stock_alert.Common.{
  ℕ, zero, suc, ◌+◌, ◌-◌, ◌*◌, ◌/◌, ◌%◌, Bool, true, false, not, ◌&&◌, ◌||◌, Option, none, some,
  List, [], ◌∷◌, ◌++◌, if◌then◌else◌, any, leb, ltb, ◌==◌,
}
use mathlib.Core.Option.{map}

abbrev pub is_leap : ℕ → Bool
is_leap year = (year % 4 == 0) && (not (year % 100 == 0) || (year % 400 == 0))

abbrev pub days_before_year : ℕ → ℕ
days_before_year year = 365 * (year - 1) + (year - 1) / 4 - (year - 1) / 100 + (year - 1) / 400

abbrev pub entry : List ℕ → ℕ → ℕ
entry [] n = 365
entry (x ∷ xs) zero = x
entry (x ∷ xs) (suc n) = entry xs n

-- The days before a month of a year that is not a leap year.
abbrev pub days_before_month : ℕ → ℕ
days_before_month month =
    entry (0 ∷ 31 ∷ 59 ∷ 90 ∷ 120 ∷ 151 ∷ 181 ∷ 212 ∷ 243 ∷ 273 ∷ 304 ∷ 334 ∷ []) (month - 1)

abbrev pub leap_day : ℕ → ℕ → ℕ
leap_day year month = if is_leap year && ltb 2 month then 1 else 0

-- time.Date, for a month up to 13; the day 0 is the last of the month before.
unfoldable pub date : ℕ → ℕ → ℕ → ℕ
date year month day = days_before_year year + (days_before_month month + leap_day year month) + day

-- A century and a year are at most the fourth of their block, whose last day is a leap day.
abbrev pub up_to_3 : ℕ → ℕ
up_to_3 n = if ltb 3 n then 3 else n

abbrev pub year_in : ℕ → ℕ
year_in n =
    let centuries = up_to_3 (n % 146097 / 36524) in
    let in_century = n % 146097 - 36524 * centuries in
    let in_leaps = in_century % 1461 in
    400 * (n / 146097) + 100 * centuries + 4 * (in_century / 1461) + up_to_3 (in_leaps / 365) + 1

-- time.Time.Year
unfoldable pub year_of : ℕ → ℕ
year_of day = year_in (day - 1)

-- time.Time.YearDay
unfoldable pub year_day : ℕ → ℕ
year_day day = day - days_before_year (year_of day)

-- time.Time.Weekday: Sunday is 0, Saturday is 6.
abbrev pub weekday_of : ℕ → ℕ
weekday_of day = day % 7

abbrev pub is_weekday : ℕ → Bool
is_weekday day = not (weekday_of day == 6) && not (weekday_of day == 0)

abbrev pub observed_holiday : ℕ → ℕ
observed_holiday day =
    if weekday_of day == 6 then day - 1 else (if weekday_of day == 0 then day + 1 else day)

-- The first day from the given one on that has the weekday.
unfoldable pub seek_forward : ℕ → ℕ → ℕ → Option ℕ
seek_forward zero weekday day = none
seek_forward (suc rounds) weekday day =
    let later = seek_forward rounds weekday (day + 1) in
    if weekday_of day == weekday then some day else later

unfoldable pub seek_backward : ℕ → ℕ → ℕ → Option ℕ
seek_backward zero weekday day = none
seek_backward (suc rounds) weekday day =
    let earlier = seek_backward rounds weekday (day - 1) in
    if weekday_of day == weekday then some day else earlier

unfoldable pub nth_weekday : ℕ → ℕ → ℕ → ℕ → Option ℕ
nth_weekday year month weekday occurrence =
    map (λ day. day + (occurrence - 1) * 7) (seek_forward 7 weekday (date year month 1))

unfoldable pub last_weekday : ℕ → ℕ → ℕ → Option ℕ
last_weekday year month weekday = seek_backward 7 weekday (date year (month + 1) 0)

abbrev pub easter_from : ℕ → ℕ → ℕ → ℕ → ℕ
easter_from year a b c =
    let d = b / 4 in
    let e = b % 4 in
    let f = (b + 8) / 25 in
    let g = (b - f + 1) / 3 in
    let h = (19 * a + b - d - g + 15) % 30 in
    let i = c / 4 in
    let k = c % 4 in
    let l = (32 + 2 * e + 2 * i - h - k) % 7 in
    let m = (a + 11 * h + 22 * l) / 451 in
    date year ((h + l - 7 * m + 114) / 31) ((h + l - 7 * m + 114) % 31 + 1)

unfoldable pub easter_sunday : ℕ → ℕ
easter_sunday year = easter_from year (year % 19) (year / 100) (year % 100)

abbrev pub holiday : ℕ → ℕ → ℕ → Option ℕ
holiday year month day = some (observed_holiday (date year month day))

abbrev pub yearly : ℕ → List (Option ℕ)
yearly year =
    holiday year 1 1
    ∷ holiday year 7 4
    ∷ holiday year 12 25
    ∷ nth_weekday year 1 1 3
    ∷ nth_weekday year 2 1 3
    ∷ last_weekday year 5 1
    ∷ nth_weekday year 9 1 1
    ∷ nth_weekday year 11 4 4
    ∷ some (easter_sunday year - 2)
    ∷ []

abbrev pub juneteenth : ℕ → List (Option ℕ)
juneteenth year = if leb 2022 year then holiday year 6 19 ∷ [] else []

-- New Year can be observed on the last day of the year before.
abbrev pub holidays : ℕ → List (Option ℕ)
holidays year = yearly year ++ (juneteenth year ++ (holiday (year + 1) 1 1 ∷ []))

abbrev pub is_day : ℕ → Option ℕ → Bool
is_day day none = false
is_day day (some other) = (year_of day == year_of other) && (year_day day == year_day other)

unfoldable pub is_us_market_holiday : ℕ → Bool
is_us_market_holiday day = any (is_day day) (holidays (year_of day))

unfoldable pub is_us_trading_day : ℕ → Bool
is_us_trading_day day = is_weekday day && not (is_us_market_holiday day)
