-- ===== src/MarketHours/Weekdays.antt =====
-- backend/internal/services/market_hours.go: the loops that look for a weekday find it within seven
-- rounds.
use line_stock_alert.Common.{
  ℕ, zero, suc, ◌+◌, ◌-◌, ◌*◌, ◌%◌, ◌<◌, ◌≤◌, ◌≡◌, ap, inl, inr, true, false, some, arith,
  Bool-cases, ==_iff, ◌==◌, List, [], ◌∷◌, All,
}
use mathlib.Core.Option.{map}
use line_stock_alert.MarketHours.{
  date, days_before_month, weekday_of, is_weekday, observed_holiday, seek_forward, seek_backward,
  nth_weekday, last_weekday, entry,
}

-- A fixed holiday is observed on a weekday at most one day away, and on its own day unless that is one of
-- a weekend.
pub observed_holiday-weekday :
    (day : ℕ)
    → 0 < day
    → (is_weekday (observed_holiday day) ≡ true)
      × (observed_holiday day ≤ day + 1)
      × (day ≤ observed_holiday day + 1)
      × (is_weekday day ≡ true → observed_holiday day ≡ day)
observed_holiday-weekday day h = ground arith

-- How many days after the given one the weekday is next.
abbrev ahead : ℕ → ℕ → ℕ
ahead weekday day = (weekday + 7 - weekday_of day) % 7

-- How many days before the given one the weekday was last.
abbrev ago : ℕ → ℕ → ℕ
ago weekday day = (weekday_of day + 7 - weekday) % 7

differ : (a b : ℕ) → (a == b) ≡ false → ¬ (a ≡ b)
differ a b h = ground arith

seek_forward_lem :
    (rounds weekday day : ℕ)
    → weekday < 7
    → ahead weekday day < rounds
    → seek_forward rounds weekday day ≡ some (day + ahead weekday day)
unfolding seek_forward
seek_forward_lem zero weekday day w h = ground arith
seek_forward_lem (suc rounds) weekday day w h = elim (Bool-cases (weekday_of day == weekday)) [
  | inl same ↦
      let eq = (==_iff (weekday_of day) weekday).0 same in rw same (ap some (omega (arith, eq)))
  | inr other ↦
      let ne = differ (weekday_of day) weekday other in
      rw (other, seek_forward_lem rounds weekday (day + 1) w (omega (arith, ne)))
        (ap some (omega (arith, ne)))
]

seek_backward_lem :
    (rounds weekday day : ℕ)
    → weekday < 7
    → ago weekday day < rounds
    → ago weekday day ≤ day
    → seek_backward rounds weekday day ≡ some (day - ago weekday day)
unfolding seek_backward
seek_backward_lem zero weekday day w h k = ground arith
seek_backward_lem (suc rounds) weekday day w h k = elim (Bool-cases (weekday_of day == weekday)) [
  | inl same ↦
      let eq = (==_iff (weekday_of day) weekday).0 same in rw same (ap some (omega (arith, eq)))
  | inr other ↦
      let ne = differ (weekday_of day) weekday other in
      rw
        (
          other,
          seek_backward_lem rounds weekday (day - 1) w (omega (arith, ne)) (omega (arith, ne)),
        )
        (ap some (omega (arith, ne)))
]

-- From the first of its month on, the day that nthWeekday gives has the weekday, and stands in the week
-- of that number. The loop ends.
pub nth_weekday_lem :
    (year month weekday occurrence : ℕ)
    → weekday < 7
    → 0 < occurrence
    → (day : ℕ) × (nth_weekday year month weekday occurrence ≡ some day)
      × (weekday_of day ≡ weekday)
      × (date year month 1 + (occurrence - 1) * 7 ≤ day)
      × (day < date year month 1 + occurrence * 7)
unfolding nth_weekday
nth_weekday_lem year month weekday occurrence w o =
    let first = date year month 1 in
    let e = seek_forward_lem 7 weekday first w (omega arith) in
    (
      first + ahead weekday first + (occurrence - 1) * 7,
      ap (map (λ day. day + (occurrence - 1) * 7)) e,
      omega arith,
      omega arith,
      omega arith,
    )

entry-le : (xs : List ℕ) (n : ℕ) → All (λ x. 31 ≤ x) xs → 31 ≤ entry xs n
entry-le [] n h = omega arith
entry-le (x ∷ xs) zero h = h.0
entry-le (x ∷ xs) (suc n) h = entry-le xs n h.1

abbrev later_months : List ℕ
later_months = 31 ∷ 59 ∷ 90 ∷ 120 ∷ 151 ∷ 181 ∷ 212 ∷ 243 ∷ 273 ∷ 304 ∷ 334 ∷ []

later_month-le : (month : ℕ) → 0 < month → 31 ≤ days_before_month (month + 1)
later_month-le zero m = ground arith
later_month-le (suc n) m =
    let e : suc n + 1 - 1 ≡ suc n = omega arith in rw e (entry-le later_months n (ground arith))

last-le : (year month : ℕ) → 0 < month → 31 ≤ date year (month + 1) 0
unfolding date
last-le year month m = omega (arith, later_month-le month m)

first_after_last : (year month : ℕ) → date year month 1 ≡ date year month 0 + 1
unfolding date
first_after_last year month = omega arith

-- The day that lastWeekday gives has the weekday, and is one of the last seven of the month. The loop ends.
pub last_weekday_lem :
    (year month weekday : ℕ)
    → weekday < 7
    → 0 < month
    → (day : ℕ) × (last_weekday year month weekday ≡ some day)
      × (weekday_of day ≡ weekday)
      × (day < date year (month + 1) 1)
      × (date year (month + 1) 1 ≤ day + 7)
unfolding last_weekday
last_weekday_lem year month weekday w m =
    let last = date year (month + 1) 0 in
    let after = first_after_last year (month + 1) in
    let late : 31 ≤ last = last-le year month m in
    let e = seek_backward_lem 7 weekday last w (omega arith) (omega (arith, late)) in
    (last - ago weekday last, e, omega (arith, late), omega (arith, after), omega (arith, after))
