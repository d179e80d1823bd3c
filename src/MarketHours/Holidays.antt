-- ===== src/MarketHours/Holidays.antt =====
-- backend/internal/services/market_hours.go: the exchanges are closed on the holidays that have a fixed
-- date.
use line_stock_alert.Common.{
  ℕ, zero, suc, ◌+◌, ◌-◌, ◌%◌, ◌<◌, ◌≤◌, ◌≡◌, refl, sym, ap, ◌∙◌, subst, inl, inr, true, false,
  arith, Bool-cases, ==_iff, ◌==◌, some, List, [], ◌∷◌, any, Bool, leb,
}
use mathlib.Core.List.{Memᴰ}
use mathlib.Core.List.Memᴰ.{head, tail}
use mathlib.Core.List.Memᴰ
use line_stock_alert.MarketHours.{
  date, days_before_year, leap_day, is_leap, weekday_of, is_weekday, observed_holiday, holiday,
  holidays, is_day, year_of, year_day, is_us_market_holiday, is_us_trading_day, days_before_month,
  yearly, juneteenth,
}
use line_stock_alert.MarketHours.Calendar.{year_of_lem, year_of-last}
use line_stock_alert.MarketHours.Weekdays.{observed_holiday-weekday}

any-Mem :
    {A : Type 0} (p : A → Bool) {x : A} {xs : List A} → Memᴰ x xs → p x ≡ true → any p xs ≡ true
any-Mem p (head e) h = rw (ap p (sym e) ∙ h) refl
any-Mem p (tail {x = y} m) h = elim (Bool-cases (p y)) [
  | inl e ↦ rw e refl
  | inr e ↦ rw e (any-Mem p m h)
]

is_day-same : (day : ℕ) → is_day day (some day) ≡ true
is_day-same day =
    let e = (==_iff (year_of day) (year_of day)).1 refl in
    let e' = (==_iff (year_day day) (year_day day)).1 refl in rw (e, e') refl

closed-Mem :
    (day year : ℕ)
    → year_of day ≡ year
    → Memᴰ (some day) (holidays year)
    → is_us_trading_day day ≡ false
unfolding is_us_trading_day is_us_market_holiday
closed-Mem day year y m =
    let e : any (is_day day) (holidays (year_of day)) ≡ true =
      subst (λ y. any (is_day day) (holidays y) ≡ true) (sym y)
        (any-Mem (is_day day) m (is_day-same day)) in
    elim (Bool-cases (is_weekday day)) [ inl h ↦ rw (h, e) refl | inr h ↦ rw h refl ]

-- A holiday that is not at an end of the year is observed in its year.
observed_holiday-year_of :
    (year k : ℕ)
    → 0 < year
    → 1 < k
    → k < 365
    → year_of (observed_holiday (days_before_year year + k)) ≡ year
observed_holiday-year_of year k hy h hk =
    let before = days_before_year year in
    let near = observed_holiday-weekday (before + k) (omega (arith, h)) in
    let day = observed_holiday (before + k) in
    let e : before + (day - before) ≡ day = omega (arith, h, near.1, near.2) in
    ap year_of (sym e)
    ∙ year_of_lem year (day - before) hy (omega (arith, h, near.2)) (omega (arith, hk, near.1))

leap_day-le : (year month : ℕ) → leap_day year month ≤ 1
leap_day-le year month = ground arith

-- The same for the date of a holiday, given by the days before its month.
holiday-year_of :
    (year month day : ℕ)
    → 0 < year
    → 1 < days_before_month month + day
    → days_before_month month + day < 364
    → year_of (observed_holiday (date year month day)) ≡ year
unfolding date
holiday-year_of year month day hy h hk =
    let before = days_before_year year in
    let k = days_before_month month + leap_day year month + day in
    let e : before + (days_before_month month + leap_day year month) + day ≡ before + k =
      omega arith in
    let leap = leap_day-le year month in
    ap (λ d. year_of (observed_holiday d)) e
    ∙ observed_holiday-year_of year k hy (omega (arith, h)) (omega (arith, hk, leap))

-- The last day of a year.
before_year : (year : ℕ) → 1 < year → year_of (days_before_year year) ≡ year - 1
before_year year h = elim (Bool-cases (is_leap (year - 1))) [
  | inl leap ↦
      let e : days_before_year year ≡ days_before_year (year - 1) + 366 = ground (arith, leap, h) in
      ap year_of e ∙ year_of-last (year - 1) (omega (arith, h)) leap
  | inr plain ↦
      let e : days_before_year year ≡ days_before_year (year - 1) + 365 =
        ground (arith, plain, h) in
      ap year_of e ∙ year_of_lem (year - 1) 365 (omega (arith, h)) (omega arith) (omega arith)
]

first_of_year : (year : ℕ) → date year 1 1 ≡ days_before_year year + 1
unfolding date
first_of_year year = ground arith

not_first_year : (year : ℕ) → 0 < year → (days_before_year year + 1) % 7 ≡ 6 → 1 < year
not_first_year zero h e = ground arith
not_first_year (suc zero) h e = ground arith
not_first_year (suc (suc n)) h e = omega arith

-- New Year is observed at the end of the year before when it is a Saturday.
new_year-closed :
    (year : ℕ) → 0 < year → is_us_trading_day (observed_holiday (date year 1 1)) ≡ false
new_year-closed year hy =
    let before = days_before_year year in
    let day = observed_holiday (date year 1 1) in
    let first = first_of_year year in
    elim (Bool-cases (weekday_of (date year 1 1) == 6)) [
      | inl saturday ↦
          let e : day ≡ before = ground (arith, saturday, first) in
          let late =
            not_first_year year hy
              (ap (λ d. d % 7) (sym first) ∙ (==_iff (weekday_of (date year 1 1)) 6).0 saturday) in
          let again : year - 1 + 1 ≡ year = omega (arith, late) in
          closed-Mem day (year - 1) (ap year_of e ∙ before_year year late) (
            Memᴰ.append_right (yearly (year - 1)) (
              Memᴰ.append_right (juneteenth (year - 1))
                (head (ap (λ y. some (observed_holiday (date y 1 1))) (sym again)))))
      | inr other ↦
          let near : (before < day) × (day ≤ before + 2) = ground (arith, other, first) in
          let e : before + (day - before) ≡ day = omega (arith, near.0) in
          closed-Mem day year
            (ap year_of (sym e)
              ∙ year_of_lem year (day - before) hy (omega (arith, near.0)) (omega (arith, near.1)))
            (head refl)
    ]

juneteenth-Mem :
    (year : ℕ) → 2022 ≤ year → Memᴰ (some (observed_holiday (date year 6 19))) (juneteenth year)
juneteenth-Mem year recent =
    let e : leb 2022 year ≡ true = ground (arith, recent) in rw e (head refl)

-- The days on which New Year, the fourth of July, Christmas and, from 2022 on, the nineteenth of June are
-- observed are no trading days, in any year.
pub fixed_holidays_closed :
    (year : ℕ)
    → 0 < year
    → (is_us_trading_day (observed_holiday (date year 1 1)) ≡ false)
      × (is_us_trading_day (observed_holiday (date year 7 4)) ≡ false)
      × (is_us_trading_day (observed_holiday (date year 12 25)) ≡ false)
      × (2022 ≤ year → is_us_trading_day (observed_holiday (date year 6 19)) ≡ false)
fixed_holidays_closed year hy = (
  new_year-closed year hy,
  closed-Mem (observed_holiday (date year 7 4)) year
      (holiday-year_of year 7 4 hy (omega arith) (omega arith)) (tail (head refl)),
  closed-Mem (observed_holiday (date year 12 25)) year
      (holiday-year_of year 12 25 hy (omega arith) (omega arith)) (tail (tail (head refl))),
  λ recent.
      closed-Mem (observed_holiday (date year 6 19)) year
        (holiday-year_of year 6 19 hy (omega arith) (omega arith))
        (Memᴰ.append_right (yearly year)
          (Memᴰ.append_left (holiday (year + 1) 1 1 ∷ []) (juneteenth-Mem year recent))),
)
