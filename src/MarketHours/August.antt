-- ===== src/MarketHours/August.antt =====
-- backend/internal/services/market_hours.go: there is a trading day in every August, so that the loop to
-- the next one ends.
use line_stock_alert.Common.{
  ℕ, zero, suc, ◌+◌, ◌-◌, ◌/◌, ◌%◌, ◌<◌, ◌≤◌, ◌≡◌, ◌≢◌, refl, sym, ◌∙◌, subst, inl, inr, Bool, true,
  false, List, [], ◌∷◌, ◌++◌, any, All, some, Bool-cases, ==_iff, ◌==◌, leb, arith, ◌⊎◌,
}
use line_stock_alert.MarketHours.{
  date, days_before_year, days_before_month, leap_day, is_weekday, holiday, holidays, yearly,
  juneteenth, is_day, year_of, year_day, is_us_market_holiday, is_us_trading_day, nth_weekday,
  last_weekday, easter_sunday, easter_from,
}
use line_stock_alert.MarketHours.Weekdays.{
  nth_weekday_lem, last_weekday_lem, observed_holiday-weekday,
}

any-none :
    {A : Type 0} (p : A → Bool) (xs ys : List A)
    → All (λ x. p x ≡ false) xs
    → any p (xs ++ ys) ≡ any p ys
any-none p [] ys h = refl
any-none p (x ∷ xs) ys h = rw h.0 (any-none p xs ys h.1)

-- A day of a year that is not the other is not it for isUSMarketHoliday either.
is_day-other :
    (day other : ℕ)
    → days_before_year (year_of day) < day
    → day ≢ other
    → is_day day (some other) ≡ false
unfolding year_day
is_day-other day other inside ne = elim (Bool-cases (year_of day == year_of other)) [
  | inr e ↦ rw e refl
  | inl e ↦
      let same = (==_iff (year_of day) (year_of other)).0 e in
      let apart : (day - days_before_year (year_of day) == other - days_before_year (year_of day))
          ≡ false =
        ground (arith, inside, ne) in
      rw (e, ← same, apart) refl
]

before_april : (month : ℕ) → month ≤ 4 → days_before_month month ≤ 90
before_april zero h = omega arith
before_april (suc zero) h = omega arith
before_april (suc (suc zero)) h = omega arith
before_april (suc (suc (suc zero))) h = omega arith
before_april (suc (suc (suc (suc zero)))) h = omega arith
before_april (suc (suc (suc (suc (suc n))))) h = ground (arith, h)

leap_day-le : (year month : ℕ) → leap_day year month ≤ 1
leap_day-le year month = ground arith

date-early : (year n : ℕ) → n ≤ 149 → date year (n / 31) (n % 31 + 1) ≤ days_before_year year + 122
unfolding date
date-early year n h =
    omega (arith, before_april (n / 31) (omega (arith, h)), leap_day-le year (n / 31))

easter_from-early : (year a b c : ℕ) → easter_from year a b c ≤ days_before_year year + 122
easter_from-early year a b c = date-early year _ (omega arith)

easter_sunday-early : (year : ℕ) → easter_sunday year ≤ days_before_year year + 122
unfolding easter_sunday
easter_sunday-early year = easter_from-early year (year % 19) (year / 100) (year % 100)

-- A day in August.
pub record IsAugust (day : ℕ) : Type 0 where
  pub positive : 0 < year_of day
  pub late : days_before_year (year_of day) + 213 < day
  pub early : day ≤ days_before_year (year_of day) + 243

module _ (day : ℕ) (h : IsAugust day) where
  abbrev year : ℕ
  year = year_of day

  no_holiday : (other : ℕ) → day ≢ other → is_day day (some other) ≡ false
  no_holiday other = is_day-other day other (omega (arith, h.late))

  first-date :
      (month d : ℕ)
      → (days_before_year year + days_before_month month + d ≤ date year month d)
        × (date year month d ≤ days_before_year year + days_before_month month + d + 1)
  unfolding date
  first-date month d = omega (arith, leap_day-le year month)

  fixed :
      (month d : ℕ)
      → 0 < d
      → (days_before_month month + d < 211) ⊎ (245 < days_before_month month + d)
      → is_day day (holiday year month d) ≡ false
  fixed month d m far =
      let at = first-date month d in
      let near = observed_holiday-weekday (date year month d) (omega (arith, at.0, m)) in
      no_holiday _ (ground (arith, at.0, at.1, near.1, near.2, far, h.late, h.early))

  floating :
      (month weekday n : ℕ)
      → weekday < 7
      → 0 < n
      → n < 5
      → (days_before_month month < 150) ⊎ (243 ≤ days_before_month month)
      → is_day day (nth_weekday year month weekday n) ≡ false
  floating month weekday n w m m' far =
      let at = first-date month 1 in
      let f = nth_weekday_lem year month weekday n w m in
      subst (λ o. is_day day o ≡ false) (sym f.1)
        (no_holiday f.0 (ground (arith, at.0, at.1, f.3, f.4, far, m', h.late, h.early)))

  memorial : is_day day (last_weekday year 5 1) ≡ false
  memorial =
      let at = first-date 6 1 in
      let f = last_weekday_lem year 5 1 (omega arith) (omega arith) in
      subst (λ o. is_day day o ≡ false) (sym f.1)
        (no_holiday f.0 (omega (arith, at.1, f.3, h.late)))

  yearly-none : All (λ o. is_day day o ≡ false) (yearly year)
  yearly-none = (
    fixed 1 1 (omega arith) (inl (omega arith)),
    (
      fixed 7 4 (omega arith) (inl (omega arith)),
      (
        fixed 12 25 (omega arith) (inr (omega arith)),
        (
          floating 1 1 3 (omega arith) (omega arith) (omega arith) (inl (omega arith)),
          (
            floating 2 1 3 (omega arith) (omega arith) (omega arith) (inl (omega arith)),
            (
              memorial,
              (
                floating 9 1 1 (omega arith) (omega arith) (omega arith) (inr (omega arith)),
                (
                  floating 11 4 4 (omega arith) (omega arith) (omega arith) (inr (omega arith)),
                  (no_holiday _ (omega (arith, easter_sunday-early year, h.late)), tt),
                ),
              ),
            ),
          ),
        ),
      ),
    ),
  )

  juneteenth-none : All (λ o. is_day day o ≡ false) (juneteenth year)
  juneteenth-none = elim (Bool-cases (leb 2022 year)) [
    | inl e ↦ rw e (fixed 6 19 (omega arith) (inl (omega arith)), tt)
    | inr e ↦ rw e tt
  ]

  new_year-none : is_day day (holiday (year + 1) 1 1) ≡ false
  unfolding date
  new_year-none =
      let near = observed_holiday-weekday (date (year + 1) 1 1) (omega arith) in
      no_holiday _ (ground (arith, near.2, h.early, h.positive))

  -- On a weekday in August the exchanges are open.
  pub august-trading : is_weekday day ≡ true → is_us_trading_day day ≡ true
  unfolding is_us_trading_day is_us_market_holiday
  august-trading e =
      let last = holiday (year + 1) 1 1 ∷ [] in
      let one : any (is_day day) last ≡ false = rw new_year-none refl in
      let free : any (is_day day) (holidays year) ≡ false =
        any-none (is_day day) (yearly year) (juneteenth year ++ last) yearly-none
        ∙ (any-none (is_day day) (juneteenth year) last juneteenth-none ∙ one) in
      rw (e, free) refl
