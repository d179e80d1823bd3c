-- ===== src/MarketHours/Session/Next.antt =====
-- backend/internal/services/market_hours.go: the loop to the next trading day ends within its rounds.
use line_stock_alert.Common.{
  ℕ, zero, suc, ◌+◌, ◌-◌, ◌%◌, ◌<◌, ◌≤◌, ◌≡◌, refl, sym, ap, ◌∙◌, inl, inr, true, false, some,
  Bool-cases, arith, ◌==◌, ==_iff, subst,
}
use mathlib.Core.Bool.{true≢false}
use line_stock_alert.MarketHours.{date, days_before_year, year_of, is_us_trading_day}
use line_stock_alert.MarketHours.Calendar.{year_of_lem, year_of-in}
use line_stock_alert.MarketHours.August.{august-trading}
use line_stock_alert.MarketHours.Session.{seek_trading_day}

-- The first trading day from a day on.
pub record IsNext (day next : ℕ) : Type 0 where
  pub from : day ≤ next
  pub trading : is_us_trading_day next ≡ true
  pub closed : (x : ℕ) → day ≤ x → x < next → is_us_trading_day x ≡ false

later_day :
    (day other : ℕ)
    → is_us_trading_day day ≡ false
    → is_us_trading_day other ≡ true
    → day ≤ other
    → day < other
later_day day other e t h = elim (Bool-cases (day == other)) [
  | inr apart ↦ ground (arith, apart, h)
  | inl same ↦
      let eq = (==_iff day other).0 same in
      absurd (true≢false (sym t ∙ (ap is_us_trading_day (sym eq) ∙ e)))
]

module _ (rounds day : ℕ) where
  seek-now : is_us_trading_day day ≡ true → seek_trading_day (suc rounds) day ≡ some day
  unfolding seek_trading_day
  seek-now e =
      subst (λ b. elim b [ true ↦ some day | false ↦ seek_trading_day rounds (day + 1) ] ≡ some day)
        (sym e) refl

  seek-later :
      is_us_trading_day day ≡ false
      → seek_trading_day (suc rounds) day ≡ seek_trading_day rounds (day + 1)
  unfolding seek_trading_day
  seek-later e =
      subst
        (λ b.
          elim b [ true ↦ some day | false ↦ seek_trading_day rounds (day + 1) ]
          ≡ seek_trading_day rounds (day + 1))
        (sym e) refl

-- As soon as some day within the rounds is a trading day, the first one is found.
seek_trading_day-IsNext :
    (rounds day target : ℕ)
    → day ≤ target
    → target < day + rounds
    → is_us_trading_day target ≡ true
    → (next : ℕ) × (seek_trading_day rounds day ≡ some next) × IsNext day next
seek_trading_day-IsNext zero day target lo hi t = absurd (omega (arith, lo, hi))
seek_trading_day-IsNext (suc rounds) day target lo hi t =
    elim (Bool-cases (is_us_trading_day day)) [
      | inl e ↦ (
        day,
        seek-now rounds day e,
        record { from = omega arith; trading = e; closed = λ x h k. absurd (omega (arith, h, k)) },
      )
      | inr e ↦
          let later = later_day day target e t lo in
          let rest =
            seek_trading_day-IsNext rounds (day + 1) target (omega (arith, later))
              (omega (arith, hi)) t in
          (
            rest.0,
            seek-later rounds day e ∙ rest.1,
            record {
              from = omega (arith, rest.2.from);
              trading = rest.2.trading;
              closed = λ x h k. elim (Bool-cases (day == x)) [
                | inl same ↦ ap is_us_trading_day (sym ((==_iff day x).0 same)) ∙ e
                | inr apart ↦ rest.2.closed x (ground (arith, h, apart)) k
              ];
            },
          )
    ]

module _ (day : ℕ) (h : 0 < day) where
  abbrev coming : ℕ
  coming = year_of day + 1

  -- The first Monday from the second of August of the coming year on.
  abbrev monday : ℕ
  monday = date coming 8 2 + (8 - date coming 8 2 % 7) % 7

  monday-near : (days_before_year coming + 213 < monday) × (monday ≤ days_before_year coming + 243)
  unfolding date
  monday-near = ground arith

  monday-year_of : year_of monday ≡ coming
  monday-year_of =
      let before = days_before_year coming in
      let e : before + (monday - before) ≡ monday = omega (arith, monday-near.0) in
      ap year_of (sym e)
      ∙ year_of_lem coming (monday - before) (omega arith) (omega (arith, monday-near.0))
          (omega (arith, monday-near.1))

  monday-trading : is_us_trading_day monday ≡ true
  monday-trading =
      august-trading monday
        (record {
          positive = rw monday-year_of (omega arith);
          late = rw monday-year_of monday-near.0;
          early = rw monday-year_of monday-near.1;
        })
        (ground arith)

  -- From any day on, the loop of 1000 rounds finds the first later trading day.
  pub coming_day-IsNext :
      (next : ℕ) × (seek_trading_day 1000 (day + 1) ≡ some next) × IsNext (day + 1) next
  coming_day-IsNext =
      let in_year = year_of-in day h in
      seek_trading_day-IsNext 1000 (day + 1) monday (omega (arith, in_year.2, monday-near.0))
        (omega (arith, in_year.1, monday-near.1)) monday-trading
