-- ===== src/Envelope/Time/Civil.antt =====
-- The calendar of src/envelope.rs: `days_from_civil` undoes `civil_from_days`.
use owlpost.Prelude.{ℕ, ◌+◌, ◌-◌, ◌*◌, ◌/◌, ◌≤◌, ◌<◌, ◌≡◌, arith}
use owlpost.Envelope.Time.{
  civil_yoe, civil_of_doy, civil_from_days, days_from_civil, epoch_days, era_days, shift_days,
}

-- The year of the era holds its day: the day lies from the first day of that year to its 366th.
yoe_bounds :
    (doe : ℕ)
    → doe < 146097
    → (365 * civil_yoe doe + civil_yoe doe / 4 - civil_yoe doe / 100 ≤ doe)
      × (doe ≤ 365 * civil_yoe doe + civil_yoe doe / 4 - civil_yoe doe / 100 + 365)
      × (civil_yoe doe < 400)
unfolding civil_yoe
yoe_bounds doe h = omega arith

-- The month is a month and the day at most the 31st.
civil_of_doy_range :
    (y doy : ℕ)
    → doy ≤ 365
    → let date = civil_of_doy y doy in
      (y ≤ date.0) × (date.0 ≤ y + 1) × (1 ≤ date.1) × (date.1 ≤ 12) × (1 ≤ date.2) × (date.2 ≤ 31)
unfolding civil_of_doy
civil_of_doy_range y doy h = ground arith

civil_of_doy_year :
    (y doy : ℕ) → y * 366 + doy < 9999 * 366 + 306 → doy ≤ 365 → (civil_of_doy y doy).0 < 10000
unfolding civil_of_doy
civil_of_doy_year y doy h k = ground arith

-- The year begins in March, so the last day of a leap year is its last.
days-civil_of_doy :
    (era yoe doy : ℕ)
    → yoe < 400
    → doy ≤ 365
    → let date = civil_of_doy (yoe + era * 400) doy in
      days_from_civil date.0 date.1 date.2
      ≡ (era + 1) * era_days + (yoe * 365 + yoe / 4 - yoe / 100 + doy)
unfolding civil_of_doy days_from_civil
days-civil_of_doy era yoe doy h k = ground arith

module _ (days : ℕ) where
  abbrev doe : ℕ
  doe = days + epoch_days - (days + epoch_days) / era_days * era_days

  doe_lt : doe < 146097
  doe_lt = omega arith

  abbrev doy_of : ℕ
  doy_of = doe - (365 * civil_yoe doe + civil_yoe doe / 4 - civil_yoe doe / 100)

  -- The calendar date of a day number leads back to the day number.
  pub days-civil :
      let date = civil_from_days days in days_from_civil date.0 date.1 date.2 ≡ days + shift_days
  unfolding civil_from_days
  days-civil = omega (
    arith,
    yoe_bounds doe doe_lt,
    days-civil_of_doy ((days + epoch_days) / era_days) (civil_yoe doe) doy_of
        (omega (arith, yoe_bounds doe doe_lt)) (omega (arith, yoe_bounds doe doe_lt)),
  )

  -- The month and the day are in range, and so is the year of a day before 10000-01-01.
  pub civil_in_range :
      days < 2932897
      → let date = civil_from_days days in
        (date.0 < 10000) × (1 ≤ date.1) × (date.1 ≤ 12) × (1 ≤ date.2) × (date.2 ≤ 31)
  unfolding civil_from_days
  civil_in_range h = omega (
    arith,
    yoe_bounds doe doe_lt,
    civil_of_doy_range (civil_yoe doe + (days + epoch_days) / era_days * 400) doy_of,
    civil_of_doy_year (civil_yoe doe + (days + epoch_days) / era_days * 400) doy_of,
  )
