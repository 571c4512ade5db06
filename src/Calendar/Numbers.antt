-- ===== src/Calendar/Numbers.antt =====
-- How day numbers grow with the date.
use workforce_app_backend.Common.{ℕ, zero, suc, ◌+◌, ◌≤◌, ◌<◌, ◌≡◌, arith}
use native.Mathlib.Decide.{dec_le}
use workforce_app_backend.Calendar.{
  Date, IsDate, leap_day, month_length, days_before_month, days_before_year, day_number,
}

pub leap_day-le : (y : ℕ) → leap_day y ≤ 1
unfolding leap_day
leap_day-le y = ground arith

pub days_before_year-suc :
    (y : ℕ) → days_before_year (y + 1) ≡ days_before_year y + 365 + leap_day y
unfolding days_before_year leap_day
days_before_year-suc y = ground arith

pub days_before_month-12 : (y : ℕ) → days_before_month y 12 ≡ 365 + leap_day y
unfolding days_before_month month_length
days_before_month-12 y = omega arith

days_before_month_mono : (y m n : ℕ) → m ≤ n → days_before_month y m ≤ days_before_month y n
unfolding days_before_month
days_before_month_mono y zero zero h = omega arith
days_before_month_mono y (suc m) zero h = absurd (omega arith)
days_before_month_mono y m (suc n) h = elim (dec_le m n) [
  | yes p ↦ omega (arith, days_before_month_mono y m n p)
  | no p ↦ let e : m ≡ suc n = omega arith in rw e (omega arith)
]

-- The last day of a month is not after the last day of the year.
day_of_year-le :
    (d : Date) → IsDate d → days_before_month d.year d.month + d.day ≤ 365 + leap_day d.year
unfolding days_before_month
day_of_year-le d v =
    omega (
      arith,
      days_before_month-12 d.year,
      days_before_month_mono d.year (suc d.month) 12 v.month_ok,
    )

pub day_number_bounds :
    (d : Date)
    → IsDate d
    → (days_before_year d.year ≤ day_number d) × (day_number d < days_before_year (d.year + 1))
unfolding day_number
day_number_bounds d v =
    let last = day_of_year-le d v in (ground arith, ground (arith, days_before_year-suc d.year))

days_before_year-suc' : (y : ℕ) → days_before_year y ≤ days_before_year (suc y)
days_before_year-suc' y =
    let e : suc y ≡ y + 1 = omega arith in rw e (omega (arith, days_before_year-suc y))

pub days_before_year_mono : (m n : ℕ) → m ≤ n → days_before_year m ≤ days_before_year n
days_before_year_mono m zero h = let e : m ≡ 0 = omega arith in rw e (omega arith)
days_before_year_mono m (suc n) h = elim (dec_le m n) [
  | yes p ↦ omega (arith, days_before_year_mono m n p, days_before_year-suc' n)
  | no p ↦ let e : m ≡ suc n = omega arith in rw e (omega arith)
]

-- A date of an earlier year has the smaller day number.
pub day_number-lt_of_year :
    (a b : Date) → IsDate a → IsDate b → a.year < b.year → day_number a < day_number b
day_number-lt_of_year a b va vb h = omega (
  arith,
  day_number_bounds a va,
  day_number_bounds b vb,
  days_before_year_mono (a.year + 1) b.year,
)
