-- ===== src/Calendar/Steps.antt =====
-- The day after and the day before.
use workforce_app_backend.Common.{ℕ, suc, ◌+◌, ◌-◌, ◌≤◌, ◌<◌, ◌≡◌, arith}
use workforce_app_backend.Calendar.{
  Date, IsDate, leap_day, month_length, days_before_month, day_number, next_day, previous_day,
}
use workforce_app_backend.Calendar.Numbers.{leap_day-le, days_before_year-suc, days_before_month-12}

pub month_length_bounds : (y m : ℕ) → (28 ≤ month_length y m) × (month_length y m ≤ 31)
unfolding month_length
month_length_bounds y m = ground (arith, leap_day-le y)

pub next_day-IsDate : (d : Date) → IsDate d → IsDate (next_day d)
unfolding next_day
next_day-IsDate d v =
    ground (arith, month_length_bounds d.year (d.month + 1), month_length_bounds (d.year + 1) 0)

december : (y : ℕ) → month_length y 11 ≡ 31
unfolding month_length
december y = ground arith

pub previous_day-IsDate : (d : Date) → IsDate d → IsDate (previous_day d)
unfolding previous_day
previous_day-IsDate d v =
    ground (arith, month_length_bounds d.year (d.month - 1), december (d.year - 1))

days_before_month-add :
    (y m : ℕ) → days_before_month y (m + 1) ≡ days_before_month y m + month_length y m
unfolding days_before_month
days_before_month-add y m = let e : m + 1 ≡ suc m = omega arith in rw e (omega arith)

days_before_month-0 : (y : ℕ) → days_before_month y 0 ≡ 0
unfolding days_before_month
days_before_month-0 y = omega arith

days_before_december : (y m : ℕ) → m ≡ 11 → days_before_month y m + 31 ≡ 365 + leap_day y
days_before_december y m e =
    rw e (omega (arith, days_before_month-12 y, days_before_month-add y 11, december y))

-- The day after a date of the calendar has the next day number.
pub day_number-next_day : (d : Date) → IsDate d → day_number (next_day d) ≡ day_number d + 1
unfolding next_day day_number
day_number-next_day d v = ground (
  arith,
  days_before_month-add d.year d.month,
  days_before_year-suc d.year,
  days_before_month-0 (d.year + 1),
  days_before_december d.year d.month,
  december d.year,
)

-- From the year 1 on, the day after the day before a date is that date.
pub next_day-previous_day : (d : Date) → IsDate d → 0 < d.year → next_day (previous_day d) ≡ d
unfolding next_day previous_day
next_day-previous_day d v h = ground (arith, december (d.year - 1))
