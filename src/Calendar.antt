-- ===== src/Calendar.antt =====
-- The UTC calendar of JavaScript's `Date`, for values at midnight UTC: `Date.UTC`, `getUTCFullYear`,
-- `getUTCMonth` (from 0) and `getUTCDate`. A date is held by its fields; `day_number` stands for
-- `getTime() / 86_400_000`, counted from the year 0.
pub mod Numbers
pub mod Steps
mod Tests
use workforce_app_backend.Common.{
  ℕ, zero, suc, ◌+◌, ◌-◌, ◌*◌, ◌/◌, ◌%◌, ◌≤◌, ◌<◌, min, Bool, not, ◌&&◌, ◌||◌, ◌==◌, ltb,
  if◌then◌else◌,
}

pub record Date : Type 0 where
  pub year : ℕ
  pub month : ℕ
  pub day : ℕ

unfoldable pub is_leap : ℕ → Bool
is_leap y = (y % 4 == 0) && not (y % 100 == 0) || (y % 400 == 0)

abbrev pub date : ℕ → ℕ → ℕ → Date
date y m d = record { year = y; month = m; day = d }

unfoldable pub leap_day : ℕ → ℕ
unfolding is_leap
leap_day y = if is_leap y then 1 else 0

-- `new Date(Date.UTC(year, month + 1, 0)).getUTCDate()`
unfoldable pub month_length : ℕ → ℕ → ℕ
month_length y m =
    if m == 1
    then 28 + leap_day y
    else if (m == 3) || (m == 5) || (m == 8) || (m == 10)
    then 30
    else 31

unfoldable pub days_before_month : ℕ → ℕ → ℕ
days_before_month y zero = 0
days_before_month y (suc m) = days_before_month y m + month_length y m

unfoldable pub days_before_year : ℕ → ℕ
days_before_year y = 365 * y + (y + 3) / 4 + (y + 399) / 400 - (y + 99) / 100

unfoldable pub day_number : Date → ℕ
day_number d = days_before_year d.year + days_before_month d.year d.month + d.day - 1

pub record IsDate (d : Date) : Type 0 where
  pub month_ok : d.month < 12
  pub day_pos : 1 ≤ d.day
  pub day_ok : d.day ≤ month_length d.year d.month

-- `a < b` on dates
abbrev pub before : Date → Date → Bool
before a b = ltb (day_number a) (day_number b)

-- `ymd(a) === ymd(b)`
abbrev pub date_eq : Date → Date → Bool
date_eq a b = (a.year == b.year) && (a.month == b.month) && (a.day == b.day)

-- `addUtcDays(value, 1)`
unfoldable pub next_day : Date → Date
next_day d =
    if ltb d.day (month_length d.year d.month)
    then date d.year d.month (d.day + 1)
    else if ltb d.month 11
    then date d.year (d.month + 1) 1
    else date (d.year + 1) 0 1

-- `addUtcDays(value, -1)`
unfoldable pub previous_day : Date → Date
previous_day d =
    if ltb 1 d.day
    then date d.year d.month (d.day - 1)
    else if ltb 0 d.month
    then date d.year (d.month - 1) (month_length d.year (d.month - 1))
    else date (d.year - 1) 11 31
