-- ===== src/Leave/Policy.antt =====
-- The annual leave policy of src/modules/leave/annual-leave.policy.ts: years of service, the
-- entitlement of a leave year, its period and its expiry. Days of leave are counted in hundredths.
pub mod Service
pub mod Entitlement
use workforce_app_backend.Common.{
  ℕ, ◌+◌, ◌-◌, ◌*◌, ◌/◌, min, Bool, ◌||◌, ltb, leb, not, if◌then◌else◌,
}
use workforce_app_backend.Calendar.{
  Date, date, month_length, day_number, before, next_day, previous_day,
}

abbrev pub base_annual_days : ℕ
base_annual_days = 16

abbrev pub days_per_service_month : ℕ
days_per_service_month = 26

abbrev pub max_carry_years : ℕ
max_carry_years = 2

-- Days of leave from a quotient, `round2(a / b)`, in hundredths.
abbrev pub round2_quotient : ℕ → ℕ → ℕ
round2_quotient a b = (200 * a + b) / (2 * b)

unfoldable pub add_calendar_years : Date → ℕ → Date
add_calendar_years d years =
    let year = d.year + years in date year d.month (min d.day (month_length year d.month))

-- `utcDayDiff`, 0 where the difference is negative: its one caller treats `days <= 0` alike.
unfoldable pub utc_day_diff : Date → Date → ℕ
utc_day_diff from to = day_number to - day_number from

unfoldable pub completed_years_of_service : Date → Date → ℕ
completed_years_of_service hire as_of =
    if before as_of hire
    then 0
    else let years = as_of.year - hire.year in
      if before as_of (add_calendar_years hire years) then years - 1 else years

unfoldable pub service_months : Date → Date → ℕ
unfolding utc_day_diff
service_months hire as_of =
    let days = utc_day_diff hire as_of in if leb days 0 then 0 else days / days_per_service_month

unfoldable pub pro_rata_leave : Date → Date → ℕ
unfolding service_months
pro_rata_leave hire as_of =
    round2_quotient (base_annual_days * min 12 (service_months hire as_of)) 12

unfoldable pub annual_entitlement : ℕ → Date → Date → Date → ℕ
annual_entitlement completed_years_at_start hire as_of period_end =
    if ltb completed_years_at_start 1
    then if not (before as_of (next_day period_end))
        || leb 1 (completed_years_of_service hire as_of)
      then 100 * base_annual_days
      else pro_rata_leave hire as_of
    else 100 * (base_annual_days + (completed_years_at_start - 1) / 2)

pub record Period : Type 0 where
  pub start : Date
  pub stop : Date

unfoldable pub leave_year_period : Date → ℕ → Period
leave_year_period hire completed_years_at_start = record {
  start = add_calendar_years hire completed_years_at_start;
  stop = previous_day (add_calendar_years hire (completed_years_at_start + 1));
}

unfoldable pub expires_on : Date → Date
expires_on period_start = add_calendar_years period_start (1 + max_carry_years)
