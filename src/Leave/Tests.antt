-- ===== src/Leave/Tests.antt =====
-- Concrete employees, leave years and requests that the theorems on annual leave apply to.
use workforce_app_backend.Common.{◌≡◌, ◌≤◌, ◌<◌, ◌+◌, ◌*◌, ◌-◌, min, arith, List, [], ◌∷◌, filter}
use workforce_app_backend.Common.Int.{pos, negsuc}
use workforce_app_backend.Calendar.{
  Date, date, IsDate, day_number, days_before_month, days_before_year, month_length, leap_day,
  is_leap,
}
use workforce_app_backend.Leave.Fifo.{FifoBucket, allocate_fifo, allocations_of, shortfall_of}
use workforce_app_backend.Leave.Fifo.Exact.{allocate_fifo-exact, available, granted}
use workforce_app_backend.Leave.Fifo.Order.{allocate_fifo-eq-plan, plan, is_granted}
use workforce_app_backend.Leave.Policy.{
  base_annual_days, add_calendar_years, completed_years_of_service, annual_entitlement,
}
use workforce_app_backend.Leave.Policy.Service.{completed_years_of_service_bounds}
use workforce_app_backend.Leave.Policy.Entitlement.{annual_entitlement_mono}

two_buckets : List FifoBucket
two_buckets =
    record { id = 1; remaining = pos 300 }
    ∷ record { id = 2; remaining = negsuc 4 }
    ∷ record { id = 3; remaining = pos 500 }
    ∷ []

allocate_fifo-exact_example :
    (granted (allocations_of (allocate_fifo two_buckets (pos 650)))
      ≡ min (available two_buckets) 650)
    × (shortfall_of (allocate_fifo two_buckets (pos 650)) ≡ 650 - available two_buckets)
allocate_fifo-exact_example = allocate_fifo-exact two_buckets (pos 650)

allocate_fifo-eq-plan_example :
    allocations_of (allocate_fifo two_buckets (pos 650))
    ≡ filter is_granted (plan 0 two_buckets 650)
allocate_fifo-eq-plan_example = allocate_fifo-eq-plan two_buckets (pos 650)

abbrev hired : Date
hired = date 2020 1 29

abbrev in_2024 : Date
in_2024 = date 2024 1 10

abbrev in_2025 : Date
in_2025 = date 2025 5 1

hired-IsDate : IsDate hired
unfolding month_length leap_day is_leap
hired-IsDate = record { month_ok = omega arith; day_pos = omega arith; day_ok = omega arith }

in_2024-IsDate : IsDate in_2024
unfolding month_length leap_day is_leap
in_2024-IsDate = record { month_ok = omega arith; day_pos = omega arith; day_ok = omega arith }

in_2025-IsDate : IsDate in_2025
unfolding month_length leap_day is_leap
in_2025-IsDate = record { month_ok = omega arith; day_pos = omega arith; day_ok = omega arith }

hired≤in_2025 : day_number hired ≤ day_number in_2025
unfolding day_number days_before_year days_before_month month_length leap_day is_leap
hired≤in_2025 = omega arith

in_2024≤in_2025 : day_number in_2024 ≤ day_number in_2025
unfolding day_number days_before_year days_before_month month_length leap_day is_leap
in_2024≤in_2025 = omega arith

completed_years_of_service_bounds_example :
    (day_number (add_calendar_years hired (completed_years_of_service hired in_2025))
      ≤ day_number in_2025)
    × (day_number in_2025
        < day_number (add_calendar_years hired (completed_years_of_service hired in_2025 + 1)))
completed_years_of_service_bounds_example =
    completed_years_of_service_bounds hired in_2025 hired-IsDate in_2025-IsDate hired≤in_2025

annual_entitlement_mono_example :
    (annual_entitlement 4 hired in_2024 in_2025 ≤ annual_entitlement 4 hired in_2025 in_2025)
    × (annual_entitlement 0 hired in_2024 in_2025 ≤ 100 * base_annual_days)
annual_entitlement_mono_example =
    annual_entitlement_mono 4 hired in_2024 in_2025 in_2025 hired-IsDate in_2024-IsDate
      in_2025-IsDate in_2024≤in_2025
