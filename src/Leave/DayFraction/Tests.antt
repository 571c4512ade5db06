-- ===== src/Leave/DayFraction/Tests.antt =====
-- A schedule that the theorem on the days of a request applies to.
use workforce_app_backend.Common.{◌≤◌, ◌*◌, ◌+◌, ◌-◌, none, some, [], ◌∷◌}
use workforce_app_backend.Calendar.{date, day_number}
use workforce_app_backend.Leave.DayFraction.{
  TimeRange, ScheduleForFraction, morning, working_leave_days, apply_leave_sessions,
  sum_leave_day_fractions,
}
use workforce_app_backend.Leave.DayFraction.Bounds.{leave_days_bounds}

abbrev day : TimeRange
day = record { check_in_time = some (8, 30); check_out_time = some (17, 30) }

abbrev half_day : TimeRange
half_day = record { check_in_time = some (8, 30); check_out_time = some (12, 30) }

abbrev schedule : ScheduleForFraction
schedule = record {
  working_days = [];
  check_in_time = none;
  check_out_time = none;
  days = record { weekday = 5; range = day } ∷ record { weekday = 6; range = half_day } ∷ [];
}

leave_days_bounds_example :
    let days = working_leave_days (date 2026 0 2) (date 2026 0 3) schedule in
    let chosen = apply_leave_sessions ((date 2026 0 2, morning) ∷ []) days in
    (sum_leave_day_fractions chosen ≤ sum_leave_day_fractions days)
    × (sum_leave_day_fractions days
        ≤ 100 * (day_number (date 2026 0 3) + 1 - day_number (date 2026 0 2)))
leave_days_bounds_example =
    leave_days_bounds (date 2026 0 2) (date 2026 0 3) schedule ((date 2026 0 2, morning) ∷ [])
