-- ===== src/Calendar/Tests.antt =====
-- Concrete dates for the theorems on the calendar.
use workforce_app_backend.Common.{arith}
use workforce_app_backend.Calendar.{Date, date, IsDate, month_length, leap_day, is_leap}

abbrev leap : Date
leap = date 2024 1 29

leap-IsDate : IsDate leap
unfolding month_length leap_day is_leap
leap-IsDate = record { month_ok = omega arith; day_pos = omega arith; day_ok = omega arith }
