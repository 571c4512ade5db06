-- ===== src/Performance/Tests.antt =====
-- A rating that the theorem on ratings applies to.
use workforce_app_backend.Common.{◌+◌, ◌*◌, ◌≤◌, ◌<◌, ◌-◌, max, none}
use workforce_app_backend.Common.Int.{pos, negsuc}
use workforce_app_backend.Performance.{
  AttendanceRatingInput, rate_reliability_attendance, penalty, with_more_leave,
  rate_reliability_attendance_bounds,
}

abbrev month : AttendanceRatingInput
month = record {
  expected_days = pos 22;
  attendance_days = pos 18;
  late_days = pos 4;
  late_minutes = pos 60;
  missing_checkout_days = negsuc 0;
  approved_leave_days = pos 250;
  holiday_days = none;
}

rate_reliability_attendance_bounds_example :
    let r = rate_reliability_attendance month in
    (1 ≤ r.score)
    × (r.score ≤ 5)
    × (100 * r.score ≤ max 100 (550 - penalty r.deductions))
    × (550 - penalty r.deductions < 100 * r.score + 100)
    × (r.score ≤ (rate_reliability_attendance (with_more_leave 50 month)).score)
rate_reliability_attendance_bounds_example = rate_reliability_attendance_bounds month 50
