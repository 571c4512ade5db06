-- ===== src/Attendance/Corrections/Tests.antt =====
-- Requests to correct the attendance of one employee, and inputs at which the theorems on them apply.
use workforce_app_backend.Common.{
  ℕ, ◌+◌, ◌-◌, ◌*◌, ◌≤◌, ◌++◌, is_empty, map, ◌≡◌, refl, true, false, none, some, List, [], ◌∷◌,
  arith,
}
use workforce_app_backend.Common.Int.{pos}
use workforce_app_backend.Common.Result.{Result, is_ok, ok, err, app_error}
use workforce_app_backend.Common.Table.{find_by, insert_by, order_by}
use workforce_app_backend.Shared.OfficeScope.{scope_of, assert_office_in_scope}
use workforce_app_backend.Leave.DayFraction.{
  LeaveDaySession, full, morning, afternoon, leave_sessions_conflict,
}
use workforce_app_backend.Attendance.{Platform, Timesheet, timesheet_id}
use workforce_app_backend.Attendance.Presence.{
  Office, Schedule, Employee, Context, active_employee, employee_context, day_rule_for_weekday,
}
use workforce_app_backend.Attendance.Corrections.{
  Tables, DayInput, bounds_by, schedule_bounds, session_actuals, distinct_days,
  normalize_day_inputs, org_admin_user_ids,
}
use workforce_app_backend.Attendance.Corrections.Ask.{
  leave_sessions_for_date, check_existing, check_free, check_day, add_row, create_rows, create_for,
  create_requests,
}
use workforce_app_backend.Attendance.Corrections.Review.{
  apply_scheduled_correctness, corrected_row, create_timesheet, correct_or_create,
  create_by_schedule, create_scheduled_timesheet, check_review, load_request, correct, approve,
}
use workforce_app_backend.Attendance.Corrections.Review.Submission.{
  requests_for_submission, review_all, review_submission, approve_submission,
}
use workforce_app_backend.Attendance.Corrections.Partial.{days_of, create_rows-prefix}
use workforce_app_backend.Attendance.Corrections.Halves.{session_actuals_bounds, apply-apply-last}
use workforce_app_backend.Attendance.Corrections.Life.{Action, handle, Reach, HasLiveApart}
use workforce_app_backend.Attendance.Corrections.Life.Invariant.{Reach-HasLiveApart}

-- A platform in UTC, where a time of the day is a number of milliseconds.
abbrev platform : Platform
platform = record {
  local_time = λ instant zone. record { work_date = 5; weekday = 5 };
  scheduled_instant = λ day time zone. some (86400000 * day + time);
  plus_day = λ instant zone. instant + 86400000;
  measure = λ fix latitude longitude radius. none;
  is_holiday = λ employee day. false;
  is_photo_required = λ organization. false;
  is_hosted_photo = λ url. true;
  is_desktop_skip_enabled = λ organization. true;
  trim = λ text. text;
  collapse_space = λ text. text;
  to_lower_case = λ text. text;
}

abbrev weekday : ℕ → ℕ
weekday day = 1

abbrev office : Office
office = record {
  id = 1;
  is_active = true;
  timezone = 3;
  latitude = pos 9;
  longitude = pos 38;
  allowed_radius_meters = 100;
  maximum_accuracy_meters = 50;
}

-- From 8:00 to 17:00.
abbrev schedule : Schedule
schedule = record {
  id = 1;
  is_active = true;
  timezone = 3;
  rule = record { check_in_time = 28800000; check_out_time = 61200000 };
  working_days = 1 ∷ [];
  late_grace_minutes = 0;
  days = [];
}

abbrev worker : Employee
worker = record {
  id = 2;
  user_id = 12;
  organization_id = 1;
  is_active = true;
  office = some office;
  schedule = some schedule;
}

abbrev context : Context
context = record { employee = worker; office = office; schedule = schedule }

abbrev tables : Tables
tables = record {
  attendance = record {
    timesheets = [];
    locations = [];
    worksheets = [];
    late_reasons = [];
    notifications = [];
    approved_leave = [];
    next_id = 5;
  };
  employees = worker ∷ [];
  live_leave = [];
  admins = (1, 20) ∷ [];
  requests = [];
  corrections = [];
  notices = [];
}

abbrev tables-HasLiveApart : HasLiveApart tables
tables-HasLiveApart = record { distinct = tt; old_ids = tt; apart = tt }

abbrev on : ℕ → LeaveDaySession → DayInput
on date session = record { date = date; session = session }

-- Both halves of a day, then the whole of it, then a decision on the halves.
abbrev asked : Tables
asked =
    handle platform weekday 0 (Action.ask 12 [] (on 4 morning ∷ on 4 afternoon ∷ []) none) tables

abbrev settled : Tables
settled = handle platform weekday 0 (Action.accept_all 1 5 20 (scope_of true []) none) asked

Reach-HasLiveApart_example : HasLiveApart settled
Reach-HasLiveApart_example = Reach-HasLiveApart tables-HasLiveApart (
    Reach.later platform weekday 0 (Action.accept_all 1 5 20 (scope_of true []) none) (
      Reach.later platform weekday 0 (Action.ask 12 [] (on 4 morning ∷ on 4 afternoon ∷ []) none)
        Reach.start))

-- The day of today is refused, and the row of the day before stays.
create_rows-prefix_example :
    (done rest : List DayInput) × ((on 4 full ∷ on 5 full ∷ []) ≡ done ++ rest)
    × (days_of (create_rows platform weekday 5 9 context none (on 4 full ∷ on 5 full ∷ []) tables).0
        ≡ [] ++ done)
    × (is_ok (create_rows platform weekday 5 9 context none (on 4 full ∷ on 5 full ∷ []) tables).1
        ≡ is_empty rest)
create_rows-prefix_example =
    create_rows-prefix platform weekday 5 9 context none (on 4 full ∷ on 5 full ∷ []) tables

partly_asked :
    let after = create_rows platform weekday 5 9 context none (on 4 full ∷ on 5 full ∷ []) tables in
    (after.1 ≡ err (app_error 422 "FUTURE_DATE_NOT_ALLOWED")) × (days_of after.0 ≡ on 4 full ∷ [])
unfolding create_rows check_day check_free check_existing leave_sessions_for_date add_row
    schedule_bounds bounds_by day_rule_for_weekday
partly_asked = (refl, refl)

session_actuals_bounds_example :
    let am = session_actuals 28800000 61200000 morning in
    let pm = session_actuals 28800000 61200000 afternoon in
    let day = session_actuals 28800000 61200000 full in
    (am.check_in ≡ 28800000)
    × (am.check_out ≡ pm.check_in)
    × (pm.check_out ≡ 61200000)
    × (am.check_out - am.check_in ≤ pm.check_out - pm.check_in)
    × (pm.check_out - pm.check_in ≤ am.check_out - am.check_in + 1)
    × (am.worked_minutes ≤ pm.worked_minutes)
    × (pm.worked_minutes ≤ am.worked_minutes + 1)
    × (am.worked_minutes + pm.worked_minutes ≤ day.worked_minutes)
    × (day.worked_minutes ≤ am.worked_minutes + pm.worked_minutes + 1)
session_actuals_bounds_example = session_actuals_bounds 28800000 61200000 (omega arith)

abbrev first_half : Tables
first_half = handle platform weekday 0 (Action.accept 1 6 20 (scope_of true []) none false) asked

abbrev after_of : Tables → Result (Tables × ℕ) → Tables
after_of db (ok (after, _)) = after
after_of db (err _) = db

abbrev both_halves : Tables
both_halves = after_of first_half (apply_scheduled_correctness 8 afternoon 20 first_half)

abbrev all_again : Tables
all_again = after_of both_halves (apply_scheduled_correctness 8 full 20 both_halves)

halves :
    (apply_scheduled_correctness 8 afternoon 20 first_half ≡ ok (both_halves, 8))
    × (apply_scheduled_correctness 8 full 20 both_halves ≡ ok (all_again, 8))
    × (map (λ (t : Timesheet). t.worked_minutes) settled.attendance.timesheets ≡ 270 ∷ [])
unfolding handle approve approve_submission review_submission review_all requests_for_submission
    load_request check_review correct create_scheduled_timesheet create_by_schedule
    correct_or_create create_timesheet apply_scheduled_correctness session_actuals create_requests
    create_for employee_context active_employee normalize_day_inputs distinct_days order_by
    insert_by create_rows check_day check_free check_existing leave_sessions_for_date add_row
    schedule_bounds bounds_by day_rule_for_weekday assert_office_in_scope org_admin_user_ids
    leave_sessions_conflict
halves = (refl, refl, refl)

apply-apply-last_example :
    (row : Timesheet) × (find_by timesheet_id 8 first_half.attendance.timesheets ≡ some row)
    × (find_by timesheet_id 8 all_again.attendance.timesheets
        ≡ some (
            corrected_row
              (session_actuals row.scheduled_check_in row.scheduled_check_out full)
              row))
apply-apply-last_example =
    apply-apply-last 8 afternoon full 20 20 first_half {mid = both_halves} {after = all_again}
      {t = 8} {u = 8} halves.0 halves.1
