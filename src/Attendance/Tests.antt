-- ===== src/Attendance/Tests.antt =====
-- A small office that the theorems on attendance apply to.
use workforce_app_backend.Common.{
  find, ◌≡◌, refl, ◌≤◌, ◌<◌, ◌⊎◌, ◌+◌, ◌-◌, ◌/◌, arith, Bool, true, false, none, some, List, [],
  ◌∷◌, if◌then◌else◌,
}
use workforce_app_backend.Common.Int.{pos}
use workforce_app_backend.Common.Result.{Result, ok, err, app_error}
use workforce_app_backend.Attendance.{
  by_employee, by_system, present_on_time, Timesheet, Store, Platform,
}
use workforce_app_backend.Attendance.Metrics.{
  is_eligible_for_auto_checkout, checkout_metrics, checkout_metrics_lem, can_re_check_in,
}
use workforce_app_backend.Attendance.Close.{
  CloseInput, assert_worksheet_not_copied, is_copied, write_worksheet, submit_worksheet,
  finish_close, closed_timesheets, close_open_timesheet,
}
use workforce_app_backend.Attendance.Close.Laws.{open_count, IsSingle, close_open_timesheet_once}
use workforce_app_backend.Attendance.Presence.{
  validate_photo_url, Office, Schedule, Employee, Context, ActionInput, on_desktop, from_desktop,
  active_employee, employee_context, day_rule_for_weekday, clock_at, attendance_clock,
  assert_not_on_approved_leave, assert_not_on_public_holiday, location_is_required,
  resolve_presence, inside_radius, location_create,
}
use workforce_app_backend.Attendance.CheckIn.{
  CheckInInput, reentry, check_late_reason, admit_day, check_presence, admit_new, admit,
  create_timesheet, reopen_timesheet, commit, check_in,
}
use workforce_app_backend.Attendance.CheckIn.Single.{commit-IsSingle, check_in-IsSingle}
use workforce_app_backend.Attendance.CheckOut.{
  auto_close_row, resolve_auto_checkout_instant, CheckOutInput, check_closing, close_own,
  check_out_as, check_out, AutoRow, auto_close_rows,
}
use workforce_app_backend.Attendance.CheckOut.Automatic.{Fate, auto_close_rows-Fate}

checkout_metrics_lem_example :
    let m = checkout_metrics 600000 6000000 8 8 7000000 in
    let planned = (6000000 - 600000) / 60000 in
    ((8 < 8) × (m.is_missing_checkout ≡ true) × (m.worked_minutes ≡ planned))
    ⊎ ((8 ≤ 8)
        × (m.is_missing_checkout ≡ false)
        × ((m.overtime_minutes ≡ 0) ⊎ (m.early_checkout_minutes ≡ 0))
        × (planned + m.overtime_minutes ≤ m.worked_minutes + m.early_checkout_minutes + 1)
        × (m.worked_minutes + m.early_checkout_minutes ≤ planned + m.overtime_minutes + 1))
checkout_metrics_lem_example =
    checkout_metrics_lem 600000 6000000 8 8 7000000 (omega arith) (omega arith)

-- A platform in UTC, where a time of the day is a number of milliseconds.
abbrev platform : Platform
platform = record {
  local_time = λ instant zone. record { work_date = instant / 86400000; weekday = 1 };
  scheduled_instant = λ day time zone. some (86400000 + time);
  plus_day = λ instant zone. instant + 86400000;
  measure = λ fix latitude longitude radius. none;
  is_holiday = λ employee day. false;
  is_photo_required = λ organization. false;
  is_hosted_photo = λ url. true;
  is_desktop_skip_enabled = λ organization. true;
  trim = λ text. text;
  collapse_space = λ text. text;
  to_lower_case = λ text. text;
}

abbrev office : Office
office = record {
  id = 1;
  is_active = true;
  timezone = 3;
  latitude = pos 9;
  longitude = pos 38;
  allowed_radius_meters = 100;
  maximum_accuracy_meters = 50;
}

abbrev schedule : Schedule
schedule = record {
  id = 1;
  is_active = true;
  timezone = 3;
  rule = record { check_in_time = 28800000; check_out_time = 61200000 };
  working_days = 1 ∷ [];
  late_grace_minutes = 10;
  days = [];
}

abbrev sara : Employee
sara = record {
  id = 7;
  user_id = 70;
  organization_id = 1;
  is_active = true;
  office = some office;
  schedule = some schedule;
}

abbrev ctx : Context
ctx = record { employee = sara; office = office; schedule = schedule }

abbrev from_desk : ActionInput
from_desk = record {
  client_channel = on_desktop;
  latitude = none;
  longitude = none;
  accuracy_meters = none;
  captured_at = none;
}

-- A timesheet of the first day, closed by its employee or still open.
abbrev sheet : Bool → Timesheet
sheet open_still = record {
  id = 4;
  employee_id = 7;
  office_id = 1;
  schedule_id = 1;
  work_date = 1;
  scheduled_check_in = 115200000;
  scheduled_check_out = 147600000;
  actual_check_in = 115200000;
  actual_check_out = if open_still then none else some 120000000;
  late_minutes = 0;
  early_checkout_minutes = 0;
  worked_minutes = 0;
  overtime_minutes = 0;
  status = present_on_time;
  is_open = open_still;
  is_late = false;
  is_early_checkout = false;
  is_missing_checkout = false;
  check_out_source = if open_still then none else some by_employee;
  check_in_idempotency_key = 11;
  check_out_idempotency_key = if open_still then none else some 12;
  schedule_check_in_time = 28800000;
  schedule_check_out_time = 61200000;
  schedule_late_grace_minutes = 10;
  office_latitude = pos 9;
  office_longitude = pos 38;
  office_allowed_radius_meters = 100;
  office_maximum_accuracy_meters = 50;
  timezone = 3;
}

abbrev store_with : List Timesheet → Store
store_with rows = record {
  timesheets = rows;
  locations = [];
  worksheets = [];
  late_reasons = [];
  notifications = [];
  approved_leave = [];
  next_id = 5;
}

abbrev store_of : Result Store → Store
store_of (ok db) = db
store_of (err e) = store_with []

sheet-IsSingle : (b : Bool) → IsSingle (sheet b ∷ [])
unfolding open_count
sheet-IsSingle b = record { distinct = (refl, tt); one_open = λ e. ground arith }

empty-IsSingle : IsSingle []
unfolding open_count
empty-IsSingle = record { distinct = tt; one_open = λ e. omega arith }

abbrev close_input : CloseInput
close_input = record {
  opened = sheet true;
  checkout_at = 140000000;
  source = by_system;
  user_id = 70;
  idempotency_key = 20;
  checkout_location = none;
  work_description = some 33;
}

abbrev closed : Store
closed = store_of (close_open_timesheet platform close_input (store_with (sheet true ∷ [])))

sheet-closed : close_open_timesheet platform close_input (store_with (sheet true ∷ [])) ≡ ok closed
unfolding close_open_timesheet finish_close submit_worksheet assert_worksheet_not_copied is_copied
    write_worksheet closed_timesheets
sheet-closed = refl

abbrev entry : CheckInInput
entry = record {
  action = from_desk;
  idempotency_key = 21;
  photo_url = none;
  late_reason_type = none;
  late_reason_description = none;
}

close_open_timesheet_once_example :
    close_open_timesheet platform (record close_input { idempotency_key = 22 }) closed
    ≡ err (app_error 409 "TIMESHEET_ALREADY_CLOSED")
close_open_timesheet_once_example =
    close_open_timesheet_once platform close_input (record close_input { idempotency_key = 22 })
      (store_with (sheet true ∷ [])) refl sheet-closed

abbrev reopened_day : Store
reopened_day = store_of (
    commit ctx entry 130000000 (reentry (sheet false) from_desktop) (store_with (sheet false ∷ [])))

day-reopened :
    commit ctx entry 130000000 (reentry (sheet false) from_desktop) (store_with (sheet false ∷ []))
    ≡ ok reopened_day
unfolding commit reopen_timesheet can_re_check_in location_create
day-reopened = refl

commit-IsSingle_example : IsSingle reopened_day.timesheets
commit-IsSingle_example =
    commit-IsSingle ctx entry 130000000 (reentry (sheet false) from_desktop)
      (store_with (sheet false ∷ [])) (sheet-IsSingle false) refl ((λ same. refl), tt) day-reopened

abbrev entered : Store
entered = store_of (check_in platform (sara ∷ []) 70 entry 115200000 (store_with []))

sara-entered : check_in platform (sara ∷ []) 70 entry 115200000 (store_with []) ≡ ok entered
unfolding check_in validate_photo_url employee_context active_employee admit admit_new
    check_presence admit_day check_late_reason attendance_clock clock_at day_rule_for_weekday
    assert_not_on_approved_leave assert_not_on_public_holiday resolve_presence location_is_required
    inside_radius commit create_timesheet location_create
sara-entered = refl

check_in-IsSingle_example : IsSingle entered.timesheets
check_in-IsSingle_example =
    check_in-IsSingle platform (sara ∷ []) 70 entry 115200000 (store_with []) empty-IsSingle refl
      sara-entered

abbrev leaving : CheckOutInput
leaving = record {
  action = from_desk;
  idempotency_key = 23;
  work_description = none;
  photo_url = none;
}

abbrev left : Store
left = store_of (check_out platform (sara ∷ []) 70 leaving 140000000 (store_with (sheet true ∷ [])))

sara-left :
    check_out platform (sara ∷ []) 70 leaving 140000000 (store_with (sheet true ∷ [])) ≡ ok left
unfolding check_out validate_photo_url employee_context active_employee check_out_as close_own
    check_closing resolve_presence location_is_required inside_radius close_open_timesheet
    finish_close submit_worksheet closed_timesheets location_create
sara-left = refl

abbrev auto_row : AutoRow
auto_row = record {
  timesheet = sheet true;
  user_id = 70;
  enabled = true;
  auto_checkout_time = 79200000;
  zone = 3;
  key = 99;
}

auto_close_rows-Fate_example :
    Fate platform 170000000
      (auto_row ∷ [])
      (sheet true).id
      (sheet true)
      (auto_close_rows platform 170000000 (auto_row ∷ []) (store_with (sheet true ∷ [])))
auto_close_rows-Fate_example =
    auto_close_rows-Fate platform 170000000 (auto_row ∷ []) (store_with (sheet true ∷ []))
      (sheet true).id (sheet true) refl

-- The run closes the timesheet.
auto_row-closes :
    find
      (λ (t : Timesheet). t.is_open)
      (auto_close_rows platform 170000000 (auto_row ∷ []) (store_with (sheet true ∷ []))).timesheets
    ≡ none
unfolding auto_close_rows auto_close_row resolve_auto_checkout_instant close_open_timesheet
    finish_close submit_worksheet closed_timesheets is_eligible_for_auto_checkout
auto_row-closes = refl
