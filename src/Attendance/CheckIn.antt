-- ===== src/Attendance/CheckIn.antt =====
-- `attendanceService.checkIn` of src/modules/attendance/attendance.service.ts: the checks,
-- then the transaction. The messages that follow the transaction are left out.
pub mod Rows
pub mod Single
use workforce_app_backend.Common.{
  ℕ, ◌+◌, Bool, true, false, not, ◌&&◌, ◌||◌, Option, none, some, List, [], ◌∷◌, ◌++◌, ◌==◌,
  if◌then◌else◌, any, find, update_where, is_some, get_or,
}
use workforce_app_backend.Common.Result.{
  Result, ok, err, app_error, throw_if, or_throw, ◌>>=◌, ◌>>◌,
}
use workforce_app_backend.Attendance.{
  CheckOutSource, AttendanceStatus, present_on_time, present_late, Timesheet, checking_in,
  check_in_success, check_in_late, LateReason, Store, Platform, timesheet_id,
}
use workforce_app_backend.Attendance.Metrics.{can_re_check_in}
use workforce_app_backend.Attendance.Close.{is_open_row, add_location, notify}
use workforce_app_backend.Attendance.Presence.{
  validate_photo_url, Context, Clock, Presence, ActionInput, Employee, employee_context,
  attendance_clock, assert_not_on_approved_leave, assert_not_on_public_holiday, resolve_presence,
  inside_radius, location_create,
}

pub record CheckInInput : Type 0 where
  pub action : ActionInput
  pub idempotency_key : ℕ
  pub photo_url : Option ℕ
  pub late_reason_type : Option ℕ
  pub late_reason_description : Option ℕ

abbrev pub is_of : ℕ → ℕ → Timesheet → Bool
is_of employee_id work_date t = (t.employee_id == employee_id) && (t.work_date == work_date)

-- A row that has one of the unique keys of a new timesheet.
abbrev pub is_duplicate : ℕ → ℕ → ℕ → Timesheet → Bool
is_duplicate employee_id work_date key t =
    is_of employee_id work_date t || (t.check_in_idempotency_key == key)

-- `findFirst({ where: { employeeId, isOpen: true } })`
abbrev pub is_open_of : ℕ → Timesheet → Bool
is_open_of employee_id t = (t.employee_id == employee_id) && t.is_open

-- A text that is there and not empty.
abbrev pub is_given : Option ℕ → Bool
is_given none = false
is_given (some text) = not (text == 0)

-- What the checks lead to: the timesheet that is there already, a new entry on one that its employee
-- closed, or a first entry.
pub data Admission : Type 0 where
  replayed : Timesheet → Admission
  reentry : Timesheet → Presence → Admission
  first_entry : Clock → Presence → Admission

-- The rules for the reason of being late.
unfoldable pub check_late_reason :
    (is_reentry is_late : Bool) → Option ℕ → Option ℕ → Result (Unit {0})
check_late_reason true is_late type description =
    throw_if (is_given type || is_given description) (app_error 422 "LATE_REASON_NOT_ALLOWED")
check_late_reason false true type description =
    throw_if (not (is_given type)) (app_error 422 "LATE_REASON_REQUIRED")
check_late_reason false false type description =
    throw_if (is_given type || is_given description) (app_error 422 "LATE_REASON_NOT_ALLOWED")

-- The checks on the timesheet of the day.
unfoldable pub admit_day : CheckInInput → Clock → Presence → Option Timesheet → Result Admission
admit_day input clock presence none =
    check_late_reason false clock.is_late input.late_reason_type input.late_reason_description
    >> ok (first_entry clock presence)
admit_day input clock presence (some t) =
    if t.is_open
    then ok (replayed t)
    else if can_re_check_in t.is_open t.check_out_source
    then (check_late_reason true clock.is_late input.late_reason_type input.late_reason_description
        >> ok (reentry t presence))
    else err (app_error 409 "DAY_ALREADY_CLOSED")

-- The checks that come before those on the timesheet of the day.
unfoldable pub check_presence :
    Platform → Context → CheckInInput → ℕ → Store → Result (Clock × Presence)
check_presence platform ctx input now db = do
  clock ← attendance_clock platform ctx now
  assert_not_on_approved_leave db.approved_leave ctx.employee.id clock.work_date
  assert_not_on_public_holiday platform ctx.employee.id clock.work_date
  presence ←
      resolve_presence platform input.action ctx.office.latitude ctx.office.longitude
        ctx.office.allowed_radius_meters ctx.office.maximum_accuracy_meters
        ctx.employee.organization_id now
  throw_if (not (inside_radius presence)) (app_error 422 "OUTSIDE_OFFICE_RADIUS")
  validate_photo_url platform ctx.employee.organization_id input.photo_url
  ok (clock, presence)

abbrev pub admit_today : Context → CheckInInput → Store → Clock × Presence → Result Admission
admit_today ctx input db (clock, presence) =
    admit_day input clock presence (find (is_of ctx.employee.id clock.work_date) db.timesheets)

unfoldable pub admit_new : Platform → Context → CheckInInput → ℕ → Store → Result Admission
admit_new platform ctx input now db =
    check_presence platform ctx input now db >>= λ checked. admit_today ctx input db checked

unfoldable pub admit : Platform → Context → CheckInInput → ℕ → Store → Result Admission
admit platform ctx input now db =
    elim (find (λ (t : Timesheet). t.check_in_idempotency_key == input.idempotency_key)
      db.timesheets) [
        | some t ↦
            throw_if (not (t.employee_id == ctx.employee.id))
              (app_error 409 "IDEMPOTENCY_KEY_CONFLICT")
            >> ok (replayed t)
        | none ↦ admit_new platform ctx input now db
      ]

-- The data of the update that opens a closed day again.
abbrev pub reopen_row : Timesheet → Timesheet → Timesheet
reopen_row today t = record t {
  actual_check_out = none;
  worked_minutes = 0;
  early_checkout_minutes = 0;
  overtime_minutes = 0;
  is_early_checkout = false;
  is_missing_checkout = false;
  is_open = true;
  status = if today.is_late then present_late else present_on_time;
  check_out_source = none;
  check_out_idempotency_key = none;
}

abbrev pub is_reopenable : ℕ → Timesheet → Bool
is_reopenable id t = (t.id == id) && can_re_check_in t.is_open t.check_out_source

abbrev pub new_timesheet : Context → CheckInInput → Clock → ℕ → ℕ → Timesheet
new_timesheet ctx input clock now id = record {
  id = id;
  employee_id = ctx.employee.id;
  office_id = ctx.office.id;
  schedule_id = ctx.schedule.id;
  work_date = clock.work_date;
  scheduled_check_in = clock.scheduled_in;
  scheduled_check_out = clock.scheduled_out;
  actual_check_in = now;
  actual_check_out = none;
  late_minutes = clock.late_minutes;
  early_checkout_minutes = 0;
  worked_minutes = 0;
  overtime_minutes = 0;
  status = if clock.is_late then present_late else present_on_time;
  is_open = true;
  is_late = clock.is_late;
  is_early_checkout = false;
  is_missing_checkout = false;
  check_out_source = none;
  check_in_idempotency_key = input.idempotency_key;
  check_out_idempotency_key = none;
  schedule_check_in_time = clock.rule.check_in_time;
  schedule_check_out_time = clock.rule.check_out_time;
  schedule_late_grace_minutes = ctx.schedule.late_grace_minutes;
  office_latitude = ctx.office.latitude;
  office_longitude = ctx.office.longitude;
  office_allowed_radius_meters = ctx.office.allowed_radius_meters;
  office_maximum_accuracy_meters = ctx.office.maximum_accuracy_meters;
  timezone = clock.zone;
}

abbrev pub add_late_reason : Context → CheckInInput → Clock → ℕ → ℕ → Store → Store
add_late_reason ctx input clock now id db =
    if clock.is_late
    then record db {
      late_reasons =
          db.late_reasons
          ++ record {
            timesheet_id = id;
            employee_id = ctx.employee.id;
            reason_type = get_or input.late_reason_type 0;
            reason_description = input.late_reason_description;
            submitted_at = now;
          }
            ∷ [];
    }
    else db

-- A second timesheet of an employee for a day breaks a unique key of the table, and so does a second
-- one with an idempotency key; the error handler (src/middleware/error-handler.ts) answers with 409.
unfoldable pub create_timesheet :
    Context → CheckInInput → Clock → Presence → ℕ → Store → Result Store
create_timesheet ctx input clock presence now db =
    let row = new_timesheet ctx input clock now db.next_id in
    if any (is_duplicate ctx.employee.id clock.work_date input.idempotency_key) db.timesheets
    then err (app_error 409 "DUPLICATE_RESOURCE")
    else ok (
        notify ctx.employee.user_id (if clock.is_late then check_in_late else check_in_success)
          row.id
          (add_late_reason ctx input clock now row.id (
            add_location
              (some (
                location_create row.id presence checking_in ctx.office.allowed_radius_meters now
                  input.photo_url))
              (record db { timesheets = db.timesheets ++ row ∷ []; next_id = db.next_id + 1 }))))

unfoldable pub reopen_timesheet :
    Context → CheckInInput → Timesheet → Presence → ℕ → Store → Result Store
reopen_timesheet ctx input today presence now db =
    if any (is_reopenable today.id) db.timesheets
    then ok (
        notify ctx.employee.user_id check_in_success today.id (
          add_location
            (some (
              location_create today.id presence checking_in ctx.office.allowed_radius_meters now
                input.photo_url))
            (record db {
              timesheets = update_where (is_reopenable today.id) (reopen_row today) db.timesheets;
            })))
    else err (app_error 409 "DAY_ALREADY_CLOSED")

-- The transaction. Other requests may have run since the checks read the tables.
unfoldable pub commit : Context → CheckInInput → ℕ → Admission → Store → Result Store
commit ctx input now (replayed t) db = ok db
commit ctx input now (reentry today presence) db =
    if any (is_open_of ctx.employee.id) db.timesheets
    then err (app_error 409 "ALREADY_CHECKED_IN")
    else reopen_timesheet ctx input today presence now db
commit ctx input now (first_entry clock presence) db =
    if any (is_open_of ctx.employee.id) db.timesheets
    then err (app_error 409 "ALREADY_CHECKED_IN")
    else create_timesheet ctx input clock presence now db

unfoldable pub check_in : Platform → List Employee → ℕ → CheckInInput → ℕ → Store → Result Store
check_in platform employees user_id input now db = do
  ctx ← employee_context employees user_id
  admission ← admit platform ctx input now db
  commit ctx input now admission db
