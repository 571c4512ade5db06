-- ===== src/Attendance/CheckOut.antt =====
-- `attendanceService.checkOut` of src/modules/attendance/attendance.service.ts and the automatic
-- checkout of src/modules/attendance/auto-checkout.service.ts.
pub mod Automatic
pub mod Single
use workforce_app_backend.Common.{
  ℕ, Bool, true, false, not, ◌&&◌, Option, none, some, List, [], ◌∷◌, ◌==◌, if◌then◌else◌, find,
  filter,
}
use workforce_app_backend.Common.Result.{
  Result, ok, err, app_error, throw_if, or_throw, ◌>>=◌, ◌>>◌,
}
use workforce_app_backend.Attendance.{
  by_employee, by_system, Timesheet, checking_out, Store, LocalTime, Platform,
}
use workforce_app_backend.Attendance.Metrics.{
  resolve_system_checkout_at, is_eligible_for_auto_checkout,
}
use workforce_app_backend.Attendance.Close.{has_check_out_key, CloseInput, close_open_timesheet}
use workforce_app_backend.Attendance.Presence.{
  validate_photo_url, Context, Presence, ActionInput, Employee, employee_context, resolve_presence,
  inside_radius, location_create,
}
use workforce_app_backend.Attendance.CheckIn.{is_open_of}

pub record CheckOutInput : Type 0 where
  pub action : ActionInput
  pub idempotency_key : ℕ
  pub work_description : Option ℕ
  pub photo_url : Option ℕ

-- The checks of `checkOut` that follow the idempotency key: the open timesheet and the presence.
unfoldable pub check_closing :
    Platform → Context → CheckOutInput → ℕ → Store → Result (Timesheet × Presence)
check_closing platform ctx input now db = do
  t ← or_throw (find (is_open_of ctx.employee.id) db.timesheets) (app_error 409 "NO_OPEN_TIMESHEET")
  presence ←
      resolve_presence platform input.action t.office_latitude t.office_longitude
        t.office_allowed_radius_meters t.office_maximum_accuracy_meters ctx.employee.organization_id
        now
  throw_if (not (inside_radius presence)) (app_error 422 "OUTSIDE_OFFICE_RADIUS")
  validate_photo_url platform ctx.employee.organization_id input.photo_url
  ok (t, presence)

abbrev pub own_input : Context → CheckOutInput → ℕ → Timesheet × Presence → CloseInput
own_input ctx input now (t, presence) = record {
  opened = t;
  checkout_at = now;
  source = by_employee;
  user_id = ctx.employee.user_id;
  idempotency_key = input.idempotency_key;
  checkout_location = some (
      location_create t.id presence checking_out t.office_allowed_radius_meters now
        input.photo_url);
  work_description = input.work_description;
}

unfoldable pub close_own : Platform → Context → CheckOutInput → ℕ → Store → Result Store
close_own platform ctx input now db = check_closing platform ctx input now db >>= λ checked.
    close_open_timesheet platform (own_input ctx input now checked) db

-- What follows the employee's context.
unfoldable pub check_out_as : Platform → Context → CheckOutInput → ℕ → Store → Result Store
check_out_as platform ctx input now db =
    elim (find (has_check_out_key input.idempotency_key) db.timesheets) [
      | some t ↦
          throw_if (not (t.employee_id == ctx.employee.id))
            (app_error 409 "IDEMPOTENCY_KEY_CONFLICT")
          >> ok db
      | none ↦ close_own platform ctx input now db
    ]

unfoldable pub check_out : Platform → List Employee → ℕ → CheckOutInput → ℕ → Store → Result Store
check_out platform employees user_id input now db =
    employee_context employees user_id >>= λ ctx. check_out_as platform ctx input now db

-- What the automatic checkout reads with a timesheet; `zone` is that of the timesheet, else of the
-- office, else "UTC", and `key` is the text "system-auto:" with the identifier.
pub record AutoRow : Type 0 where
  pub timesheet : Timesheet
  pub user_id : ℕ
  pub enabled : Bool
  pub auto_checkout_time : ℕ
  pub zone : ℕ
  pub key : ℕ

-- `resolveAutoCheckoutInstant`
unfoldable pub resolve_auto_checkout_instant : Platform → (zone time now : ℕ) → Option ℕ
resolve_auto_checkout_instant platform zone time now =
    platform.scheduled_instant (platform.local_time now zone).work_date time zone

abbrev pub keep_on_error : Store → Result Store → Store
keep_on_error db (ok db') = db'
keep_on_error db (err e) = db

abbrev pub auto_input : AutoRow → ℕ → CloseInput
auto_input row auto_at = record {
  opened = row.timesheet;
  checkout_at = resolve_system_checkout_at row.timesheet.scheduled_check_out auto_at;
  source = by_system;
  user_id = row.user_id;
  idempotency_key = row.key;
  checkout_location = none;
  work_description = none;
}

-- One round of the loop; an instant that is not valid stops the run.
unfoldable pub auto_close_row : Platform → ℕ → AutoRow → Store → Result Store
auto_close_row platform now row db =
    if not row.enabled
    then ok db
    else elim (resolve_auto_checkout_instant platform row.zone row.auto_checkout_time now) [
      | none ↦ err (app_error 500 "INVALID_SCHEDULE_TIME")
      | some auto_at ↦
          if is_eligible_for_auto_checkout row.timesheet.actual_check_in auto_at now
          then ok (keep_on_error db (close_open_timesheet platform (auto_input row auto_at) db))
          else ok db
    ]

-- An error that is not caught ends the loop, with what was closed so far.
abbrev pub or_stop : Store → (Store → Store) → Result Store → Store
or_stop db rest (err e) = db
or_stop db rest (ok db') = rest db'

-- The loop over the rows as they were read.
unfoldable pub auto_close_rows : Platform → ℕ → List AutoRow → Store → Store
auto_close_rows platform now [] db = db
auto_close_rows platform now (row ∷ rows) db =
    or_stop db (auto_close_rows platform now rows) (auto_close_row platform now row db)
