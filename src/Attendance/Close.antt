-- ===== src/Attendance/Close.antt =====
-- `closeOpenTimesheet` of src/modules/attendance/timesheet-close.ts and the check for copied
-- worksheets of src/modules/history/worksheet-duplicate.ts. The messages that follow the
-- transaction are left out.
pub mod Laws
use workforce_app_backend.Common.{
  ℕ, ◌+◌, ◌-◌, Bool, true, false, not, ◌&&◌, ◌||◌, Option, none, some, List, [], ◌∷◌, ◌++◌, ◌==◌,
  ltb, leb, if◌then◌else◌, any, filter, update_where, find,
}
use workforce_app_backend.Common.Result.{
  Result, ok, err, app_error, throw_if, or_throw, ◌>>=◌, ◌>>◌,
}
use workforce_app_backend.Attendance.{
  CheckOutSource, by_employee, by_system, by_admin, AttendanceStatus, completed_on_time,
  completed_late, missing_checkout, Timesheet, AttendanceLocation, Worksheet, NotificationType,
  check_out_success, check_out_auto, Notification, Store, Platform,
}
use workforce_app_backend.Attendance.Metrics.{Metrics, compute_checkout_metrics}

abbrev pub worksheet_copy_lookback_days : ℕ
worksheet_copy_lookback_days = 2

unfoldable pub normalize_worksheet_description : Platform → ℕ → ℕ
normalize_worksheet_description platform text =
    platform.to_lower_case (platform.collapse_space (platform.trim text))

unfoldable pub is_exact_worksheet_copy : Platform → (candidate previous : ℕ) → Bool
is_exact_worksheet_copy platform candidate previous =
    let a = normalize_worksheet_description platform candidate in
    let b = normalize_worksheet_description platform previous in
    not (a == 0) && not (b == 0) && (a == b)

-- `excludeWorksheetId ? { id: { not: excludeWorksheetId } } : {}`
abbrev pub is_excluded : Option ℕ → Worksheet → Bool
is_excluded none w = false
is_excluded (some id) w = w.id == id

unfoldable pub is_copied :
    Platform → List Worksheet → (employee_id work_date description : ℕ) → Option ℕ → Bool
is_copied platform worksheets employee_id work_date description exclude =
    any (λ w. is_exact_worksheet_copy platform description w.work_description)
      (filter
        (λ w.
          (w.employee_id == employee_id)
          && leb (work_date - worksheet_copy_lookback_days) w.work_date
          && ltb w.work_date work_date
          && not (is_excluded exclude w))
        worksheets)

unfoldable pub assert_worksheet_not_copied :
    Platform
    → List Worksheet
    → (employee_id work_date description : ℕ) → Option ℕ
    → Result (Unit {0})
assert_worksheet_not_copied platform worksheets employee_id work_date description exclude =
    throw_if
      (not (platform.trim description == 0)
        && is_copied platform worksheets employee_id work_date (platform.trim description) exclude)
      (app_error 409 "WORKSHEET_COPIED")

-- The status and the flag that a timesheet gets when it is closed.
abbrev pub is_system : CheckOutSource → Bool
is_system by_system = true
is_system _ = false

abbrev pub closed_missing : CheckOutSource → Timesheet → Metrics → Bool
closed_missing source opened metrics =
    is_system source || opened.is_missing_checkout || metrics.is_missing_checkout

abbrev pub closed_status : CheckOutSource → Timesheet → Metrics → AttendanceStatus
closed_status source opened metrics =
    if closed_missing source opened metrics
    then missing_checkout
    else if opened.is_late
    then completed_late
    else completed_on_time

abbrev pub has_check_out_key : ℕ → Timesheet → Bool
has_check_out_key key t = elim t.check_out_idempotency_key [ none ↦ false | some k ↦ k == key ]

-- The data of the update.
abbrev pub close_row : CheckOutSource → ℕ → ℕ → Timesheet → Metrics → Timesheet → Timesheet
close_row source checkout_at key opened metrics t = record t {
  actual_check_out = some checkout_at;
  worked_minutes = metrics.worked_minutes;
  early_checkout_minutes = metrics.early_checkout_minutes;
  overtime_minutes = metrics.overtime_minutes;
  is_early_checkout = metrics.is_early_checkout;
  is_missing_checkout = closed_missing source opened metrics;
  is_open = false;
  status = closed_status source opened metrics;
  check_out_source = some source;
  check_out_idempotency_key = some key;
}

abbrev pub is_open_row : ℕ → Timesheet → Bool
is_open_row id t = (t.id == id) && t.is_open

abbrev pub worksheet_id_of : Option Worksheet → Option ℕ
worksheet_id_of none = none
worksheet_id_of (some w) = some w.id

-- The update of the worksheet that is there, or a new one.
unfoldable pub write_worksheet : Timesheet → ℕ → ℕ → Option Worksheet → Store → Store
write_worksheet opened description submitted_at (some existing) db = record db {
  worksheets =
      update_where (λ w. w.id == existing.id)
        (λ w. record w { work_description = description; submitted_at = submitted_at })
        db.worksheets;
}
write_worksheet opened description submitted_at none db = record db {
  worksheets =
      db.worksheets
      ++ record {
        id = db.next_id;
        timesheet_id = opened.id;
        employee_id = opened.employee_id;
        work_date = opened.work_date;
        work_description = description;
        submitted_at = submitted_at;
      }
        ∷ [];
  next_id = db.next_id + 1;
}

-- `if (createWorksheet && workDescription) { … }`, on the trimmed description.
unfoldable pub submit_worksheet : Platform → Timesheet → ℕ → ℕ → Store → Result Store
submit_worksheet platform opened submitted_at description db =
    if description == 0
    then ok db
    else let existing = find (λ (w : Worksheet). w.timesheet_id == opened.id) db.worksheets in
      assert_worksheet_not_copied platform db.worksheets opened.employee_id opened.work_date
        description (worksheet_id_of existing)
      >> ok (write_worksheet opened description submitted_at existing db)

abbrev pub trimmed : Platform → Option ℕ → ℕ
trimmed platform none = 0
trimmed platform (some text) = platform.trim text

abbrev pub add_location : Option AttendanceLocation → Store → Store
add_location none db = db
add_location (some l) db = record db { locations = db.locations ++ l ∷ [] }

abbrev pub notify : ℕ → NotificationType → ℕ → Store → Store
notify user_id type id db = record db {
  notifications =
      db.notifications ++ record { user_id = user_id; type = type; related_entity_id = id } ∷ [];
}

pub record CloseInput : Type 0 where
  pub opened : Timesheet
  pub checkout_at : ℕ
  pub source : CheckOutSource
  pub user_id : ℕ
  pub idempotency_key : ℕ
  pub checkout_location : Option AttendanceLocation
  pub work_description : Option ℕ

-- The timesheets after the update.
unfoldable pub closed_timesheets : Platform → CloseInput → List Timesheet → List Timesheet
closed_timesheets platform input timesheets =
    update_where (is_open_row input.opened.id)
      (close_row input.source input.checkout_at input.idempotency_key input.opened
        (compute_checkout_metrics platform input.opened input.checkout_at))
      timesheets

-- What follows the update: the location, the worksheet and the notification.
unfoldable pub finish_close : Platform → CloseInput → Store → Result Store
finish_close platform input db =
    submit_worksheet platform input.opened input.checkout_at
      (trimmed platform input.work_description) (add_location input.checkout_location db)
    >>= λ done. ok (
        notify input.user_id (if is_system input.source then check_out_auto else check_out_success)
          input.opened.id done)

-- The key of a checkout is unique in the table; the error handler (src/middleware/error-handler.ts)
-- answers a duplicate with 409.
unfoldable pub close_open_timesheet : Platform → CloseInput → Store → Result Store
close_open_timesheet platform input db =
    if any (is_open_row input.opened.id) db.timesheets
    then if any (has_check_out_key input.idempotency_key) db.timesheets
      then err (app_error 409 "DUPLICATE_RESOURCE")
      else finish_close platform input
          (record db { timesheets = closed_timesheets platform input db.timesheets })
    else err (app_error 409 "TIMESHEET_ALREADY_CLOSED")
