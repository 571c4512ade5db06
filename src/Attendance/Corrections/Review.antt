-- ===== src/Attendance/Corrections/Review.antt =====
-- `approve` and `reject` of src/modules/attendance-correctness/attendance-correctness.service.ts.
pub mod Submission
use workforce_app_backend.Common.{
  ℕ, ◌+◌, ◌*◌, Bool, true, false, not, ◌&&◌, Option, none, some, List, [], ◌∷◌, ◌++◌, ◌==◌, find,
  filter, if◌then◌else◌, is_empty,
}
use workforce_app_backend.Common.Result.{
  Result, ok, err, app_error, or_throw, throw_if, ◌>>=◌, ◌>>◌,
}
use workforce_app_backend.Common.Table.{find_by, update_by, order_by}
use workforce_app_backend.Shared.OfficeScope.{OfficeScope, assert_office_in_scope}
use workforce_app_backend.Leave.DayFraction.{LeaveDaySession}
use workforce_app_backend.Attendance.{Timesheet, completed_on_time, Platform, Store, timesheet_id}
use workforce_app_backend.Attendance.Presence.{Employee, Office, Schedule}
use workforce_app_backend.Attendance.Corrections.{
  CorrectnessStatus, approved, rejected, CorrectnessRequest, NoticeType, was_approved, was_rejected,
  Tables, correctness_id, is_pending, zone_of, Bounds, schedule_bounds, Actuals, session_actuals,
  session_rank,
}
use workforce_app_backend.Attendance.Corrections.Ask.{trimmed_note}

abbrev pub corrected_row : Actuals → Timesheet → Timesheet
corrected_row actuals t = record t {
  actual_check_in = actuals.check_in;
  actual_check_out = some actuals.check_out;
  late_minutes = 0;
  worked_minutes = actuals.worked_minutes;
  early_checkout_minutes = 0;
  overtime_minutes = 0;
  is_late = false;
  is_early_checkout = false;
  is_missing_checkout = false;
  is_open = false;
  status = completed_on_time;
}

abbrev pub log_correction : ℕ → ℕ → LeaveDaySession → Bool → Tables → Tables
log_correction timesheet actor session is_new db = record db {
  corrections =
      db.corrections
      ++ record { timesheet_id = timesheet; actor = actor; session = session; is_new = is_new }
        ∷ [];
}

abbrev pub with_timesheets : List Timesheet → Tables → Tables
with_timesheets timesheets db = record db {
  attendance = record db.attendance { timesheets = timesheets };
}

-- The tables and the identifier of the timesheet.
unfoldable pub apply_scheduled_correctness :
    ℕ → LeaveDaySession → (actor : ℕ) → Tables → Result (Tables × ℕ)
unfolding session_actuals
apply_scheduled_correctness id session actor db = do
  current ←
      or_throw (find_by timesheet_id id db.attendance.timesheets)
        (app_error 404 "TIMESHEET_NOT_FOUND")
  let actuals = session_actuals current.scheduled_check_in current.scheduled_check_out session in
      ok (
        log_correction id actor session false (
            with_timesheets
              (update_by timesheet_id id (corrected_row actuals) db.attendance.timesheets) db),
        id,
      )

abbrev pub new_timesheet :
    ℕ → Employee → Office → Schedule → (work_date : ℕ) → Bounds → Actuals → Timesheet
new_timesheet id employee office schedule work_date bounds actuals = record {
  id = id;
  employee_id = employee.id;
  office_id = office.id;
  schedule_id = schedule.id;
  work_date = work_date;
  scheduled_check_in = bounds.scheduled_in;
  scheduled_check_out = bounds.scheduled_out;
  actual_check_in = actuals.check_in;
  actual_check_out = some actuals.check_out;
  late_minutes = 0;
  early_checkout_minutes = 0;
  worked_minutes = actuals.worked_minutes;
  overtime_minutes = 0;
  status = completed_on_time;
  is_open = false;
  is_late = false;
  is_early_checkout = false;
  is_missing_checkout = false;
  check_out_source = none;
  check_in_idempotency_key = id + 1;
  check_out_idempotency_key = some (id + 2);
  schedule_check_in_time = bounds.rule.check_in_time;
  schedule_check_out_time = bounds.rule.check_out_time;
  schedule_late_grace_minutes = schedule.late_grace_minutes;
  office_latitude = office.latitude;
  office_longitude = office.longitude;
  office_allowed_radius_meters = office.allowed_radius_meters;
  office_maximum_accuracy_meters = office.maximum_accuracy_meters;
  timezone = bounds.zone;
}

abbrev pub with_new_timesheet : Timesheet → Tables → Tables
with_new_timesheet t db = record db {
  attendance = record db.attendance {
    timesheets = db.attendance.timesheets ++ t ∷ [];
    next_id = db.attendance.next_id + 3;
  };
}

module _ (platform : Platform) (weekday : ℕ → ℕ) where
  unfoldable pub create_timesheet :
      Employee
      → Office
      → Schedule
      → (work_date : ℕ) → LeaveDaySession
      → (actor : ℕ) → Tables
      → Bounds
      → Tables × ℕ
  unfolding session_actuals
  create_timesheet employee office schedule work_date session actor db bounds =
      let id = db.attendance.next_id in
      let actuals = session_actuals bounds.scheduled_in bounds.scheduled_out session in
      (
        log_correction id actor session true (
            with_new_timesheet (new_timesheet id employee office schedule work_date bounds actuals)
              db),
        id,
      )

  abbrev pub timesheet_of : ℕ → ℕ → Store → Option Timesheet
  timesheet_of employee_id work_date store =
      find (λ (t : Timesheet). t.employee_id == employee_id && t.work_date == work_date)
        store.timesheets

  -- A timesheet of the day is corrected, if there is one.
  unfoldable pub correct_or_create :
      Employee
      → Office
      → Schedule
      → (work_date : ℕ) → LeaveDaySession
      → (actor : ℕ) → Tables
      → Bounds
      → Result (Tables × ℕ)
  unfolding apply_scheduled_correctness create_timesheet
  correct_or_create employee office schedule work_date session actor db bounds =
      elim (timesheet_of employee.id work_date db.attendance) [
        | some existing ↦ apply_scheduled_correctness existing.id session actor db
        | none ↦ ok (create_timesheet employee office schedule work_date session actor db bounds)
      ]

  unfoldable pub create_by_schedule :
      Employee
      → (work_date : ℕ) → LeaveDaySession
      → (actor : ℕ) → Tables
      → Office
      → Schedule
      → Result (Tables × ℕ)
  unfolding correct_or_create
  create_by_schedule employee work_date session actor db office schedule = do
    bounds ← schedule_bounds platform weekday schedule (zone_of office schedule) work_date
    correct_or_create employee office schedule work_date session actor db bounds

  -- An employee without an office or a schedule makes it fail on the missing value.
  unfoldable pub create_scheduled_timesheet :
      Employee → (work_date : ℕ) → LeaveDaySession → (actor : ℕ) → Tables → Result (Tables × ℕ)
  unfolding create_by_schedule
  create_scheduled_timesheet employee work_date session actor db = do
    office ← or_throw employee.office (app_error 500 "INTERNAL_ERROR")
    schedule ← or_throw employee.schedule (app_error 500 "INTERNAL_ERROR")
    create_by_schedule employee work_date session actor db office schedule

  abbrev pub office_id_of : Employee → Option ℕ
  office_id_of e = elim e.office [ none ↦ none | some office ↦ some office.id ]

  unfoldable pub check_review : OfficeScope → CorrectnessRequest → Employee → Result (Unit {0})
  check_review scope r e =
      assert_office_in_scope scope (office_id_of e)
      >> throw_if (not (is_pending r.status)) (app_error 409 "REQUEST_NOT_PENDING")

  -- The pending request, with its employee, whom the foreign key says is there.
  unfoldable pub load_request :
      ℕ → OfficeScope → ℕ → Tables → Result (CorrectnessRequest × Employee)
  unfolding check_review
  load_request organization_id scope id db = do
    r ← or_throw (find_by correctness_id id db.requests) (app_error 404 "REQUEST_NOT_FOUND")
    throw_if (not (r.organization_id == organization_id)) (app_error 404 "REQUEST_NOT_FOUND")
    e ←
        or_throw (find (λ (e : Employee). e.id == r.employee_id) db.employees)
          (app_error 500 "INTERNAL_ERROR")
    check_review scope r e >> ok (r, e)

  unfoldable pub correct :
      (actor : ℕ) → CorrectnessRequest → Employee → Tables → Result (Tables × ℕ)
  unfolding apply_scheduled_correctness create_scheduled_timesheet
  correct actor r e db = elim r.timesheet_id [
    | some timesheet ↦ apply_scheduled_correctness timesheet r.session actor db
    | none ↦ create_scheduled_timesheet e r.work_date r.session actor db
  ]

  abbrev pub review_row :
      CorrectnessStatus
      → Option ℕ
      → (actor now : ℕ) → Option ℕ
      → CorrectnessRequest
      → CorrectnessRequest
  review_row status remark actor now timesheet r = record r {
    status = status;
    admin_note = trimmed_note platform remark;
    reviewed_by = some actor;
    reviewed_at = some now;
    timesheet_id = timesheet;
  }

  abbrev pub set_review :
      ℕ → CorrectnessStatus → Option ℕ → (actor now : ℕ) → Option ℕ → Tables → Tables
  set_review id status remark actor now timesheet db = record db {
    requests =
        update_by correctness_id id (review_row status remark actor now timesheet) db.requests;
  }

  abbrev pub notify : Bool → NoticeType → ℕ → ℕ → Tables → Tables
  notify false type user related db = db
  notify true type user related db = record db {
    notices = db.notices ++ record { user_id = user; type = type; related_id = related } ∷ [];
  }

  unfoldable pub approve :
      (now organization_id id actor : ℕ)
      → OfficeScope
      → (remark : Option ℕ) → (should_notify : Bool) → Tables
      → Result Tables
  unfolding load_request correct
  approve now organization_id id actor scope remark should_notify db = do
    (r, e) ← load_request organization_id scope id db
    (corrected, timesheet) ← correct actor r e db
    ok (
        notify should_notify was_approved e.user_id id
          (set_review id approved remark actor now (some timesheet) corrected))

  unfoldable pub reject :
      (now organization_id id actor : ℕ)
      → OfficeScope
      → (remark : Option ℕ) → (should_notify : Bool) → Tables
      → Result Tables
  unfolding load_request
  reject now organization_id id actor scope remark should_notify db = do
    (r, e) ← load_request organization_id scope id db
    ok (
        notify should_notify was_rejected e.user_id id
          (set_review id rejected remark actor now r.timesheet_id db))
