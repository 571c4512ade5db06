-- ===== src/Attendance/Corrections/Ask.antt =====
-- `createRequests` of src/modules/attendance-correctness/attendance-correctness.service.ts. It runs in
-- no transaction: when it fails, the rows of the days before stay.
use workforce_app_backend.Common.{
  ℕ, ◌+◌, Bool, ◌&&◌, Option, none, some, List, [], ◌∷◌, ◌++◌, ◌==◌, leb, any, find, filter, map,
  if◌then◌else◌, nonempty_text, is_empty,
}
use workforce_app_backend.Common.Result.{Result, ok, err, app_error, throw_if, ◌>>=◌, ◌>>◌}
use workforce_app_backend.Leave.DayFraction.{LeaveDaySession, full, leave_sessions_conflict}
use workforce_app_backend.Attendance.{Timesheet, Platform, Store}
use workforce_app_backend.Attendance.Presence.{Context, employee_context}
use workforce_app_backend.Attendance.Corrections.{
  pending, CorrectnessRequest, LiveLeave, submitted, Tables, DayInput, is_pending, is_live, zone_of,
  schedule_bounds, normalize_day_inputs, org_admin_user_ids,
}

abbrev rows_on : ℕ → List (ℕ × LeaveDaySession) → List LeaveDaySession
rows_on day rows =
    map (λ (d : ℕ × LeaveDaySession). d.1) (filter (λ (d : ℕ × LeaveDaySession). d.0 == day) rows)

-- The rows of the day, or the whole day where the leave has none for it.
abbrev pub or_full : List LeaveDaySession → List LeaveDaySession
or_full [] = full ∷ []
or_full (s ∷ sessions) = s ∷ sessions

unfoldable pub leave_sessions_for_date : ℕ → ℕ → List LiveLeave → List LeaveDaySession
leave_sessions_for_date employee_id day [] = []
leave_sessions_for_date employee_id day (l ∷ leaves) =
    (if (l.employee_id == employee_id) && leb l.start_date day && leb day l.end_date
      then or_full (rows_on day l.days)
      else [])
    ++ leave_sessions_for_date employee_id day leaves

abbrev pub is_existing : ℕ → ℕ → CorrectnessRequest → Bool
is_existing employee_id day r =
    r.employee_id == employee_id && r.work_date == day && is_live r.status

unfoldable pub check_existing : LeaveDaySession → List CorrectnessRequest → Result (Unit {0})
check_existing session [] = ok tt
check_existing session (r ∷ rows) =
    if leave_sessions_conflict r.session session
    then err (
        if is_pending r.status
        then app_error 409 "REQUEST_ALREADY_PENDING"
        else app_error 409 "ALREADY_APPROVED")
    else check_existing session rows

abbrev is_of : ℕ → ℕ → Timesheet → Bool
is_of employee_id day t = t.employee_id == employee_id && t.work_date == day

abbrev id_of : Option Timesheet → Option ℕ
id_of none = none
id_of (some t) = some t.id

-- The note is trimmed, and none where that leaves nothing.
abbrev pub trimmed_note : Platform → Option ℕ → Option ℕ
trimmed_note platform none = none
trimmed_note platform (some remark) = nonempty_text (some (platform.trim remark))

abbrev pub new_row :
    Platform → (submission : ℕ) → Context → Option ℕ → DayInput → Tables → CorrectnessRequest
new_row platform submission ctx remark day db = record {
  id = db.attendance.next_id;
  submission_id = some submission;
  organization_id = ctx.employee.organization_id;
  employee_id = ctx.employee.id;
  work_date = day.date;
  session = day.session;
  timesheet_id = id_of (find (is_of ctx.employee.id day.date) db.attendance.timesheets);
  status = pending;
  employee_note = trimmed_note platform remark;
  admin_note = none;
  reviewed_by = none;
  reviewed_at = none;
}

abbrev pub take_id : Store → Store
take_id s = record s { next_id = s.next_id + 1 }

module _ (platform : Platform) (weekday : ℕ → ℕ) where
  unfoldable pub check_free : Context → DayInput → Tables → Result (Unit {0})
  unfolding leave_sessions_for_date check_existing
  check_free ctx day db =
      throw_if
        (any (λ s. leave_sessions_conflict s day.session)
          (leave_sessions_for_date ctx.employee.id day.date db.live_leave))
        (app_error 409 "ON_LEAVE")
      >> throw_if (platform.is_holiday ctx.employee.id day.date) (app_error 409 "ON_PUBLIC_HOLIDAY")
      >> check_existing day.session (filter (is_existing ctx.employee.id day.date) db.requests)

  -- The checks of one day.
  unfoldable pub check_day : (today : ℕ) → Context → DayInput → Tables → Result (Unit {0})
  unfolding check_free
  check_day today ctx day db = do
    throw_if (leb today day.date) (app_error 422 "FUTURE_DATE_NOT_ALLOWED")
    bounds ←
        schedule_bounds platform weekday ctx.schedule (zone_of ctx.office ctx.schedule) day.date
    check_free ctx day db

  unfoldable pub add_row : (submission : ℕ) → Context → Option ℕ → DayInput → Tables → Tables
  add_row submission ctx remark day db = record db {
    attendance = take_id db.attendance;
    requests = db.requests ++ new_row platform submission ctx remark day db ∷ [];
  }

  -- The loop over the days: the tables when it ends, and whether it failed.
  unfoldable pub create_rows :
      (today submission : ℕ)
      → Context
      → Option ℕ
      → List DayInput
      → Tables
      → Tables × Result (Unit {0})
  unfolding check_day add_row
  create_rows today submission ctx remark [] db = (db, ok tt)
  create_rows today submission ctx remark (day ∷ days) db = elim (check_day today ctx day db) [
    | err thrown ↦ (db, err thrown)
    | ok passed ↦
        create_rows today submission ctx remark days (add_row submission ctx remark day db)
  ]

  abbrev pub notify_admins : ℕ → ℕ → Tables → Tables
  notify_admins submission organization_id db = record db {
    notices =
        db.notices
        ++ map (λ user. record { user_id = user; type = submitted; related_id = submission })
            (org_admin_user_ids db organization_id);
  }

  abbrev pub notify_created : ℕ → ℕ → Tables × Result (Unit {0}) → Tables × Result (Unit {0})
  notify_created submission organization_id (db, err thrown) = (db, err thrown)
  notify_created submission organization_id (db, ok done) =
      (notify_admins submission organization_id db, ok done)

  unfoldable pub create_for :
      (now : ℕ) → Context → List DayInput → Option ℕ → Tables → Tables × Result (Unit {0})
  unfolding create_rows
  create_for now ctx days remark db =
      let today = (platform.local_time now (zone_of ctx.office ctx.schedule)).work_date in
      let submission = db.attendance.next_id in
      let fresh = record db { attendance = take_id db.attendance } in
      if is_empty days
      then (db, err (app_error 422 "DATES_REQUIRED"))
      else notify_created submission ctx.employee.organization_id
          (create_rows today submission ctx remark days fresh)

  unfoldable pub create_requests :
      (now user : ℕ)
      → (dates : List ℕ) → (days : List DayInput) → Option ℕ
      → Tables
      → Tables × Result (Unit {0})
  unfolding create_for
  create_requests now user dates days remark db = elim (employee_context db.employees user) [
    | err thrown ↦ (db, err thrown)
    | ok ctx ↦ create_for now ctx (normalize_day_inputs dates days) remark db
  ]
