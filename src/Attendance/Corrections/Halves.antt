-- ===== src/Attendance/Corrections/Halves.antt =====
-- The halves of a day (`sessionActuals` of
-- src/modules/attendance-correctness/attendance-correctness.service.ts), and what the timesheet holds
-- after the corrections of both.
use workforce_app_backend.Common.{ℕ, ◌+◌, ◌-◌, ◌≤◌, ◌≡◌, refl, some, arith}
use workforce_app_backend.Common.Result.{ok, app_error, or_throw, or_throw-eq-ok, first_step-eq-ok}
use workforce_app_backend.Common.Table.{find_by, update_by, find_by-update_by}
use workforce_app_backend.Leave.DayFraction.{LeaveDaySession, full, morning, afternoon}
use workforce_app_backend.Attendance.{Timesheet, timesheet_id}
use workforce_app_backend.Attendance.Corrections.{Tables, session_actuals}
use workforce_app_backend.Attendance.Corrections.Review.{apply_scheduled_correctness, corrected_row}

-- For a schedule that ends after it starts, the morning is from its start to where the afternoon
-- begins, and the afternoon from there to its end; the afternoon is as long as the morning, or a
-- millisecond longer, and has as many minutes, or one more. Their minutes together are those of the
-- whole day, or one less for the rounding.
pub session_actuals_bounds :
    (start stop : ℕ)
    → start ≤ stop
    → let am = session_actuals start stop morning in
      let pm = session_actuals start stop afternoon in
      let day = session_actuals start stop full in
      (am.check_in ≡ start)
      × (am.check_out ≡ pm.check_in)
      × (pm.check_out ≡ stop)
      × (am.check_out - am.check_in ≤ pm.check_out - pm.check_in)
      × (pm.check_out - pm.check_in ≤ am.check_out - am.check_in + 1)
      × (am.worked_minutes ≤ pm.worked_minutes)
      × (pm.worked_minutes ≤ am.worked_minutes + 1)
      × (am.worked_minutes + pm.worked_minutes ≤ day.worked_minutes)
      × (day.worked_minutes ≤ am.worked_minutes + pm.worked_minutes + 1)
unfolding session_actuals
session_actuals_bounds start stop h =
    (refl, refl, refl, omega arith, omega arith, omega arith, omega arith, omega arith, omega arith)

applied-timesheet :
    (id : ℕ) (session : LeaveDaySession) (actor : ℕ) (db : Tables) {after : Tables} {t : ℕ}
    → apply_scheduled_correctness id session actor db ≡ ok (after, t)
    → (row : Timesheet) × (find_by timesheet_id id db.attendance.timesheets ≡ some row)
      × (find_by timesheet_id id after.attendance.timesheets
          ≡ some (
              corrected_row
                (session_actuals row.scheduled_check_in row.scheduled_check_out session)
                row))
unfolding apply_scheduled_correctness
applied-timesheet id session actor db {after} {t} e =
    let rows = db.attendance.timesheets in
    let (row, found, e1) =
      first_step-eq-ok
        (or_throw (find_by timesheet_id id rows) (app_error 404 "TIMESHEET_NOT_FOUND")) _
        {value = (after, t)} e in
    let there = or_throw-eq-ok _ (app_error 404 "TIMESHEET_NOT_FOUND") found in
    let actuals = session_actuals row.scheduled_check_in row.scheduled_check_out session in
    let updated = find_by-update_by timesheet_id id id (corrected_row actuals) rows (λ t. refl) in
    let same : after.attendance.timesheets
        ≡ update_by timesheet_id id (corrected_row actuals) rows =
      ground arith in
    (row, there, rw same (ground (arith, updated, there)))

-- A timesheet that is corrected for one session and then for another one is as the second correction
-- alone would leave it: nothing of the first one stays.
pub apply-apply-last :
    (id : ℕ) (first second : LeaveDaySession) (actor other : ℕ) (db : Tables) {mid after : Tables}
    {t u : ℕ}
    → apply_scheduled_correctness id first actor db ≡ ok (mid, t)
    → apply_scheduled_correctness id second other mid ≡ ok (after, u)
    → (row : Timesheet) × (find_by timesheet_id id db.attendance.timesheets ≡ some row)
      × (find_by timesheet_id id after.attendance.timesheets
          ≡ some (
              corrected_row
                (session_actuals row.scheduled_check_in row.scheduled_check_out second)
                row))
apply-apply-last id first second actor other db {mid} {after} {t} {u} e1 e2 =
    let (row, there, once) = applied-timesheet id first actor db {t = t} e1 in
    let (again, found, twice) = applied-timesheet id second other mid {t = u} e2 in
    let changed =
      corrected_row (session_actuals row.scheduled_check_in row.scheduled_check_out first) row in
    let same : again ≡ changed = ground arith in (row, there, rw same at twice)
