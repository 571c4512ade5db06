-- ===== src/Leave/Requests.antt =====
-- Requests for leave: src/modules/leave/leave.service.ts. The tables and the checks. The rows of the
-- requests, and what annual leave reads, are those of Leave/Annual; the reason of a request, which the
-- code only stores, is left out.
pub mod Service
pub mod Apart
pub mod Life
pub mod Settled
mod Tests
use Prim.Native.String.{String}
use workforce_app_backend.Common.{
  ℕ, Bool, true, false, not, ◌&&◌, ◌||◌, Option, none, some, List, [], ◌∷◌, ◌++◌, ◌==◌, leb, ltb,
  any, all, find, filter, map, if◌then◌else◌, is_empty, get_last?,
}
use workforce_app_backend.Common.Result.{
  Result, ok, err, app_error, or_throw, throw_if, ◌>>=◌, ◌>>◌,
}
use workforce_app_backend.Common.Table.{find_by}
use workforce_app_backend.Calendar.{Date, day_number, before, date_eq}
use workforce_app_backend.Leave.DayFraction.{
  ScheduleForFraction, LeaveDaySession, LeaveDayPlan, working_leave_days, apply_leave_sessions,
  sum_leave_day_fractions, leave_sessions_conflict, full,
}
use workforce_app_backend.Leave.Annual.{LeaveRequest, RequestStatus, Store}
use workforce_app_backend.Leave.Annual.Service.{is_active}

-- The columns of an employee that annual leave does not read, with the status of its user.
pub record Profile : Type 0 where
  pub user_id : ℕ
  pub employee_id : ℕ
  pub organization_id : ℕ
  pub office_id : Option ℕ
  pub is_employed : Bool
  pub is_user_active : Bool
  pub schedule : Option ScheduleForFraction

pub record LeaveType : Type 0 where
  pub id : ℕ
  pub organization_id : ℕ
  pub is_active : Bool
  pub tracks_balance : Bool

pub record Timesheet : Type 0 where
  pub employee_id : ℕ
  pub work_date : Date

pub data NotificationType : Type 0 where
  leave_submitted leave_approved leave_rejected : NotificationType

pub record Notification : Type 0 where
  pub user_id : ℕ
  pub type : NotificationType
  pub related_id : ℕ

pub data Verdict : Type 0 where
  approve reject : Verdict

pub record LeaveDecision : Type 0 where
  pub leave_request_id : ℕ
  pub admin_user_id : ℕ
  pub decision : Verdict
  pub reason : Option ℕ

pub record AuditRow : Type 0 where
  pub actor : ℕ
  pub action : Verdict
  pub entity_id : ℕ

-- `org_admins` has the active administrators of an organisation, by organisation and user.
pub record Tables : Type 0 where
  pub annual : Store
  pub profiles : List Profile
  pub leave_types : List LeaveType
  pub timesheets : List Timesheet
  pub org_admins : List (ℕ × ℕ)
  pub decisions : List LeaveDecision
  pub audit : List AuditRow
  pub notifications : List Notification

abbrev check_active : Profile → Result (Profile × ScheduleForFraction)
check_active p = do
  throw_if (not p.is_employed || not p.is_user_active) (app_error 403 "EMPLOYEE_INACTIVE")
  schedule ← or_throw p.schedule (app_error 400 "SCHEDULE_NOT_ASSIGNED")
  ok (p, schedule)

unfoldable pub employee_context : Tables → ℕ → Result (Profile × ScheduleForFraction)
employee_context db user = do
  p ←
      or_throw (find (λ (p : Profile). p.user_id == user) db.profiles)
        (app_error 403 "EMPLOYEE_INACTIVE")
  check_active p

-- `start <= day && day <= stop`
abbrev pub between : Date → Date → Date → Bool
between start stop day =
    leb (day_number start) (day_number day) && leb (day_number day) (day_number stop)

unfoldable pub assert_no_attendance_in_range : Tables → ℕ → Date → Date → Result (Unit {0})
assert_no_attendance_in_range db employee_id start stop =
    throw_if
      (any (λ (t : Timesheet). (t.employee_id == employee_id) && between start stop t.work_date)
        db.timesheets)
      (app_error 409 "LEAVE_ATTENDANCE_CONFLICT")

-- The sessions of a day among the rows of a request.
abbrev pub day_sessions : Date → List LeaveDayPlan → List LeaveDaySession
day_sessions day [] = []
day_sessions day (d ∷ days) =
    if date_eq d.date day then d.session ∷ day_sessions day days else day_sessions day days

-- What a request puts under the key of a day in the map `occupied`: the sessions of its rows, or the
-- whole day where it has no rows.
unfoldable pub sessions_on : Date → LeaveRequest → List LeaveDaySession
sessions_on day r = elim r.days [
  | [] ↦ if between r.start_date r.end_date day then full ∷ [] else []
  | d ∷ days ↦ day_sessions day (d ∷ days)
]

unfoldable pub occupied : List LeaveRequest → Date → List LeaveDaySession
unfolding sessions_on
occupied [] day = []
occupied (r ∷ existing) day = sessions_on day r ++ occupied existing day

-- `where: { employeeId, status, startDate: { lte: end }, endDate: { gte: start } }`
abbrev pub is_existing : ℕ → Date → Date → LeaveRequest → Bool
is_existing employee_id start stop r =
    r.employee_id == employee_id
    && is_active r.status
    && leb (day_number r.start_date) (day_number stop)
    && leb (day_number start) (day_number r.end_date)

abbrev pub conflicts : List LeaveDaySession → LeaveDaySession → Bool
conflicts sessions session = any (λ s. leave_sessions_conflict s session) sessions

-- The loop over the planned days.
unfoldable pub any_conflict : List LeaveRequest → List LeaveDayPlan → Bool
unfolding occupied
any_conflict existing [] = false
any_conflict existing (day ∷ planned) =
    conflicts (occupied existing day.date) day.session || any_conflict existing planned

abbrev overlap_in : ℕ → List LeaveRequest → LeaveDayPlan → LeaveDayPlan → List LeaveDayPlan → Bool
overlap_in employee_id requests first last planned =
    any_conflict (filter (is_existing employee_id first.date last.date) requests) planned

abbrev pub last_of : LeaveDayPlan → List LeaveDayPlan → LeaveDayPlan
last_of day [] = day
last_of day (d ∷ days) = last_of d days

unfoldable pub has_overlap : ℕ → List LeaveRequest → List LeaveDayPlan → Bool
unfolding any_conflict
has_overlap employee_id requests [] = false
has_overlap employee_id requests (first ∷ planned) =
    overlap_in employee_id requests first (last_of first planned) (first ∷ planned)

unfoldable pub assert_no_leave_session_overlap : Tables → ℕ → List LeaveDayPlan → Result (Unit {0})
unfolding has_overlap
assert_no_leave_session_overlap db employee_id planned =
    throw_if (has_overlap employee_id db.annual.requests planned)
      (app_error 409 "OVERLAPPING_LEAVE")

unfoldable pub org_admin_user_ids : Tables → ℕ → List ℕ
org_admin_user_ids db organization_id =
    map (λ (a : ℕ × ℕ). a.1) (filter (λ (a : ℕ × ℕ). a.0 == organization_id) db.org_admins)

unfoldable pub add_notifications : NotificationType → ℕ → List ℕ → Tables → Tables
add_notifications type related users db = record db {
  notifications =
      db.notifications
      ++ map (λ user. record { user_id = user; type = type; related_id = related }) users;
}
