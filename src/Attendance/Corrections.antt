-- ===== src/Attendance/Corrections.antt =====
-- Requests to correct the attendance of a past day:
-- src/modules/attendance-correctness/attendance-correctness.service.ts. The tables, the schedule of a
-- day and its halves. Its check of the employee is that of Attendance/Presence.
pub mod Ask
pub mod Review
pub mod Halves
pub mod Partial
pub mod Life
mod Tests
use workforce_app_backend.Common.{
  ℕ, ◌+◌, ◌-◌, ◌*◌, ◌/◌, Bool, true, false, ◌&&◌, ◌||◌, Option, none, some, List, [], ◌∷◌, ◌++◌,
  ◌==◌, leb, any, all, filter, map, if◌then◌else◌, find,
}
use workforce_app_backend.Common.Result.{Result, ok, app_error, or_throw, ◌>>=◌}
use workforce_app_backend.Common.Table.{order_by}
use workforce_app_backend.Leave.DayFraction.{LeaveDaySession, full, morning, afternoon}
use workforce_app_backend.Attendance.{Store, Platform}
use workforce_app_backend.Attendance.Presence.{
  Employee, Office, Schedule, DayRule, day_rule_for_weekday,
}

pub data CorrectnessStatus : Type 0 where
  pending approved rejected cancelled : CorrectnessStatus

pub record CorrectnessRequest : Type 0 where
  pub id : ℕ
  pub submission_id : Option ℕ
  pub organization_id : ℕ
  pub employee_id : ℕ
  pub work_date : ℕ
  pub session : LeaveDaySession
  pub timesheet_id : Option ℕ
  pub status : CorrectnessStatus
  pub employee_note : Option ℕ
  pub admin_note : Option ℕ
  pub reviewed_by : Option ℕ
  pub reviewed_at : Option ℕ

-- A leave request that is pending or approved, with its rows.
pub record LiveLeave : Type 0 where
  pub employee_id : ℕ
  pub start_date : ℕ
  pub end_date : ℕ
  pub days : List (ℕ × LeaveDaySession)

pub record Correction : Type 0 where
  pub timesheet_id : ℕ
  pub actor : ℕ
  pub session : LeaveDaySession
  pub is_new : Bool

pub data NoticeType : Type 0 where
  submitted was_approved was_rejected : NoticeType

pub record Notice : Type 0 where
  pub user_id : ℕ
  pub type : NoticeType
  pub related_id : ℕ

-- `admins` has the active administrators of an organisation, by organisation and user. The
-- identifiers of all tables are taken from the store of attendance.
pub record Tables : Type 0 where
  pub attendance : Store
  pub employees : List Employee
  pub live_leave : List LiveLeave
  pub admins : List (ℕ × ℕ)
  pub requests : List CorrectnessRequest
  pub corrections : List Correction
  pub notices : List Notice

abbrev pub correctness_id : CorrectnessRequest → ℕ
correctness_id r = r.id

abbrev pub is_pending : CorrectnessStatus → Bool
is_pending pending = true
is_pending _ = false

abbrev pub is_live : CorrectnessStatus → Bool
is_live pending = true
is_live approved = true
is_live _ = false

abbrev pub zone_of : Office → Schedule → ℕ
zone_of office schedule = if office.timezone == 0 then schedule.timezone else office.timezone

pub record Bounds : Type 0 where
  pub zone : ℕ
  pub scheduled_in : ℕ
  pub scheduled_out : ℕ
  pub rule : DayRule

unfoldable pub bounds_by : Platform → ℕ → ℕ → DayRule → Result Bounds
bounds_by platform zone day rule = do
  start ←
      or_throw (platform.scheduled_instant day rule.check_in_time zone)
        (app_error 500 "INVALID_SCHEDULE_TIME")
  stop ←
      or_throw (platform.scheduled_instant day rule.check_out_time zone)
        (app_error 500 "INVALID_SCHEDULE_TIME")
  ok (record {
    zone = zone;
    scheduled_in = start;
    scheduled_out = if leb stop start then platform.plus_day stop zone else stop;
    rule = rule;
  })

-- The weekday of a day is luxon's. A day that is not a working day is refused by every caller.
unfoldable pub schedule_bounds :
    Platform → (weekday : ℕ → ℕ) → Schedule → (zone day : ℕ) → Result Bounds
unfolding bounds_by
schedule_bounds platform weekday schedule zone day = do
  rule ← or_throw (day_rule_for_weekday schedule (weekday day)) (app_error 422 "NOT_A_WORKING_DAY")
  bounds_by platform zone day rule

pub record Actuals : Type 0 where
  pub check_in : ℕ
  pub check_out : ℕ
  pub worked_minutes : ℕ

abbrev pub actuals_between : ℕ → ℕ → Actuals
actuals_between start stop = record {
  check_in = start;
  check_out = stop;
  worked_minutes = (stop - start) / 60000;
}

abbrev pub middle : ℕ → ℕ → ℕ
middle start stop = start + (stop - start) / 2

-- The schedule ends after it starts.
unfoldable pub session_actuals : ℕ → ℕ → LeaveDaySession → Actuals
session_actuals start stop morning = actuals_between start (middle start stop)
session_actuals start stop afternoon = actuals_between (middle start stop) stop
session_actuals start stop full = actuals_between start stop

pub record DayInput : Type 0 where
  pub date : ℕ
  pub session : LeaveDaySession

-- The order of the names of the sessions, by `localeCompare`.
abbrev pub name_rank : LeaveDaySession → ℕ
name_rank afternoon = 0
name_rank full = 1
name_rank morning = 2

-- The order of the enum `LeaveDaySession` of prisma/schema.prisma, by which the database sorts.
abbrev pub session_rank : LeaveDaySession → ℕ
session_rank full = 0
session_rank morning = 1
session_rank afternoon = 2

abbrev pub day_rank : DayInput → ℕ
day_rank d = 3 * d.date + name_rank d.session

abbrev pub has_day : ℕ → List DayInput → Bool
has_day rank days = any (λ d. day_rank d == rank) days

unfoldable pub distinct_days : List DayInput → List DayInput
distinct_days [] = []
distinct_days (d ∷ days) =
    let rest = distinct_days days in if has_day (day_rank d) rest then rest else d ∷ rest

abbrev pub full_day : ℕ → DayInput
full_day date = record { date = date; session = full }

unfoldable pub normalize_day_inputs : (dates : List ℕ) → (days : List DayInput) → List DayInput
unfolding distinct_days
normalize_day_inputs dates [] = order_by day_rank (distinct_days (map full_day dates))
normalize_day_inputs dates (d ∷ days) = order_by day_rank (distinct_days (d ∷ days))

unfoldable pub org_admin_user_ids : Tables → ℕ → List ℕ
org_admin_user_ids db organization_id =
    map (λ (a : ℕ × ℕ). a.1) (filter (λ (a : ℕ × ℕ). a.0 == organization_id) db.admins)

pub data SubmissionStatus : Type 0 where
  all_pending all_approved all_rejected all_cancelled partial : SubmissionStatus

abbrev pub is_approved : CorrectnessStatus → Bool
is_approved approved = true
is_approved _ = false

abbrev pub is_rejected : CorrectnessStatus → Bool
is_rejected rejected = true
is_rejected _ = false

abbrev pub is_cancelled : CorrectnessStatus → Bool
is_cancelled cancelled = true
is_cancelled _ = false

unfoldable pub aggregate_submission_status : List CorrectnessStatus → SubmissionStatus
aggregate_submission_status statuses =
    if any is_pending statuses
    then all_pending
    else if all is_approved statuses
    then all_approved
    else if all is_rejected statuses
    then all_rejected
    else if all is_cancelled statuses
    then all_cancelled
    else partial
