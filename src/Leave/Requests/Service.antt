-- ===== src/Leave/Requests/Service.antt =====
-- `create`, `cancel`, `adminGet` and `decide` of src/modules/leave/leave.service.ts.
use Prim.Native.String.{String}
use workforce_app_backend.Common.{
  ℕ, ◌+◌, Bool, true, false, not, ◌&&◌, Option, none, some, List, [], ◌∷◌, ◌++◌, ◌==◌, ltb, find,
  if◌then◌else◌, nonempty_text, is_some,
}
use workforce_app_backend.Common.Result.{Result, ok, app_error, or_throw, throw_if, ◌>>=◌, ◌>>◌}
use workforce_app_backend.Common.Table.{find_by, update_by}
use workforce_app_backend.Calendar.{Date, before}
use workforce_app_backend.Shared.Tenancy.{assert_same_organization}
use workforce_app_backend.Shared.OfficeScope.{OfficeScope, assert_office_in_scope}
use workforce_app_backend.Leave.DayFraction.{
  ScheduleForFraction, LeaveDaySession, LeaveDayPlan, working_leave_days, apply_leave_sessions,
  sum_leave_day_fractions,
}
use workforce_app_backend.Leave.Annual.{
  LeaveRequest, RequestStatus, pending, approved, rejected, cancelled, Store, request_id_of,
}
use workforce_app_backend.Leave.Annual.Service.{reserve, release, consume_reserved, from_pending}
use workforce_app_backend.Leave.Annual.Balance.{balance_for_employee}
use workforce_app_backend.Leave.Requests.{
  Profile, LeaveType, leave_submitted, leave_approved, leave_rejected, NotificationType, Verdict,
  approve, reject, Tables, employee_context, assert_no_attendance_in_range,
  assert_no_leave_session_overlap, org_admin_user_ids, add_notifications,
}

pub record LeaveInput : Type 0 where
  pub leave_type_id : ℕ
  pub start_date : Date
  pub end_date : Date
  pub days : List (Date × LeaveDaySession)

-- What the checks of `create` pass on to its transaction.
pub record Admission : Type 0 where
  pub employee_id : ℕ
  pub type : LeaveType
  pub start_date : Date
  pub end_date : Date
  pub planned : List LeaveDayPlan
  pub admins : List ℕ

abbrev pub is_offered : Profile → LeaveType → Bool
is_offered p type = type.is_active && (type.organization_id == p.organization_id)

abbrev find_offered : Profile → Option LeaveType → Option LeaveType
find_offered p none = none
find_offered p (some type) = if is_offered p type then some type else none

unfoldable pub load_leave_type : Tables → Profile → ℕ → Result LeaveType
load_leave_type db p id =
    or_throw (find_offered p (find (λ (t : LeaveType). t.id == id) db.leave_types))
      (app_error 400 "INVALID_LEAVE_TYPE")

abbrev pub plan : ScheduleForFraction → LeaveInput → List LeaveDayPlan
plan schedule input =
    apply_leave_sessions input.days (working_leave_days input.start_date input.end_date schedule)

unfoldable pub check_plan : Tables → Profile → LeaveInput → List LeaveDayPlan → Result (Unit {0})
unfolding assert_no_attendance_in_range assert_no_leave_session_overlap
check_plan db p input planned =
    throw_if (before input.end_date input.start_date) (app_error 422 "INVALID_LEAVE_RANGE")
    >> throw_if (not (ltb 0 (sum_leave_day_fractions planned))) (app_error 422 "NO_WORKING_DAYS")
    >> assert_no_attendance_in_range db p.employee_id input.start_date input.end_date
    >> assert_no_leave_session_overlap db p.employee_id planned

abbrev pub admission : Tables → Profile → LeaveType → LeaveInput → List LeaveDayPlan → Admission
admission db p type input planned = record {
  employee_id = p.employee_id;
  type = type;
  start_date = input.start_date;
  end_date = input.end_date;
  planned = planned;
  admins = org_admin_user_ids db p.organization_id;
}

unfoldable pub admit_planned :
    Tables → LeaveInput → Profile × ScheduleForFraction → LeaveType → Result Admission
unfolding check_plan
admit_planned db input (p, schedule) type =
    check_plan db p input (plan schedule input)
    >> ok (admission db p type input (plan schedule input))

unfoldable pub admit_typed : Tables → LeaveInput → Profile × ScheduleForFraction → Result Admission
unfolding admit_planned
admit_typed db input (p, schedule) = do
  type ← load_leave_type db p input.leave_type_id
  admit_planned db input (p, schedule) type

-- The part of `create` before its transaction.
unfoldable pub admit : ℕ → LeaveInput → Tables → Result Admission
unfolding admit_typed
admit user input db = do context ← employee_context db user; admit_typed db input context

abbrev pub new_request : ℕ → ℕ → Admission → LeaveRequest
new_request id now a = record {
  id = id;
  employee_id = a.employee_id;
  tracks_balance = a.type.tracks_balance;
  type_organization_id = a.type.organization_id;
  start_date = a.start_date;
  end_date = a.end_date;
  requested_at = now;
  number_of_days = sum_leave_day_fractions a.planned;
  days = a.planned;
  status = pending;
}

abbrev pub with_request : ℕ → Admission → Store → Store
with_request now a annual = record annual {
  requests = annual.requests ++ new_request annual.next_id now a ∷ [];
  next_id = annual.next_id + 1;
}

abbrev pub set_status : RequestStatus → LeaveRequest → LeaveRequest
set_status status r = record r { status = status }

abbrev pub update_status : ℕ → RequestStatus → Store → Store
update_status id status annual = record annual {
  requests = update_by request_id_of id (set_status status) annual.requests;
}

-- `{ where: { id, employeeId } }`
unfoldable pub my_get : ℕ → ℕ → Tables → Result LeaveRequest
my_get user id db = do
  (p, _) ← employee_context db user
  or_throw
      (find (λ (r : LeaveRequest). (r.id == id) && (r.employee_id == p.employee_id))
        db.annual.requests)
      (app_error 404 "LEAVE_NOT_FOUND")

abbrev pub is_pending : RequestStatus → Bool
is_pending pending = true
is_pending _ = false

abbrev pub release_tracked : LeaveRequest → Store → Store
release_tracked r annual = if r.tracks_balance then release annual r.id from_pending else annual

unfoldable pub cancel : ℕ → ℕ → Tables → Result Tables
unfolding my_get
cancel user id db = do
  current ← my_get user id db
  throw_if (not (is_pending current.status)) (app_error 409 "LEAVE_NOT_CANCELLABLE")
      >> ok (record db { annual = update_status id cancelled (release_tracked current db.annual) })

module _ (today_in_zone : String → Date) where
  unfoldable pub reserve_days : Admission → ℕ → Store → Result Store
  reserve_days a id annual = do
    (reserved, _) ←
        reserve today_in_zone annual a.employee_id id (sum_leave_day_fractions a.planned)
    ok reserved

  unfoldable pub reserve_tracked : Admission → ℕ → Store → Result Store
  unfolding reserve_days
  reserve_tracked a id annual =
      if a.type.tracks_balance then reserve_days a id annual else ok annual

  -- The transaction of `create`.
  unfoldable pub submit : ℕ → Admission → Tables → Result Tables
  unfolding reserve_tracked
  submit now a db = do
    annual ← reserve_tracked a db.annual.next_id (with_request now a db.annual)
    ok (
        add_notifications leave_submitted db.annual.next_id a.admins
          (record db { annual = annual }))

  unfoldable pub create : ℕ → ℕ → LeaveInput → Tables → Result Tables
  unfolding submit
  create now user input db = do a ← admit user input db; submit now a db

  -- The employee of a request, which the foreign key says is there.
  unfoldable pub profile_of : Tables → LeaveRequest → Result Profile
  profile_of db r =
      or_throw (find (λ (p : Profile). p.employee_id == r.employee_id) db.profiles)
        (app_error 500 "INTERNAL_ERROR")

  unfoldable pub accrue_for :
      Tables → LeaveRequest → Profile → Result (Tables × LeaveRequest × Profile)
  accrue_for db r p = do
    (annual, _) ← balance_for_employee today_in_zone db.annual r.employee_id none
    ok (record db { annual = annual }, r, p)

  unfoldable pub check_scope : ℕ → OfficeScope → Profile → Result (Unit {0})
  check_scope organization_id scope p =
      assert_same_organization (some p.organization_id) organization_id "LEAVE_NOT_FOUND"
      >> assert_office_in_scope scope p.office_id

  unfoldable pub view_row :
      ℕ → OfficeScope → Tables → LeaveRequest → Result (Tables × LeaveRequest × Profile)
  unfolding profile_of check_scope accrue_for
  view_row organization_id scope db r = do
    p ← profile_of db r
    check_scope organization_id scope p >> accrue_for db r p

  -- A view of a request accrues the leave years of its employee.
  unfoldable pub admin_get : ℕ → ℕ → OfficeScope → Tables → Result (Tables × LeaveRequest × Profile)
  unfolding view_row
  admin_get organization_id id scope db = do
    r ← or_throw (find_by request_id_of id db.annual.requests) (app_error 404 "LEAVE_NOT_FOUND")
    view_row organization_id scope db r

  abbrev pub status_of : Verdict → RequestStatus
  status_of approve = approved
  status_of reject = rejected

  abbrev pub notice_of : Verdict → NotificationType
  notice_of approve = leave_approved
  notice_of reject = leave_rejected

  abbrev pub settle_days : Verdict → LeaveRequest → Store → Result Store
  settle_days approve r annual = consume_reserved today_in_zone annual r.id
  settle_days reject r annual = ok (release annual r.id from_pending)

  unfoldable pub settle_tracked : Verdict → LeaveRequest → Store → Result Store
  settle_tracked verdict r annual =
      if r.tracks_balance then settle_days verdict r annual else ok annual

  unfoldable pub check_attendance : Verdict → LeaveRequest → Tables → Result (Unit {0})
  unfolding assert_no_attendance_in_range
  check_attendance approve r db =
      assert_no_attendance_in_range db r.employee_id r.start_date r.end_date
  check_attendance reject r db = ok tt

  abbrev pub lacks_reason : Verdict → Option ℕ → Bool
  lacks_reason approve reason = false
  lacks_reason reject reason = not (is_some (nonempty_text reason))

  unfoldable pub check_decision : Verdict → Option ℕ → LeaveRequest → Tables → Result (Unit {0})
  unfolding check_attendance
  check_decision verdict reason r db =
      throw_if (not (is_pending r.status)) (app_error 409 "LEAVE_ALREADY_DECIDED")
      >> throw_if (lacks_reason verdict reason) (app_error 422 "REJECTION_REASON_REQUIRED")
      >> check_attendance verdict r db

  abbrev pub record_decision :
      ℕ → Verdict → Option ℕ → LeaveRequest → Profile → Tables → Store → Tables
  record_decision admin verdict reason r p db annual =
      add_notifications (notice_of verdict) r.id (p.user_id ∷ []) (record db {
        annual = update_status r.id (status_of verdict) annual;
        decisions =
            db.decisions
            ++ record {
              leave_request_id = r.id;
              admin_user_id = admin;
              decision = verdict;
              reason = reason;
            }
              ∷ [];
        audit = db.audit ++ record { actor = admin; action = verdict; entity_id = r.id } ∷ [];
      })

  -- The transaction of `decide`.
  unfoldable pub settle_decision :
      ℕ → Verdict → Option ℕ → LeaveRequest → Profile → Tables → Result Tables
  unfolding settle_tracked
  settle_decision admin verdict reason r p db = do
    annual ← settle_tracked verdict r db.annual
    ok (record_decision admin verdict reason r p db annual)

  unfoldable pub decide_viewed :
      ℕ → Verdict → Option ℕ → Tables × LeaveRequest × Profile → Result Tables
  unfolding check_decision settle_decision
  decide_viewed admin verdict reason (db, r, p) =
      check_decision verdict reason r db >> settle_decision admin verdict reason r p db

  unfoldable pub decide :
      (organization_id id : ℕ)
      → Verdict
      → (reason : Option ℕ) → (admin : ℕ) → OfficeScope
      → Tables
      → Result Tables
  unfolding admin_get decide_viewed
  decide organization_id id verdict reason admin scope db = do
    viewed ← admin_get organization_id id scope db
    decide_viewed admin verdict reason viewed
