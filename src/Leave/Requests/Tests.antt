-- ===== src/Leave/Requests/Tests.antt =====
-- Requests of one employee, and inputs at which the theorems on requests for leave apply.
use Prim.Native.String.{String}
use workforce_app_backend.Common.{ℕ, ◌≡◌, refl, true, none, some, [], ◌∷◌, arith}
use workforce_app_backend.Common.Result.{Result, ok, err, app_error}
use workforce_app_backend.Common.Table.{find_by, insert_by, order_by}
use workforce_app_backend.Calendar.{
  Date, date, IsDate, day_number, days_before_month, days_before_year, month_length, leap_day,
  is_leap, next_day, previous_day,
}
use workforce_app_backend.Leave.Fifo.{fifo_loop, fifo_result, allocate_fifo}
use workforce_app_backend.Leave.Policy.{
  add_calendar_years, completed_years_of_service, pro_rata_leave, annual_entitlement,
  leave_year_period, expires_on,
}
use workforce_app_backend.Leave.DayFraction.{
  morning, scheduled_minutes, rule_set, rule_get, rules_of_days, rules_of_weekdays, day_rules,
  longest, full_day_minutes, leave_fraction_for_weekday, weekday_of, plan_days, working_leave_days,
  session_for, session_fraction, apply_leave_sessions, sum_leave_day_fractions,
  leave_sessions_conflict,
}
use workforce_app_backend.Leave.Annual.{
  Employee, LeaveRequest, cancelled, Store, bucket_id_of, request_id_of, remaining_of,
  load_employee, write_ledger, open_buckets_oldest_first,
}
use workforce_app_backend.Leave.Annual.Accrual.{
  start_get, start_set, start_map, buckets_of, accrue_year, accrue_years, expire_row, expire_rows,
  Accrued, accrue, as_of_for_employee, ensure_accrual,
}
use workforce_app_backend.Leave.Annual.Apply.{
  apply_all, apply_allocation, upsert_allocation, choose_allocations, apply_to_buckets,
}
use workforce_app_backend.Leave.Annual.Service.{release, release_rows, reserve}
use workforce_app_backend.Leave.Requests.{
  Profile, LeaveType, Tables, employee_context, assert_no_attendance_in_range, sessions_on,
  occupied, any_conflict, has_overlap, assert_no_leave_session_overlap, org_admin_user_ids,
  add_notifications,
}
use workforce_app_backend.Leave.Requests.Service.{
  LeaveInput, Admission, load_leave_type, check_plan, admit_planned, admit_typed, admit,
  with_request, new_request, my_get, cancel, reserve_days, reserve_tracked, submit, create,
}
use workforce_app_backend.Leave.Requests.Settled.{cancel-submit}
use workforce_app_backend.Leave.Requests.Life
use workforce_app_backend.Leave.Requests.Life.{Action, Reach, handle}
use workforce_app_backend.Leave.Requests.Life.Invariant.{Reach-HasSoundRequests, Reach-keeps_ended}

abbrev today : String → Date
today zone = date 2025 5 1

abbrev abebe : Employee
abebe = record {
  id = 1;
  organization_id = 1;
  employment_start_date = date 2024 0 10;
  office_timezone = none;
  schedule_timezone = none;
}

abbrev profile : Profile
profile = record {
  user_id = 11;
  employee_id = 1;
  organization_id = 1;
  office_id = some 2;
  is_employed = true;
  is_user_active = true;
  schedule = some (record {
    working_days = 1 ∷ 2 ∷ 3 ∷ 4 ∷ 5 ∷ [];
    check_in_time = none;
    check_out_time = none;
    days = [];
  });
}

abbrev annual_type : LeaveType
annual_type = record { id = 3; organization_id = 1; is_active = true; tracks_balance = true }

abbrev tables : Tables
tables = record {
  annual = record {
    employees = abebe ∷ [];
    buckets = [];
    ledger = [];
    allocations = [];
    requests = [];
    next_id = 5;
  };
  profiles = profile ∷ [];
  leave_types = annual_type ∷ [];
  timesheets = [];
  org_admins = (1, 20) ∷ [];
  decisions = [];
  audit = [];
  notifications = [];
}

-- From Thursday to Monday, with a half day.
abbrev input : LeaveInput
input = record {
  leave_type_id = 3;
  start_date = date 2025 5 5;
  end_date = date 2025 5 9;
  days = (date 2025 5 6, morning) ∷ [];
}

input-IsDate : IsDate (date 2025 5 5)
unfolding month_length
input-IsDate = record { month_ok = omega arith; day_pos = omega arith; day_ok = omega arith }

abbrev tables_or : Tables → Result Tables → Tables
tables_or db (ok db') = db'
tables_or db (err _) = db

abbrev made : Tables
made = tables_or tables (create today 0 11 input tables)

abbrev withdrawn : Tables
withdrawn = tables_or made (cancel 11 5 made)

abbrev admission_or : Result Admission → Admission
admission_or (ok a) = a
admission_or (err _) = record {
  employee_id = 0;
  type = annual_type;
  start_date = date 0 0 1;
  end_date = date 0 0 1;
  planned = [];
  admins = [];
}

abbrev admitted : Admission
admitted = admission_or (admit 11 input tables)

-- Thursday, half of Friday, and Monday.
input_passes :
    (admit 11 input tables ≡ ok admitted)
    × (sum_leave_day_fractions admitted.planned ≡ 250)
    × (admitted.type.tracks_balance ≡ true)
unfolding admit admit_typed admit_planned check_plan load_leave_type employee_context
    assert_no_attendance_in_range assert_no_leave_session_overlap has_overlap any_conflict occupied
    sessions_on org_admin_user_ids scheduled_minutes rule_set rule_get rules_of_days
    rules_of_weekdays day_rules longest full_day_minutes leave_fraction_for_weekday weekday_of
    plan_days working_leave_days session_for session_fraction apply_leave_sessions
    sum_leave_day_fractions next_day day_number days_before_year days_before_month month_length
    leap_day is_leap
input_passes = (refl, refl, refl)

abbrev again : Tables
again = tables_or withdrawn (create today 1 11 input withdrawn)

abbrev first_request : LeaveRequest
first_request = record (new_request 5 0 admitted) { status = cancelled }

-- A request for leave, the same one again, which is refused, the withdrawal of the first, and the
-- same one again, which is granted.
runs :
    (create today 0 11 input tables ≡ ok made)
    × (create today 1 11 input made ≡ err (app_error 409 "OVERLAPPING_LEAVE"))
    × (cancel 11 5 made ≡ ok withdrawn)
    × (create today 1 11 input withdrawn ≡ ok again)
    × (submit today 0 admitted tables ≡ ok made)
    × (find_by request_id_of 5 withdrawn.annual.requests ≡ some first_request)
unfolding cancel my_get release release_rows apply_all apply_allocation upsert_allocation
    leave_sessions_conflict create submit reserve_tracked reserve_days reserve ensure_accrual
    as_of_for_employee load_employee accrue accrue_year accrue_years expire_row expire_rows
    write_ledger open_buckets_oldest_first order_by insert_by remaining_of apply_to_buckets
    choose_allocations allocate_fifo fifo_result fifo_loop start_get start_set start_map buckets_of
    completed_years_of_service annual_entitlement pro_rata_leave leave_year_period expires_on
    add_calendar_years previous_day add_notifications admit admit_typed admit_planned check_plan
    load_leave_type employee_context assert_no_attendance_in_range assert_no_leave_session_overlap
    has_overlap any_conflict occupied sessions_on org_admin_user_ids scheduled_minutes rule_set
    rule_get rules_of_days rules_of_weekdays day_rules longest full_day_minutes
    leave_fraction_for_weekday weekday_of plan_days working_leave_days session_for session_fraction
    apply_leave_sessions sum_leave_day_fractions next_day day_number days_before_year
    days_before_month month_length leap_day is_leap
runs = (refl, refl, refl, refl, refl, refl)

abbrev tables-HasSoundRequests : Life.HasSoundRequests tables
tables-HasSoundRequests = record { distinct = tt; old_ids = tt; in_range = tt; no_conflict = tt }

abbrev ask : Action
ask = Action.ask 11 input input-IsDate

tables_handled :
    (handle today 0 ask tables ≡ ok made)
    × (handle today 0 (Action.withdraw 11 5) made ≡ ok withdrawn)
    × (handle today 1 ask withdrawn ≡ ok again)
unfolding handle
tables_handled = (runs.0, runs.2, runs.3)

abbrev reached : Reach tables withdrawn
reached =
    Reach.later today 0 (Action.withdraw 11 5)
      (Reach.later today 0 ask Reach.start tables_handled.0) tables_handled.1

Reach-HasSoundRequests_example : Life.HasSoundRequests withdrawn
Reach-HasSoundRequests_example = Reach-HasSoundRequests tables-HasSoundRequests reached

withdrawn-HasSoundRequests : Life.HasSoundRequests withdrawn
withdrawn-HasSoundRequests = Reach-HasSoundRequests tables-HasSoundRequests reached

Reach-keeps_ended_example : find_by request_id_of 5 again.annual.requests ≡ some first_request
Reach-keeps_ended_example =
    Reach-keeps_ended 5 {r = first_request} withdrawn-HasSoundRequests
      (Reach.later today 1 ask Reach.start tables_handled.2) runs.5 refl

cancel-submit_example :
    (after : Tables) × (annual1 : Store) × (years1 : Accrued) × (cancel 11 5 made ≡ ok after)
    × (ensure_accrual today (with_request 0 admitted tables.annual) admitted.employee_id none
        ≡ ok (annual1, years1))
    × ((j : ℕ)
        → find_by bucket_id_of j after.annual.buckets ≡ find_by bucket_id_of j annual1.buckets)
    × (after.annual.allocations ≡ [])
cancel-submit_example =
    cancel-submit today 0 11 input tables {a = admitted} {made = made} tables-HasSoundRequests
      (record { distinct = tt; below = tt }) refl input_passes.0 input_passes.2 runs.4
