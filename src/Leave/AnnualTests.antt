-- ===== src/Leave/AnnualTests.antt =====
-- A concrete store of leave years that the theorems on the annual leave service apply to.
use Prim.Native.String.{String}
use mathlib.Core.Option
use workforce_app_backend.Common.{
  ap, any, ◌≡◌, refl, ◌≤◌, arith, true, false, leb, none, some, List, [], ◌∷◌, ◌&&◌, ◌==◌,
  if◌then◌else◌, map, filter,
}
use workforce_app_backend.Common.Result.{Result, ok, err, app_error}
use workforce_app_backend.Common.Table.{find_by, HasDistinctKeys, insert_by, order_by}
use workforce_app_backend.Common.Table.Snapshot.{days_for}
use workforce_app_backend.Calendar.{
  Date, date, day_number, days_before_month, days_before_year, month_length, leap_day, is_leap,
  next_day, previous_day,
}
use workforce_app_backend.Leave.Fifo.{FifoAllocation, fifo_loop, fifo_result, allocate_fifo}
use workforce_app_backend.Leave.Fifo.Exact.{granted}
use workforce_app_backend.Leave.Policy.{
  add_calendar_years, completed_years_of_service, pro_rata_leave, annual_entitlement,
  leave_year_period, expires_on,
}
use workforce_app_backend.Leave.Annual.{
  Bucket, opened, Employee, Store, bucket_id_of, is_opened, remaining_of, load_employee,
  write_ledger, open_buckets_oldest_first,
}
use workforce_app_backend.Leave.Annual.Accrual.{
  start_get, start_set, start_map, buckets_of, accrue_year, accrue_years, expire_row, expire_rows,
  Accrued, accrue, as_of_for_employee, ensure_accrual,
}
use workforce_app_backend.Leave.Annual.Accrual.Sound.{IsSound, ensure_accrual-IsSound}
use workforce_app_backend.Leave.Annual.Accrual.Granted.{accrue-grants}
use workforce_app_backend.Leave.Annual.Accrual.Expiry.{is_due, expired_row, expire_rows-due}
use workforce_app_backend.Leave.Annual.Apply.{
  consuming, to_fifo, reserving, choose_allocations, apply_to_buckets,
}
use workforce_app_backend.Leave.Annual.Apply.Rows.{IsUnallocated, entries_of}
use workforce_app_backend.Leave.Annual.Service.{from_pending, release, reserve, consume_reserved}
use workforce_app_backend.Leave.Annual.Service.Reserve.{
  available_days, reserve-grants, reserve-exact,
}
use workforce_app_backend.Leave.Fifo.Exact.{available}
use workforce_app_backend.Leave.Annual.Balance.{to_balance_dto, deduct}
use workforce_app_backend.Leave.Annual.Balance.Deduct.{leave_years_of, deduct-eq-consume}
use workforce_app_backend.Leave.Annual.Balance.Shown.{to_balance_dto-available}
use workforce_app_backend.Leave.Annual.Service.Settle.{
  charge_used, release-reserve, consume_reserved-reserve,
}

abbrev today : String → Date
today zone = date 2025 5 1

abbrev abebe : Employee
abebe = record {
  id = 1;
  organization_id = 1;
  employment_start_date = date 2024 0 10;
  office_timezone = none;
  schedule_timezone = none;
}

-- The first leave year is granted in part, the second one not yet.
abbrev first_year : Bucket
first_year = record {
  id = 4;
  organization_id = 1;
  employee_id = 1;
  period_start = date 2024 0 10;
  period_end = date 2025 0 9;
  expires_on = date 2027 0 10;
  service_years = 0;
  granted_days = 1500;
  used_days = 1300;
  pending_days = 0;
  expired_days = 0;
  status = opened;
}

abbrev db0 : Store
db0 = record {
  employees = abebe ∷ [];
  buckets = first_year ∷ [];
  ledger = [];
  allocations = record { leave_request_id = 6; bucket_id = 4; days = 100 } ∷ [];
  requests = [];
  next_id = 5;
}

db0-IsSound : IsSound db0
db0-IsSound = record { distinct = (refl, tt); below = (omega arith, tt) }

abbrev db1 : Store
db1 = accrue abebe (date 2025 5 1) db0

abbrev accrued1 : Accrued
accrued1 = record { employee = abebe; as_of = date 2025 5 1; buckets = buckets_of db1 1 }

db0-accrual : ensure_accrual today db0 1 none ≡ ok (db1, accrued1)
unfolding ensure_accrual as_of_for_employee load_employee day_number days_before_year
    days_before_month month_length leap_day is_leap
db0-accrual = refl

one_year_started : 1 ≤ completed_years_of_service abebe.employment_start_date (date 2025 5 1)
unfolding completed_years_of_service day_number days_before_year days_before_month month_length
    leap_day add_calendar_years
one_year_started = omega arith

accrue-grants_example :
    let period = leave_year_period (date 2024 0 10) 1 in
    (row : Bucket) × (find_by bucket_id_of row.id db1.buckets ≡ some row)
    × (row.employee_id ≡ 1)
    × (row.period_start ≡ period.start)
    × (annual_entitlement 1 (date 2024 0 10) (date 2025 5 1) period.stop ≤ row.granted_days)
accrue-grants_example = accrue-grants abebe (date 2025 5 1) 1 db0 db0-IsSound one_year_started

expire_rows-due_example :
    find_by bucket_id_of 4
      (expire_rows
        (date 2027 0 10)
        (filter (λ b. (b.employee_id == 1) && is_opened b.status) db0.buckets)
        db0).buckets
    ≡ Option.map (λ b. if is_due (date 2027 0 10) 1 b then expired_row b else b) (some first_year)
expire_rows-due_example = expire_rows-due (date 2027 0 10) 1 4 db0 (refl, tt)

-- What a successful run returns, for the concrete runs below.
abbrev outcome_of : Result (Store × List FifoAllocation) → Store × List FifoAllocation
outcome_of (ok out) = out
outcome_of (err e) = (db0, [])

available_days-db1 : available_days db1 1 ≡ 1900
unfolding accrue completed_years_of_service annual_entitlement pro_rata_leave leave_year_period
    expires_on add_calendar_years next_day previous_day day_number days_before_year
    days_before_month month_length leap_day is_leap start_get start_set start_map buckets_of
    accrue_year accrue_years expire_row expire_rows write_ledger open_buckets_oldest_first order_by
    insert_by remaining_of
available_days-db1 = refl

db1-distinct : HasDistinctKeys bucket_id_of db1.buckets
db1-distinct = (ensure_accrual-IsSound today db0 1 none db0-IsSound db0-accrual).0.distinct

db1-free : IsUnallocated 7 db1.allocations
db1-free =
    ap (λ rows. any (λ r. r.leave_request_id == 7) rows)
      (ensure_accrual-IsSound today db0 1 none db0-IsSound db0-accrual).1

abbrev applied : Store × List FifoAllocation
applied = outcome_of (apply_to_buckets db1 1 7 500 reserving false)

db1-applied : apply_to_buckets db1 1 7 500 reserving false ≡ ok (applied.0, applied.1)
unfolding accrue completed_years_of_service annual_entitlement pro_rata_leave leave_year_period
    expires_on add_calendar_years next_day previous_day day_number days_before_year
    days_before_month month_length leap_day is_leap start_get start_set start_map buckets_of
    accrue_year accrue_years expire_row expire_rows write_ledger open_buckets_oldest_first order_by
    insert_by remaining_of apply_to_buckets choose_allocations allocate_fifo fifo_result fifo_loop
db1-applied = refl

abbrev reserved : Store × List FifoAllocation
reserved = outcome_of (reserve today db0 1 7 500)

db0-reserved : reserve today db0 1 7 500 ≡ ok (reserved.0, reserved.1)
unfolding accrue completed_years_of_service annual_entitlement pro_rata_leave leave_year_period
    expires_on add_calendar_years next_day previous_day day_number days_before_year
    days_before_month month_length leap_day is_leap start_get start_set start_map buckets_of
    accrue_year accrue_years expire_row expire_rows write_ledger open_buckets_oldest_first order_by
    insert_by remaining_of apply_to_buckets choose_allocations allocate_fifo fifo_result fifo_loop
    reserve ensure_accrual as_of_for_employee load_employee
db0-reserved = refl

reserve-grants_example :
    (db' : Store) × (allocations : List FifoAllocation) × (reserve today db0 1 7 500
      ≡ ok (db', allocations))
    × (granted allocations ≡ 500)
reserve-grants_example =
    reserve-grants today db0 1 7 500 db0-accrual (omega (arith, available_days-db1))

reserve-exact_example : (500 ≤ available_days db1 1) × (granted reserved.1 ≡ 500)
reserve-exact_example = reserve-exact today db0 1 7 500 db0-accrual db0-reserved

release-reserve_example :
    (find_by bucket_id_of 5 (release reserved.0 7 from_pending).buckets
      ≡ find_by bucket_id_of 5 db1.buckets)
    × ((release reserved.0 7 from_pending).allocations ≡ db0.allocations)
release-reserve_example =
    release-reserve today db0 1 7 500 db0-IsSound refl db0-accrual db0-reserved 5

consume_reserved-reserve_example :
    (settled : Store) × (consume_reserved today reserved.0 7 ≡ ok settled)
    × (find_by bucket_id_of 5 settled.buckets
        ≡ Option.map
            (charge_used (days_for 5 (entries_of reserved.1)))
            (find_by bucket_id_of 5 db1.buckets))
consume_reserved-reserve_example =
    consume_reserved-reserve today db0 1 7 500 db0-IsSound refl db0-accrual db0-reserved 5
      (omega arith)

to_balance_dto-available_example :
    (to_balance_dto (date 2024 0 10) (date 2025 5 1) db1.buckets).available
    ≤ available (map to_fifo (filter (λ b. is_opened b.status) db1.buckets))
to_balance_dto-available_example =
    to_balance_dto-available (date 2024 0 10) (date 2025 5 1) db1.buckets

deduct-eq-consume_example : leave_years_of (λ after. after) (deduct db1 1 500 "correction" none) ≡ (
    if leb 500 (available_days db1 1)
    then leave_years_of (λ out. out.0) (apply_to_buckets db1 1 7 500 consuming true)
    else err (app_error 422 "INSUFFICIENT_LEAVE_BALANCE"))
deduct-eq-consume_example = deduct-eq-consume db1 1 500 7 "correction" none
