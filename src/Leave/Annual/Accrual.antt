-- ===== src/Leave/Annual/Accrual.antt =====
-- `ensureAccrual`: the leave years that have started are granted, those past their expiry expire.
-- The date of today in a timezone (`todayInZone`, by `Intl`) is a parameter.
pub mod Expiry
pub mod ByStart
pub mod Round
pub mod Granted
pub mod Sound
use Prim.Native.String.{String}
use workforce_app_backend.Common.{
  ℕ, zero, suc, ◌+◌, ◌-◌, Bool, ◌&&◌, Option, none, some, List, [], ◌∷◌, ◌++◌, ◌==◌, ltb, filter,
  if◌then◌else◌, get_or,
}
use workforce_app_backend.Common.Int.{pos, pos_part}
use workforce_app_backend.Common.Result.{Result, ok, err, ◌>>=◌}
use workforce_app_backend.Common.Table.{order_by}
use workforce_app_backend.Calendar.{Date, day_number, before, date_eq}
use workforce_app_backend.Leave.Policy.{
  completed_years_of_service, annual_entitlement, leave_year_period, expires_on, Period,
}
use workforce_app_backend.Leave.Annual.{
  BucketStatus, opened, expired, Bucket, LedgerType, Employee, Store, is_opened, remaining_of,
  load_employee, write_ledger, update_bucket,
}

-- The map `byStart`, from the first day of a leave year to its row.
abbrev pub ByStart : Type 0
ByStart = List (Date × Bucket)

unfoldable pub start_get : Date → ByStart → Option Bucket
start_get key [] = none
start_get key ((k, row) ∷ m) = if date_eq k key then some row else start_get key m

unfoldable pub start_set : Date → Bucket → ByStart → ByStart
start_set key row [] = (key, row) ∷ []
start_set key row ((k, old) ∷ m) =
    if date_eq k key then (key, row) ∷ m else (k, old) ∷ start_set key row m

unfoldable pub start_map : List Bucket → ByStart → ByStart
start_map [] m = m
start_map (row ∷ rows) m = start_map rows (start_set row.period_start row m)

unfoldable pub buckets_of : Store → ℕ → List Bucket
buckets_of db employee_id =
    order_by (λ b. day_number b.period_start)
      (filter (λ b. b.employee_id == employee_id) db.buckets)

abbrev pub ledger_of : Bucket → LedgerType → ℕ → Store → Store
ledger_of row type days db = write_ledger db (record {
  employee_id = row.employee_id;
  bucket_id = row.id;
  leave_request_id = none;
  type = type;
  days = pos days;
  note = none;
})

abbrev pub new_bucket : Employee → ℕ → Period → ℕ → ℕ → Bucket
new_bucket employee id period n granted = record {
  id = id;
  organization_id = employee.organization_id;
  employee_id = employee.id;
  period_start = period.start;
  period_end = period.stop;
  expires_on = expires_on period.start;
  service_years = n;
  granted_days = granted;
  used_days = 0;
  pending_days = 0;
  expired_days = 0;
  status = opened;
}

abbrev pub raise_grant : ℕ → Period → Bucket → Bucket
raise_grant granted period row = record row {
  granted_days = granted;
  period_end = period.stop;
  expires_on = expires_on period.start;
}

-- One round of the loop over the leave years.
unfoldable pub accrue_year : Employee → Date → ℕ → Store × ByStart → Store × ByStart
accrue_year employee as_of n (db, by_start) =
    let hire = employee.employment_start_date in
    let period = leave_year_period hire n in
    let granted = annual_entitlement n hire as_of period.stop in
    elim (start_get period.start by_start) [
      | none ↦
          let row = new_bucket employee db.next_id period n granted in
          let created = record db { buckets = db.buckets ++ row ∷ []; next_id = db.next_id + 1 } in
          (ledger_of row LedgerType.grant granted created, start_set period.start row by_start)
      | some found ↦
          if ltb found.granted_days granted
          then (
            ledger_of found LedgerType.top_up (granted - found.granted_days)
                (update_bucket db found.id (raise_grant granted period)),
            start_set period.start (raise_grant granted period found) by_start,
          )
          else (db, by_start)
    ]

-- `for (let n = …; …; n++)`, by the number of rounds that are left.
unfoldable pub accrue_years : ℕ → Employee → Date → ℕ → Store × ByStart → Store × ByStart
accrue_years zero employee as_of n acc = acc
accrue_years (suc rounds) employee as_of n acc =
    accrue_years rounds employee as_of (n + 1) (accrue_year employee as_of n acc)

abbrev pub expire_bucket : ℕ → ℕ → Bucket → Bucket
expire_bucket expired_days leftover row = record row {
  status = expired;
  expired_days = expired_days + leftover;
  pending_days = 0;
}

-- One round of the loop over the open leave years.
unfoldable pub expire_row : Date → Bucket → Store → Store
expire_row as_of row db =
    if before as_of row.expires_on
    then db
    else let leftover = pos_part (remaining_of row) in
      let updated = update_bucket db row.id (expire_bucket row.expired_days leftover) in
      if ltb 0 leftover then ledger_of row LedgerType.expire leftover updated else updated

unfoldable pub expire_rows : Date → List Bucket → Store → Store
expire_rows as_of [] db = db
expire_rows as_of (row ∷ rows) db = expire_rows as_of rows (expire_row as_of row db)

pub record Accrued : Type 0 where
  pub employee : Employee
  pub as_of : Date
  pub buckets : List Bucket

-- The part of `ensureAccrual` that follows `asOf < hire`.
unfoldable pub accrue : Employee → Date → Store → Store
accrue employee as_of db =
    let years_started = completed_years_of_service employee.employment_start_date as_of in
    let by_start = start_map (buckets_of db employee.id) [] in
    let db1 = (accrue_years (years_started + 1) employee as_of 0 (db, by_start)).0 in
    expire_rows as_of
      (filter (λ b. (b.employee_id == employee.id) && is_opened b.status) db1.buckets) db1

module _ (today_in_zone : String → Date) where
  unfoldable pub as_of_for_employee : Employee → Date
  as_of_for_employee e =
      today_in_zone (get_or e.office_timezone (get_or e.schedule_timezone "Africa/Addis_Ababa"))

  unfoldable pub ensure_accrual : Store → ℕ → Option Date → Result (Store × Accrued)
  ensure_accrual db employee_id as_of_input = do
    employee ← load_employee db employee_id
    let as_of = get_or as_of_input (as_of_for_employee employee)
    let db1 = accrue employee as_of db
    if before as_of employee.employment_start_date
        then ok (db, record { employee = employee; as_of = as_of; buckets = [] })
        else ok (
          db1,
          record { employee = employee; as_of = as_of; buckets = buckets_of db1 employee_id },
        )
