-- ===== src/Leave/Annual/Balance.antt =====
-- The balance that is shown to an employee, its rebuilding and its adjustment: `toBalanceDto`,
-- `balanceForEmployee`, `rebuild` and `adjust` of src/modules/leave/annual-leave.service.ts. Dates
-- are kept as dates where the source prints them.
pub mod Deduct
pub mod Shown
use Prim.Native.String.{String}
use workforce_app_backend.Common.{
  ℕ, ◌+◌, Bool, true, false, not, ◌&&◌, Option, none, some, List, [], ◌∷◌, ◌==◌, ltb, map, filter,
  any, find, sum_by, get_last?, is_some, if◌then◌else◌,
}
use workforce_app_backend.Common.Int.{ℤ, pos, negsuc, pos_part, sub_ℕ, ◌+ℤ◌}
use workforce_app_backend.Common.Result.{
  Result, ok, err, app_error, or_throw, throw_if, ◌>>=◌, ◌>>◌,
}
use workforce_app_backend.Common.Table.{find_by}
use workforce_app_backend.Calendar.{date_eq, Date}
use workforce_app_backend.Leave.Fifo.{FifoAllocation, FifoResult, enough, short, allocate_fifo}
use workforce_app_backend.Leave.Policy.{
  completed_years_of_service, service_months, annual_entitlement, leave_year_period,
}
use workforce_app_backend.Leave.Annual.{
  Bucket, BucketStatus, LedgerType, AllocationRow, LeaveRequest, Store, bucket_id_of, is_opened,
  remaining_of, write_ledger, update_bucket, open_buckets_oldest_first,
}
use workforce_app_backend.Leave.Annual.Accrual.{Accrued, ensure_accrual}
use workforce_app_backend.Leave.Annual.Apply.{to_fifo, charge, consuming}
use workforce_app_backend.Leave.Annual.Service.{sync_usage_from_requests}

pub data BucketKind : Type 0 where
  current carry past : BucketKind

pub record BucketDto : Type 0 where
  pub id : ℕ
  pub period_start : Date
  pub period_end : Date
  pub service_years : ℕ
  pub granted : ℕ
  pub used : ℕ
  pub pending : ℕ
  pub expired : ℕ
  pub remaining : ℤ
  pub expires_on : Date
  pub kind : BucketKind

pub record BalanceDto : Type 0 where
  pub hire_date : Date
  pub as_of : Date
  pub completed_years : ℕ
  pub service_months_this_year : ℕ
  pub current_year_grant : ℕ
  pub carried_in : ℕ
  pub entitled_total : ℕ
  pub used : ℕ
  pub pending : ℕ
  pub expired : ℕ
  pub available : ℕ
  pub next_anniversary : Date
  pub next_year_grant : ℕ
  pub buckets : List BucketDto

abbrev pub bucket_kind : Date → Bucket → BucketKind
bucket_kind current_start b =
    if is_opened b.status
    then (if date_eq b.period_start current_start then current else carry)
    else past

abbrev pub bucket_dto : Date → Bucket → BucketDto
bucket_dto current_start b = record {
  id = b.id;
  period_start = b.period_start;
  period_end = b.period_end;
  service_years = b.service_years;
  granted = b.granted_days;
  used = b.used_days;
  pending = b.pending_days;
  expired = b.expired_days;
  remaining = remaining_of b;
  expires_on = b.expires_on;
  kind = bucket_kind current_start b;
}

abbrev pub is_current : BucketKind → Bool
is_current current = true
is_current _ = false

abbrev pub is_carry : BucketKind → Bool
is_carry carry = true
is_carry _ = false

abbrev pub is_past : BucketKind → Bool
is_past past = true
is_past _ = false

abbrev pub granted_or : Option BucketDto → ℕ → ℕ
granted_or none grant = grant
granted_or (some b) grant = b.granted

unfoldable pub total_remaining : List BucketDto → ℤ
total_remaining [] = pos 0
total_remaining (b ∷ buckets) = b.remaining +ℤ total_remaining buckets

unfoldable pub to_balance_dto : Date → Date → List Bucket → BalanceDto
to_balance_dto hire as_of buckets =
    let years = completed_years_of_service hire as_of in
    let period = leave_year_period hire years in
    let next = leave_year_period hire (years + 1) in
    let mapped = map (bucket_dto period.start) buckets in
    let opened = filter (λ (b : BucketDto). not (is_past b.kind)) mapped in
    record {
      hire_date = hire;
      as_of = as_of;
      completed_years = years;
      service_months_this_year =
          if ltb years 1 then service_months hire as_of else service_months period.start as_of;
      current_year_grant =
          granted_or (find (λ (b : BucketDto). is_current b.kind) opened)
            (annual_entitlement years hire as_of period.stop);
      carried_in =
          sum_by (λ (b : BucketDto). pos_part b.remaining)
            (filter (λ (b : BucketDto). is_carry b.kind) opened);
      entitled_total = sum_by (λ (b : BucketDto). b.granted) opened;
      used = sum_by (λ (b : BucketDto). b.used) opened;
      pending = sum_by (λ (b : BucketDto). b.pending) opened;
      expired = sum_by (λ (b : BucketDto). b.expired) mapped;
      available = pos_part (total_remaining opened);
      next_anniversary = next.start;
      next_year_grant = annual_entitlement (years + 1) hire next.start next.stop;
      buckets = mapped;
    }

-- The round of the loop that deducts; `row` is the row as it was read before the loop.
unfoldable pub deduct_row : ℕ → Option ℕ → String → List Bucket → FifoAllocation → Store → Store
deduct_row employee_id request note opened_rows a db =
    elim (find_by bucket_id_of a.bucket_id opened_rows) [
      | none ↦ db
      | some row ↦ write_ledger (update_bucket db row.id (charge consuming a.days row)) (record {
        employee_id = employee_id;
        bucket_id = row.id;
        leave_request_id = request;
        type = LedgerType.adjust;
        days = sub_ℕ 0 a.days;
        note = some note;
      })
    ]

unfoldable pub deduct_rows :
    ℕ → Option ℕ → String → List Bucket → List FifoAllocation → Store → Store
deduct_rows employee_id request note opened_rows [] db = db
deduct_rows employee_id request note opened_rows (a ∷ rest) db =
    deduct_rows employee_id request note opened_rows rest
      (deduct_row employee_id request note opened_rows a db)

-- A negative adjustment uses days of the open leave years, oldest first.
unfoldable pub deduct : Store → ℕ → ℕ → String → Option ℕ → Result Store
deduct db employee_id need note request =
    let opened_rows = open_buckets_oldest_first db employee_id in
    elim (allocate_fifo (map to_fifo opened_rows) (pos need)) [
      | short shortfall allocations ↦ err (app_error 422 "INSUFFICIENT_LEAVE_BALANCE")
      | enough allocations ↦ ok (deduct_rows employee_id request note opened_rows allocations db)
    ]

abbrev pub raise_granted : ℕ → Bucket → Bucket → Bucket
raise_granted amount row b = record b { granted_days = row.granted_days + amount }

-- A positive adjustment is granted to the newest open leave year.
unfoldable pub credit : Store → ℕ → ℕ → String → Option ℕ → Result Store
credit db employee_id amount note request =
    or_throw (get_last? (open_buckets_oldest_first db employee_id))
      (app_error 422 "NO_LEAVE_BUCKET")
    >>= λ newest. ok (
        write_ledger (update_bucket db newest.id (raise_granted amount newest)) (record {
          employee_id = employee_id;
          bucket_id = newest.id;
          leave_request_id = request;
          type = LedgerType.adjust;
          days = pos amount;
          note = some note;
        }))

unfoldable pub adjust_by : Store → ℕ → ℤ → String → Option ℕ → Result Store
adjust_by db employee_id (pos amount) note request = credit db employee_id amount note request
adjust_by db employee_id (negsuc n) note request = deduct db employee_id (n + 1) note request

abbrev pub is_zero : ℤ → Bool
is_zero (pos n) = n == 0
is_zero (negsuc n) = false

unfoldable pub of_employee : Store → ℕ → ℕ → Bool
of_employee db employee_id request =
    any (λ (r : LeaveRequest). (r.id == request) && (r.employee_id == employee_id)) db.requests

-- The deletions of `rebuild`.
unfoldable pub clear_employee : Store → ℕ → Store
clear_employee db employee_id = record db {
  allocations =
      filter (λ (a : AllocationRow). not (of_employee db employee_id a.leave_request_id))
        db.allocations;
  ledger = filter (λ row. not (row.employee_id == employee_id)) db.ledger;
  buckets = filter (λ (b : Bucket). not (b.employee_id == employee_id)) db.buckets;
}

module _ (today_in_zone : String → Date) where
  unfoldable pub balance_for_employee : Store → ℕ → Option Date → Result (Store × BalanceDto)
  balance_for_employee db employee_id as_of = do
    (db1, _) ← ensure_accrual today_in_zone db employee_id as_of
    (db2, accrued) ←
        ensure_accrual today_in_zone (sync_usage_from_requests db1 employee_id) employee_id as_of
    ok (db2, to_balance_dto accrued.employee.employment_start_date accrued.as_of accrued.buckets)

  unfoldable pub rebuild : Store → ℕ → Result Store
  rebuild db employee_id = do
    (db1, _) ← ensure_accrual today_in_zone (clear_employee db employee_id) employee_id none
    ok (sync_usage_from_requests db1 employee_id)

  unfoldable pub adjust : Store → ℕ → ℤ → String → Option ℕ → Result (Store × BalanceDto)
  adjust db employee_id amount note request = do
    throw_if (is_zero amount) (app_error 422 "INVALID_ADJUSTMENT")
    (db1, _) ← ensure_accrual today_in_zone db employee_id none
    db2 ← adjust_by db1 employee_id amount note request
    (db3, accrued) ← ensure_accrual today_in_zone db2 employee_id none
    ok (db3, to_balance_dto accrued.employee.employment_start_date accrued.as_of accrued.buckets)
