-- ===== src/Leave/Annual.antt =====
-- The tables behind src/modules/leave/annual-leave.service.ts (prisma/schema.prisma: Employee,
-- AnnualLeaveBucket, AnnualLeaveLedger, LeaveBalanceAllocation, LeaveRequest), with days of leave in
-- hundredths, and the small readers of that file.
pub mod Accrual
pub mod Apply
pub mod Service
pub mod Balance
pub mod Kept
use Prim.Native.String.{String}
use workforce_app_backend.Common.{
  ℕ, ◌+◌, Bool, true, false, ◌&&◌, Option, none, List, [], ◌∷◌, ◌++◌, ◌==◌, filter,
}
use workforce_app_backend.Common.Int.{ℤ, sub_ℕ}
use workforce_app_backend.Common.Result.{Result, or_throw, app_error}
use workforce_app_backend.Common.Table.{find_by, update_by, order_by}
use workforce_app_backend.Calendar.{Date, day_number}
use workforce_app_backend.Leave.DayFraction.{LeaveDayPlan}

pub data BucketStatus : Type 0 where
  opened expired : BucketStatus

pub record Bucket : Type 0 where
  pub id : ℕ
  pub organization_id : ℕ
  pub employee_id : ℕ
  pub period_start : Date
  pub period_end : Date
  pub expires_on : Date
  pub service_years : ℕ
  pub granted_days : ℕ
  pub used_days : ℕ
  pub pending_days : ℕ
  pub expired_days : ℕ
  pub status : BucketStatus

pub data LedgerType : Type 0 where
  grant top_up reserve release consume expire adjust : LedgerType

pub record LedgerRow : Type 0 where
  pub employee_id : ℕ
  pub bucket_id : ℕ
  pub leave_request_id : Option ℕ
  pub type : LedgerType
  pub days : ℤ
  pub note : Option String

pub record AllocationRow : Type 0 where
  pub leave_request_id : ℕ
  pub bucket_id : ℕ
  pub days : ℕ

pub data RequestStatus : Type 0 where
  pending approved rejected cancelled : RequestStatus

-- `tracks_balance` is that of the request's leave type.
pub record LeaveRequest : Type 0 where
  pub id : ℕ
  pub employee_id : ℕ
  pub tracks_balance : Bool
  pub type_organization_id : ℕ
  pub start_date : Date
  pub end_date : Date
  pub requested_at : ℕ
  pub number_of_days : ℕ
  pub days : List LeaveDayPlan
  pub status : RequestStatus

-- The timezones are those of the employee's office and schedule, if there are any.
pub record Employee : Type 0 where
  pub id : ℕ
  pub organization_id : ℕ
  pub employment_start_date : Date
  pub office_timezone : Option String
  pub schedule_timezone : Option String

-- `next_id` is the next identifier that the database generates.
pub record Store : Type 0 where
  pub employees : List Employee
  pub buckets : List Bucket
  pub ledger : List LedgerRow
  pub allocations : List AllocationRow
  pub requests : List LeaveRequest
  pub next_id : ℕ

abbrev pub bucket_id_of : Bucket → ℕ
bucket_id_of b = b.id

abbrev pub employee_id_of : Employee → ℕ
employee_id_of e = e.id

abbrev pub request_id_of : LeaveRequest → ℕ
request_id_of r = r.id

abbrev pub is_opened : BucketStatus → Bool
is_opened opened = true
is_opened expired = false

-- `remainingOf` of annual-leave.policy.ts; `remainingFromRow` is the same on a row.
unfoldable pub remaining_of : Bucket → ℤ
remaining_of b = sub_ℕ b.granted_days (b.used_days + b.pending_days + b.expired_days)

unfoldable pub load_employee : Store → ℕ → Result Employee
load_employee db employee_id =
    or_throw (find_by employee_id_of employee_id db.employees) (app_error 404 "EMPLOYEE_NOT_FOUND")

unfoldable pub write_ledger : Store → LedgerRow → Store
write_ledger db row = record db { ledger = db.ledger ++ row ∷ [] }

abbrev pub update_bucket : Store → ℕ → (Bucket → Bucket) → Store
update_bucket db id f = record db { buckets = update_by bucket_id_of id f db.buckets }

unfoldable pub open_buckets_oldest_first : Store → ℕ → List Bucket
open_buckets_oldest_first db employee_id =
    order_by (λ b. day_number b.period_start)
      (filter (λ b. (b.employee_id == employee_id) && is_opened b.status) db.buckets)
