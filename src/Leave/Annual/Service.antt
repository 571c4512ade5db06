-- ===== src/Leave/Annual/Service.antt =====
-- `annualLeaveService`: reserving days for a request, consuming or releasing them
-- (src/modules/leave/annual-leave.service.ts). A transaction that fails
-- returns no store: its caller keeps the one that it had.
pub mod Release
pub mod Reserve
pub mod Settle
use Prim.Native.String.{String}
use workforce_app_backend.Common.{
  ℕ, zero, suc, ◌+◌, ◌-◌, Bool, true, false, not, ◌&&◌, ◌||◌, Option, none, some, List, [], ◌∷◌,
  ◌==◌, ltb, filter, any, is_empty, get_last?, map, if◌then◌else◌,
}
use workforce_app_backend.Common.Int.{ℤ, pos, negsuc, neg_part, pos_part}
use workforce_app_backend.Common.Result.{
  Result, ok, err, app_error, or_throw, throw_if, ◌>>=◌, ◌>>◌,
}
use workforce_app_backend.Common.Table.{find_by, order_by}
use workforce_app_backend.Calendar.{Date, day_number}
use workforce_app_backend.Leave.Fifo.{FifoAllocation, FifoResult, allocate_fifo}
use workforce_app_backend.Leave.Annual.{
  Bucket, LedgerType, LedgerRow, AllocationRow, RequestStatus, LeaveRequest, Employee, Store,
  bucket_id_of, employee_id_of, request_id_of, write_ledger, update_bucket,
  open_buckets_oldest_first,
}
use workforce_app_backend.Leave.Annual.Accrual.{ensure_accrual}
use workforce_app_backend.Leave.Annual.Apply.{Mode, reserving, consuming, to_fifo, apply_to_buckets}

-- A row for one leave year, with its sign.
abbrev ledger_row : Bucket → Option ℕ → LedgerType → ℤ → Option String → LedgerRow
ledger_row b request type days note = record {
  employee_id = b.employee_id;
  bucket_id = b.id;
  leave_request_id = request;
  type = type;
  days = days;
  note = note;
}

abbrev pub is_active : RequestStatus → Bool
is_active RequestStatus.pending = true
is_active RequestStatus.approved = true
is_active _ = false

abbrev pub mode_for : RequestStatus → Mode
mode_for RequestStatus.approved = consuming
mode_for _ = reserving

abbrev pub keep_on_error : Store → Result (Store × List FifoAllocation) → Store
keep_on_error db (ok (db', _)) = db'
keep_on_error db (err _) = db

-- The loop of `syncUsageFromRequests`; `done` holds the requests that have allocations.
unfoldable pub sync_requests : List ℕ → List LeaveRequest → Store → Store
sync_requests done [] db = db
sync_requests done (r ∷ requests) db = sync_requests done requests (
    if any (λ id. id == r.id) done
    then db
    else keep_on_error db
        (apply_to_buckets db r.employee_id r.id r.number_of_days (mode_for r.status) true))

-- The allocated requests of an employee, through the relation to the request.
unfoldable pub allocated_requests : Store → ℕ → List ℕ
allocated_requests db employee_id =
    map (λ (a : AllocationRow). a.leave_request_id)
      (filter
        (λ (a : AllocationRow).
          any (λ (r : LeaveRequest). (r.id == a.leave_request_id) && (r.employee_id == employee_id))
            db.requests)
        db.allocations)

unfoldable pub requests_to_sync : Store → Employee → List LeaveRequest
requests_to_sync db employee =
    order_by (λ r. day_number r.start_date)
      (order_by (λ r. r.requested_at)
        (filter
          (λ r.
            (r.employee_id == employee.id)
            && is_active r.status
            && r.tracks_balance
            && (r.type_organization_id == employee.organization_id))
          db.requests))

unfoldable pub sync_usage_from_requests : Store → ℕ → Store
unfolding sync_requests allocated_requests requests_to_sync
sync_usage_from_requests db employee_id = elim (find_by employee_id_of employee_id db.employees) [
  | none ↦ db
  | some employee ↦
      sync_requests (allocated_requests db employee_id) (requests_to_sync db employee) db
]

-- The rows of `leaveBalanceAllocation.findMany({ where: { leaveRequestId } })`.
abbrev pub allocations_for : ℕ → List AllocationRow → List AllocationRow
allocations_for request rows = filter (λ a. a.leave_request_id == request) rows

-- `include: { bucket: true }` reads the leave year before the loop; the foreign key says that it is
-- there.
abbrev pub with_bucket : List Bucket → AllocationRow → (Bucket → Store → Store) → Store → Store
with_bucket snapshot a f db = elim (find_by bucket_id_of a.bucket_id snapshot) [
  | none ↦ db
  | some b ↦ f b db
]

abbrev pub consume_days : ℕ → Bucket → Bucket → Bucket
consume_days days row b = record b {
  pending_days = row.pending_days - days;
  used_days = row.used_days + days;
}

unfoldable pub consume_rows : ℕ → List Bucket → List AllocationRow → Store → Store
unfolding write_ledger
consume_rows request snapshot [] db = db
consume_rows request snapshot (a ∷ rest) db = consume_rows request snapshot rest (
    with_bucket snapshot a
      (λ b db.
        write_ledger (update_bucket db b.id (consume_days a.days b))
          (ledger_row b (some request) LedgerType.consume (pos a.days) none))
      db)

pub data ReleaseMode : Type 0 where
  from_pending from_used : ReleaseMode

abbrev pub release_days : ReleaseMode → ℕ → Bucket → Bucket → Bucket
release_days from_pending days row b = record b { pending_days = row.pending_days - days }
release_days from_used days row b = record b { used_days = row.used_days - days }

unfoldable pub release_rows : ReleaseMode → ℕ → List Bucket → List AllocationRow → Store → Store
unfolding write_ledger
release_rows mode request snapshot [] db = db
release_rows mode request snapshot (a ∷ rest) db = release_rows mode request snapshot rest (
    with_bucket snapshot a
      (λ b db.
        write_ledger (update_bucket db b.id (release_days mode a.days b))
          (ledger_row b (some request) LedgerType.release (pos a.days) none))
      db)

-- `deleteMany({ where: { leaveRequestId } })`
abbrev pub delete_allocations : ℕ → List AllocationRow → List AllocationRow
delete_allocations request rows = filter (λ a. not (a.leave_request_id == request)) rows

unfoldable pub release : Store → ℕ → ReleaseMode → Store
unfolding release_rows
release db request mode =
    let mine = allocations_for request db.allocations in
    let released = release_rows mode request db.buckets mine db in
    if is_empty mine
    then released
    else record released { allocations = delete_allocations request released.allocations }

module _ (today_in_zone : String → Date) where
  unfoldable pub reserve : Store → ℕ → ℕ → ℕ → Result (Store × List FifoAllocation)
  reserve db employee_id request days = do
    (db1, _) ← ensure_accrual today_in_zone db employee_id none
    apply_to_buckets db1 employee_id request days reserving false

  -- The branch of `consumeReserved` where nothing was reserved.
  unfoldable pub consume_unreserved : Store → ℕ → Result Store
  consume_unreserved db request = elim (find_by request_id_of request db.requests) [
    | none ↦ ok db
    | some r ↦ do
      (db1, _) ← ensure_accrual today_in_zone db r.employee_id none
      (db2, _) ← apply_to_buckets db1 r.employee_id request r.number_of_days consuming true
      ok db2
  ]

  unfoldable pub consume_reserved : Store → ℕ → Result Store
  unfolding consume_unreserved consume_rows
  consume_reserved db request =
      let mine = allocations_for request db.allocations in
      if is_empty mine
      then consume_unreserved db request
      else ok (consume_rows request db.buckets mine db)
