-- ===== src/Leave/Annual/Apply.antt =====
-- `applyToBuckets`: a request is spread over the open leave years, oldest first.
pub mod Keys
pub mod Rows
use workforce_app_backend.Common.{
  ℕ, ◌+◌, Bool, true, false, ◌&&◌, Option, none, some, List, [], ◌∷◌, ◌++◌, ◌==◌, ltb, map,
  if◌then◌else◌, get_last?,
}
use workforce_app_backend.Common.Int.{pos}
use workforce_app_backend.Common.Result.{Result, ok, err, app_error}
use workforce_app_backend.Common.Table.{find_by, update_by, has_key}
use workforce_app_backend.Leave.Fifo.{
  FifoBucket, FifoAllocation, FifoResult, enough, short, allocate_fifo,
}
use workforce_app_backend.Leave.Annual.{
  Bucket, AllocationRow, LedgerType, reserve, consume, Store, bucket_id_of, remaining_of,
  write_ledger, update_bucket, open_buckets_oldest_first,
}

pub data Mode : Type 0 where
  reserving consuming : Mode

abbrev pub allocation_bucket : FifoAllocation → ℕ
allocation_bucket a = a.bucket_id

abbrev pub to_fifo : Bucket → FifoBucket
to_fifo b = record { id = b.id; remaining = remaining_of b }

abbrev pub add_days : ℕ → FifoAllocation → FifoAllocation
add_days n a = record a { days = a.days + n }

-- With `allowOverdraw` the newest open leave year takes the shortfall.
unfoldable pub overdraw : Option Bucket → ℕ → List FifoAllocation → List FifoAllocation
overdraw none shortfall allocations = allocations
overdraw (some newest) shortfall allocations =
    if ltb 0 shortfall
    then if has_key allocation_bucket newest.id allocations
      then update_by allocation_bucket newest.id (add_days shortfall) allocations
      else allocations ++ record { bucket_id = newest.id; days = shortfall } ∷ []
    else allocations

abbrev pub charge : Mode → ℕ → Bucket → Bucket → Bucket
charge reserving days row b = record b { pending_days = row.pending_days + days }
charge consuming days row b = record b { used_days = row.used_days + days }

abbrev pub ledger_type : Mode → LedgerType
ledger_type reserving = reserve
ledger_type consuming = consume

-- `leaveBalanceAllocation.upsert` on the key of request and bucket.
unfoldable pub upsert_allocation : ℕ → FifoAllocation → List AllocationRow → List AllocationRow
upsert_allocation request a [] =
    record { leave_request_id = request; bucket_id = a.bucket_id; days = a.days } ∷ []
upsert_allocation request a (r ∷ rows) =
    if (r.leave_request_id == request) && (r.bucket_id == a.bucket_id)
    then record r { days = a.days } ∷ rows
    else r ∷ upsert_allocation request a rows

-- One round of the loop over the allocations; `row` is the row as it was read before the loop.
unfoldable pub apply_allocation : Mode → ℕ → ℕ → List Bucket → FifoAllocation → Store → Store
unfolding write_ledger upsert_allocation
apply_allocation mode employee_id request opened_rows a db =
    elim (find_by bucket_id_of a.bucket_id opened_rows) [
      | none ↦ db
      | some row ↦
          let charged = update_bucket db row.id (charge mode a.days row) in
          let logged = write_ledger charged (record {
            employee_id = employee_id;
            bucket_id = row.id;
            leave_request_id = some request;
            type = ledger_type mode;
            days = pos a.days;
            note = none;
          }) in
          record logged { allocations = upsert_allocation request a logged.allocations }
    ]

unfoldable pub apply_all : Mode → ℕ → ℕ → List Bucket → List FifoAllocation → Store → Store
apply_all mode employee_id request opened_rows [] db = db
apply_all mode employee_id request opened_rows (a ∷ rest) db =
    apply_all mode employee_id request opened_rows rest
      (apply_allocation mode employee_id request opened_rows a db)

-- The allocations to make, or the refusal.
unfoldable pub choose_allocations : Bool → List Bucket → FifoResult → Result (List FifoAllocation)
choose_allocations allow_overdraw opened_rows (enough allocations) = ok allocations
choose_allocations false opened_rows (short shortfall allocations) =
    err (app_error 422 "INSUFFICIENT_LEAVE_BALANCE")
choose_allocations true opened_rows (short shortfall allocations) =
    ok (overdraw (get_last? opened_rows) shortfall allocations)

unfoldable pub apply_to_buckets :
    Store → ℕ → ℕ → ℕ → Mode → Bool → Result (Store × List FifoAllocation)
apply_to_buckets db employee_id request days mode allow_overdraw =
    let opened_rows = open_buckets_oldest_first db employee_id in
    elim (choose_allocations allow_overdraw opened_rows
      (allocate_fifo (map to_fifo opened_rows) (pos days))) [
        | err e ↦ err e
        | ok allocations ↦
            ok (apply_all mode employee_id request opened_rows allocations db, allocations)
      ]
