-- ===== src/Leave/Annual/Service/Reserve.antt =====
-- When a reservation is granted (`reserve` of src/modules/leave/annual-leave.service.ts).
use Prim.Native.String.{String}
use native.Mathlib.Decide.{dec_le}
use workforce_app_backend.Common.{ℕ, ◌≤◌, ◌<◌, ◌≡◌, refl, Bool, true, false, none, List, arith, map}
use workforce_app_backend.Common.Int.{pos}
use workforce_app_backend.Common.Result.{ok, err, app_error}
use workforce_app_backend.Calendar.{Date}
use workforce_app_backend.Leave.Fifo.{
  FifoBucket, FifoAllocation, FifoResult, enough, short, allocate_fifo, allocations_of,
  shortfall_of,
}
use workforce_app_backend.Leave.Fifo.Exact.{available, granted, allocate_fifo-exact}
use workforce_app_backend.Leave.Annual.{Bucket, Store, open_buckets_oldest_first}
use workforce_app_backend.Leave.Annual.Accrual.{Accrued, ensure_accrual}
use workforce_app_backend.Leave.Annual.Apply.{
  reserving, to_fifo, choose_allocations, apply_all, apply_to_buckets,
}
use workforce_app_backend.Leave.Annual.Service.{reserve}

-- The leave years that a request may be charged to can give this many days together.
abbrev pub available_days : Store → ℕ → ℕ
available_days db employee_id = available (map to_fifo (open_buckets_oldest_first db employee_id))

abbrev is_enough : FifoResult → Bool
is_enough (enough _) = true
is_enough (short _ _) = false

choose_refuses :
    (rows : List Bucket) (r : FifoResult)
    → 0 < shortfall_of r
    → choose_allocations false rows r ≡ err (app_error 422 "INSUFFICIENT_LEAVE_BALANCE")
unfolding choose_allocations
choose_refuses rows (enough as') h = absurd (omega arith)
choose_refuses rows (short n as') h = refl

choose_grants :
    (rows : List Bucket) (r : FifoResult)
    → is_enough r ≡ true
    → choose_allocations false rows r ≡ ok (allocations_of r)
unfolding choose_allocations
choose_grants rows (enough as') h = refl
choose_grants rows (short n as') h = absurd (ground arith)

pub fifo-is_enough :
    (buckets : List FifoBucket) (days : ℕ)
    → shortfall_of (allocate_fifo buckets (pos days)) ≡ 0
    → is_enough (allocate_fifo buckets (pos days)) ≡ true
unfolding allocate_fifo
fifo-is_enough buckets days h = ground arith

module _ (today_in_zone : String → Date) (db : Store) (employee_id request days : ℕ) {db1 : Store}
    {accrued : Accrued}
    (accrual : ensure_accrual today_in_zone db employee_id none ≡ ok (db1, accrued)) where
  abbrev rows : List Bucket
  rows = open_buckets_oldest_first db1 employee_id

  abbrev chosen : FifoResult
  chosen = allocate_fifo (map to_fifo rows) (pos days)

  apply_refuses :
      available_days db1 employee_id < days
      → apply_to_buckets db1 employee_id request days reserving false
        ≡ err (app_error 422 "INSUFFICIENT_LEAVE_BALANCE")
  unfolding apply_to_buckets
  apply_refuses h = rw (
    choose_refuses rows chosen (omega (arith, allocate_fifo-exact (map to_fifo rows) (pos days))),
    apply_to_buckets,
  )

  apply_grants :
      days ≤ available_days db1 employee_id
      → apply_to_buckets db1 employee_id request days reserving false
        ≡ ok (
          apply_all reserving employee_id request rows (allocations_of chosen) db1,
          allocations_of chosen,
        )
  unfolding apply_to_buckets
  apply_grants h = rw (
    choose_grants rows chosen (
        fifo-is_enough (map to_fifo rows) days
          (omega (arith, allocate_fifo-exact (map to_fifo rows) (pos days)))),
    apply_to_buckets,
  )

  -- Where accrual succeeds, a reservation of more days than the open leave years then give together
  -- is refused, with 422.
  pub reserve-refuses :
      available_days db1 employee_id < days
      → reserve today_in_zone db employee_id request days
        ≡ err (app_error 422 "INSUFFICIENT_LEAVE_BALANCE")
  unfolding reserve
  reserve-refuses h = rw accrual (apply_refuses h)

  -- Where accrual succeeds, a reservation of no more days than the open leave years then give
  -- together is granted, and the days that are allocated are exactly those requested.
  pub reserve-grants :
      days ≤ available_days db1 employee_id
      → (db' : Store) × (allocations : List FifoAllocation) × (reserve today_in_zone db employee_id
            request days
          ≡ ok (db', allocations))
        × (granted allocations ≡ days)
  unfolding reserve
  reserve-grants h = (
    apply_all reserving employee_id request rows (allocations_of chosen) db1,
    allocations_of chosen,
    rw accrual (apply_grants h),
    omega (arith, allocate_fifo-exact (map to_fifo rows) (pos days)),
  )

  pub reserve-applied :
      {db' : Store} {allocations : List FifoAllocation}
      → reserve today_in_zone db employee_id request days ≡ ok (db', allocations)
      → apply_to_buckets db1 employee_id request days reserving false ≡ ok (db', allocations)
  unfolding reserve
  reserve-applied e = rw accrual at e

  -- Where accrual succeeds, a reservation succeeds only where the open leave years can give the
  -- days, and the days that it allocates are exactly those requested.
  pub reserve-exact :
      {db' : Store} {allocations : List FifoAllocation}
      → reserve today_in_zone db employee_id request days ≡ ok (db', allocations)
      → (days ≤ available_days db1 employee_id) × (granted allocations ≡ days)
  reserve-exact {allocations} e = elim (dec_le days (available_days db1 employee_id)) [
    | yes fits ↦
        let (_, given, e', total) = reserve-grants fits in
        let same : given ≡ allocations = cc in (fits, rw same at total)
    | no over ↦ let refused = reserve-refuses (omega arith) in absurd (cc)
  ]
