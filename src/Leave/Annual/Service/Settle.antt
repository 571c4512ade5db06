-- ===== src/Leave/Annual/Service/Settle.antt =====
-- A reservation followed by its release or its consumption
-- (src/modules/leave/annual-leave.service.ts).
use Prim.Native.String.{String}
use mathlib.Core.Option
use workforce_app_backend.Common.{
  ℕ, ◌+◌, ◌<◌, ◌≡◌, refl, ap, ◌∙◌, false, Option, none, some, List, [], ◌∷◌, ◌++◌, arith, map,
  is_empty,
}
use workforce_app_backend.Common.Result.{ok}
use workforce_app_backend.Common.Table.{find_by, has_key, HasDistinctKeys}
use workforce_app_backend.Common.Table.Snapshot.{days_for}
use workforce_app_backend.Calendar.{Date}
use workforce_app_backend.Leave.Fifo.{FifoAllocation}
use workforce_app_backend.Leave.Fifo.Exact.{granted}
use workforce_app_backend.Leave.Annual.{Bucket, AllocationRow, Store, bucket_id_of}
use workforce_app_backend.Leave.Annual.Accrual.{Accrued, ensure_accrual}
use workforce_app_backend.Leave.Annual.Accrual.Sound.{IsSound, ensure_accrual-IsSound}
use workforce_app_backend.Leave.Annual.Apply.{
  reserving, charge, allocation_bucket, apply_to_buckets,
}
use workforce_app_backend.Leave.Annual.Apply.Rows.{
  IsUnallocated, entries_of, row_of, apply_to_buckets-buckets, apply_to_buckets-allocations, keys,
}
use workforce_app_backend.Leave.Annual.Service.{
  from_pending, release, release_days, reserve, allocations_for, delete_allocations, consume_days,
  consume_reserved, consume_rows,
}
use workforce_app_backend.Leave.Annual.Service.Reserve.{reserve-applied, reserve-exact}
use workforce_app_backend.Leave.Annual.Service.Release.{
  HasOneRowEach, row_bucket, row_days, release-buckets, release-allocations, consume_rows-moves,
}

-- The rows that a reservation adds are those of its request.
allocations_for-reserved :
    (request : ℕ) (rows : List AllocationRow) (allocations : List FifoAllocation)
    → IsUnallocated request rows
    → (allocations_for request (rows ++ map (row_of request) allocations)
        ≡ map (row_of request) allocations)
      × (delete_allocations request (rows ++ map (row_of request) allocations) ≡ rows)
allocations_for-reserved request [] [] h = (refl, refl)
allocations_for-reserved request [] (a ∷ rest) h =
    ground (arith, allocations_for-reserved request [] rest refl)
allocations_for-reserved request (r ∷ rows) allocations h =
    ground (arith, allocations_for-reserved request rows allocations)

row_days-reserved :
    (j request : ℕ) (allocations : List FifoAllocation)
    → row_days j (map (row_of request) allocations) ≡ days_for j (entries_of allocations)
row_days-reserved j request [] = refl
row_days-reserved j request (a ∷ rest) = rw (row_days-reserved j request rest)

has_key-reserved :
    (k request : ℕ) (allocations : List FifoAllocation)
    → has_key row_bucket k (map (row_of request) allocations)
      ≡ has_key allocation_bucket k allocations
has_key-reserved k request [] = refl
has_key-reserved k request (a ∷ rest) = ground (arith, has_key-reserved k request rest)

one_row_each-reserved :
    (request : ℕ) (allocations : List FifoAllocation)
    → HasDistinctKeys allocation_bucket allocations
    → HasDistinctKeys row_bucket (map (row_of request) allocations)
one_row_each-reserved request [] d = tt
one_row_each-reserved request (a ∷ rest) d =
    ground
      (arith, has_key-reserved a.bucket_id request rest, one_row_each-reserved request rest d.1)

release_of_charge :
    (n : ℕ) (o : Option Bucket)
    → Option.map (λ b. release_days from_pending n b b) (Option.map (λ b. charge reserving n b b) o)
      ≡ o
release_of_charge n none = refl
release_of_charge n (some b) = ground arith

-- The days as used days.
abbrev pub charge_used : ℕ → Bucket → Bucket
charge_used n b = record b { used_days = b.used_days + n }

consume_of_charge :
    (n : ℕ) (o : Option Bucket)
    → Option.map (λ b. consume_days n b b) (Option.map (λ b. charge reserving n b b) o)
      ≡ Option.map (charge_used n) o
consume_of_charge n none = refl
consume_of_charge n (some b) = ground arith

nonempty :
    (request : ℕ) (allocations : List FifoAllocation)
    → 0 < granted allocations
    → is_empty (map (row_of request) allocations) ≡ false
nonempty request [] h = absurd (omega arith)
nonempty request (a ∷ rest) h = refl

module _ (today_in_zone : String → Date) (db : Store) (employee_id request days : ℕ)
    {db1 db' : Store} {accrued : Accrued} {allocations : List FifoAllocation} (sound : IsSound db)
    (free : IsUnallocated request db.allocations)
    (accrual : ensure_accrual today_in_zone db employee_id none ≡ ok (db1, accrued))
    (reserved : reserve today_in_zone db employee_id request days ≡ ok (db', allocations)) where
  abbrev kept : IsSound db1 × (db1.allocations ≡ db.allocations) × (db1.requests ≡ db.requests)
  kept = ensure_accrual-IsSound today_in_zone db employee_id none sound accrual

  applied : apply_to_buckets db1 employee_id request days reserving false ≡ ok (db', allocations)
  applied = reserve-applied today_in_zone db employee_id request days accrual reserved

  after : db'.allocations ≡ db.allocations ++ map (row_of request) allocations
  after =
      apply_to_buckets-allocations db1 employee_id request days reserving false kept.0.distinct
        applied (rw kept.1 free)
      ∙ ap (λ rows. rows ++ map (row_of request) allocations) kept.1

  mine : allocations_for request db'.allocations ≡ map (row_of request) allocations
  mine = rw after ((allocations_for-reserved request db.allocations allocations free).0)

  one_row_each : HasOneRowEach db' request
  one_row_each = rw mine (
      one_row_each-reserved request allocations
        (keys db1 employee_id request days reserving false kept.0.distinct applied).0)

  -- A reservation for a request without allocations, on sound tables, and then its release: every
  -- leave year is as accrual left it, and the allocations are those before the reservation.
  pub release-reserve :
      (j : ℕ)
      → (find_by bucket_id_of j (release db' request from_pending).buckets
          ≡ find_by bucket_id_of j db1.buckets)
        × ((release db' request from_pending).allocations ≡ db.allocations)
  release-reserve j = (
    release-buckets db' request j from_pending one_row_each
        ∙ rw
            (
              mine,
              row_days-reserved j request allocations,
              apply_to_buckets-buckets db1 employee_id request days reserving false kept.0.distinct
                  applied j,
            )
            (release_of_charge (days_for j (entries_of allocations))
              (find_by bucket_id_of j db1.buckets)),
    release-allocations db' request from_pending
        ∙ rw after ((allocations_for-reserved request db.allocations allocations free).1),
  )

  some_row : 0 < days → is_empty (map (row_of request) allocations) ≡ false
  some_row h =
      nonempty request allocations (
        omega (arith, (reserve-exact today_in_zone db employee_id request days accrual reserved).1))

  -- A reservation of a positive number of days for a request without allocations, on sound tables,
  -- and then its consumption, which succeeds: each leave year has its share of the request as used
  -- days, and is otherwise as accrual left it.
  pub consume_reserved-reserve :
      (j : ℕ)
      → 0 < days
      → (settled : Store) × (consume_reserved today_in_zone db' request ≡ ok settled)
        × (find_by bucket_id_of j settled.buckets
            ≡ Option.map
                (charge_used (days_for j (entries_of allocations)))
                (find_by bucket_id_of j db1.buckets))
  unfolding consume_reserved
  consume_reserved-reserve j h = (
    consume_rows request db'.buckets (allocations_for request db'.allocations) db',
    rw (mine, some_row h),
    consume_rows-moves db' request j one_row_each
        ∙ rw
            (
              mine,
              row_days-reserved j request allocations,
              apply_to_buckets-buckets db1 employee_id request days reserving false kept.0.distinct
                  applied j,
            )
            (consume_of_charge (days_for j (entries_of allocations))
              (find_by bucket_id_of j db1.buckets)),
  )
