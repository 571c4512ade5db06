-- ===== src/Leave/Annual/Balance/Deduct.antt =====
-- A negative adjustment beside the consumption of a request (src/modules/leave/annual-leave.service.ts).
use Prim.Native.String.{String}
use workforce_app_backend.Common.{
  ℕ, ◌≡◌, refl, sym, ap, ◌∙◌, true, false, leb, inl, inr, Bool-cases, if◌then◌else◌, Option, List,
  [], ◌∷◌, arith, map,
}
use workforce_app_backend.Common.Int.{pos}
use workforce_app_backend.Common.Result.{Result, ok, err, app_error}
use workforce_app_backend.Common.Table.Snapshot.{snapshot_step, snapshot_loop}
use workforce_app_backend.Leave.Fifo.{
  FifoBucket, FifoAllocation, FifoResult, enough, short, allocate_fifo, shortfall_of,
}
use workforce_app_backend.Leave.Fifo.Exact.{available, allocate_fifo-exact}
use workforce_app_backend.Leave.Annual.Service.Reserve.{available_days, fifo-is_enough}
use workforce_app_backend.Leave.Annual.{
  Bucket, Store, bucket_id_of, write_ledger, open_buckets_oldest_first,
}
use workforce_app_backend.Leave.Annual.Apply.{
  consuming, charge, to_fifo, choose_allocations, apply_to_buckets,
}
use workforce_app_backend.Leave.Annual.Apply.Rows.{entry_of, entries_of, apply_all-buckets}
use workforce_app_backend.Leave.Annual.Balance.{deduct_row, deduct_rows, deduct}

-- The leave years after a run, or its error.
abbrev pub leave_years_of {ℓ} : {A : Type ℓ} → (A → Store) → Result A → Result (List Bucket)
leave_years_of store (ok a) = ok (store a).buckets
leave_years_of store (err e) = err e

short_by_available :
    (buckets : List FifoBucket) (need shortfall : ℕ) (allocations : List FifoAllocation)
    → allocate_fifo buckets (pos need) ≡ short shortfall allocations
    → leb need (available buckets) ≡ false
short_by_available buckets need shortfall allocations e =
    let exact = (allocate_fifo-exact buckets (pos need)).1 in
    let whole = fifo-is_enough buckets need in
    let missing = rw e at exact in
    elim (Bool-cases (leb need (available buckets))) [
      | inr over ↦ over
      | inl fits ↦
          let none_missing : shortfall_of (allocate_fifo buckets (pos need)) ≡ 0 =
            ground (arith, exact, fits) in
          absurd (ground (arith, rw e at (whole none_missing)))
    ]

enough_by_available :
    (buckets : List FifoBucket) (need : ℕ) (allocations : List FifoAllocation)
    → allocate_fifo buckets (pos need) ≡ enough allocations
    → leb need (available buckets) ≡ true
enough_by_available buckets need allocations e =
    let exact = rw e at ((allocate_fifo-exact buckets (pos need)).1) in ground (arith, exact)

module _ (employee_id : ℕ) (request : Option ℕ) (note : String) (opened_rows : List Bucket) where
  deduct_row-buckets :
      (a : FifoAllocation) (db : Store)
      → (deduct_row employee_id request note opened_rows a db).buckets
        ≡ snapshot_step bucket_id_of (charge consuming) opened_rows (entry_of a) db.buckets
  unfolding deduct_row write_ledger
  deduct_row-buckets a db = ground arith

  deduct_rows-buckets :
      (allocations : List FifoAllocation) (db : Store)
      → (deduct_rows employee_id request note opened_rows allocations db).buckets
        ≡ snapshot_loop bucket_id_of
            (charge consuming)
            opened_rows
            (entries_of allocations)
            db.buckets
  unfolding deduct_rows snapshot_loop
  deduct_rows-buckets [] db = refl
  deduct_rows-buckets (a ∷ rest) db =
      deduct_rows-buckets rest (deduct_row employee_id request note opened_rows a db)
      ∙ ap (snapshot_loop bucket_id_of (charge consuming) opened_rows (entries_of rest))
          (deduct_row-buckets a db)

-- A negative adjustment of no more days than the open leave years give together leaves the leave
-- years as the consumption of a request for the same days does (which the code always lets
-- overdraw); one of more days is refused, with 422.
pub deduct-eq-consume :
    (db : Store) (employee_id need r : ℕ) (note : String) (request : Option ℕ)
    → leave_years_of (λ after. after) (deduct db employee_id need note request) ≡ (
        if leb need (available_days db employee_id)
        then leave_years_of (λ out. out.0) (apply_to_buckets db employee_id r need consuming true)
        else err (app_error 422 "INSUFFICIENT_LEAVE_BALANCE"))
unfolding deduct apply_to_buckets choose_allocations
deduct-eq-consume db employee_id need r note request =
    by_result (allocate_fifo (map to_fifo opened_rows) (pos need)) refl
  where
    opened_rows : List Bucket
    opened_rows = open_buckets_oldest_first db employee_id

    by_result :
        (result : FifoResult)
        → allocate_fifo (map to_fifo opened_rows) (pos need) ≡ result
        → leave_years_of (λ after. after) (deduct db employee_id need note request) ≡ (
            if leb need (available_days db employee_id)
            then leave_years_of
                (λ out. out.0)
                (apply_to_buckets db employee_id r need consuming true)
            else err (app_error 422 "INSUFFICIENT_LEAVE_BALANCE"))
    by_result (short shortfall allocations) e =
        let missing : leb need (available_days db employee_id) ≡ false =
          short_by_available (map to_fifo opened_rows) need shortfall allocations e in
        rw (missing, e, deduct, apply_to_buckets) refl
    by_result (enough allocations) e =
        let there : leb need (available_days db employee_id) ≡ true =
          enough_by_available (map to_fifo opened_rows) need allocations e in
        rw (there, e, deduct, apply_to_buckets)
          (ap ok (
            deduct_rows-buckets employee_id request note opened_rows allocations db
            ∙ sym (apply_all-buckets consuming employee_id r opened_rows allocations db)))
