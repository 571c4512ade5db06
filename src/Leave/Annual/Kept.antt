-- ===== src/Leave/Annual/Kept.antt =====
-- What the operations of src/modules/leave/annual-leave.service.ts leave alone: the requests.
use Prim.Native.String.{String}
use workforce_app_backend.Common.{
  ℕ, zero, suc, ◌+◌, ◌≤◌, ◌≡◌, refl, ◌∙◌, Bool, true, false, Option, none, List, [], ◌∷◌, arith,
  inl, inr, Bool-cases, Option-cases, is_empty, any, ◌==◌, get_or,
}
use workforce_app_backend.Common.Result.{ok, first_step-eq-ok, Result-cases}
use workforce_app_backend.Common.Table.{find_by}
use workforce_app_backend.Calendar.{Date, before}
use workforce_app_backend.Leave.Fifo.{FifoAllocation}
use workforce_app_backend.Leave.Annual.{
  Bucket, AllocationRow, LeaveRequest, Employee, Store, request_id_of, write_ledger, load_employee,
  employee_id_of, open_buckets_oldest_first,
}
use workforce_app_backend.Leave.Annual.Accrual.{
  ByStart, accrue_year, accrue_years, expire_row, expire_rows, accrue, Accrued, ensure_accrual,
  as_of_for_employee,
}
use workforce_app_backend.Leave.Annual.Apply.{
  Mode, reserving, consuming, apply_allocation, apply_all, apply_to_buckets,
}
use workforce_app_backend.Leave.Annual.Apply.Rows.{apply_to_buckets-chosen}
use workforce_app_backend.Leave.Annual.Service.{
  allocated_requests, requests_to_sync, sync_requests, sync_usage_from_requests, reserve, release,
  ReleaseMode, release_rows, consume_rows, consume_unreserved, consume_reserved, allocations_for,
  keep_on_error, mode_for,
}
use workforce_app_backend.Leave.Annual.Balance.{balance_for_employee, BalanceDto}

-- The requests are as they were, and the identifiers to come are no earlier ones.
pub record Keeps (db db' : Store) : Type 0 where
  pub requests : db'.requests ≡ db.requests
  pub next : db.next_id ≤ db'.next_id

pub Keeps-refl : (db : Store) → Keeps db db
Keeps-refl db = record { requests = refl; next = omega arith }

pub Keeps-trans : {a b c : Store} → Keeps a b → Keeps b c → Keeps a c
Keeps-trans h k = record {
  requests = k.requests ∙ h.requests;
  next = omega (arith, h.next, k.next);
}

accrue_year-Keeps :
    (e : Employee) (as_of : Date) (n : ℕ) (db : Store) (m : ByStart)
    → Keeps db (accrue_year e as_of n (db, m)).0
unfolding accrue_year write_ledger
accrue_year-Keeps e as_of n db m = record { requests = ground arith; next = ground arith }

accrue_years-Keeps :
    (rounds : ℕ) (e : Employee) (as_of : Date) (n : ℕ) (db : Store) (m : ByStart)
    → Keeps db (accrue_years rounds e as_of n (db, m)).0
unfolding accrue_years
accrue_years-Keeps zero e as_of n db m = Keeps-refl db
accrue_years-Keeps (suc rounds) e as_of n db m =
    let after = accrue_year e as_of n (db, m) in
    Keeps-trans (accrue_year-Keeps e as_of n db m)
      (accrue_years-Keeps rounds e as_of (n + 1) after.0 after.1)

expire_row-Keeps : (as_of : Date) (row : Bucket) (db : Store) → Keeps db (expire_row as_of row db)
unfolding expire_row write_ledger
expire_row-Keeps as_of row db = record { requests = ground arith; next = ground arith }

expire_rows-Keeps :
    (as_of : Date) (rows : List Bucket) (db : Store) → Keeps db (expire_rows as_of rows db)
unfolding expire_rows
expire_rows-Keeps as_of [] db = Keeps-refl db
expire_rows-Keeps as_of (row ∷ rows) db =
    Keeps-trans (expire_row-Keeps as_of row db) (expire_rows-Keeps as_of rows _)

accrue-Keeps : (e : Employee) (as_of : Date) (db : Store) → Keeps db (accrue e as_of db)
unfolding accrue
accrue-Keeps e as_of db =
    Keeps-trans (accrue_years-Keeps _ e as_of 0 db _) (expire_rows-Keeps as_of _ _)

apply_allocation-Keeps :
    (mode : Mode) (employee_id request : ℕ) (opened_rows : List Bucket) (a : FifoAllocation)
    (db : Store)
    → Keeps db (apply_allocation mode employee_id request opened_rows a db)
unfolding apply_allocation write_ledger
apply_allocation-Keeps mode employee_id request opened_rows a db = record {
  requests = ground arith;
  next = ground arith;
}

apply_all-Keeps :
    (mode : Mode) (employee_id request : ℕ) (opened_rows : List Bucket)
    (allocations : List FifoAllocation) (db : Store)
    → Keeps db (apply_all mode employee_id request opened_rows allocations db)
unfolding apply_all
apply_all-Keeps mode employee_id request opened_rows [] db = Keeps-refl db
apply_all-Keeps mode employee_id request opened_rows (a ∷ rest) db =
    Keeps-trans (apply_allocation-Keeps mode employee_id request opened_rows a db)
      (apply_all-Keeps mode employee_id request opened_rows rest _)

pub apply_to_buckets-Keeps :
    (db : Store) (employee_id request days : ℕ) (mode : Mode) (allow_overdraw : Bool) {db' : Store}
    {allocations : List FifoAllocation}
    → apply_to_buckets db employee_id request days mode allow_overdraw ≡ ok (db', allocations)
    → Keeps db db'
apply_to_buckets-Keeps db employee_id request days mode allow_overdraw {db'} {allocations} e =
    let rows = open_buckets_oldest_first db employee_id in
    rw (← (apply_to_buckets-chosen db employee_id request days mode allow_overdraw e).1)
      (apply_all-Keeps mode employee_id request rows allocations db)

keep_on_error-Keeps :
    (db : Store) (employee_id request days : ℕ) (mode : Mode)
    → Keeps db (keep_on_error db (apply_to_buckets db employee_id request days mode true))
keep_on_error-Keeps db employee_id request days mode =
    elim (Result-cases (apply_to_buckets db employee_id request days mode true)) [
      | inl (thrown, e) ↦ rw e (Keeps-refl db)
      | inr ((db', allocations), e) ↦
          rw e (apply_to_buckets-Keeps db employee_id request days mode true e)
    ]

sync_requests-Keeps :
    (done : List ℕ) (requests : List LeaveRequest) (db : Store)
    → Keeps db (sync_requests done requests db)
unfolding sync_requests
sync_requests-Keeps done [] db = Keeps-refl db
sync_requests-Keeps done (r ∷ requests) db = elim (Bool-cases (any (λ id. id == r.id) done)) [
  | inl skipped ↦ rw skipped (sync_requests-Keeps done requests db)
  | inr new ↦ rw new (
      Keeps-trans (keep_on_error-Keeps db r.employee_id r.id r.number_of_days (mode_for r.status))
        (sync_requests-Keeps done requests _))
]

sync_usage_from_requests-Keeps :
    (db : Store) (employee_id : ℕ) → Keeps db (sync_usage_from_requests db employee_id)
unfolding sync_usage_from_requests
sync_usage_from_requests-Keeps db employee_id =
    elim (Option-cases (find_by employee_id_of employee_id db.employees)) [
      | inl e ↦ rw (e, sync_usage_from_requests) (Keeps-refl db)
      | inr (employee, e) ↦
          rw (e, sync_usage_from_requests)
            (sync_requests-Keeps (allocated_requests db employee_id) (requests_to_sync db employee)
              db)
    ]

release_rows-Keeps :
    (mode : ReleaseMode) (request : ℕ) (snapshot : List Bucket) (rows : List AllocationRow)
    (db : Store)
    → Keeps db (release_rows mode request snapshot rows db)
unfolding release_rows write_ledger
release_rows-Keeps mode request snapshot [] db = Keeps-refl db
release_rows-Keeps mode request snapshot (a ∷ rows) db =
    let one = release_rows mode request snapshot (a ∷ []) db in
    let step : Keeps db one = record { requests = ground arith; next = ground arith } in
    Keeps-trans step (release_rows-Keeps mode request snapshot rows one)

pub release-Keeps :
    (db : Store) (request : ℕ) (mode : ReleaseMode) → Keeps db (release db request mode)
unfolding release
release-Keeps db request mode =
    let mine = allocations_for request db.allocations in
    let loop = release_rows-Keeps mode request db.buckets mine db in
    elim (Bool-cases (is_empty mine)) [
      | inl e ↦ rw e loop
      | inr e ↦ rw e (record { requests = loop.requests; next = loop.next })
    ]

consume_rows-Keeps :
    (request : ℕ) (snapshot : List Bucket) (rows : List AllocationRow) (db : Store)
    → Keeps db (consume_rows request snapshot rows db)
unfolding consume_rows write_ledger
consume_rows-Keeps request snapshot [] db = Keeps-refl db
consume_rows-Keeps request snapshot (a ∷ rows) db =
    let one = consume_rows request snapshot (a ∷ []) db in
    let step : Keeps db one = record { requests = ground arith; next = ground arith } in
    Keeps-trans step (consume_rows-Keeps request snapshot rows one)

module _ (today_in_zone : String → Date) where
  pub ensure_accrual-Keeps :
      (db : Store) (employee_id : ℕ) (as_of_input : Option Date) {db' : Store} {accrued : Accrued}
      → ensure_accrual today_in_zone db employee_id as_of_input ≡ ok (db', accrued)
      → Keeps db db'
  unfolding ensure_accrual
  ensure_accrual-Keeps db employee_id as_of_input {db'} {accrued} e =
      let (employee, loaded, rest) = first_step-eq-ok (load_employee db employee_id) _ e in
      let as_of = get_or as_of_input (as_of_for_employee today_in_zone employee) in
      elim (Bool-cases (before as_of employee.employment_start_date)) [
        | inl early ↦
            let same : db ≡ db' = ground (arith, rest, early) in rw (← same) (Keeps-refl db)
        | inr late ↦
            let same : accrue employee as_of db ≡ db' = ground (arith, rest, late) in
            rw (← same) (accrue-Keeps employee as_of db)
      ]

  pub reserve-Keeps :
      (db : Store) (employee_id request days : ℕ) {db' : Store} {allocations : List FifoAllocation}
      → reserve today_in_zone db employee_id request days ≡ ok (db', allocations)
      → Keeps db db'
  unfolding reserve
  reserve-Keeps db employee_id request days {db'} {allocations} e =
      let ((db1, accrued), accrual, applied) =
        first_step-eq-ok (ensure_accrual today_in_zone db employee_id none) _
          {value = (db', allocations)} e in
      Keeps-trans (ensure_accrual-Keeps db employee_id none accrual)
        (apply_to_buckets-Keeps db1 employee_id request days reserving false applied)

  consume_unreserved-Keeps :
      (db : Store) (request : ℕ) {db' : Store}
      → consume_unreserved today_in_zone db request ≡ ok db'
      → Keeps db db'
  unfolding consume_unreserved
  consume_unreserved-Keeps db request {db'} e =
      elim (Option-cases (find_by request_id_of request db.requests)) [
        | inl absent ↦ let same : db ≡ db' = ground (arith, absent) in rw (← same) (Keeps-refl db)
        | inr (r, found) ↦
            let e0 = (rw (found, consume_unreserved) at e) in
            let ((db1, accrued), accrual, e1) =
              first_step-eq-ok (ensure_accrual today_in_zone db r.employee_id none) _ {value = db'}
                e0 in
            let ((db2, allocations), applied, returned) =
              first_step-eq-ok
                (apply_to_buckets db1 r.employee_id request r.number_of_days consuming true) _
                {value = db'} e1 in
            let same : db2 ≡ db' = ground arith in
            rw (← same) (
              Keeps-trans (ensure_accrual-Keeps db r.employee_id none accrual) (
                apply_to_buckets-Keeps db1 r.employee_id request r.number_of_days consuming true
                  applied))
      ]

  pub consume_reserved-Keeps :
      (db : Store) (request : ℕ) {db' : Store}
      → consume_reserved today_in_zone db request ≡ ok db'
      → Keeps db db'
  unfolding consume_reserved
  consume_reserved-Keeps db request {db'} e =
      let mine = allocations_for request db.allocations in
      elim (Bool-cases (is_empty mine)) [
        | inl none_held ↦ consume_unreserved-Keeps db request (ground (arith, none_held))
        | inr held ↦
            let same : consume_rows request db.buckets mine db ≡ db' = ground (arith, held) in
            rw (← same) (consume_rows-Keeps request db.buckets mine db)
      ]

  pub balance_for_employee-Keeps :
      (db : Store) (employee_id : ℕ) (as_of : Option Date) {db' : Store} {shown : BalanceDto}
      → balance_for_employee today_in_zone db employee_id as_of ≡ ok (db', shown)
      → Keeps db db'
  unfolding balance_for_employee
  balance_for_employee-Keeps db employee_id as_of {db'} {shown} e =
      let ((db1, _), accrual, rest) =
        first_step-eq-ok (ensure_accrual today_in_zone db employee_id as_of) _
          {value = (db', shown)} e in
      let db2 = sync_usage_from_requests db1 employee_id in
      let ((db3, accrued), again, returned) =
        first_step-eq-ok (ensure_accrual today_in_zone db2 employee_id as_of) _
          {value = (db', shown)} rest in
      let same : db3 ≡ db' = ground arith in
      rw (← same) (
        Keeps-trans (ensure_accrual-Keeps db employee_id as_of accrual) (
          Keeps-trans (sync_usage_from_requests-Keeps db1 employee_id)
            (ensure_accrual-Keeps db2 employee_id as_of again)))
