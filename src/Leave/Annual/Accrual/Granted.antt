-- ===== src/Leave/Annual/Accrual/Granted.antt =====
-- The entitlements of the leave years that have started, through `ensureAccrual` of
-- src/modules/leave/annual-leave.service.ts.
use workforce_app_backend.Common.{
  ℕ, zero, Bool, suc, ◌+◌, ◌≤◌, ◌<◌, ◌≡◌, refl, sym, ap, ◌∙◌, true, false, some, List, [], ◌∷◌,
  arith, ◌==◌, ltb, All, All-weaken, inl, inr, Bool-cases, ==_iff, if◌then◌else◌, filter,
}
use workforce_app_backend.Common.Table.{find_by, has_key, HasDistinctKeys, order_by}
use workforce_app_backend.Common.Table.Keys.{
  All-filter, All-order_by, All-find_by_self, HasDistinctKeys-filter, HasDistinctKeys-order_by,
}
use workforce_app_backend.Calendar.{Date, date_eq, day_number}
use workforce_app_backend.Leave.Policy.{
  leave_year_period, annual_entitlement, completed_years_of_service,
}
use workforce_app_backend.Leave.Annual.{Bucket, Employee, Store, bucket_id_of}
use workforce_app_backend.Leave.Annual.Accrual.{
  ByStart, start_set, start_map, buckets_of, accrue_year, accrue_years, accrue,
}
use workforce_app_backend.Leave.Annual.Accrual.Expiry.{is_due, expired_row, expire_rows-due}
use workforce_app_backend.Leave.Annual.Accrual.Sound.{IsSound}
use workforce_app_backend.Leave.Annual.Accrual.ByStart.{
  entry_id, IsEntry, IsSynced, IsGranted, has_key-start_set, HasDistinctKeys-start_set,
}
use workforce_app_backend.Leave.Annual.Accrual.Round.{IsEntry-at, accrue_year-IsRound}

-- The loop from the year n on: all of its years are granted, and those before stay so.
accrue_years-IsGranted :
    (rounds : ℕ) (employee : Employee) (as_of : Date) (n : ℕ) (db : Store) (m : ByStart)
    → IsSynced db employee.id m
    → ((k : ℕ) → k < n → IsGranted employee as_of k m)
    → let next = accrue_years rounds employee as_of n (db, m) in
      IsSynced next.0 employee.id next.1
      × ((k : ℕ) → k < n + rounds → IsGranted employee as_of k next.1)
unfolding accrue_years
accrue_years-IsGranted zero employee as_of n db m synced granted =
    (synced, λ k below. granted k (omega arith))
accrue_years-IsGranted (suc rounds) employee as_of n db m synced granted =
    let next = accrue_year employee as_of n (db, m) in
    let round = accrue_year-IsRound employee as_of n db m synced in
    let (last, all) =
      accrue_years-IsGranted rounds employee as_of (n + 1) next.0 next.1 round.synced (λ k below.
        elim (Bool-cases (ltb k n)) [
          | inl earlier ↦ round.still k (granted k (ground arith))
          | inr not_earlier ↦ let here : n ≡ k = ground (arith, below) in rw (sym here) round.now
        ]) in
    (last, λ k below. all k (omega arith))

set_entries :
    (db : Store) (employee_id : ℕ) (key : Date) (row : Bucket) (m : ByStart)
    → IsEntry db employee_id (key, row)
    → All (IsEntry db employee_id) m
    → All (IsEntry db employee_id) (start_set key row m)
unfolding start_set
set_entries db employee_id key row [] new h = (new, tt)
set_entries db employee_id key row ((k, old) ∷ m) new h = elim (Bool-cases (date_eq k key)) [
  | inl same ↦ rw same (new, h.1)
  | inr other ↦ rw other (h.0, set_entries db employee_id key row m new h.1)
]

fresh_after :
    (row : Bucket) (rows : List Bucket) (m : ByStart)
    → has_key bucket_id_of row.id rows ≡ false
    → All (λ (r : Bucket). has_key entry_id r.id m ≡ false) rows
    → All (λ (r : Bucket). has_key entry_id r.id (start_set row.period_start row m) ≡ false) rows
fresh_after row [] m apart new = tt
fresh_after row (r ∷ rows) m apart new = (
  has_key-start_set row.period_start row r.id m new.0 (ground (arith, apart)),
  fresh_after row rows m (ground (arith, apart)) new.1,
)

start_map-entries :
    (db : Store) (rows : List Bucket) (employee_id : ℕ) (m : ByStart)
    → All (λ (r : Bucket). find_by bucket_id_of r.id db.buckets ≡ some r) rows
    → All (λ (r : Bucket). r.employee_id ≡ employee_id) rows
    → HasDistinctKeys bucket_id_of rows
    → All (λ (r : Bucket). has_key entry_id r.id m ≡ false) rows
    → All (IsEntry db employee_id) m × HasDistinctKeys entry_id m
    → All (IsEntry db employee_id) (start_map rows m) × HasDistinctKeys entry_id (start_map rows m)
unfolding start_map
start_map-entries db [] employee_id m there own distinct new (entries, keys) = (entries, keys)
start_map-entries db (row ∷ rows) employee_id m there own distinct new (entries, keys) =
    start_map-entries db rows employee_id (start_set row.period_start row m) there.1 own.1
      distinct.1 (fresh_after row rows m distinct.0 new.1)
      (
        set_entries db employee_id row.period_start row m (there.0, own.0, refl) entries,
        HasDistinctKeys-start_set row.period_start row m new.0 keys,
      )

filter_passes :
    (p : Bucket → Bool) (rows : List Bucket) → All (λ (r : Bucket). p r ≡ true) (filter p rows)
filter_passes p [] = tt
filter_passes p (r ∷ rows) = elim (Bool-cases (p r)) [
  | inl passes ↦ rw passes (passes, filter_passes p rows)
  | inr fails ↦ rw fails (filter_passes p rows)
]

nothing_old : (rows : List Bucket) → All (λ (r : Bucket). has_key entry_id r.id [] ≡ false) rows
nothing_old [] = tt
nothing_old (r ∷ rows) = (refl, nothing_old rows)

start-IsSynced :
    (db : Store) (employee_id : ℕ)
    → IsSound db
    → IsSynced db employee_id (start_map (buckets_of db employee_id) [])
unfolding buckets_of
start-IsSynced db employee_id sound =
    let mine = λ (b : Bucket). b.employee_id == employee_id in
    let by_start = λ (b : Bucket). day_number b.period_start in
    let own = filter mine db.buckets in
    let stored = λ (r : Bucket). find_by bucket_id_of r.id db.buckets ≡ some r in
    let (entries, distinct) =
      start_map-entries db (order_by by_start own) employee_id []
        (All-order_by stored by_start own (
          All-filter stored mine db.buckets
            (All-find_by_self bucket_id_of db.buckets sound.distinct)))
        (All-order_by (λ (r : Bucket). r.employee_id ≡ employee_id) by_start own
          (All-weaken (λ r h. (==_iff r.employee_id employee_id).0 h) own
            (filter_passes mine db.buckets)))
        (HasDistinctKeys-order_by bucket_id_of by_start own
          (HasDistinctKeys-filter bucket_id_of mine db.buckets sound.distinct))
        (nothing_old (order_by by_start own)) (tt, tt) in
    record { entries = entries; distinct = distinct; sound = sound }

-- After accrual, on a table whose leave years have distinct identifiers, and those to come new: for each
-- leave year of the employee that has started, the table has a row of the employee that starts on the
-- first day of that leave year and grants at least the entitlement of the year.
pub accrue-grants :
    (employee : Employee) (as_of : Date) (n : ℕ) (db : Store)
    → IsSound db
    → n ≤ completed_years_of_service employee.employment_start_date as_of
    → let hire = employee.employment_start_date in
      let period = leave_year_period hire n in
      (row : Bucket) × (find_by bucket_id_of row.id (accrue employee as_of db).buckets ≡ some row)
      × (row.employee_id ≡ employee.id)
      × (row.period_start ≡ period.start)
      × (annual_entitlement n hire as_of period.stop ≤ row.granted_days)
unfolding accrue
accrue-grants employee as_of n db sound started =
    let years = completed_years_of_service employee.employment_start_date as_of in
    let m = start_map (buckets_of db employee.id) [] in
    let done = accrue_years (years + 1) employee as_of 0 (db, m) in
    let (synced, granted) =
      accrue_years-IsGranted (years + 1) employee as_of 0 db m (start-IsSynced db employee.id sound)
        (λ k below. absurd (omega arith)) in
    let (row, there, enough) = granted n (omega arith) in
    let key = (leave_year_period employee.employment_start_date n).start in
    let entry = IsEntry-at employee as_of n done.0 done.1 synced key done.1 there synced.entries in
    let final : Bucket = (if is_due as_of employee.id row then expired_row row else row) in
    let same_id : final.id ≡ row.id = ground arith in
    (
      final,
      ap (λ j. find_by bucket_id_of j (accrue employee as_of db).buckets) same_id
          ∙ expire_rows-due as_of employee.id row.id done.0 synced.sound.distinct
          ∙ rw entry.0 refl,
      ground (arith, entry.1),
      ground (arith, entry.2),
      ground (arith, enough),
    )
