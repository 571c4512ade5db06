-- ===== src/Attendance/CheckOut/Single.antt =====
-- The open timesheets of an employee, through `checkOut` and the automatic checkout
-- (src/modules/attendance).
use workforce_app_backend.Common.{
  ℕ, ◌≡◌, refl, sym, not, List, [], ◌∷◌, arith, ◌==◌, inl, inr, Bool-cases, Option-cases, find,
}
use workforce_app_backend.Common.Result.{
  Result, ok, err, app_error, throw_if, ◌>>◌, first_step-eq-ok, after_check-eq-ok,
}
use workforce_app_backend.Attendance.{Store, Platform}
use workforce_app_backend.Attendance.Metrics.{is_eligible_for_auto_checkout}
use workforce_app_backend.Attendance.Close.{has_check_out_key, CloseInput, close_open_timesheet}
use workforce_app_backend.Attendance.Close.Laws.{
  IsSingle, close_open_timesheet-timesheets, closed_timesheets-IsSingle,
}
use workforce_app_backend.Attendance.Presence.{Context, Employee, employee_context}
use workforce_app_backend.Attendance.CheckOut.{
  CheckOutInput, check_closing, own_input, close_own, check_out_as, check_out, AutoRow,
  resolve_auto_checkout_instant, keep_on_error, auto_input, auto_close_row, or_stop,
  auto_close_rows,
}

close_open_timesheet-IsSingle :
    (platform : Platform) (input : CloseInput) (db : Store) {db' : Store}
    → IsSingle db.timesheets
    → close_open_timesheet platform input db ≡ ok db'
    → IsSingle db'.timesheets
close_open_timesheet-IsSingle platform input db s h =
    rw ((close_open_timesheet-timesheets platform input db h).1)
      (closed_timesheets-IsSingle platform input db.timesheets s)

check_out_as-IsSingle :
    (platform : Platform) (ctx : Context) (input : CheckOutInput) (now : ℕ) (db : Store)
    {db' : Store}
    → IsSingle db.timesheets
    → check_out_as platform ctx input now db ≡ ok db'
    → IsSingle db'.timesheets
unfolding check_out_as close_own
check_out_as-IsSingle platform ctx input now db {db'} s h =
    elim (Option-cases (find (has_check_out_key input.idempotency_key) db.timesheets)) [
      | inl new ↦
          let closing : close_own platform ctx input now db ≡ ok db' = ground (arith, new, h) in
          let (checked, passed, last) =
            first_step-eq-ok (check_closing platform ctx input now db)
              (λ c. close_open_timesheet platform (own_input ctx input now c) db) closing in
          close_open_timesheet-IsSingle platform (own_input ctx input now checked) db s last
      | inr (t, seen) ↦
          let check =
            throw_if (not (t.employee_id == ctx.employee.id))
              (app_error 409 "IDEMPOTENCY_KEY_CONFLICT") in
          let passed : (check >> ok db) ≡ ok db' = ground (arith, seen, h) in
          let same : db ≡ db' = ground (arith, after_check-eq-ok check (ok db) passed) in
          rw (sym same) s
    ]

-- A checkout keeps every employee at one open timesheet at most, and the identifiers distinct.
pub check_out-IsSingle :
    (platform : Platform) (employees : List Employee) (user_id : ℕ) (input : CheckOutInput)
    (now : ℕ) (db : Store) {db' : Store}
    → IsSingle db.timesheets
    → check_out platform employees user_id input now db ≡ ok db'
    → IsSingle db'.timesheets
unfolding check_out
check_out-IsSingle platform employees user_id input now db s h =
    let (ctx, known, last) =
      first_step-eq-ok (employee_context employees user_id)
        (λ ctx. check_out_as platform ctx input now db) h in
    check_out_as-IsSingle platform ctx input now db s last

keep_on_error-IsSingle :
    (db : Store) (result : Result Store)
    → IsSingle db.timesheets
    → ((db' : Store) → result ≡ ok db' → IsSingle db'.timesheets)
    → IsSingle (keep_on_error db result).timesheets
keep_on_error-IsSingle db (err e) s f = s
keep_on_error-IsSingle db (ok db') s f = f db' refl

auto_close_row-IsSingle :
    (platform : Platform) (now : ℕ) (row : AutoRow) (db db' : Store)
    → IsSingle db.timesheets
    → auto_close_row platform now row db ≡ ok db'
    → IsSingle db'.timesheets
unfolding auto_close_row
auto_close_row-IsSingle platform now row db db' s h = elim (Bool-cases row.enabled) [
  | inr disabled ↦ let same : db ≡ db' = ground (arith, disabled, h) in rw (sym same) s
  | inl enabled ↦
      elim (Option-cases
        (resolve_auto_checkout_instant platform row.zone row.auto_checkout_time now)) [
          | inl invalid ↦ absurd (ground (arith, enabled, invalid, h))
          | inr (auto_at, valid) ↦
              elim (Bool-cases
                (is_eligible_for_auto_checkout row.timesheet.actual_check_in auto_at now)) [
                  | inr early ↦
                      let same : db ≡ db' = ground (arith, enabled, valid, early, h) in
                      rw (sym same) s
                  | inl due ↦
                      let closed = close_open_timesheet platform (auto_input row auto_at) db in
                      let same : keep_on_error db closed ≡ db' =
                        ground (arith, enabled, valid, due, h) in
                      rw (sym same) (
                        keep_on_error-IsSingle db closed s (λ after e.
                          close_open_timesheet-IsSingle platform (auto_input row auto_at) db s e))
                ]
        ]
]

-- A round that stops keeps the store, and one that goes on hands it to the rest.
round-IsSingle :
    (db : Store) (rest : Store → Store) (result : Result Store)
    → IsSingle db.timesheets
    → ((db' : Store) → result ≡ ok db' → IsSingle db'.timesheets)
    → ((db' : Store) → IsSingle db'.timesheets → IsSingle (rest db').timesheets)
    → IsSingle (or_stop db rest result).timesheets
round-IsSingle db rest (err e) s f k = s
round-IsSingle db rest (ok db') s f k = k db' (f db' refl)

-- The automatic checkout keeps every employee at one open timesheet at most, and the identifiers
-- distinct, whatever rows it read before the loop.
pub auto_close_rows-IsSingle :
    (platform : Platform) (now : ℕ) (rows : List AutoRow) (db : Store)
    → IsSingle db.timesheets
    → IsSingle (auto_close_rows platform now rows db).timesheets
unfolding auto_close_rows
auto_close_rows-IsSingle platform now [] db s = s
auto_close_rows-IsSingle platform now (row ∷ rows) db s =
    round-IsSingle db (auto_close_rows platform now rows) (auto_close_row platform now row db) s
      (λ db' e. auto_close_row-IsSingle platform now row db db' s e)
      (λ db' t. auto_close_rows-IsSingle platform now rows db' t)
