-- ===== src/Attendance/Close/Laws.antt =====
-- The table of timesheets through `closeOpenTimesheet` of src/modules/attendance/timesheet-close.ts.
use workforce_app_backend.Common.{
  ℕ, ◌+◌, ◌≤◌, ◌≡◌, refl, true, false, ◌&&◌, none, some, List, [], ◌∷◌, arith, ◌==◌, if◌then◌else◌,
  inl, inr, Bool-cases, any, find,
}
use workforce_app_backend.Common.Result.{ok, err, app_error, first_step-eq-ok}
use workforce_app_backend.Common.Table.{has_key, HasDistinctKeys}
use workforce_app_backend.Attendance.{Timesheet, Worksheet, Store, Platform, timesheet_id}
use workforce_app_backend.Attendance.Close.{
  has_check_out_key, is_open_row, write_worksheet, submit_worksheet, CloseInput, closed_timesheets,
  finish_close, close_open_timesheet, add_location,
}

-- How many timesheets of an employee are open.
unfoldable pub open_count : ℕ → List Timesheet → ℕ
open_count e [] = 0
open_count e (t ∷ rows) = (if (t.employee_id == e) && t.is_open then 1 else 0) + open_count e rows

-- No employee has two open timesheets, and the identifiers are distinct.
pub record IsSingle (rows : List Timesheet) : Type 0 where
  pub distinct : HasDistinctKeys timesheet_id rows
  pub one_open : (e : ℕ) → open_count e rows ≤ 1

write_worksheet-timesheets :
    (opened : Timesheet) (description at_time : ℕ) (existing : _) (db : Store)
    → (write_worksheet opened description at_time existing db).timesheets ≡ db.timesheets
unfolding write_worksheet
write_worksheet-timesheets opened description at_time none db = refl
write_worksheet-timesheets opened description at_time (some w) db = refl

submit_worksheet-timesheets :
    (platform : Platform) (opened : Timesheet) (at_time description : ℕ) (db : Store) {db' : Store}
    → submit_worksheet platform opened at_time description db ≡ ok db'
    → db'.timesheets ≡ db.timesheets
unfolding submit_worksheet
submit_worksheet-timesheets platform opened at_time description db h =
    elim (Bool-cases (description == 0)) [
      | inl blank ↦ ground (arith, blank, h)
      | inr given ↦
          let existing = find (λ (w : Worksheet). w.timesheet_id == opened.id) db.worksheets in
          ground
            (arith, given, h, write_worksheet-timesheets opened description at_time existing db)
    ]

add_location-timesheets : (l : _) (db : Store) → (add_location l db).timesheets ≡ db.timesheets
add_location-timesheets none db = refl
add_location-timesheets (some l) db = refl

finish_close-timesheets :
    (platform : Platform) (input : CloseInput) (db : Store) {db' : Store}
    → finish_close platform input db ≡ ok db'
    → db'.timesheets ≡ db.timesheets
unfolding finish_close
finish_close-timesheets platform input db h =
    let (done, step, last) = first_step-eq-ok _ _ h in
    let same = submit_worksheet-timesheets platform input.opened input.checkout_at _ _ step in
    ground (arith, last, same, add_location-timesheets input.checkout_location db)

-- A successful close found the timesheet open, and the update is its only change to the timesheets.
pub close_open_timesheet-timesheets :
    (platform : Platform) (input : CloseInput) (db : Store) {db' : Store}
    → close_open_timesheet platform input db ≡ ok db'
    → (any (is_open_row input.opened.id) db.timesheets ≡ true)
      × (db'.timesheets ≡ closed_timesheets platform input db.timesheets)
unfolding close_open_timesheet
close_open_timesheet-timesheets platform input db {db'} h =
    elim (Bool-cases (any (is_open_row input.opened.id) db.timesheets)) [
      | inr shut ↦ absurd (ground (arith, shut, h))
      | inl there ↦
          elim (Bool-cases (any (has_check_out_key input.idempotency_key) db.timesheets)) [
            | inl used ↦ absurd (ground (arith, there, used, h))
            | inr new ↦ (
              there,
              finish_close-timesheets platform input
                  (record db { timesheets = closed_timesheets platform input db.timesheets })
                  {db' = db'} (ground (arith, there, new, h)),
            )
          ]
    ]

-- The rows under an update that keeps the identifier and the employee and opens nothing.
open_count-closed :
    (platform : Platform) (input : CloseInput) (e : ℕ) (rows : List Timesheet)
    → open_count e (closed_timesheets platform input rows) ≤ open_count e rows
unfolding open_count closed_timesheets
open_count-closed platform input e [] = omega arith
open_count-closed platform input e (t ∷ rows) =
    ground (arith, open_count-closed platform input e rows)

has_key-closed :
    (platform : Platform) (input : CloseInput) (k : ℕ) (rows : List Timesheet)
    → has_key timesheet_id k (closed_timesheets platform input rows) ≡ has_key timesheet_id k rows
unfolding closed_timesheets
has_key-closed platform input k [] = refl
has_key-closed platform input k (t ∷ rows) = ground (arith, has_key-closed platform input k rows)

HasDistinctKeys-closed :
    (platform : Platform) (input : CloseInput) (rows : List Timesheet)
    → HasDistinctKeys timesheet_id rows
    → HasDistinctKeys timesheet_id (closed_timesheets platform input rows)
unfolding closed_timesheets
HasDistinctKeys-closed platform input [] d = tt
HasDistinctKeys-closed platform input (t ∷ rows) d = (
  ground (arith, has_key-closed platform input t.id rows, d.0),
  HasDistinctKeys-closed platform input rows d.1,
)

pub closed_timesheets-IsSingle :
    (platform : Platform) (input : CloseInput) (rows : List Timesheet)
    → IsSingle rows
    → IsSingle (closed_timesheets platform input rows)
closed_timesheets-IsSingle platform input rows s = record {
  distinct = HasDistinctKeys-closed platform input rows s.distinct;
  one_open = λ e. omega (arith, open_count-closed platform input e rows, s.one_open e);
}

any-closed :
    (platform : Platform) (input : CloseInput) (rows : List Timesheet)
    → any (is_open_row input.opened.id) (closed_timesheets platform input rows) ≡ false
unfolding closed_timesheets
any-closed platform input [] = refl
any-closed platform input (t ∷ rows) = ground (arith, any-closed platform input rows)

-- A timesheet is closed once: after a successful close, by whomever and whenever, another one of the
-- same timesheet is refused with 409, whatever it brings.
pub close_open_timesheet_once :
    (platform : Platform) (first second : CloseInput) (db : Store) {db' : Store}
    → second.opened.id ≡ first.opened.id
    → close_open_timesheet platform first db ≡ ok db'
    → close_open_timesheet platform second db' ≡ err (app_error 409 "TIMESHEET_ALREADY_CLOSED")
unfolding close_open_timesheet
close_open_timesheet_once platform first second db same h =
    let (there, rows) = close_open_timesheet-timesheets platform first db h in
    rw (same, rows, any-closed platform first db.timesheets) refl
