-- ===== src/Attendance/CheckIn/Single.antt =====
-- The open timesheets of an employee, through `checkIn` of
-- src/modules/attendance/attendance.service.ts.
use workforce_app_backend.Common.{
  ℕ, ◌≡◌, refl, sym, true, false, not, Option, none, some, List, [], ◌∷◌, ◌++◌, arith, ◌==◌, inl,
  inr, Bool-cases, Option-cases, any, find,
}
use workforce_app_backend.Common.Result.{
  ok, app_error, ◌>>=◌, ◌>>◌, first_step-eq-ok, after_check-eq-ok, throw_if,
}
use workforce_app_backend.Common.Table.{has_key, HasDistinctKeys}
use workforce_app_backend.Attendance.{Timesheet, Store, Platform, timesheet_id}
use workforce_app_backend.Attendance.Metrics.{can_re_check_in}
use workforce_app_backend.Attendance.Close.Laws.{open_count, IsSingle}
use workforce_app_backend.Attendance.Presence.{Context, Clock, Presence, Employee, employee_context}
use workforce_app_backend.Attendance.CheckIn.{
  CheckInInput, is_open_of, is_of, Admission, replayed, reentry, first_entry, new_timesheet,
  check_presence, admit_today, check_late_reason, create_timesheet, reopen_timesheet, admit_day,
  admit_new, admit, commit, check_in,
}
use workforce_app_backend.Attendance.CheckIn.Rows.{
  open_count-none, open_count-append, HasDistinctKeys-append_new, HasDistinctKeys-reopened,
  open_count-reopened_other, open_count-reopened, find-IsOwned, reopened, IsOwned,
}

-- An identifier that the database generates is new.
abbrev pub IsFresh : Store → Type 0
IsFresh db = has_key timesheet_id db.next_id db.timesheets ≡ false

-- A new entry is on a timesheet of the employee.
abbrev pub IsOwnEntry : Context → Admission → Store → Type 0
IsOwnEntry ctx (reentry today presence) db = IsOwned today.id ctx.employee.id db.timesheets
IsOwnEntry ctx _ db = Unit

reopened-IsSingle :
    (today : Timesheet) (e : ℕ) (rows : List Timesheet)
    → IsSingle rows
    → IsOwned today.id e rows
    → any (is_open_of e) rows ≡ false
    → IsSingle (reopened today rows)
reopened-IsSingle today e rows s owned shut = record {
  distinct = HasDistinctKeys-reopened today rows s.distinct;
  one_open = λ f. elim (Bool-cases (f == e)) [
    | inl same ↦
        ground
          (arith, same, open_count-none e rows shut, open_count-reopened today e rows s.distinct)
    | inr other ↦ omega (arith, open_count-reopened_other today e f rows owned other, s.one_open f)
  ];
}

appended-IsSingle :
    (t : Timesheet) (rows : List Timesheet)
    → IsSingle rows
    → has_key timesheet_id t.id rows ≡ false
    → any (is_open_of t.employee_id) rows ≡ false
    → IsSingle (rows ++ t ∷ [])
unfolding open_count
appended-IsSingle t rows s new shut = record {
  distinct = HasDistinctKeys-append_new rows t s.distinct new;
  one_open = λ f. ground (
    arith,
    open_count-append f rows (t ∷ []),
    open_count-none t.employee_id rows shut,
    s.one_open f,
  );
}

create_timesheet-timesheets :
    (ctx : Context) (input : CheckInInput) (clock : Clock) (presence : Presence) (now : ℕ)
    (db : Store) {db' : Store}
    → create_timesheet ctx input clock presence now db ≡ ok db'
    → db'.timesheets ≡ db.timesheets ++ new_timesheet ctx input clock now db.next_id ∷ []
unfolding create_timesheet
create_timesheet-timesheets ctx input clock presence now db h = ground (arith, h)

reopen_timesheet-timesheets :
    (ctx : Context) (input : CheckInInput) (today : Timesheet) (presence : Presence) (now : ℕ)
    (db : Store) {db' : Store}
    → reopen_timesheet ctx input today presence now db ≡ ok db'
    → db'.timesheets ≡ reopened today db.timesheets
unfolding reopen_timesheet
reopen_timesheet-timesheets ctx input today presence now db h = ground (arith, h)

-- The transaction of a check-in keeps every employee at one open timesheet at most, and the
-- identifiers distinct, whatever ran between the checks and the transaction, if a generated
-- identifier is new and a new entry is on a timesheet of the employee.
pub commit-IsSingle :
    (ctx : Context) (input : CheckInInput) (now : ℕ) (admission : Admission) (db : Store)
    {db' : Store}
    → IsSingle db.timesheets
    → IsFresh db
    → IsOwnEntry ctx admission db
    → commit ctx input now admission db ≡ ok db'
    → IsSingle db'.timesheets
unfolding commit
commit-IsSingle ctx input now (replayed t) db s fresh own h = ground (arith, h, s)
commit-IsSingle ctx input now (reentry today presence) db {db'} s fresh own h =
    elim (Bool-cases (any (is_open_of ctx.employee.id) db.timesheets)) [
      | inl taken ↦ absurd (ground (arith, taken, h))
      | inr shut ↦
          rw
            (reopen_timesheet-timesheets ctx input today presence now db {db' = db'}
              (ground (arith, shut, h)))
            (reopened-IsSingle today ctx.employee.id db.timesheets s own shut)
    ]
commit-IsSingle ctx input now (first_entry clock presence) db {db'} s fresh own h =
    elim (Bool-cases (any (is_open_of ctx.employee.id) db.timesheets)) [
      | inl taken ↦ absurd (ground (arith, taken, h))
      | inr shut ↦
          rw
            (create_timesheet-timesheets ctx input clock presence now db {db' = db'}
              (ground (arith, shut, h)))
            (appended-IsSingle (new_timesheet ctx input clock now db.next_id) db.timesheets s fresh
              shut)
    ]

admit_day-IsOwnEntry :
    (ctx : Context) (input : CheckInInput) (clock : Clock) (presence : Presence)
    (o : Option Timesheet) (db : Store) (admission : Admission)
    → HasDistinctKeys timesheet_id db.timesheets
    → find (is_of ctx.employee.id clock.work_date) db.timesheets ≡ o
    → admit_day input clock presence o ≡ ok admission
    → IsOwnEntry ctx admission db
unfolding admit_day
admit_day-IsOwnEntry ctx input clock presence none db admission d found h =
    let check =
      check_late_reason false clock.is_late input.late_reason_type input.late_reason_description in
    let same : first_entry clock presence ≡ admission =
      ground (arith, after_check-eq-ok check (ok (first_entry clock presence)) h) in
    rw (sym same) tt
admit_day-IsOwnEntry ctx input clock presence (some t) db admission d found h =
    let owned = find-IsOwned ctx.employee.id clock.work_date db.timesheets t d found in
    let check =
      check_late_reason true clock.is_late input.late_reason_type input.late_reason_description in
    elim (Bool-cases t.is_open) [
      | inl still ↦ let same : replayed t ≡ admission = ground (arith, still, h) in rw (sym same) tt
      | inr shut ↦ elim (Bool-cases (can_re_check_in t.is_open t.check_out_source)) [
        | inr never ↦ absurd (ground (arith, shut, never, h))
        | inl again ↦
            let passed : (check >> ok (reentry t presence)) ≡ ok admission =
              ground (arith, shut, again, h) in
            let same : reentry t presence ≡ admission =
              ground (arith, after_check-eq-ok check (ok (reentry t presence)) passed) in
            rw (sym same) owned
      ]
    ]

admit_new-IsOwnEntry :
    (platform : Platform) (ctx : Context) (input : CheckInInput) (now : ℕ) (db : Store)
    (admission : Admission)
    → HasDistinctKeys timesheet_id db.timesheets
    → admit_new platform ctx input now db ≡ ok admission
    → IsOwnEntry ctx admission db
unfolding admit_new
admit_new-IsOwnEntry platform ctx input now db admission d h =
    let (checked, passed, last) =
      first_step-eq-ok (check_presence platform ctx input now db) (λ c. admit_today ctx input db c)
        h in
    admit_day-IsOwnEntry ctx input checked.0 checked.1 _ db admission d refl last

admit-IsOwnEntry :
    (platform : Platform) (ctx : Context) (input : CheckInInput) (now : ℕ) (db : Store)
    (admission : Admission)
    → HasDistinctKeys timesheet_id db.timesheets
    → admit platform ctx input now db ≡ ok admission
    → IsOwnEntry ctx admission db
unfolding admit
admit-IsOwnEntry platform ctx input now db admission d h =
    elim (Option-cases (
      find (λ (t : Timesheet). t.check_in_idempotency_key == input.idempotency_key)
        db.timesheets)) [
          | inl new ↦
              admit_new-IsOwnEntry platform ctx input now db admission d (ground (arith, new, h))
          | inr (t, seen) ↦
              let check =
                throw_if (not (t.employee_id == ctx.employee.id))
                  (app_error 409 "IDEMPOTENCY_KEY_CONFLICT") in
              let passed : (check >> ok (replayed t)) ≡ ok admission = ground (arith, seen, h) in
              let same : replayed t ≡ admission =
                ground (arith, after_check-eq-ok check (ok (replayed t)) passed) in
              rw (sym same) tt
        ]

-- A check-in keeps every employee at one open timesheet at most, and the identifiers distinct, if a
-- generated identifier is new.
pub check_in-IsSingle :
    (platform : Platform) (employees : List Employee) (user_id : ℕ) (input : CheckInInput) (now : ℕ)
    (db : Store) {db' : Store}
    → IsSingle db.timesheets
    → IsFresh db
    → check_in platform employees user_id input now db ≡ ok db'
    → IsSingle db'.timesheets
unfolding check_in
check_in-IsSingle platform employees user_id input now db {db'} s fresh h =
    let (ctx, known, h1) =
      first_step-eq-ok (employee_context employees user_id)
        (λ ctx. admit platform ctx input now db >>= λ admission. commit ctx input now admission db)
        h in
    let (admission, admitted, h2) =
      first_step-eq-ok (admit platform ctx input now db)
        (λ admission. commit ctx input now admission db) h1 in
    commit-IsSingle ctx input now admission db s fresh
      (admit-IsOwnEntry platform ctx input now db admission s.distinct admitted) h2
