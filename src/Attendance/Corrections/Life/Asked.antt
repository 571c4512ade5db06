-- ===== src/Attendance/Corrections/Life/Asked.antt =====
-- New requests (`createRequests` of
-- src/modules/attendance-correctness/attendance-correctness.service.ts) and the live ones.
use workforce_app_backend.Common.{
  ℕ, ◌+◌, ◌<◌, ◌≡◌, Bool, true, false, Option, List, [], ◌∷◌, All, All-append, All-weaken, any,
  filter, arith, inl, inr, Bool-cases, is_empty, leb,
}
use workforce_app_backend.Common.Pairwise.{Pairwise-append}
use workforce_app_backend.Common.Result.{
  Result, ok, err, app_error, throw_if, ◌>>◌, ◌>>=◌, first_step-eq-ok, after_check-eq-ok,
  Result-cases,
}
use workforce_app_backend.Common.Table.Keys.{HasDistinctKeys-append, has_key-next}
use workforce_app_backend.Leave.DayFraction.{LeaveDaySession, leave_sessions_conflict}
use workforce_app_backend.Attendance.{Platform}
use workforce_app_backend.Attendance.Presence.{Context, employee_context}
use workforce_app_backend.Attendance.Corrections.{
  CorrectnessRequest, Tables, DayInput, correctness_id, schedule_bounds, zone_of,
  normalize_day_inputs,
}
use workforce_app_backend.Attendance.Corrections.Ask.{
  is_existing, check_existing, leave_sessions_for_date, new_row, check_free, check_day, add_row,
  create_rows, create_for, create_requests, notify_created, take_id,
}
use workforce_app_backend.Attendance.Corrections.Life.{IsApart, HasLiveApart}

check_existing-apart :
    (p : CorrectnessRequest → Bool) (session : LeaveDaySession) (rows : List CorrectnessRequest)
    → check_existing session (filter p rows) ≡ ok tt
    → All (λ r. p r ≡ true → leave_sessions_conflict r.session session ≡ false) rows
unfolding check_existing
check_existing-apart p session [] passed = tt
check_existing-apart p session (r ∷ rows) passed = elim (Bool-cases (p r)) [
  | inr e ↦
      (λ looked. ground (arith, looked, e), check_existing-apart p session rows (ground (arith, e)))
  | inl e ↦ (λ _. ground (arith, e), check_existing-apart p session rows (ground (arith, e)))
]

module _ (platform : Platform) (weekday : ℕ → ℕ) where
  check_free-apart :
      (ctx : Context) (day : DayInput) (db : Tables)
      → check_free platform weekday ctx day db ≡ ok tt
      → All
          (λ r.
            is_existing ctx.employee.id day.date r ≡ true
            → leave_sessions_conflict r.session day.session ≡ false)
          db.requests
  unfolding check_free
  check_free-apart ctx day db passed =
      check_existing-apart (is_existing ctx.employee.id day.date) day.session db.requests (
        after_check-eq-ok
          (throw_if
              (any (λ s. leave_sessions_conflict s day.session)
                (leave_sessions_for_date ctx.employee.id day.date db.live_leave))
              (app_error 409 "ON_LEAVE")
            >> throw_if (platform.is_holiday ctx.employee.id day.date)
                (app_error 409 "ON_PUBLIC_HOLIDAY"))
          _ passed)

  check_day-free :
      (today : ℕ) (ctx : Context) (day : DayInput) (db : Tables)
      → check_day platform weekday today ctx day db ≡ ok tt
      → check_free platform weekday ctx day db ≡ ok tt
  unfolding check_day
  check_day-free today ctx day db passed =
      let past = throw_if (leb today day.date) (app_error 422 "FUTURE_DATE_NOT_ALLOWED") in
      let bounded =
        schedule_bounds platform weekday ctx.schedule (zone_of ctx.office ctx.schedule) day.date in
      let e1 =
        after_check-eq-ok past (bounded >>= λ _. check_free platform weekday ctx day db) passed in
      (first_step-eq-ok bounded (λ _. check_free platform weekday ctx day db) {value = tt} e1).2

  add_row-HasLiveApart :
      (submission : ℕ) (ctx : Context) (remark : Option ℕ) (day : DayInput) (db : Tables)
      → check_free platform weekday ctx day db ≡ ok tt
      → HasLiveApart db
      → HasLiveApart (add_row platform weekday submission ctx remark day db)
  unfolding add_row
  add_row-HasLiveApart submission ctx remark day db passed sound =
      let row = new_row platform submission ctx remark day db in
      record {
        distinct =
            HasDistinctKeys-append correctness_id db.requests row
              (has_key-next correctness_id db.attendance.next_id db.requests sound.old_ids)
              sound.distinct;
        old_ids =
            All-append (λ r. r.id < db.attendance.next_id + 1) db.requests (row ∷ [])
              (All-weaken (λ r old. omega arith) db.requests sound.old_ids) (omega arith, tt);
        apart =
            Pairwise-append IsApart db.requests row
              (All-weaken (λ r free. ground (arith, free)) db.requests
                (check_free-apart ctx day db passed))
              sound.apart;
      }

  create_rows-HasLiveApart :
      (today submission : ℕ) (ctx : Context) (remark : Option ℕ) (days : List DayInput)
      (db : Tables)
      → HasLiveApart db
      → HasLiveApart (create_rows platform weekday today submission ctx remark days db).0
  unfolding create_rows
  create_rows-HasLiveApart today submission ctx remark [] db sound = sound
  create_rows-HasLiveApart today submission ctx remark (day ∷ days) db sound =
      elim (Result-cases (check_day platform weekday today ctx day db)) [
        | inl (thrown, e) ↦ rw (e, create_rows) sound
        | inr (done, e) ↦
            rw (e, create_rows)
              (create_rows-HasLiveApart today submission ctx remark days _ (
                add_row-HasLiveApart submission ctx remark day db
                  (check_day-free today ctx day db e) sound))
      ]

  notify_created-requests :
      (submission organization_id : ℕ) (db : Tables) (result : Result (Unit {0}))
      → HasLiveApart db
      → HasLiveApart (notify_created platform weekday submission organization_id (db, result)).0
  notify_created-requests submission organization_id db (err thrown) sound = sound
  notify_created-requests submission organization_id db (ok done) sound = record {
    distinct = sound.distinct;
    old_ids = sound.old_ids;
    apart = sound.apart;
  }

  fresh-HasLiveApart :
      (db : Tables)
      → HasLiveApart db
      → HasLiveApart (record db { attendance = take_id db.attendance })
  fresh-HasLiveApart db sound = record {
    distinct = sound.distinct;
    old_ids = All-weaken (λ r old. omega arith) db.requests sound.old_ids;
    apart = sound.apart;
  }

  pub create_requests-HasLiveApart :
      (now user : ℕ) (dates : List ℕ) (days : List DayInput) (remark : Option ℕ) (db : Tables)
      → HasLiveApart db
      → HasLiveApart (create_requests platform weekday now user dates days remark db).0
  unfolding create_requests create_for
  create_requests-HasLiveApart now user dates days remark db sound =
      let wanted = normalize_day_inputs dates days in
      elim (Result-cases (employee_context db.employees user)) [
        | inl (thrown, e) ↦ rw (e, create_requests) sound
        | inr (ctx, e) ↦
            rw (e, create_requests)
              (elim (Bool-cases (is_empty wanted)) [
                | inl none_given ↦ rw none_given sound
                | inr given ↦
                    let today =
                      (platform.local_time now (zone_of ctx.office ctx.schedule)).work_date in
                    let submission = db.attendance.next_id in
                    let fresh = record db { attendance = take_id db.attendance } in
                    rw given (
                      notify_created-requests submission ctx.employee.organization_id _ _ (
                        create_rows-HasLiveApart today submission ctx remark wanted fresh
                          (fresh-HasLiveApart db sound)))
              ])
      ]
