-- ===== src/Attendance/Corrections/Partial.antt =====
-- What a submission that fails leaves (`createRequests` of
-- src/modules/attendance-correctness/attendance-correctness.service.ts).
use mathlib.Core.List.{append_assoc, append-nil}
use workforce_app_backend.Common.{
  ℕ, ◌≡◌, refl, sym, ap, ◌∙◌, Option, List, [], ◌∷◌, ◌++◌, map, is_empty, inl, inr,
}
use workforce_app_backend.Common.Result.{is_ok, Result-cases}
use workforce_app_backend.Attendance.{Platform}
use workforce_app_backend.Attendance.Presence.{Context}
use workforce_app_backend.Attendance.Corrections.{CorrectnessRequest, Tables, DayInput}
use workforce_app_backend.Attendance.Corrections.Ask.{check_day, add_row, create_rows}

abbrev pub day_of : CorrectnessRequest → DayInput
day_of r = record { date = r.work_date; session = r.session }

abbrev pub days_of : Tables → List DayInput
days_of db = map day_of db.requests

map-append :
    (rows more : List CorrectnessRequest)
    → map day_of (rows ++ more) ≡ map day_of rows ++ map day_of more
map-append [] more = refl
map-append (r ∷ rows) more = rw (map-append rows more) refl

-- The loop over the days of a submission adds a request for each day of a first part of the list, in
-- order; it succeeds exactly if that part is the whole list.
pub create_rows-prefix :
    (platform : Platform) (weekday : ℕ → ℕ) (today submission : ℕ) (ctx : Context)
    (remark : Option ℕ) (days : List DayInput) (db : Tables)
    → (done rest : List DayInput) × (days ≡ done ++ rest)
      × (days_of (create_rows platform weekday today submission ctx remark days db).0
          ≡ days_of db ++ done)
      × (is_ok (create_rows platform weekday today submission ctx remark days db).1 ≡ is_empty rest)
unfolding create_rows add_row
create_rows-prefix platform weekday today submission ctx remark [] db =
    ([], [], refl, sym (append-nil _), refl)
create_rows-prefix platform weekday today submission ctx remark (day ∷ days) db =
    elim (Result-cases (check_day platform weekday today ctx day db)) [
      | inl (thrown, e) ↦
          ([], day ∷ days, refl, rw (e, create_rows) (sym (append-nil _)), rw (e, create_rows) refl)
      | inr (passed, e) ↦
          let added = add_row platform weekday submission ctx remark day db in
          let (done, rest, split, rows, outcome) =
            create_rows-prefix platform weekday today submission ctx remark days added in
          (
            day ∷ done,
            rest,
            ap (λ more. day ∷ more) split,
            rw (e, create_rows)
                (rows
                  ∙ ap (λ first. first ++ done) (map-append db.requests _)
                  ∙ append_assoc (days_of db) (day ∷ []) done),
            rw (e, create_rows) outcome,
          )
    ]
