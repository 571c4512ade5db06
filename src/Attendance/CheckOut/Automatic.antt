-- ===== src/Attendance/CheckOut/Automatic.antt =====
-- Which timesheets the automatic checkout of src/modules/attendance/auto-checkout.service.ts closes.
use mathlib.Core.Option
use mathlib.Core.List.{append_assoc}
use workforce_app_backend.Common.{
  ℕ, ◌≤◌, ◌<◌, ◌≡◌, refl, sym, ap, ◌∙◌, true, false, ◌⊎◌, some, List, [], ◌∷◌, ◌++◌, arith,
  if◌then◌else◌, inl, inr, Bool-cases, Option-cases,
}
use workforce_app_backend.Common.Result.{Result, ok, err}
use workforce_app_backend.Common.Table.{find_by}
use workforce_app_backend.Attendance.{by_system, Timesheet, Store, Platform, timesheet_id}
use workforce_app_backend.Attendance.Metrics.{
  resolve_system_checkout_at, is_eligible_for_auto_checkout, compute_checkout_metrics,
}
use workforce_app_backend.Attendance.Close.{
  is_open_row, close_row, CloseInput, closed_timesheets, close_open_timesheet,
}
use workforce_app_backend.Attendance.Close.Laws.{close_open_timesheet-timesheets}
use workforce_app_backend.Attendance.CheckOut.{
  AutoRow, resolve_auto_checkout_instant, keep_on_error, auto_input, auto_close_row, or_stop,
  auto_close_rows,
}

-- The timesheet `t`, which was open, is closed for the row: it is that of the row, its office
-- has the automatic checkout enabled, the office's checkout instant has come and is after the
-- check-in, and the checkout is by the system, at that instant or before, and marked as missing.
pub record IsAutoClosed (platform : Platform) (now : ℕ) (row : AutoRow) (t closed : Timesheet)
    : Type 0 where
  pub auto_at : ℕ
  pub checkout_at : ℕ
  pub was_open : t.is_open ≡ true
  pub named : row.timesheet.id ≡ t.id
  pub enabled : row.enabled ≡ true
  pub valid :
      resolve_auto_checkout_instant platform row.zone row.auto_checkout_time now ≡ some auto_at
  pub after_check_in : row.timesheet.actual_check_in < auto_at
  pub has_come : auto_at ≤ now
  pub shut : closed.is_open ≡ false
  pub source : closed.check_out_source ≡ some by_system
  pub checked_out : closed.actual_check_out ≡ some checkout_at
  pub not_later : checkout_at ≤ auto_at
  pub missing : closed.is_missing_checkout ≡ true
  pub same_check_in : closed.actual_check_in ≡ t.actual_check_in

-- Closed for one of the rows.
abbrev pub IsClosedForOne : Platform → ℕ → List AutoRow → Timesheet → Timesheet → Type 0
IsClosedForOne platform now rows t closed =
    (earlier : List AutoRow) × (row : AutoRow) × (later : List AutoRow) × (rows
      ≡ earlier ++ row ∷ later)
    × IsAutoClosed platform now row t closed

-- What became of a timesheet: nothing, or that.
abbrev pub Fate : Platform → ℕ → List AutoRow → ℕ → Timesheet → Store → Type 0
Fate platform now rows j t after =
    (last : Timesheet) × (find_by timesheet_id j after.timesheets ≡ some last)
    × ((last ≡ t) ⊎ IsClosedForOne platform now rows t last)

find_by-closed :
    (platform : Platform) (input : CloseInput) (j : ℕ) (rows : List Timesheet)
    → find_by timesheet_id j (closed_timesheets platform input rows)
      ≡ Option.map
          (λ t.
            if is_open_row input.opened.id t
            then close_row input.source input.checkout_at input.idempotency_key input.opened
                (compute_checkout_metrics platform input.opened input.checkout_at)
                t
            else t)
          (find_by timesheet_id j rows)
unfolding closed_timesheets
find_by-closed platform input j [] = refl
find_by-closed platform input j (t ∷ rows) = ground (arith, find_by-closed platform input j rows)

system_checkout-le :
    (scheduled auto_at : ℕ) → resolve_system_checkout_at scheduled auto_at ≤ auto_at
unfolding resolve_system_checkout_at
system_checkout-le scheduled auto_at = ground arith

eligible-bounds :
    (check_in auto_at now : ℕ)
    → is_eligible_for_auto_checkout check_in auto_at now ≡ true
    → (check_in < auto_at) × (auto_at ≤ now)
unfolding is_eligible_for_auto_checkout
eligible-bounds check_in auto_at now h = (ground arith, ground arith)

module _ (platform : Platform) (now : ℕ) (row : AutoRow) (j : ℕ) (t : Timesheet) (db : Store)
    (there : find_by timesheet_id j db.timesheets ≡ some t) where
  idle : (after : Store) → db ≡ after → Fate platform now (row ∷ []) j t after
  idle after same = (t, rw same at there, inl refl)

  close-Fate :
      (auto_at : ℕ) (after : Store)
      → row.enabled ≡ true
      → resolve_auto_checkout_instant platform row.zone row.auto_checkout_time now ≡ some auto_at
      → is_eligible_for_auto_checkout row.timesheet.actual_check_in auto_at now ≡ true
      → close_open_timesheet platform (auto_input row auto_at) db ≡ ok after
      → Fate platform now (row ∷ []) j t after
  close-Fate auto_at after enabled valid due closed =
      let input = auto_input row auto_at in
      let rows = (close_open_timesheet-timesheets platform input db closed).1 in
      let looked = find_by-closed platform input j db.timesheets in
      let (after_check_in, has_come) =
        eligible-bounds row.timesheet.actual_check_in auto_at now due in
      elim (Bool-cases (is_open_row row.timesheet.id t)) [
        | inr other ↦ (t, rw rows (looked ∙ rw (there, other) refl), inl refl)
        | inl mine ↦ (
          close_row by_system input.checkout_at row.key row.timesheet
              (compute_checkout_metrics platform row.timesheet input.checkout_at) t,
          rw rows (looked ∙ rw (there, mine) refl),
          inr (
            [],
            row,
            [],
            refl,
            record {
              auto_at = auto_at;
              checkout_at = input.checkout_at;
              was_open = ground (arith, mine);
              named = ground (arith, mine);
              enabled = enabled;
              valid = valid;
              after_check_in = after_check_in;
              has_come = has_come;
              shut = refl;
              source = refl;
              checked_out = refl;
              not_later = system_checkout-le row.timesheet.scheduled_check_out auto_at;
              missing = refl;
              same_check_in = refl;
            },
          ),
        )
      ]

  keep_on_error-Fate :
      (result : Result Store)
      → ((after : Store) → result ≡ ok after → Fate platform now (row ∷ []) j t after)
      → Fate platform now (row ∷ []) j t (keep_on_error db result)
  keep_on_error-Fate (err e) f = idle db refl
  keep_on_error-Fate (ok after) f = f after refl

  auto_close_row-Fate :
      (after : Store)
      → auto_close_row platform now row db ≡ ok after
      → Fate platform now (row ∷ []) j t after
  unfolding auto_close_row
  auto_close_row-Fate after h = elim (Bool-cases row.enabled) [
    | inr disabled ↦ idle after (ground (arith, disabled, h))
    | inl enabled ↦
        elim (Option-cases
          (resolve_auto_checkout_instant platform row.zone row.auto_checkout_time now)) [
            | inl invalid ↦ absurd (ground (arith, enabled, invalid, h))
            | inr (auto_at, valid) ↦
                elim (Bool-cases
                  (is_eligible_for_auto_checkout row.timesheet.actual_check_in auto_at now)) [
                    | inr early ↦ idle after (ground (arith, enabled, valid, early, h))
                    | inl due ↦
                        let closed = close_open_timesheet platform (auto_input row auto_at) db in
                        let same : keep_on_error db closed ≡ after =
                          ground (arith, enabled, valid, due, h) in
                        rw same at (
                          keep_on_error-Fate closed
                            (λ next e. close-Fate auto_at next enabled valid due e))
                  ]
          ]
  ]

first_row :
    (platform : Platform) (now : ℕ) (row : AutoRow) (rows : List AutoRow) (t closed : Timesheet)
    → IsClosedForOne platform now (row ∷ []) t closed
    → IsClosedForOne platform now (row ∷ rows) t closed
first_row platform now row rows t closed (earlier, one, later, read, c) = (
  earlier,
  one,
  later ++ rows,
  ap (λ all. all ++ rows) read ∙ append_assoc earlier (one ∷ later) rows,
  c,
)

later_row :
    (platform : Platform) (now : ℕ) (row : AutoRow) (rows : List AutoRow) (t closed : Timesheet)
    → IsClosedForOne platform now rows t closed
    → IsClosedForOne platform now (row ∷ rows) t closed
later_row platform now row rows t closed (earlier, one, later, read, c) =
    (row ∷ earlier, one, later, ap (λ all. row ∷ all) read, c)

-- What the first row and the rest make of a timesheet.
then_rest :
    (platform : Platform) (now : ℕ) (row : AutoRow) (rows : List AutoRow) (j : ℕ)
    (t mid : Timesheet) (after : Store)
    → (mid ≡ t) ⊎ IsClosedForOne platform now (row ∷ []) t mid
    → Fate platform now rows j mid after
    → Fate platform now (row ∷ rows) j t after
then_rest platform now row rows j t mid after (inl same) (last, found, inl kept) =
    (last, found, inl (kept ∙ same))
then_rest platform now row rows j t mid after (inl same) (last, found, inr closed) =
    (last, found, inr (later_row platform now row rows t last (rw same at closed)))
then_rest platform now row rows j t mid after (inr closed) (last, found, inl kept) =
    (last, found, inr (rw (sym kept) at (first_row platform now row rows t mid closed)))
then_rest platform now row rows j t mid after (inr (_, _, _, _, closed))
      (last, found, inr (_, _, _, _, again)) =
    absurd (ground (arith, closed.shut, again.was_open))

or_stop-Fate :
    (platform : Platform) (now : ℕ) (row : AutoRow) (rows : List AutoRow) (j : ℕ) (t : Timesheet)
    (db : Store) (rest : Store → Store) (result : Result Store)
    → find_by timesheet_id j db.timesheets ≡ some t
    → ((next : Store) → result ≡ ok next → Fate platform now (row ∷ []) j t next)
    → ((next : Store) (mid : Timesheet)
        → find_by timesheet_id j next.timesheets ≡ some mid
        → Fate platform now rows j mid (rest next))
    → Fate platform now (row ∷ rows) j t (or_stop db rest result)
or_stop-Fate platform now row rows j t db rest (err e) there one others = (t, there, inl refl)
or_stop-Fate platform now row rows j t db rest (ok next) there one others =
    let (mid, found, what) = one next refl in
    then_rest platform now row rows j t mid (rest next) what (others next mid found)

-- A run of the automatic checkout leaves a timesheet as it was, or closes it for one of the rows that
-- it read: then it was open, its office has the automatic checkout enabled, the office's instant has
-- come and is after the check-in, and the checkout is the system's, not after that instant, marked as
-- missing, with the same check-in.
pub auto_close_rows-Fate :
    (platform : Platform) (now : ℕ) (rows : List AutoRow) (db : Store) (j : ℕ) (t : Timesheet)
    → find_by timesheet_id j db.timesheets ≡ some t
    → Fate platform now rows j t (auto_close_rows platform now rows db)
unfolding auto_close_rows
auto_close_rows-Fate platform now [] db j t there = (t, there, inl refl)
auto_close_rows-Fate platform now (row ∷ rows) db j t there =
    or_stop-Fate platform now row rows j t db (auto_close_rows platform now rows)
      (auto_close_row platform now row db) there
      (λ next e. auto_close_row-Fate platform now row j t db there next e)
      (λ next mid found. auto_close_rows-Fate platform now rows next j mid found)
