-- ===== src/Attendance/CheckIn/Rows.antt =====
-- How many timesheets are open, and whose they are, as `checkIn` adds or opens one again.
use workforce_app_backend.Common.{
  ℕ, ◌+◌, ◌≤◌, ◌≡◌, refl, ap, Bool, true, false, ◌||◌, some, List, [], ◌∷◌, ◌++◌, arith, ◌==◌, inl,
  inr, Bool-cases, any, find, update_where, All,
}
use workforce_app_backend.Common.Table.{has_key, HasDistinctKeys}
use workforce_app_backend.Attendance.{Timesheet, timesheet_id}
use workforce_app_backend.Attendance.Close.Laws.{open_count}
use workforce_app_backend.Attendance.CheckIn.{is_open_of, is_of, reopen_row, is_reopenable}

pub open_count-none :
    (e : ℕ) (rows : List Timesheet) → any (is_open_of e) rows ≡ false → open_count e rows ≡ 0
unfolding open_count
open_count-none e [] h = refl
open_count-none e (t ∷ rows) h = ground (arith, open_count-none e rows)

pub open_count-append :
    (e : ℕ) (xs ys : List Timesheet) → open_count e (xs ++ ys) ≡ open_count e xs + open_count e ys
unfolding open_count
open_count-append e [] ys = omega arith
open_count-append e (t ∷ xs) ys = omega (arith, open_count-append e xs ys)

pub has_key-append_new :
    (xs : List Timesheet) (t : Timesheet) (k : ℕ)
    → has_key timesheet_id k (xs ++ t ∷ []) ≡ (has_key timesheet_id k xs || (t.id == k))
has_key-append_new [] t k = ground arith
has_key-append_new (x ∷ xs) t k = ground (arith, has_key-append_new xs t k)

pub HasDistinctKeys-append_new :
    (xs : List Timesheet) (t : Timesheet)
    → HasDistinctKeys timesheet_id xs
    → has_key timesheet_id t.id xs ≡ false
    → HasDistinctKeys timesheet_id (xs ++ t ∷ [])
HasDistinctKeys-append_new [] t d new = (refl, tt)
HasDistinctKeys-append_new (x ∷ xs) t d new = (
  ground (arith, has_key-append_new xs t x.id, d.0, new),
  HasDistinctKeys-append_new xs t d.1 (ground (arith, new)),
)

-- Opening a row again, in a table where the row of that identifier is the employee's.
abbrev pub reopened : Timesheet → List Timesheet → List Timesheet
reopened today rows = update_where (is_reopenable today.id) (reopen_row today) rows

abbrev pub IsOwned : ℕ → ℕ → List Timesheet → Type 0
IsOwned id e rows = All (λ (t : Timesheet). t.id ≡ id → t.employee_id ≡ e) rows

pub has_key-reopened :
    (today : Timesheet) (k : ℕ) (rows : List Timesheet)
    → has_key timesheet_id k (reopened today rows) ≡ has_key timesheet_id k rows
has_key-reopened today k [] = refl
has_key-reopened today k (t ∷ rows) = ground (arith, has_key-reopened today k rows)

pub HasDistinctKeys-reopened :
    (today : Timesheet) (rows : List Timesheet)
    → HasDistinctKeys timesheet_id rows
    → HasDistinctKeys timesheet_id (reopened today rows)
HasDistinctKeys-reopened today [] d = tt
HasDistinctKeys-reopened today (t ∷ rows) d =
    (ground (arith, has_key-reopened today t.id rows, d.0), HasDistinctKeys-reopened today rows d.1)

pub reopened-absent :
    (today : Timesheet) (rows : List Timesheet)
    → has_key timesheet_id today.id rows ≡ false
    → reopened today rows ≡ rows
reopened-absent today [] h = refl
reopened-absent today (t ∷ rows) h = ground (arith, h, reopened-absent today rows)

pub open_count-reopened_other :
    (today : Timesheet) (e f : ℕ) (rows : List Timesheet)
    → IsOwned today.id e rows
    → (f == e) ≡ false
    → open_count f (reopened today rows) ≡ open_count f rows
unfolding open_count
open_count-reopened_other today e f [] o h = refl
open_count-reopened_other today e f (t ∷ rows) o h =
    ground (arith, o.0, h, open_count-reopened_other today e f rows o.1 h)

pub open_count-reopened :
    (today : Timesheet) (e : ℕ) (rows : List Timesheet)
    → HasDistinctKeys timesheet_id rows
    → open_count e (reopened today rows) ≤ open_count e rows + 1
unfolding open_count
open_count-reopened today e [] d = omega arith
open_count-reopened today e (t ∷ rows) d = elim (Bool-cases (t.id == today.id)) [
  | inl same ↦
      let rest : reopened today rows ≡ rows =
        reopened-absent today rows (ground (arith, same, d.0)) in
      ground (arith, same, ap (open_count e) rest)
  | inr other ↦ ground (arith, other, open_count-reopened today e rows d.1)
]

pub has_key-find :
    (p : Timesheet → Bool) (rows : List Timesheet) (t : Timesheet)
    → find p rows ≡ some t
    → has_key timesheet_id t.id rows ≡ true
has_key-find p [] t h = absurd (ground arith)
has_key-find p (r ∷ rows) t h = elim (Bool-cases (p r)) [
  | inl passes ↦
      let same : r ≡ t = ground (arith, passes, h) in ground (arith, ap timesheet_id same)
  | inr fails ↦ ground (arith, has_key-find p rows t (ground (arith, fails, h)))
]

pub absent-IsOwned :
    (k e : ℕ) (rows : List Timesheet) → has_key timesheet_id k rows ≡ false → IsOwned k e rows
absent-IsOwned k e [] h = tt
absent-IsOwned k e (r ∷ rows) h =
    ((λ same. absurd (ground (arith, same, h))), absent-IsOwned k e rows (ground (arith, h)))

-- What the checks find for the day is the employee's.
pub find-IsOwned :
    (e d : ℕ) (rows : List Timesheet) (t : Timesheet)
    → HasDistinctKeys timesheet_id rows
    → find (is_of e d) rows ≡ some t
    → IsOwned t.id e rows
find-IsOwned e d [] t distinct h = tt
find-IsOwned e d (r ∷ rows) t distinct h = elim (Bool-cases (is_of e d r)) [
  | inl passes ↦
      let same : r ≡ t = ground (arith, passes, h) in
      (
        (λ _. ground (arith, passes)),
        absent-IsOwned t.id e rows (ground (arith, ap timesheet_id same, distinct.0)),
      )
  | inr fails ↦
      let later : find (is_of e d) rows ≡ some t = ground (arith, fails, h) in
      (
        (λ same. absurd (ground (arith, same, distinct.0, has_key-find (is_of e d) rows t later))),
        find-IsOwned e d rows t distinct.1 later,
      )
]
