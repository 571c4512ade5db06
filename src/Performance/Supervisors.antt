-- ===== src/Performance/Supervisors.antt =====
-- Who reports to whom: `assertNoSupervisorCycle` and `validateSupervisor` of
-- src/modules/performance/performance.service.ts, and the update of an employee's supervisor in
-- src/modules/employees/employee.service.ts, which calls them.
pub mod Lines
use workforce_app_backend.Common.{
  ℕ, zero, suc, ◌+◌, ◌≡◌, refl, arith, Bool, true, false, not, ◌&&◌, Option, none, some, List, [],
  ◌∷◌, ◌==◌, find, includes, if◌then◌else◌, nonempty_text, inl, inr, Bool-cases, ◌⊎◌, ==_iff,
}
use workforce_app_backend.Common.Result.{Result, ok, err, app_error, throw_if, ◌>>◌}
use workforce_app_backend.Common.Table.{find_by, update_by}

pub record Employee : Type 0 where
  pub id : ℕ
  pub user_id : ℕ
  pub organization_id : ℕ
  pub office_id : Option ℕ
  pub supervisor_id : Option ℕ
  pub is_active : Bool
  pub user_is_active : Bool

abbrev pub employee_id_of : Employee → ℕ
employee_id_of e = e.id

abbrev supervisor_of : Option Employee → Option ℕ
supervisor_of none = none
supervisor_of (some e) = nonempty_text e.supervisor_id

-- The supervisor that the loop goes on with.
unfoldable pub up : List Employee → (organization_id cursor : ℕ) → Option ℕ
up employees organization_id cursor =
    supervisor_of (find (λ e. (e.id == cursor) && (e.organization_id == organization_id)) employees)

-- The loop, with the rounds that are left and the employees seen.
unfoldable pub walk :
    List Employee → ℕ → (rounds : ℕ) → (seen : List ℕ) → Option ℕ → Result (Unit {0})
walk employees organization_id zero seen current = ok tt
walk employees organization_id (suc rounds) seen none = ok tt
walk employees organization_id (suc rounds) seen (some current) =
    throw_if (includes seen current) (app_error 422 "SUPERVISOR_CYCLE")
    >> walk employees organization_id rounds (current ∷ seen) (up employees organization_id current)

unfoldable pub assert_no_supervisor_cycle :
    List Employee → (organization_id employee supervisor : ℕ) → Result (Unit {0})
unfolding walk
assert_no_supervisor_cycle employees organization_id employee supervisor =
    throw_if (employee == supervisor) (app_error 422 "INVALID_SUPERVISOR")
    >> walk employees organization_id 20 (employee ∷ []) (nonempty_text (some supervisor))

abbrev is_foreign : ℕ → Option Employee → Bool
is_foreign organization_id none = true
is_foreign organization_id (some e) = not (e.organization_id == organization_id)

abbrev check_line :
    List Employee → (organization_id : ℕ) → Option ℕ → (supervisor : ℕ) → Result (Unit {0})
check_line employees organization_id none supervisor = ok tt
check_line employees organization_id (some employee) supervisor =
    assert_no_supervisor_cycle employees organization_id employee supervisor

-- The absent employee is one that is about to be created.
unfoldable pub validate_supervisor :
    List Employee → (organization_id : ℕ) → (employee supervisor : Option ℕ) → Result (Unit {0})
unfolding assert_no_supervisor_cycle
validate_supervisor employees organization_id employee none = ok tt
validate_supervisor employees organization_id employee (some supervisor) =
    throw_if (is_foreign organization_id (find_by employee_id_of supervisor employees))
      (app_error 400 "INVALID_SUPERVISOR")
    >> check_line employees organization_id (nonempty_text employee) supervisor

-- The update of the employee's row that follows.
abbrev pub set_supervisor : Option ℕ → Employee → Employee
set_supervisor supervisor e = record e { supervisor_id = supervisor }

abbrev pub assign : List Employee → ℕ → Option ℕ → List Employee
assign employees employee supervisor =
    update_by employee_id_of employee (set_supervisor supervisor) employees

-- The line from an employee upwards comes to an end in so many steps.
abbrev pub line_ends : List Employee → ℕ → (steps : ℕ) → Option ℕ → Bool
line_ends employees organization_id steps none = true
line_ends employees organization_id zero (some current) = false
line_ends employees organization_id (suc steps) (some current) =
    line_ends employees organization_id steps (up employees organization_id current)
