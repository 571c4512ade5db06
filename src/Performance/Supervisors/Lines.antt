-- ===== src/Performance/Supervisors/Lines.antt =====
-- An assignment of a supervisor that passes the check of
-- src/modules/performance/performance.service.ts keeps the lines of supervisors finite.
use workforce_app_backend.Common.{
  ℕ, zero, suc, ◌+◌, ◌≡◌, refl, arith, true, false, Option, none, some, List, [], ◌∷◌, ◌==◌,
  includes, nonempty_text, sym, inl, inr, Bool-cases, ◌⊎◌, ==_iff,
}
use workforce_app_backend.Common.Result.{
  ok, app_error, throw_if, check-eq-ok, after_check-eq-ok, throw_if-eq-ok,
}
use workforce_app_backend.Common.Table.{find_by}
use workforce_app_backend.Performance.Supervisors.{
  Employee, employee_id_of, up, walk, assert_no_supervisor_cycle, validate_supervisor, is_foreign,
  check_line, assign, line_ends,
}

module _ (organization_id employee supervisor : ℕ) where
  up-assign :
      (employees : List Employee) (cursor : ℕ)
      → (employee == cursor) ≡ false
      → up (assign employees employee (some supervisor)) organization_id cursor
        ≡ up employees organization_id cursor
  unfolding up
  up-assign [] cursor other = refl
  up-assign (e ∷ employees) cursor other = ground (arith, other, up-assign employees cursor other)

  up-assigned :
      (employees : List Employee)
      → (up (assign employees employee (some supervisor)) organization_id employee ≡ none)
        ⊎ (up (assign employees employee (some supervisor)) organization_id employee
            ≡ nonempty_text (some supervisor))
  unfolding up
  up-assigned [] = inl refl
  up-assigned (e ∷ employees) = ground (arith, up-assigned employees)

  walk-line_ends :
      (employees : List Employee) (rounds : ℕ) (seen : List ℕ) (current : Option ℕ)
      → walk employees organization_id rounds seen current ≡ ok tt
      → includes seen employee ≡ true
      → line_ends employees organization_id rounds current ≡ true
      → line_ends (assign employees employee (some supervisor)) organization_id rounds current
        ≡ true
  unfolding walk
  walk-line_ends employees zero seen none passed met ends = refl
  walk-line_ends employees zero seen (some current) passed met ends = absurd (ground arith)
  walk-line_ends employees (suc rounds) seen none passed met ends = refl
  walk-line_ends employees (suc rounds) seen (some current) passed met ends =
      let rest =
        walk employees organization_id rounds (current ∷ seen)
          (up employees organization_id current) in
      let thrown = app_error 422 "SUPERVISOR_CYCLE" in
      let fresh =
        throw_if-eq-ok (includes seen current) thrown
          (check-eq-ok (throw_if (includes seen current) thrown) rest passed) in
      let later = after_check-eq-ok (throw_if (includes seen current) thrown) rest passed in
      let other : (employee == current) ≡ false = ground (arith, met, fresh) in
      let onward =
        walk-line_ends employees rounds (current ∷ seen) (up employees organization_id current)
          later (ground (arith, met)) ends in
      let moved : line_ends (assign employees employee (some supervisor)) organization_id rounds
            (up (assign employees employee (some supervisor)) organization_id current)
          ≡ true =
        rw (up-assign employees current other) onward in
      moved

line_ends-more :
    (employees : List Employee) (organization_id steps more : ℕ) (current : Option ℕ)
    → line_ends employees organization_id steps current ≡ true
    → line_ends employees organization_id (steps + more) current ≡ true
line_ends-more employees organization_id steps more none ends = refl
line_ends-more employees organization_id zero more (some current) ends = absurd (ground arith)
line_ends-more employees organization_id (suc steps) more (some current) ends =
    let shift : suc steps + more ≡ suc (steps + more) = omega arith in
    rw shift (
      line_ends-more employees organization_id steps more (up employees organization_id current)
        ends)

module _ (organization_id employee supervisor : ℕ) where
  -- The line of the employee, by that of the supervisor.
  own_line :
      (employees : List Employee) (steps : ℕ)
      → let after = assign employees employee (some supervisor) in
        line_ends after organization_id steps (nonempty_text (some supervisor)) ≡ true
        → line_ends after organization_id (suc steps) (some employee) ≡ true
  own_line employees steps ends =
      let after = assign employees employee (some supervisor) in
      elim (up-assigned organization_id employee supervisor employees) [
        | inl top ↦
            let e : line_ends after organization_id steps (up after organization_id employee)
                ≡ true =
              rw top refl in
            e
        | inr below ↦
            let e : line_ends after organization_id steps (up after organization_id employee)
                ≡ true =
              rw below ends in
            e
      ]

  other_lines :
      (employees : List Employee) (longest steps : ℕ) (current : Option ℕ)
      → line_ends
          (assign employees employee (some supervisor))
          organization_id
          longest
          (some employee)
        ≡ true
      → line_ends employees organization_id steps current ≡ true
      → line_ends
          (assign employees employee (some supervisor))
          organization_id
          (steps + longest)
          current
        ≡ true
  other_lines employees longest steps none own ends = refl
  other_lines employees longest zero (some current) own ends = absurd (ground arith)
  other_lines employees longest (suc steps) (some current) own ends =
      let after = assign employees employee (some supervisor) in
      elim (Bool-cases (employee == current)) [
        | inl same ↦
            let here : employee ≡ current = (==_iff employee current).0 same in
            let more : suc steps + longest ≡ longest + suc steps = omega arith in
            rw (sym here, more)
              (line_ends-more after organization_id longest (suc steps) (some employee) own)
        | inr other ↦
            let shift : suc steps + longest ≡ suc (steps + longest) = omega arith in
            let onward =
              other_lines employees longest steps (up employees organization_id current) own ends in
            let moved : line_ends after organization_id (steps + longest)
                  (up after organization_id current)
                ≡ true =
              rw (up-assign organization_id employee supervisor employees current other) onward in
            rw shift moved
      ]

-- A supervisor is assigned to an employee whom the check lets through, and the supervisor's line
-- ends within the twenty steps that the check takes. Then no line of supervisors becomes a circle:
-- each that ended in some steps before ends in at most twenty-one more.
pub line_ends-assign :
    (employees : List Employee) (organization_id employee supervisor start steps : ℕ)
    → validate_supervisor employees organization_id (some employee) (some supervisor) ≡ ok tt
    → nonempty_text (some employee) ≡ some employee
    → line_ends employees organization_id 20 (nonempty_text (some supervisor)) ≡ true
    → line_ends employees organization_id steps (some start) ≡ true
    → line_ends
        (assign employees employee (some supervisor))
        organization_id
        (steps + 21)
        (some start)
      ≡ true
unfolding validate_supervisor assert_no_supervisor_cycle
line_ends-assign employees organization_id employee supervisor start steps passed named ends
      before =
    let line = nonempty_text (some supervisor) in
    let own_check = throw_if (employee == supervisor) (app_error 422 "INVALID_SUPERVISOR") in
    let walked = walk employees organization_id 20 (employee ∷ []) line in
    let checked =
      after_check-eq-ok
        (throw_if (is_foreign organization_id (find_by employee_id_of supervisor employees))
          (app_error 400 "INVALID_SUPERVISOR"))
        (check_line employees organization_id (nonempty_text (some employee)) supervisor) passed in
    let line_checked = rw named at checked in
    let walked_ok = after_check-eq-ok own_check walked line_checked in
    let met : includes (employee ∷ []) employee ≡ true = ground arith in
    let above =
      walk-line_ends organization_id employee supervisor employees 20 (employee ∷ []) line walked_ok
        met ends in
    other_lines organization_id employee supervisor employees 21 steps (some start)
      (own_line organization_id employee supervisor employees 20 above) before
