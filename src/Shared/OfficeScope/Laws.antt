-- ===== src/Shared/OfficeScope/Laws.antt =====
-- The filter of a list against the check of a single row (src/shared/office-scope.ts).
use workforce_app_backend.Common.{
  ℕ, ◌≡◌, Bool, true, false, ◌&&◌, Option, none, some, arith, ◌==◌, nonempty_text,
}
use workforce_app_backend.Common.Result.{ok, is_ok}
use workforce_app_backend.Shared.OfficeScope.{
  OfficeScope, OfficeFilter, matches, assert_office_in_scope, employee_office_filter,
}

-- The office is the one asked for, where one is.
abbrev is_requested : Option ℕ → Option ℕ → Bool
is_requested none office = true
is_requested (some id) none = false
is_requested (some id) (some office) = office == id

-- Where a list is not refused, and the office is none or has an identifier that is not empty, the
-- rows that it shows are those of the offices that the check of a single row lets through, less
-- those of an office that is not the one asked for.
pub employee_office_filter-eq-assert :
    (scope : OfficeScope) (requested office : Option ℕ) {filter : OfficeFilter}
    → nonempty_text office ≡ office
    → employee_office_filter scope requested ≡ ok filter
    → matches filter office ≡ (
        is_ok (assert_office_in_scope scope office)
        && is_requested (nonempty_text requested) office)
unfolding employee_office_filter assert_office_in_scope
employee_office_filter-eq-assert scope none none h e = ground arith
employee_office_filter-eq-assert scope none (some office) h e = ground arith
employee_office_filter-eq-assert scope (some id) none h e = ground arith
employee_office_filter-eq-assert scope (some id) (some office) h e = ground arith
