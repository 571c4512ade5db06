-- ===== src/Shared/OfficeScope.antt =====
-- Which offices an administrator sees: src/shared/office-scope.ts.
pub mod Laws
use workforce_app_backend.Common.{
  ℕ, Bool, true, false, not, ◌&&◌, Option, none, some, List, [], ◌==◌, includes, is_empty, get_or,
  if◌then◌else◌, nonempty_text,
}
use workforce_app_backend.Common.Result.{Result, ok, app_error, throw_if, ◌>>◌}
use workforce_app_backend.Shared.Tenancy.{AuthContext, is_org_admin, is_office_admin}

pub record OfficeScope : Type 0 where
  pub all_offices : Bool
  pub office_ids : List ℕ

abbrev pub scope_of : Bool → List ℕ → OfficeScope
scope_of all_offices office_ids = record { all_offices = all_offices; office_ids = office_ids }

unfoldable pub get_office_scope : Option AuthContext → OfficeScope
unfolding is_org_admin is_office_admin
get_office_scope none = scope_of false []
get_office_scope (some auth) =
    if is_org_admin (some auth)
    then scope_of true []
    else if is_office_admin (some auth)
    then scope_of false (get_or auth.office_ids [])
    else scope_of true []

abbrev check_office : OfficeScope → Option ℕ → Result (Unit {0})
check_office scope none = throw_if (not scope.all_offices) (app_error 403 "OFFICE_SCOPE_REQUIRED")
check_office scope (some office) =
    throw_if (not scope.all_offices && not (includes scope.office_ids office))
      (app_error 403 "OFFICE_FORBIDDEN")

unfoldable pub assert_office_in_scope : OfficeScope → Option ℕ → Result (Unit {0})
assert_office_in_scope scope office_id = check_office scope (nonempty_text office_id)

-- A condition of a query on the column `officeId`.
pub data OfficeFilter : Type 0 where
  anywhere : OfficeFilter
  one_office : ℕ → OfficeFilter
  office_in : List ℕ → OfficeFilter

-- How the database reads it.
abbrev pub matches : OfficeFilter → Option ℕ → Bool
matches anywhere office = true
matches (one_office id) none = false
matches (one_office id) (some office) = office == id
matches (office_in ids) none = false
matches (office_in ids) (some office) = includes ids office

abbrev filter_in_all : Option ℕ → OfficeFilter
filter_in_all none = anywhere
filter_in_all (some id) = one_office id

abbrev filter_in_some : OfficeScope → Option ℕ → Result OfficeFilter
filter_in_some scope none = ok (office_in scope.office_ids)
filter_in_some scope (some id) =
    throw_if (not (includes scope.office_ids id)) (app_error 403 "OFFICE_FORBIDDEN")
    >> ok (one_office id)

unfoldable pub employee_office_filter : OfficeScope → Option ℕ → Result OfficeFilter
employee_office_filter scope requested =
    if scope.all_offices
    then ok (filter_in_all (nonempty_text requested))
    else throw_if (is_empty scope.office_ids) (app_error 403 "NO_OFFICE_ASSIGNMENT")
      >> filter_in_some scope (nonempty_text requested)

-- On a timesheet's own office; the branches rebuild the same condition.
unfoldable pub timesheet_office_filter : OfficeScope → Option ℕ → Result OfficeFilter
unfolding employee_office_filter
timesheet_office_filter scope requested = employee_office_filter scope requested
