-- ===== src/Shared/Tests.antt =====
-- Inputs at which the theorems on offices apply.
use workforce_app_backend.Common.{◌≡◌, refl, true, false, ◌&&◌, none, some, [], ◌∷◌}
use workforce_app_backend.Common.Result.{ok, is_ok}
use workforce_app_backend.Shared.OfficeScope.{
  scope_of, office_in, matches, assert_office_in_scope, employee_office_filter,
}
use workforce_app_backend.Shared.OfficeScope.Laws.{employee_office_filter-eq-assert}

listed : employee_office_filter (scope_of false (4 ∷ 5 ∷ [])) none ≡ ok (office_in (4 ∷ 5 ∷ []))
unfolding employee_office_filter
listed = refl

employee_office_filter-eq-assert_example :
    matches (office_in (4 ∷ 5 ∷ [])) (some 5)
    ≡ (is_ok (assert_office_in_scope (scope_of false (4 ∷ 5 ∷ [])) (some 5)) && true)
employee_office_filter-eq-assert_example =
    employee_office_filter-eq-assert (scope_of false (4 ∷ 5 ∷ [])) none (some 5) refl listed
