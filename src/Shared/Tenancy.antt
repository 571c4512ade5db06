-- ===== src/Shared/Tenancy.antt =====
-- Roles and the context of a signed-in user: src/shared/tenancy.ts.
use Prim.Native.String.{String}
use workforce_app_backend.Common.{
  ℕ, Bool, true, false, not, ◌||◌, Option, none, some, List, ◌==◌, any, nonempty_text,
}
use workforce_app_backend.Common.Result.{Result, app_error, or_throw, throw_if}

-- The strings of `ROLE`, the older "ADMIN", and any other role.
pub data Role : Type 0 where
  super_admin org_admin office_admin employee admin : Role
  other_role : ℕ → Role

-- The active context, which this code does not read, is left out.
pub record AuthContext : Type 0 where
  pub user_id : ℕ
  pub roles : List Role
  pub permissions : List ℕ
  pub restricted : Bool
  pub organization_id : Option ℕ
  pub office_ids : Option (List ℕ)

abbrev is_super_admin_role : Role → Bool
is_super_admin_role super_admin = true
is_super_admin_role _ = false

abbrev is_org_admin_role : Role → Bool
is_org_admin_role org_admin = true
is_org_admin_role admin = true
is_org_admin_role _ = false

abbrev is_office_admin_role : Role → Bool
is_office_admin_role office_admin = true
is_office_admin_role _ = false

-- `!!auth?.roles?.some(test)`
abbrev has_role : (Role → Bool) → Option AuthContext → Bool
has_role test none = false
has_role test (some auth) = any test auth.roles

unfoldable pub is_super_admin : Option AuthContext → Bool
is_super_admin auth = has_role is_super_admin_role auth

unfoldable pub is_org_admin : Option AuthContext → Bool
is_org_admin auth = has_role is_org_admin_role auth

unfoldable pub is_office_admin : Option AuthContext → Bool
is_office_admin auth = has_role is_office_admin_role auth

unfoldable pub is_tenant_admin : Option AuthContext → Bool
unfolding is_org_admin is_office_admin
is_tenant_admin auth = is_org_admin auth || is_office_admin auth

abbrev organization_of : Option AuthContext → Option ℕ
organization_of none = none
organization_of (some auth) = nonempty_text auth.organization_id

unfoldable pub require_organization_id : Option AuthContext → Result ℕ
require_organization_id auth =
    or_throw (organization_of auth) (app_error 403 "ORG_CONTEXT_REQUIRED")

abbrev is_not : Option ℕ → ℕ → Bool
is_not none organization_id = true
is_not (some id) organization_id = not (id == organization_id)

-- The code of the failure is that of the missing row.
unfoldable pub assert_same_organization : Option ℕ → ℕ → String → Result (Unit {0})
assert_same_organization entity_org_id organization_id not_found_code =
    throw_if (is_not (nonempty_text entity_org_id) organization_id) (app_error 404 not_found_code)
