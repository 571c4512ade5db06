-- ===== src/TaskTracker/Staff.antt =====
-- `mergeStaff` of src/modules/task-tracker/permissions.ts: the staff of a workspace and its profiles.
pub mod Admins
pub mod Profiles
use workforce_app_backend.Common.{
  ℕ, Bool, true, false, not, ◌&&◌, ◌||◌, Option, none, some, List, [], ◌∷◌, ◌++◌, ◌==◌,
  if◌then◌else◌, get_or, any, filter, includes,
}
use workforce_app_backend.TaskTracker.Roles.{
  PermissionRole, junior_staff, PermissionAction, is_super_admin,
}
use workforce_app_backend.TaskTracker.Workspace.{Dict, put, empty_text, StaffProfile, WorkspaceData}
use workforce_app_backend.TaskTracker.Can.{Allowed}

-- `x ? { field: x } : {}`
abbrev pub truthy : Option ℕ → Option ℕ
truthy none = none
truthy (some t) = if t == empty_text then none else some t

abbrev pub role_is_super_admin : Option StaffProfile → Bool
role_is_super_admin none = false
role_is_super_admin (some p) = is_super_admin p.permission_role

unfoldable pub staff_has_super_admin : List ℕ → Dict StaffProfile → Bool
staff_has_super_admin staff profiles = any (λ name. role_is_super_admin (profiles name)) staff

-- `if (!staff.includes(name)) staff.push(name)`
unfoldable pub add_missing : List ℕ → List ℕ → List ℕ
add_missing [] staff = staff
add_missing (name ∷ names) staff =
    add_missing names (if includes staff name then staff else staff ++ name ∷ [])

abbrev pub kept_profile : ℕ → Option StaffProfile → StaffProfile
kept_profile name none = record {
  first_name = name;
  last_name = empty_text;
  role = empty_text;
  permission_role = junior_staff;
  email = none;
  invite_status = none;
  department = none;
  office = none;
  workforce_role = none;
  employee_code = none;
}
kept_profile name (some p) = record {
  first_name = p.first_name;
  last_name = p.last_name;
  role = p.role;
  permission_role = p.permission_role;
  email = truthy p.email;
  invite_status = p.invite_status;
  department = none;
  office = none;
  workforce_role = none;
  employee_code = none;
}

abbrev pub edit_profile : Bool → StaffProfile → StaffProfile → StaffProfile
edit_profile edit p next =
    if edit
    then record next { first_name = p.first_name; last_name = p.last_name; role = p.role }
    else next

abbrev pub assign_role : Bool → StaffProfile → StaffProfile → StaffProfile
assign_role assign p next =
    if assign then record next { permission_role = p.permission_role } else next

-- The body of the loop over the staff: the profile that a name gets.
unfoldable pub merge_profile :
    Allowed → ℕ → Option StaffProfile → Option StaffProfile → StaffProfile
merge_profile allowed name none none = kept_profile name none
merge_profile allowed name none (some incoming) = incoming
merge_profile allowed name (some existing) none = kept_profile name (some existing)
merge_profile allowed name (some existing) (some incoming) =
    assign_role (allowed PermissionAction.staff_assign_role) incoming (
      edit_profile (allowed PermissionAction.staff_edit) incoming
        (kept_profile name (some existing)))

unfoldable pub merge_profiles :
    Allowed → Dict StaffProfile → Dict StaffProfile → List ℕ → Dict StaffProfile → Dict StaffProfile
merge_profiles allowed existing incoming [] acc = acc
merge_profiles allowed existing incoming (name ∷ staff) acc =
    merge_profiles allowed existing incoming staff
      (put name (merge_profile allowed name (existing name) (incoming name)) acc)

-- The body of the loop that puts the stored super administrators back.
unfoldable pub restore_step :
    ℕ → Option StaffProfile → List ℕ × Dict StaffProfile → List ℕ × Dict StaffProfile
restore_step name none acc = acc
restore_step name (some p) acc =
    if is_super_admin p.permission_role
    then (if includes acc.0 name then acc.0 else name ∷ acc.0, put name p acc.1)
    else acc

unfoldable pub restore_super_admins :
    Dict StaffProfile → List ℕ → List ℕ × Dict StaffProfile → List ℕ × Dict StaffProfile
restore_super_admins existing [] acc = acc
restore_super_admins existing (name ∷ names) acc =
    restore_super_admins existing names (restore_step name (existing name) acc)

unfoldable pub merged_staff : WorkspaceData → WorkspaceData → Allowed → ℕ → List ℕ
unfolding add_missing
merged_staff existing incoming allowed actor =
    let grown =
      (if allowed PermissionAction.staff_create
        then add_missing incoming.staff existing.staff
        else existing.staff) in
    if allowed PermissionAction.staff_delete
    then filter (λ name. includes incoming.staff name || (name == actor)) grown
    else grown

unfoldable pub merge_staff :
    WorkspaceData → WorkspaceData → Allowed → ℕ → List ℕ × Dict StaffProfile
merge_staff existing incoming allowed actor =
    let staff = merged_staff existing incoming allowed actor in
    let profiles =
      merge_profiles allowed existing.staff_profiles incoming.staff_profiles staff (λ k. none) in
    if staff_has_super_admin staff profiles
    then (staff, profiles)
    else restore_super_admins existing.staff_profiles existing.staff (staff, profiles)
