-- ===== src/TaskTracker/Staff/Profiles.antt =====
-- The profiles through `mergeStaff` of src/modules/task-tracker/permissions.ts.
use workforce_app_backend.Common.{
  ℕ, ◌≡◌, refl, sym, ap, ◌∙◌, false, Option, none, some, List, [], ◌∷◌, arith, ◌==◌, if◌then◌else◌,
  inl, inr, Bool-cases, includes,
}
use workforce_app_backend.TaskTracker.Roles.{PermissionRole, PermissionAction}
use workforce_app_backend.TaskTracker.Workspace.{Dict, StaffProfile, WorkspaceData}
use workforce_app_backend.TaskTracker.Can.{Allowed}
use workforce_app_backend.TaskTracker.Staff.{
  staff_has_super_admin, merge_profile, merge_profiles, restore_step, restore_super_admins,
  merged_staff, merge_staff,
}

merge_profiles-get :
    (allowed : Allowed) (existing incoming : Dict StaffProfile) (staff : List ℕ)
    (acc : Dict StaffProfile) (k : ℕ)
    → merge_profiles allowed existing incoming staff acc k ≡ (
        if includes staff k
        then some (merge_profile allowed k (existing k) (incoming k))
        else acc k)
unfolding merge_profiles
merge_profiles-get allowed existing incoming [] acc k = refl
merge_profiles-get allowed existing incoming (name ∷ staff) acc k =
    merge_profiles-get allowed existing incoming staff _ k ∙ ground arith

-- The role that a profile has; a name without a profile has none.
abbrev pub role_of : Option StaffProfile → Option PermissionRole
role_of none = none
role_of (some p) = some p.permission_role

-- Either no profile, or that role.
abbrev pub IsRoleOrNone : PermissionRole → Option StaffProfile → Type 0
IsRoleOrNone role none = Unit
IsRoleOrNone role (some p) = p.permission_role ≡ role

merge_profile-role :
    (allowed : Allowed) (k : ℕ) (p : StaffProfile) (incoming : Option StaffProfile)
    → allowed PermissionAction.staff_assign_role ≡ false
    → (merge_profile allowed k (some p) incoming).permission_role ≡ p.permission_role
unfolding merge_profile
merge_profile-role allowed k p none h = refl
merge_profile-role allowed k p (some i) h = ground (arith, h)

restore_step-role :
    (existing : Dict StaffProfile) (name : ℕ) (o : Option StaffProfile)
    (acc : List ℕ × Dict StaffProfile) (k : ℕ) (p : StaffProfile)
    → existing k ≡ some p
    → existing name ≡ o
    → IsRoleOrNone p.permission_role (acc.1 k)
    → IsRoleOrNone p.permission_role ((restore_step name o acc).1 k)
unfolding restore_step
restore_step-role existing name none acc k p e f h = h
restore_step-role existing name (some q) acc k p e f h = elim (Bool-cases (name == k)) [
  | inl same ↦
      let agree : some q ≡ some p = sym f ∙ ap existing (ground (arith, same)) ∙ e in
      ground (arith, same, agree, h)
  | inr other ↦ ground (arith, other, h)
]

restore-role :
    (existing : Dict StaffProfile) (names : List ℕ) (acc : List ℕ × Dict StaffProfile) (k : ℕ)
    (p : StaffProfile)
    → existing k ≡ some p
    → IsRoleOrNone p.permission_role (acc.1 k)
    → IsRoleOrNone p.permission_role ((restore_super_admins existing names acc).1 k)
unfolding restore_super_admins
restore-role existing [] acc k p e h = h
restore-role existing (name ∷ names) acc k p e h =
    restore-role existing names _ k p e
      (restore_step-role existing name (existing name) acc k p e refl h)

-- Where the actor may not assign roles, a name that has a stored profile keeps the role of it, or has
-- no profile any more, whatever the client sends.
pub merge_staff-role :
    (existing incoming : WorkspaceData) (allowed : Allowed) (actor k : ℕ) (p : StaffProfile)
    → allowed PermissionAction.staff_assign_role ≡ false
    → existing.staff_profiles k ≡ some p
    → IsRoleOrNone p.permission_role ((merge_staff existing incoming allowed actor).1 k)
unfolding merge_staff
merge_staff-role existing incoming allowed actor k p denied stored =
    let staff = merged_staff existing incoming allowed actor in
    let profiles =
      merge_profiles allowed existing.staff_profiles incoming.staff_profiles staff (λ n. none) in
    let merged : IsRoleOrNone p.permission_role (profiles k) =
      rw
        (
          merge_profiles-get allowed existing.staff_profiles incoming.staff_profiles staff
              (λ n. none) k,
          stored,
        )
        (elim (Bool-cases (includes staff k)) [
          | inl there ↦ rw there (merge_profile-role allowed k p (incoming.staff_profiles k) denied)
          | inr gone ↦ rw gone tt
        ]) in
    elim (Bool-cases (staff_has_super_admin staff profiles)) [
      | inl has ↦ rw has merged
      | inr lost ↦
          rw lost (
            restore-role existing.staff_profiles existing.staff (staff, profiles) k p stored merged)
    ]
