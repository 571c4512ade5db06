-- ===== src/TaskTracker/Apply/Admins.antt =====
-- The super administrators through `applyPermittedWorkspaceUpdate`.
use workforce_app_backend.Common.{
  ℕ, ◌≡◌, refl, true, false, not, ◌&&◌, ◌||◌, List, [], ◌∷◌, ◌++◌, arith, inl, inr, Bool-cases,
  any-append, includes,
}
use workforce_app_backend.TaskTracker.Roles.{PermissionRole, PermissionAction, is_super_admin}
use workforce_app_backend.TaskTracker.Workspace.{Dict, StaffProfile, WorkspaceData}
use workforce_app_backend.TaskTracker.Staff.{role_is_super_admin, staff_has_super_admin}
use workforce_app_backend.TaskTracker.Staff.Admins.{merge_staff-HasSuperAdmin}
use workforce_app_backend.TaskTracker.Apply.{
  allowed_to, import_staff, copy_profile, keep_actor, import_workspace, merge_workspace,
  apply_permitted_workspace_update,
}

abbrev HasSuperAdmin : WorkspaceData → Type 0
HasSuperAdmin w = staff_has_super_admin w.staff w.staff_profiles ≡ true

copy_profile-elsewhere :
    (actor : ℕ) (from to : Dict StaffProfile) (staff : List ℕ)
    → includes staff actor ≡ false
    → staff_has_super_admin staff (copy_profile actor from to) ≡ staff_has_super_admin staff to
unfolding staff_has_super_admin
copy_profile-elsewhere actor from to [] h = refl
copy_profile-elsewhere actor from to (name ∷ staff) h =
    ground (arith, h, copy_profile-elsewhere actor from to staff)

staff_has_super_admin-append :
    (xs ys : List ℕ) (profiles : Dict StaffProfile)
    → staff_has_super_admin (xs ++ ys) profiles
      ≡ (staff_has_super_admin xs profiles || staff_has_super_admin ys profiles)
unfolding staff_has_super_admin
staff_has_super_admin-append xs ys profiles =
    any-append (λ name. role_is_super_admin (profiles name)) xs ys

import_staff-HasSuperAdmin :
    (existing incoming : WorkspaceData)
    → HasSuperAdmin existing
    → HasSuperAdmin (import_staff existing incoming)
import_staff-HasSuperAdmin existing incoming h =
    elim (Bool-cases (staff_has_super_admin incoming.staff incoming.staff_profiles)) [
      | inl has ↦ rw (has, has)
      | inr lacks ↦ rw (lacks, h)
    ]

keep_actor-HasSuperAdmin :
    (actor : ℕ) (existing next : WorkspaceData)
    → HasSuperAdmin next
    → HasSuperAdmin (keep_actor actor existing next)
keep_actor-HasSuperAdmin actor existing next h =
    elim (Bool-cases (not (includes next.staff actor) && includes existing.staff actor)) [
      | inr stays ↦ rw (stays, h)
      | inl gone ↦ rw (
        gone,
        staff_has_super_admin-append next.staff (actor ∷ []),
        copy_profile-elsewhere actor existing.staff_profiles next.staff_profiles next.staff
            (ground (arith, gone)),
        h,
      )
    ]

-- A workspace whose stored staff has a super administrator has one after any update: whatever the
-- client sends, whatever role the actor has, and also when a whole backup is imported.
pub apply_permitted_workspace_update-HasSuperAdmin :
    (existing incoming : WorkspaceData) (role : PermissionRole) (actor : ℕ)
    → staff_has_super_admin existing.staff existing.staff_profiles ≡ true
    → let next = apply_permitted_workspace_update existing incoming role actor in
      staff_has_super_admin next.staff next.staff_profiles ≡ true
unfolding apply_permitted_workspace_update import_workspace merge_workspace
apply_permitted_workspace_update-HasSuperAdmin existing incoming role actor h =
    elim (Bool-cases
      (is_super_admin role || allowed_to existing role PermissionAction.backup_import)) [
        | inl whole ↦ rw whole (
            keep_actor-HasSuperAdmin actor existing (import_staff existing incoming)
              (import_staff-HasSuperAdmin existing incoming h))
        | inr parts ↦
            rw parts
              (merge_staff-HasSuperAdmin existing incoming (allowed_to existing role) actor h)
      ]
