-- ===== src/TaskTracker/Apply.antt =====
-- `applyPermittedWorkspaceUpdate` of src/modules/task-tracker/permissions.ts: a client's copy of the
-- workspace replaces the stored one as far as the role of the actor allows.
pub mod Admins
pub mod Denied
use workforce_app_backend.Common.{
  ℕ, Bool, true, false, not, ◌&&◌, ◌||◌, Option, none, some, List, [], ◌∷◌, ◌++◌, ◌==◌,
  if◌then◌else◌, get_or, includes,
}
use workforce_app_backend.TaskTracker.Roles.{PermissionRole, PermissionAction, is_super_admin}
use workforce_app_backend.TaskTracker.Workspace.{
  Dict, put, StaffProfile, DeletedTask, ArchivedTask, PermissionMatrix, WorkspaceData,
}
use workforce_app_backend.TaskTracker.Can.{Allowed, can}
use workforce_app_backend.TaskTracker.Staff.{staff_has_super_admin, merge_staff}
use workforce_app_backend.TaskTracker.Merge.{
  NamedInput, merge_named_collection, merge_tasks, merge_by_id, merge_schedule,
}

abbrev pub allowed_to : WorkspaceData → PermissionRole → Allowed
allowed_to existing role action = can role action existing.permission_matrix

-- The stored staff, where the imported one has no super administrator.
abbrev pub import_staff : WorkspaceData → WorkspaceData → WorkspaceData
import_staff existing incoming =
    if staff_has_super_admin incoming.staff incoming.staff_profiles
    then incoming
    else record incoming { staff = existing.staff; staff_profiles = existing.staff_profiles }

-- `next.staffProfiles[name] = clone(existing.staffProfiles[name]!)`
abbrev pub copy_profile : ℕ → Dict StaffProfile → Dict StaffProfile → Dict StaffProfile
copy_profile name from to k = if name == k then from name else to k

-- The actor does not remove itself.
abbrev pub keep_actor : ℕ → WorkspaceData → WorkspaceData → WorkspaceData
keep_actor actor existing next =
    if not (includes next.staff actor) && includes existing.staff actor
    then record next {
      staff = next.staff ++ actor ∷ [];
      staff_profiles = copy_profile actor existing.staff_profiles next.staff_profiles;
    }
    else next

abbrev pub next_matrix : Allowed → WorkspaceData → WorkspaceData → PermissionMatrix
next_matrix allowed existing incoming =
    if allowed PermissionAction.settings_edit_permissions
    then incoming.permission_matrix
    else existing.permission_matrix

unfoldable pub import_workspace : WorkspaceData → WorkspaceData → Allowed → ℕ → WorkspaceData
import_workspace existing incoming allowed actor =
    let next = keep_actor actor existing (import_staff existing incoming) in
    record next { permission_matrix = next_matrix allowed existing incoming }

abbrev pub projects_of : WorkspaceData → NamedInput
projects_of w = record { names = w.teams; members = w.team_members; leaders = w.team_leaders }

-- The organisation's teams have no leaders.
abbrev pub org_teams_of : WorkspaceData → NamedInput
org_teams_of w = record { names = w.org_teams; members = w.org_team_members; leaders = λ k. none }

abbrev pub trash_key : DeletedTask → ℕ
trash_key item = get_or item.trash_id item.task.id

abbrev pub archive_key : ArchivedTask → ℕ
archive_key item = item.archived_id

unfoldable pub merge_workspace : WorkspaceData → WorkspaceData → Allowed → ℕ → WorkspaceData
merge_workspace existing incoming allowed actor =
    let staff = merge_staff existing incoming allowed actor in
    let projects =
      merge_named_collection (projects_of existing) (projects_of incoming)
        (allowed PermissionAction.projects_create) (allowed PermissionAction.projects_rename)
        (allowed PermissionAction.projects_delete)
        (allowed PermissionAction.projects_manage_members) in
    let org_teams =
      merge_named_collection (org_teams_of existing) (org_teams_of incoming)
        (allowed PermissionAction.teams_create) (allowed PermissionAction.teams_rename)
        (allowed PermissionAction.teams_delete) (allowed PermissionAction.teams_manage_members) in
    let archive = allowed PermissionAction.tasks_archive || allowed PermissionAction.tasks_delete in
    record {
      tasks = merge_tasks existing.tasks incoming.tasks allowed;
      teams = projects.names;
      deleted_tasks =
          merge_by_id existing.deleted_tasks incoming.deleted_tasks trash_key
            (allowed PermissionAction.tasks_delete) (allowed PermissionAction.trash_restore);
      archived_tasks =
          merge_by_id existing.archived_tasks incoming.archived_tasks archive_key archive archive;
      staff = staff.0;
      staff_profiles = staff.1;
      team_members = projects.members;
      team_leaders = projects.leaders;
      org_teams = org_teams.names;
      org_team_members = org_teams.members;
      schedule = merge_schedule existing.schedule incoming.schedule allowed;
      permission_matrix = next_matrix allowed existing incoming;
    }

unfoldable pub apply_permitted_workspace_update :
    WorkspaceData → WorkspaceData → PermissionRole → ℕ → WorkspaceData
apply_permitted_workspace_update existing incoming role actor =
    let allowed = allowed_to existing role in
    if is_super_admin role || allowed PermissionAction.backup_import
    then import_workspace existing incoming allowed actor
    else merge_workspace existing incoming allowed actor
