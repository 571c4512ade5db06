-- ===== src/TaskTracker/Roles.antt =====
-- Roles, actions and status labels (src/modules/task-tracker/types.ts, permissions.ts).
use workforce_app_backend.Common.{Bool, true, false}

pub data PermissionRole : Type 0 where
  super_admin admin lead senior_staff junior_staff : PermissionRole

pub data PermissionAction : Type 0 where
  tasks_create tasks_edit tasks_move tasks_delete tasks_archive tasks_add_update : PermissionAction
  trash_restore : PermissionAction
  projects_create projects_rename projects_delete projects_manage_members : PermissionAction
  teams_create teams_rename teams_delete teams_manage_members : PermissionAction
  staff_create staff_edit staff_delete staff_assign_role : PermissionAction
  schedule_create schedule_edit schedule_delete : PermissionAction
  backup_export backup_import : PermissionAction
  activity_view_ongoing : PermissionAction
  settings_edit_permissions : PermissionAction

pub data TaskStatus : Type 0 where
  to_do in_progress done : TaskStatus

abbrev pub is_super_admin : PermissionRole → Bool
is_super_admin super_admin = true
is_super_admin _ = false
