-- ===== src/TaskTracker/Can.antt =====
-- `can` of src/modules/task-tracker/permissions.ts: the permission matrix, read for a role.
use workforce_app_backend.Common.{◌≡◌, ◌⊎◌, ◌↔◌, Bool, true, ◌||◌, arith}
use workforce_app_backend.TaskTracker.Roles.{
  PermissionRole, super_admin, PermissionAction, tasks_archive, tasks_delete, tasks_move,
  is_super_admin,
}
use workforce_app_backend.TaskTracker.Workspace.{PermissionMatrix}

-- `matrix[role]?.[actionId]`, with archiving allowed to who may delete or move.
unfoldable pub can_by_matrix : PermissionRole → PermissionAction → PermissionMatrix → Bool
can_by_matrix role tasks_archive matrix =
    matrix role tasks_archive || (matrix role tasks_delete || matrix role tasks_move)
can_by_matrix role action matrix = matrix role action

unfoldable pub can : PermissionRole → PermissionAction → PermissionMatrix → Bool
unfolding can_by_matrix
can role action matrix = is_super_admin role || can_by_matrix role action matrix

-- `allowed`: what the actor may do.
abbrev pub Allowed : Type 0
Allowed = PermissionAction → Bool

abbrev pub IsGranted : PermissionRole → PermissionMatrix → PermissionAction → Type 0
IsGranted role matrix action = matrix role action ≡ true

-- A super administrator may do everything; any other role what the matrix grants to it, and it may
-- archive also if it may delete or move tasks.
pub can_iff :
    (role : PermissionRole) (action : PermissionAction) (matrix : PermissionMatrix)
    → (can role action matrix ≡ true) ↔ (
        (role ≡ super_admin)
        ⊎ IsGranted role matrix action
        ⊎ ((action ≡ tasks_archive)
            × (IsGranted role matrix tasks_delete ⊎ IsGranted role matrix tasks_move)))
unfolding can
can_iff role action matrix = ground arith
