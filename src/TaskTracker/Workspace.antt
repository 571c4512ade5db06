-- ===== src/TaskTracker/Workspace.antt =====
-- The data of a workspace (src/modules/task-tracker/types.ts). Identifiers, names and texts are
-- numbers, since this code only compares them; 0 is the empty text. An object that is keyed by names
-- is a function to an optional value, and an absent permission is a false one.
use workforce_app_backend.Common.{ℕ, Bool, Option, some, List, ◌==◌, if◌then◌else◌}
use workforce_app_backend.TaskTracker.Roles.{PermissionRole, PermissionAction, TaskStatus}

abbrev pub empty_text : ℕ
empty_text = 0

abbrev pub Dict : Type 0 → Type 0
Dict V = ℕ → Option V

-- `d[name] = v`
abbrev pub put : {V : Type 0} → ℕ → V → Dict V → Dict V
put name v d k = if name == k then some v else d k

pub record StaffProfile : Type 0 where
  pub first_name : ℕ
  pub last_name : ℕ
  pub role : ℕ
  pub permission_role : PermissionRole
  pub email : Option ℕ
  pub invite_status : Option ℕ
  pub department : Option ℕ
  pub office : Option ℕ
  pub workforce_role : Option ℕ
  pub employee_code : Option ℕ

pub record TaskUpdate : Type 0 where
  pub id : ℕ
  pub text : ℕ
  pub created_at : ℕ

pub record LegacyTask : Type 0 where
  pub id : ℕ
  pub title : ℕ
  pub description : Option ℕ
  pub team : ℕ
  pub owner : ℕ
  pub owners : List ℕ
  pub priority : ℕ
  pub due : ℕ
  pub status : TaskStatus
  pub updates : List TaskUpdate

pub record DeletedTask : Type 0 where
  pub task : LegacyTask
  pub trash_id : Option ℕ
  pub previous_status : ℕ
  pub deleted_at : ℕ

pub record ArchivedTask : Type 0 where
  pub task : LegacyTask
  pub archived_id : ℕ
  pub archived_at : ℕ

pub record ScheduleEvent : Type 0 where
  pub id : ℕ
  pub title : ℕ
  pub start : ℕ
  pub stop : ℕ
  pub all_day : Bool
  pub description : ℕ
  pub location : ℕ
  pub project : ℕ
  pub color : ℕ
  pub guests : List ℕ

abbrev pub PermissionMatrix : Type 0
PermissionMatrix = PermissionRole → PermissionAction → Bool

pub record WorkspaceData : Type 0 where
  pub tasks : List LegacyTask
  pub teams : List ℕ
  pub deleted_tasks : List DeletedTask
  pub archived_tasks : List ArchivedTask
  pub staff : List ℕ
  pub staff_profiles : Dict StaffProfile
  pub team_members : Dict (List ℕ)
  pub team_leaders : Dict ℕ
  pub org_teams : List ℕ
  pub org_team_members : Dict (List ℕ)
  pub schedule : List ScheduleEvent
  pub permission_matrix : PermissionMatrix
