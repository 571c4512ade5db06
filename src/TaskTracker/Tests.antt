-- ===== src/TaskTracker/Tests.antt =====
-- A small workspace that the theorems on the task tracker apply to.
use workforce_app_backend.Common.{
  ℕ, ◌≡◌, refl, ◌⊎◌, ◌↔◌, arith, true, false, none, some, List, [], ◌∷◌, includes, if◌then◌else◌,
  ◌==◌,
}
use workforce_app_backend.Common.Result.{ok}
use workforce_app_backend.Common.Table.{find_by}
use workforce_app_backend.TaskTracker.Roles.{
  PermissionRole, super_admin, lead, junior_staff, PermissionAction, tasks_move, to_do,
}
use workforce_app_backend.TaskTracker.Workspace.{
  Dict, StaffProfile, LegacyTask, ScheduleEvent, WorkspaceData, PermissionMatrix,
}
use workforce_app_backend.TaskTracker.Can.{can_by_matrix, can}
use workforce_app_backend.TaskTracker.Merge.{task_id, event_id, merge_tasks, merge_schedule}
use workforce_app_backend.TaskTracker.Merge.Lookup.{
  outcome, task_by_fields, merge_tasks-outcome, merge_schedule-outcome,
}
use workforce_app_backend.TaskTracker.Staff.{staff_has_super_admin}
use workforce_app_backend.TaskTracker.Apply.{allowed_to, apply_permitted_workspace_update}
use workforce_app_backend.TaskTracker.Apply.Admins.{apply_permitted_workspace_update-HasSuperAdmin}
use workforce_app_backend.TaskTracker.Apply.Denied.{
  IsSameContent, apply_permitted_workspace_update-denied,
}
use workforce_app_backend.TaskTracker.Visibility.{
  WorkspaceViewer, TtProject, TtTask, can_see_all_projects, assert_task_access,
  task_event_recipient_staff_ids, is_task_visible_to_viewer,
}
use workforce_app_backend.TaskTracker.Visibility.Access.{
  IsOnProject, IsOwnerOrLeader, assert_task_access_iff, task_event_recipient_iff,
}

-- Only leads are granted anything: to move tasks.
abbrev matrix : PermissionMatrix
matrix lead tasks_move = true
matrix _ _ = false

abbrev profile : ℕ → PermissionRole → StaffProfile
profile name role = record {
  first_name = name;
  last_name = 0;
  role = 0;
  permission_role = role;
  email = none;
  invite_status = none;
  department = none;
  office = none;
  workforce_role = none;
  employee_code = none;
}

abbrev task : ℕ → ℕ → LegacyTask
task id title = record {
  id = id;
  title = title;
  description = none;
  team = 1;
  owner = 11;
  owners = 11 ∷ [];
  priority = 1;
  due = 20;
  status = to_do;
  updates = [];
}

abbrev event : ℕ → ℕ → ScheduleEvent
event id title = record {
  id = id;
  title = title;
  start = 1;
  stop = 2;
  all_day = false;
  description = 0;
  location = 0;
  project = 1;
  color = 0;
  guests = [];
}

abbrev profiles : PermissionRole → Dict StaffProfile
profiles role name =
    if name == 10
    then some (profile 10 role)
    else if name == 11
    then some (profile 11 lead)
    else none

abbrev workspace : PermissionRole → List LegacyTask → List ScheduleEvent → WorkspaceData
workspace role tasks schedule = record {
  tasks = tasks;
  teams = 1 ∷ [];
  deleted_tasks = [];
  archived_tasks = [];
  staff = 10 ∷ 11 ∷ [];
  staff_profiles = profiles role;
  team_members = λ k. none;
  team_leaders = λ k. none;
  org_teams = [];
  org_team_members = λ k. none;
  schedule = schedule;
  permission_matrix = matrix;
}

abbrev stored : WorkspaceData
stored = workspace super_admin (task 1 5 ∷ task 2 6 ∷ []) (event 1 5 ∷ [])

abbrev sent : WorkspaceData
sent = workspace junior_staff (task 1 9 ∷ task 3 7 ∷ []) (event 1 8 ∷ [])

merge_tasks-outcome_example :
    find_by task_id 2 (merge_tasks stored.tasks sent.tasks (allowed_to stored lead))
    ≡ outcome task_id
        (allowed_to stored lead PermissionAction.tasks_create)
        (allowed_to stored lead PermissionAction.tasks_delete)
        (task_by_fields (allowed_to stored lead))
        (some (task 2 6))
        none
merge_tasks-outcome_example =
    merge_tasks-outcome stored.tasks sent.tasks (allowed_to stored lead) 2 (refl, (refl, tt))

merge_schedule-outcome_example :
    find_by event_id 1 (merge_schedule stored.schedule sent.schedule (allowed_to stored lead))
    ≡ outcome event_id
        (allowed_to stored lead PermissionAction.schedule_create)
        (allowed_to stored lead PermissionAction.schedule_delete)
        (λ p e. if allowed_to stored lead PermissionAction.schedule_edit then e else p)
        (some (event 1 5))
        (some (event 1 8))
merge_schedule-outcome_example =
    merge_schedule-outcome stored.schedule sent.schedule (allowed_to stored lead) 1 (refl, tt)

stored-HasSuperAdmin : staff_has_super_admin stored.staff stored.staff_profiles ≡ true
unfolding staff_has_super_admin
stored-HasSuperAdmin = refl

lead-denied : allowed_to stored lead PermissionAction.staff_assign_role ≡ false
unfolding can can_by_matrix
lead-denied = refl

apply_permitted_workspace_update-HasSuperAdmin_example :
    let next = apply_permitted_workspace_update stored sent super_admin 10 in
    staff_has_super_admin next.staff next.staff_profiles ≡ true
apply_permitted_workspace_update-HasSuperAdmin_example =
    apply_permitted_workspace_update-HasSuperAdmin stored sent super_admin 10 stored-HasSuperAdmin

junior-denied : (action : PermissionAction) → allowed_to stored junior_staff action ≡ false
unfolding can can_by_matrix
junior-denied action = ground arith

apply_permitted_workspace_update-denied_example :
    IsSameContent stored (apply_permitted_workspace_update stored sent junior_staff 11)
apply_permitted_workspace_update-denied_example =
    apply_permitted_workspace_update-denied stored sent junior_staff 11 junior-denied
      (refl, (refl, tt)) (refl, tt)

abbrev project : TtProject
project = record { id = 3; workspace_id = 1; leader_id = some 11; members = 12 ∷ [] }

abbrev unowned : TtTask
unowned = record {
  id = 8;
  workspace_id = 1;
  project_id = 3;
  project_leader_id = some 11;
  owners = [];
}

abbrev viewer : WorkspaceViewer
viewer = record { staff_member_id = 11; permission_role = lead }

assert_task_access_iff_example :
    (assert_task_access (project ∷ []) (unowned ∷ []) 1 8 viewer ≡ ok 3) ↔ (
      (can_see_all_projects lead ≡ true)
      ⊎ (IsOnProject (project ∷ []) 1 3 11 × IsOwnerOrLeader 11 unowned))
assert_task_access_iff_example =
    assert_task_access_iff (project ∷ []) (unowned ∷ []) 1 8 viewer unowned (omega arith) refl

lead-plain : can_see_all_projects lead ≡ false
unfolding can_see_all_projects
lead-plain = refl

task_event_recipient_iff_example :
    includes (task_event_recipient_staff_ids [] (some 11)) 11
    ≡ is_task_visible_to_viewer viewer [] (some 11)
task_event_recipient_iff_example =
    task_event_recipient_iff viewer [] (some 11) (omega arith) lead-plain
