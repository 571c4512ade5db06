-- ===== src/TaskTracker/Visibility.antt =====
-- Who sees which project, task and event: src/modules/task-tracker/visibility-policy.ts and the
-- access checks of src/modules/task-tracker/visibility.ts. Identifiers are numbers, 0 is the empty
-- text.
pub mod Access
use workforce_app_backend.Common.{
  ℕ, Bool, true, false, not, ◌&&◌, ◌||◌, Option, none, some, List, [], ◌∷◌, ◌==◌, if◌then◌else◌,
  map, is_empty, find, any, filter, includes,
}
use workforce_app_backend.Common.Result.{
  Result, ok, err, app_error, ◌>>=◌, ◌>>◌, throw_if, or_throw,
}
use workforce_app_backend.TaskTracker.Roles.{PermissionRole, super_admin, admin}

unfoldable pub can_see_all_projects : PermissionRole → Bool
can_see_all_projects super_admin = true
can_see_all_projects admin = true
can_see_all_projects _ = false

unfoldable pub can_see_all_tasks : PermissionRole → Bool
unfolding can_see_all_projects
can_see_all_tasks role = can_see_all_projects role

-- An identifier that is there and not empty.
abbrev pub present : Option ℕ → Bool
present none = false
present (some id) = not (id == 0)

abbrev pub is_id : Option ℕ → ℕ → Bool
is_id none id = false
is_id (some other) id = other == id

pub record WorkspaceViewer : Type 0 where
  pub staff_member_id : ℕ
  pub permission_role : PermissionRole

unfoldable pub is_task_visible_to_viewer : WorkspaceViewer → List ℕ → Option ℕ → Bool
unfolding can_see_all_tasks
is_task_visible_to_viewer viewer owners leader =
    if can_see_all_tasks viewer.permission_role
    then true
    else if includes owners viewer.staff_member_id
    then true
    else is_empty owners && (present leader && is_id leader viewer.staff_member_id)

-- `[...new Set(ids)]`: the first occurrences, in order; `seen` holds those before.
unfoldable pub unique : List ℕ → List ℕ → List ℕ
unique seen [] = []
unique seen (id ∷ ids) = if includes seen id then unique seen ids else id ∷ unique (id ∷ seen) ids

unfoldable pub task_event_recipient_staff_ids : List ℕ → Option ℕ → List ℕ
unfolding unique
task_event_recipient_staff_ids [] none = []
task_event_recipient_staff_ids [] (some leader) = if leader == 0 then [] else leader ∷ []
task_event_recipient_staff_ids (owner ∷ owners) leader =
    unique [] (filter (λ id. not (id == 0)) (owner ∷ owners))

pub record TtProject : Type 0 where
  pub id : ℕ
  pub workspace_id : ℕ
  pub leader_id : Option ℕ
  pub members : List ℕ

pub record TtTask : Type 0 where
  pub id : ℕ
  pub workspace_id : ℕ
  pub project_id : ℕ
  pub project_leader_id : Option ℕ
  pub owners : List ℕ

pub record TtScheduleEvent : Type 0 where
  pub id : ℕ
  pub workspace_id : ℕ
  pub project_id : Option ℕ
  pub guests : List ℕ

-- `OR: [{ leaderId }, { members: { some: { staffMemberId } } }]`
abbrev pub is_on_project : ℕ → TtProject → Bool
is_on_project staff p = is_id p.leader_id staff || includes p.members staff

abbrev pub project_ids : List TtProject → List ℕ
project_ids projects = map (λ p. p.id) projects

unfoldable pub get_accessible_project_ids :
    List TtProject → ℕ → ℕ → PermissionRole → Option (List ℕ)
unfolding can_see_all_projects
get_accessible_project_ids projects workspace staff role =
    if can_see_all_projects role
    then none
    else some
        (project_ids (filter (λ p. p.workspace_id == workspace && is_on_project staff p) projects))

-- `accessible === null || accessible.has(id)`
abbrev pub has_id : Option (List ℕ) → ℕ → Bool
has_id none id = true
has_id (some ids) id = includes ids id

unfoldable pub has_project_access : List TtProject → ℕ → ℕ → WorkspaceViewer → Bool
unfolding get_accessible_project_ids
has_project_access projects workspace project viewer =
    has_id
      (get_accessible_project_ids projects workspace viewer.staff_member_id viewer.permission_role)
      project

unfoldable pub assert_project_access : List TtProject → ℕ → ℕ → WorkspaceViewer → Result (Unit {0})
unfolding has_project_access
assert_project_access projects workspace project viewer =
    throw_if (not (has_project_access projects workspace project viewer))
      (app_error 403 "FORBIDDEN")

unfoldable pub assert_task_access :
    List TtProject → List TtTask → ℕ → ℕ → WorkspaceViewer → Result ℕ
assert_task_access projects tasks workspace task_id viewer = do
  t ←
      or_throw (find (λ t. t.id == task_id && t.workspace_id == workspace) tasks)
        (app_error 404 "TASK_NOT_FOUND")
  assert_project_access projects workspace t.project_id viewer
  throw_if (not (is_task_visible_to_viewer viewer t.owners t.project_leader_id))
      (app_error 403 "FORBIDDEN")
  ok t.project_id

-- `event.projectId && accessible.has(event.projectId)`
abbrev pub in_accessible : List ℕ → Option ℕ → Bool
in_accessible ids none = false
in_accessible ids (some id) = not (id == 0) && includes ids id

unfoldable pub assert_schedule_event_access :
    List TtProject → List TtScheduleEvent → ℕ → ℕ → WorkspaceViewer → Result (Unit {0})
assert_schedule_event_access projects events workspace event_id viewer =
    elim (get_accessible_project_ids projects workspace viewer.staff_member_id
      viewer.permission_role) [
        | none ↦ ok tt
        | some ids ↦ do
          e ←
              or_throw (find (λ e. e.id == event_id && e.workspace_id == workspace) events)
                (app_error 404 "SCHEDULE_NOT_FOUND")
          throw_if
              (not (in_accessible ids e.project_id || includes e.guests viewer.staff_member_id))
              (app_error 403 "FORBIDDEN")
      ]
