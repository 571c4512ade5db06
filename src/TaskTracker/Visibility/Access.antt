-- ===== src/TaskTracker/Visibility/Access.antt =====
-- What the access checks of src/modules/task-tracker/visibility.ts let through.
use workforce_app_backend.Common.{
  ℕ, ◌≡◌, ◌≢◌, refl, ◌↔◌, ◌⊎◌, inl, inr, Bool, true, false, not, ◌&&◌, ◌||◌, Option, none, some,
  List, [], ◌∷◌, arith, ◌==◌, Bool-cases, find, any, filter, includes,
}
use workforce_app_backend.Common.Result.{ok}
use workforce_app_backend.TaskTracker.Visibility.{
  can_see_all_projects, can_see_all_tasks, is_task_visible_to_viewer, unique,
  task_event_recipient_staff_ids, WorkspaceViewer, TtProject, TtTask, is_on_project, project_ids,
  get_accessible_project_ids, has_project_access, assert_project_access, assert_task_access,
}

includes-project_ids :
    (q : TtProject → Bool) (k : ℕ) (projects : List TtProject)
    → includes (project_ids (filter q projects)) k ≡ any (λ p. q p && (p.id == k)) projects
includes-project_ids q k [] = refl
includes-project_ids q k (p ∷ projects) = ground (arith, includes-project_ids q k projects)

-- A project of the workspace that the member leads or belongs to.
abbrev pub IsOnProject : List TtProject → ℕ → ℕ → ℕ → Type 0
IsOnProject projects workspace project staff =
    any (λ p. (p.workspace_id == workspace && is_on_project staff p) && (p.id == project)) projects
    ≡ true

has_project_access-eq :
    (projects : List TtProject) (workspace project : ℕ) (viewer : WorkspaceViewer)
    → has_project_access projects workspace project viewer ≡ (
        can_see_all_projects viewer.permission_role
        || any
            (λ p.
              (p.workspace_id == workspace && is_on_project viewer.staff_member_id p)
              && (p.id == project))
            projects)
unfolding has_project_access get_accessible_project_ids
has_project_access-eq projects workspace project viewer =
    elim (Bool-cases (can_see_all_projects viewer.permission_role)) [
      | inl a ↦ rw a refl
      | inr a ↦
          rw
            (
              a,
              includes-project_ids
                  (λ p. p.workspace_id == workspace && is_on_project viewer.staff_member_id p)
                  project projects,
            )
            refl
    ]

abbrev pub IsOwnerOrLeader : ℕ → TtTask → Type 0
IsOwnerOrLeader staff t =
    (includes t.owners staff ≡ true) ⊎ ((t.owners ≡ []) × (t.project_leader_id ≡ some staff))

visible_iff :
    (viewer : WorkspaceViewer) (t : TtTask)
    → viewer.staff_member_id ≢ 0
    → can_see_all_projects viewer.permission_role ≡ false
    → (is_task_visible_to_viewer viewer t.owners t.project_leader_id ≡ true)
      ↔ IsOwnerOrLeader viewer.staff_member_id t
unfolding is_task_visible_to_viewer can_see_all_tasks
visible_iff viewer t h plain = ground (arith, plain)

visible-all :
    (viewer : WorkspaceViewer) (owners : List ℕ) (leader : Option ℕ)
    → can_see_all_projects viewer.permission_role ≡ true
    → is_task_visible_to_viewer viewer owners leader ≡ true
unfolding is_task_visible_to_viewer can_see_all_tasks
visible-all viewer owners leader a = rw a refl

-- The check of a task that is found, for a viewer with an identifier, passes exactly for an
-- administrator and for a member who is on the project of the task and either owns the task or, if
-- nobody owns it, leads the project.
pub assert_task_access_iff :
    (projects : List TtProject) (tasks : List TtTask) (workspace task_id : ℕ)
    (viewer : WorkspaceViewer) (t : TtTask)
    → viewer.staff_member_id ≢ 0
    → find (λ r. r.id == task_id && r.workspace_id == workspace) tasks ≡ some t
    → (assert_task_access projects tasks workspace task_id viewer ≡ ok t.project_id) ↔ (
        (can_see_all_projects viewer.permission_role ≡ true)
        ⊎ (IsOnProject projects workspace t.project_id viewer.staff_member_id
            × IsOwnerOrLeader viewer.staff_member_id t))
unfolding assert_task_access assert_project_access
assert_task_access_iff projects tasks workspace task_id viewer t h found =
    rw (found, has_project_access-eq projects workspace t.project_id viewer)
      (elim (Bool-cases (can_see_all_projects viewer.permission_role)) [
        | inl a ↦ rw (a, visible-all viewer t.owners t.project_leader_id a) (ground arith)
        | inr a ↦ rw a (
            let seen = visible_iff viewer t h a in
            elim (Bool-cases (is_task_visible_to_viewer viewer t.owners t.project_leader_id)) [
              | inl v ↦ rw v (ground (arith, seen, v))
              | inr v ↦ rw v (ground (arith, seen, v))
            ])
      ])

includes-unique :
    (seen ids : List ℕ) (k : ℕ)
    → (includes (unique seen ids) k || includes seen k) ≡ (includes ids k || includes seen k)
unfolding unique
includes-unique seen [] k = refl
includes-unique seen (id ∷ ids) k =
    ground (arith, includes-unique seen ids k, includes-unique (id ∷ seen) ids k)

includes-filter_present :
    (ids : List ℕ) (k : ℕ) → k ≢ 0 → includes (filter (λ id. not (id == 0)) ids) k ≡ includes ids k
includes-filter_present [] k h = refl
includes-filter_present (id ∷ ids) k h = ground (arith, includes-filter_present ids k h)

-- A live event of a task reaches a member with an identifier who is not an administrator exactly if
-- the task is visible to that member.
pub task_event_recipient_iff :
    (viewer : WorkspaceViewer) (owners : List ℕ) (leader : Option ℕ)
    → viewer.staff_member_id ≢ 0
    → can_see_all_projects viewer.permission_role ≡ false
    → includes (task_event_recipient_staff_ids owners leader) viewer.staff_member_id
      ≡ is_task_visible_to_viewer viewer owners leader
unfolding task_event_recipient_staff_ids is_task_visible_to_viewer can_see_all_tasks
task_event_recipient_iff viewer [] none h plain = ground (arith, plain)
task_event_recipient_iff viewer [] (some l) h plain = ground (arith, plain)
task_event_recipient_iff viewer (o ∷ owners) leader h plain =
    let ids = filter (λ id. not (id == 0)) (o ∷ owners) in
    ground (
      arith,
      plain,
      includes-unique [] ids viewer.staff_member_id,
      includes-filter_present (o ∷ owners) viewer.staff_member_id h,
    )
