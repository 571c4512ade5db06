-- ===== src/TaskTracker/Apply/Denied.antt =====
-- An actor without any permission, through `applyPermittedWorkspaceUpdate`.
use workforce_app_backend.Common.{
  ℕ, ◌≡◌, refl, ap, ◌∙◌, Bool, true, false, ◌||◌, Option, none, some, List, [], ◌∷◌, arith,
  if◌then◌else◌, inl, inr, Bool-cases, includes,
}
use workforce_app_backend.Common.Table.{find_by, HasDistinctKeys}
use workforce_app_backend.TaskTracker.Roles.{PermissionRole, PermissionAction, is_super_admin}
use workforce_app_backend.TaskTracker.Workspace.{
  LegacyTask, Dict, StaffProfile, PermissionMatrix, WorkspaceData,
}
use workforce_app_backend.TaskTracker.Can.{Allowed, can}
use workforce_app_backend.TaskTracker.Merge.{
  task_id, event_id, NamedInput, NamedCollection, collect_named, merge_named_collection,
  merge_by_id,
}
use workforce_app_backend.TaskTracker.Merge.Lookup.{
  outcome, task_by_fields, merge_tasks-outcome, merge_schedule-outcome,
}
use workforce_app_backend.TaskTracker.Staff.{
  restore_step, restore_super_admins, staff_has_super_admin, merged_staff, merge_profiles,
  merge_staff,
}
use workforce_app_backend.TaskTracker.Apply.{
  allowed_to, projects_of, org_teams_of, trash_key, archive_key, merge_workspace,
  apply_permitted_workspace_update,
}

-- The parts of a workspace that the update shows to hold still: rows by identifier, lists of names,
-- the trash and the archive, the matrix. The members of a collection and the profiles of the staff are
-- left out.
abbrev pub IsSameContent : WorkspaceData → WorkspaceData → Type 0
IsSameContent before after =
    ((k : ℕ) → find_by task_id k after.tasks ≡ find_by task_id k before.tasks)
    × ((k : ℕ) → find_by event_id k after.schedule ≡ find_by event_id k before.schedule)
    × (after.staff ≡ before.staff)
    × (after.teams ≡ before.teams)
    × (after.org_teams ≡ before.org_teams)
    × (after.deleted_tasks ≡ before.deleted_tasks)
    × (after.archived_tasks ≡ before.archived_tasks)
    × (after.permission_matrix ≡ before.permission_matrix)

collect_named-names :
    (source : NamedInput) (names : List ℕ) (acc : NamedCollection)
    → (collect_named source names acc).names ≡ acc.names
unfolding collect_named
collect_named-names source [] acc = refl
collect_named-names source (name ∷ names) acc = collect_named-names source names _

merge_named_collection-names :
    (existing incoming : NamedInput) (c r d m : Bool)
    → (c || r || d) ≡ false
    → (merge_named_collection existing incoming c r d m).names ≡ existing.names
unfolding merge_named_collection
merge_named_collection-names existing incoming c r d m h = rw h (
    collect_named-names (if m then incoming else existing) existing.names
      (record { names = existing.names; members = λ k. none; leaders = λ k. none }))

restore_step-staff :
    (name : ℕ) (o : Option StaffProfile) (acc : List ℕ × Dict StaffProfile)
    → includes acc.0 name ≡ true
    → (restore_step name o acc).0 ≡ acc.0
unfolding restore_step
restore_step-staff name none acc h = refl
restore_step-staff name (some p) acc h = ground (arith, h)

restore-staff :
    (existing : Dict StaffProfile) (names : List ℕ) (acc : List ℕ × Dict StaffProfile)
    → ((n : ℕ) → includes names n ≡ true → includes acc.0 n ≡ true)
    → (restore_super_admins existing names acc).0 ≡ acc.0
unfolding restore_super_admins
restore-staff existing [] acc h = refl
restore-staff existing (name ∷ names) acc h =
    let still = restore_step-staff name (existing name) acc (h name (ground arith)) in
    restore-staff existing names _ (λ n e. ap (λ s. includes s n) still ∙ h n (ground (arith, e)))
    ∙ still

merge_staff-staff :
    (existing incoming : WorkspaceData) (allowed : Allowed) (actor : ℕ)
    → allowed PermissionAction.staff_create ≡ false
    → allowed PermissionAction.staff_delete ≡ false
    → (merge_staff existing incoming allowed actor).0 ≡ existing.staff
unfolding merge_staff merged_staff
merge_staff-staff existing incoming allowed actor create delete =
    rw (create, delete)
      (elim (Bool-cases (
        staff_has_super_admin existing.staff (
          merge_profiles allowed existing.staff_profiles incoming.staff_profiles existing.staff
            (λ k. none)))) [
              | inl has ↦ rw has refl
              | inr lost ↦
                  rw lost (restore-staff existing.staff_profiles existing.staff _ (λ n e. e))
            ])

task_by_fields-denied :
    (allowed : Allowed) (p t : LegacyTask)
    → ((action : PermissionAction) → allowed action ≡ false)
    → task_by_fields allowed p t ≡ p
task_by_fields-denied allowed p t denied =
    rw
      (
        denied PermissionAction.tasks_add_update,
        denied PermissionAction.tasks_move,
        denied PermissionAction.tasks_edit,
      )
      refl

outcome-denied {ℓ} :
    {A : Type ℓ} (key : A → ℕ) (merge : A → A → A) (stored sent : Option A)
    → ((p r : A) → merge p r ≡ p)
    → outcome key false false merge stored sent ≡ stored
outcome-denied key merge none none same = refl
outcome-denied key merge none (some r) same = refl
outcome-denied key merge (some p) none same = refl
outcome-denied key merge (some p) (some r) same = ap some (same p r)

merge_by_id-denied {ℓ} :
    {A : Type ℓ} (existing incoming : List A) (get_id : A → ℕ)
    → merge_by_id existing incoming get_id false false ≡ existing
unfolding merge_by_id
merge_by_id-denied existing incoming get_id = refl

merge_workspace-denied :
    (existing incoming : WorkspaceData) (allowed : Allowed) (actor : ℕ)
    → ((action : PermissionAction) → allowed action ≡ false)
    → HasDistinctKeys task_id existing.tasks
    → HasDistinctKeys event_id existing.schedule
    → IsSameContent existing (merge_workspace existing incoming allowed actor)
unfolding merge_workspace
merge_workspace-denied existing incoming allowed actor denied tasks events = (
  (λ k.
      merge_tasks-outcome existing.tasks incoming.tasks allowed k tasks
      ∙ rw (denied PermissionAction.tasks_create, denied PermissionAction.tasks_delete)
          (outcome-denied task_id (task_by_fields allowed) _ _
            (λ p t. task_by_fields-denied allowed p t denied))),
  (λ k.
      merge_schedule-outcome existing.schedule incoming.schedule allowed k events
      ∙ rw (denied PermissionAction.schedule_create, denied PermissionAction.schedule_delete)
          (outcome-denied event_id _ _ _ (λ p e. rw (denied PermissionAction.schedule_edit) refl))),
  merge_staff-staff existing incoming allowed actor (denied PermissionAction.staff_create)
      (denied PermissionAction.staff_delete),
  merge_named_collection-names (projects_of existing) (projects_of incoming) _ _ _ _ (
      rw
        (
          denied PermissionAction.projects_create,
          denied PermissionAction.projects_rename,
          denied PermissionAction.projects_delete,
        )
        refl),
  merge_named_collection-names (org_teams_of existing) (org_teams_of incoming) _ _ _ _ (
      rw
        (
          denied PermissionAction.teams_create,
          denied PermissionAction.teams_rename,
          denied PermissionAction.teams_delete,
        )
        refl),
  rw (denied PermissionAction.tasks_delete, denied PermissionAction.trash_restore)
      (merge_by_id-denied existing.deleted_tasks incoming.deleted_tasks trash_key),
  rw (denied PermissionAction.tasks_archive, denied PermissionAction.tasks_delete)
      (merge_by_id-denied existing.archived_tasks incoming.archived_tasks archive_key),
  rw (denied PermissionAction.settings_edit_permissions) refl,
)

denied-not_super :
    (role : PermissionRole) (action : PermissionAction) (matrix : PermissionMatrix)
    → can role action matrix ≡ false
    → is_super_admin role ≡ false
unfolding can
denied-not_super role action matrix h = ground (arith, h)

-- An actor whose role is granted no action changes nothing of the following, where the stored tasks
-- and events have distinct identifiers: after the update every task and every event is what was
-- stored under its identifier, and the names of the staff, of the projects and of the teams, the
-- trash, the archive and the permissions are the stored ones, whatever the client sends.
pub apply_permitted_workspace_update-denied :
    (existing incoming : WorkspaceData) (role : PermissionRole) (actor : ℕ)
    → ((action : PermissionAction) → allowed_to existing role action ≡ false)
    → HasDistinctKeys task_id existing.tasks
    → HasDistinctKeys event_id existing.schedule
    → IsSameContent existing (apply_permitted_workspace_update existing incoming role actor)
unfolding apply_permitted_workspace_update
apply_permitted_workspace_update-denied existing incoming role actor denied tasks events =
    rw
      (
        denied-not_super role _ existing.permission_matrix (denied PermissionAction.tasks_create),
        denied PermissionAction.backup_import,
      )
      (merge_workspace-denied existing incoming (allowed_to existing role) actor denied tasks
        events)
