-- ===== src/TaskTracker/Merge.antt =====
-- The merges of tasks, schedule events, named collections and trash of
-- src/modules/task-tracker/permissions.ts: a client's copy is merged into the stored one, as far as
-- the actor may change it.
pub mod Lookup
use workforce_app_backend.Common.{
  ℕ, Bool, true, false, not, ◌&&◌, ◌||◌, Option, none, some, List, [], ◌∷◌, ◌++◌, ◌==◌,
  if◌then◌else◌, get_or, is_some, any, filter, includes,
}
use workforce_app_backend.TaskTracker.Roles.{
  PermissionRole, junior_staff, PermissionAction, is_super_admin,
}
use workforce_app_backend.TaskTracker.Workspace.{
  Dict, put, empty_text, StaffProfile, LegacyTask, DeletedTask, ArchivedTask, ScheduleEvent,
  WorkspaceData,
}
use workforce_app_backend.TaskTracker.Can.{Allowed}

-- `new Map(rows.map((row) => [key(row), row])).get(k)`: the last row of that key.
unfoldable pub map_get {ℓ} : {A : Type ℓ} → (A → ℕ) → ℕ → List A → Option A
map_get key k [] = none
map_get key k (r ∷ rows) = elim (map_get key k rows) [
  | some later ↦ some later
  | none ↦ if key r == k then some r else none
]

abbrev pub has_id {ℓ} : {A : Type ℓ} → (A → ℕ) → ℕ → List A → Bool
has_id key k rows = any (λ r. key r == k) rows

pub record NamedCollection : Type 0 where
  pub names : List ℕ
  pub members : Dict (List ℕ)
  pub leaders : Dict ℕ

pub record NamedInput : Type 0 where
  pub names : List ℕ
  pub members : Dict (List ℕ)
  pub leaders : Dict ℕ

-- The loop over the names; `source` is the side that the members and leaders are taken from.
unfoldable pub collect_named : NamedInput → List ℕ → NamedCollection → NamedCollection
collect_named source [] acc = acc
collect_named source (name ∷ names) acc = collect_named source names (record acc {
  members = put name (get_or (source.members name) []) acc.members;
  leaders = put name (get_or (source.leaders name) empty_text) acc.leaders;
})

unfoldable pub merge_named_collection :
    NamedInput
    → NamedInput
    → (can_create can_rename can_delete can_manage_members : Bool) → NamedCollection
unfolding collect_named
merge_named_collection existing incoming can_create can_rename can_delete can_manage_members =
    let names =
      (if can_create || can_rename || can_delete then incoming.names else existing.names) in
    collect_named (if can_manage_members then incoming else existing) names
      (record { names = names; members = λ k. none; leaders = λ k. none })

abbrev pub task_id : LegacyTask → ℕ
task_id t = t.id

abbrev pub event_id : ScheduleEvent → ℕ
event_id e = e.id

abbrev pub edit_task : Bool → LegacyTask → LegacyTask → LegacyTask
edit_task edit task merged =
    if edit
    then record merged {
      title = task.title;
      description = task.description;
      team = task.team;
      owner = task.owner;
      owners = task.owners;
      priority = task.priority;
      due = task.due;
    }
    else merged

abbrev pub move_task : Bool → LegacyTask → LegacyTask → LegacyTask
move_task move task merged = if move then record merged { status = task.status } else merged

abbrev pub update_task : Bool → LegacyTask → LegacyTask → LegacyTask
update_task add task merged = if add then record merged { updates = task.updates } else merged

-- A stored task, with what the actor may change of it taken from the client's.
unfoldable pub merge_task : Allowed → LegacyTask → LegacyTask → LegacyTask
merge_task allowed previous task = update_task (allowed PermissionAction.tasks_add_update) task (
    move_task (allowed PermissionAction.tasks_move) task
      (edit_task (allowed PermissionAction.tasks_edit) task previous))

-- The rows that one client's row leads to: none, or one.
abbrev pub merge_row {ℓ} : {A : Type ℓ} → Bool → (A → A → A) → Option A → A → List A
merge_row create merge none row = if create then row ∷ [] else []
merge_row create merge (some previous) row = merge previous row ∷ []

-- The two loops that `mergeTasks` and `mergeSchedule` share in shape: over the client's rows, and
-- over the stored rows that the client does not have.
unfoldable pub merge_incoming {ℓ} :
    {A : Type ℓ} → (A → ℕ) → Bool → (A → A → A) → List A → List A → List A
unfolding map_get
merge_incoming key create merge existing [] = []
merge_incoming key create merge existing (row ∷ incoming) =
    merge_row create merge (map_get key (key row) existing) row
    ++ merge_incoming key create merge existing incoming

unfoldable pub keep_existing {ℓ} : {A : Type ℓ} → (A → ℕ) → Bool → List A → List A → List A
keep_existing key delete incoming [] = []
keep_existing key delete incoming (row ∷ existing) =
    if has_id key (key row) incoming || delete
    then keep_existing key delete incoming existing
    else row ∷ keep_existing key delete incoming existing

unfoldable pub merge_tasks : List LegacyTask → List LegacyTask → Allowed → List LegacyTask
merge_tasks existing incoming allowed =
    merge_incoming task_id (allowed PermissionAction.tasks_create) (merge_task allowed) existing
      incoming
    ++ keep_existing task_id (allowed PermissionAction.tasks_delete) incoming existing

abbrev pub merge_event : Allowed → ScheduleEvent → ScheduleEvent → ScheduleEvent
merge_event allowed previous event =
    if allowed PermissionAction.schedule_edit then event else previous

unfoldable pub merge_schedule :
    List ScheduleEvent → List ScheduleEvent → Allowed → List ScheduleEvent
merge_schedule existing incoming allowed =
    merge_incoming event_id (allowed PermissionAction.schedule_create) (merge_event allowed)
      existing incoming
    ++ keep_existing event_id (allowed PermissionAction.schedule_delete) incoming existing

unfoldable pub merge_by_id {ℓ} :
    {A : Type ℓ} → List A → List A → (A → ℕ) → (can_add can_remove : Bool) → List A
merge_by_id existing incoming get_id can_add can_remove =
    if can_add && can_remove
    then incoming
    else let added =
        (if can_add
          then existing ++ filter (λ item. not (has_id get_id (get_id item) existing)) incoming
          else existing) in
      if can_remove then filter (λ item. has_id get_id (get_id item) incoming) added else added
