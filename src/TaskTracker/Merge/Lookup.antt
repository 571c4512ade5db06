-- ===== src/TaskTracker/Merge/Lookup.antt =====
-- The merge of tasks and of schedule events, seen from one identifier.
use workforce_app_backend.Common.{
  ap, ℕ, ◌≡◌, refl, sym, ◌∙◌, Bool, ◌||◌, Option, none, some, List, [], ◌∷◌, ◌++◌, arith,
  if◌then◌else◌, inl, inr, Bool-cases, Option-cases,
}
use workforce_app_backend.Common.Table.{
  find_by, has_key, HasDistinctKeys, find_by-none, find_by-some,
}
use workforce_app_backend.Common.Table.Keys.{find_by-key}
use workforce_app_backend.TaskTracker.Roles.{PermissionAction}
use workforce_app_backend.TaskTracker.Workspace.{LegacyTask, ScheduleEvent}
use workforce_app_backend.TaskTracker.Can.{Allowed}
use workforce_app_backend.TaskTracker.Merge.{
  map_get, task_id, event_id, merge_task, merge_event, merge_incoming, keep_existing, merge_tasks,
  merge_schedule,
}

module _ {ℓ} {A : Type ℓ} (key : A → ℕ) where
  -- What becomes of an identifier, by whether it is stored and whether the client has it.
  abbrev pub outcome : (create delete : Bool) → (A → A → A) → Option A → Option A → Option A
  outcome create delete merge none none = none
  outcome create delete merge none (some row) = if create then some row else none
  outcome create delete merge (some previous) (some row) = some (merge previous row)
  outcome create delete merge (some previous) none = if delete then none else some previous

  or_else : Option A → Option A → Option A
  or_else none o = o
  or_else (some r) o = some r

  find_by-append :
      (k : ℕ) (xs ys : List A)
      → find_by key k (xs ++ ys) ≡ or_else (find_by key k xs) (find_by key k ys)
  unfolding or_else
  find_by-append k [] ys = refl
  find_by-append k (x ∷ xs) ys = ground (arith, find_by-append k xs ys)

  map_get-eq-find_by :
      (k : ℕ) (rows : List A) → HasDistinctKeys key rows → map_get key k rows ≡ find_by key k rows
  unfolding map_get
  map_get-eq-find_by k [] d = refl
  map_get-eq-find_by k (r ∷ rows) d =
      ground (arith, map_get-eq-find_by k rows d.1, find_by-none key (key r) rows d.0)

  module _ (create delete : Bool) (merge : A → A → A)
      (keeps : (p r : A) → key r ≡ key p → key (merge p r) ≡ key p) where
    abbrev from_incoming : Option A → Option A → Option A
    from_incoming stored none = none
    from_incoming none (some row) = if create then some row else none
    from_incoming (some previous) (some row) = some (merge previous row)

    find_by-merge_incoming :
        (k : ℕ) (existing incoming : List A)
        → HasDistinctKeys key existing
        → find_by key k (merge_incoming key create merge existing incoming)
          ≡ from_incoming (find_by key k existing) (find_by key k incoming)
    unfolding merge_incoming
    find_by-merge_incoming k existing [] d = ground arith
    find_by-merge_incoming k existing (row ∷ incoming) d =
        let ih = find_by-merge_incoming k existing incoming d in
        let stored = map_get-eq-find_by (key row) existing d in
        elim (Option-cases (find_by key (key row) existing)) [
          | inl missing ↦ rw (stored ∙ missing) (ground (arith, ih, missing))
          | inr (p, found) ↦ rw (stored ∙ found) (
              ground (
                arith,
                ih,
                found,
                keeps p row (sym (find_by-key key (key row) existing found)),
                find_by-key key (key row) existing found,
              ))
        ]

    find_by-keep_existing :
        (k : ℕ) (incoming existing : List A)
        → find_by key k (keep_existing key delete incoming existing)
          ≡ (if has_key key k incoming || delete then none else find_by key k existing)
    unfolding keep_existing
    find_by-keep_existing k incoming [] = ground arith
    find_by-keep_existing k incoming (row ∷ existing) =
        ground (arith, find_by-keep_existing k incoming existing)

    -- Both loops together.
    find_by-merge :
        (k : ℕ) (existing incoming : List A)
        → HasDistinctKeys key existing
        → find_by key k (
            merge_incoming key create merge existing incoming
            ++ keep_existing key delete incoming existing)
          ≡ outcome create delete merge (find_by key k existing) (find_by key k incoming)
    unfolding or_else
    find_by-merge k existing incoming d =
        find_by-append k (merge_incoming key create merge existing incoming) _
        ∙ rw
            (
              find_by-merge_incoming k existing incoming d,
              find_by-keep_existing k incoming existing,
            )
            (elim (Bool-cases (has_key key k incoming)) [
              | inl has ↦
                  let (r, found) = find_by-some key k incoming has in rw (has, found) (ground arith)
              | inr lacks ↦ rw (lacks, find_by-none key k incoming lacks) (ground arith)
            ])

merge_task-id : (allowed : Allowed) (p t : LegacyTask) → (merge_task allowed p t).id ≡ p.id
unfolding merge_task
merge_task-id allowed p t = ground arith

-- What a stored task becomes, field by field: the client's value where the action that covers the
-- field is allowed, and the stored value otherwise.
abbrev pub task_by_fields : Allowed → LegacyTask → LegacyTask → LegacyTask
task_by_fields allowed p t =
    let edit = allowed PermissionAction.tasks_edit in
    record {
      id = p.id;
      title = if edit then t.title else p.title;
      description = if edit then t.description else p.description;
      team = if edit then t.team else p.team;
      owner = if edit then t.owner else p.owner;
      owners = if edit then t.owners else p.owners;
      priority = if edit then t.priority else p.priority;
      due = if edit then t.due else p.due;
      status = if allowed PermissionAction.tasks_move then t.status else p.status;
      updates = if allowed PermissionAction.tasks_add_update then t.updates else p.updates;
    }

merge_task-eq-task_by_fields :
    (allowed : Allowed) (p t : LegacyTask) → merge_task allowed p t ≡ task_by_fields allowed p t
unfolding merge_task
merge_task-eq-task_by_fields allowed p t = ground arith

outcome-merge :
    (create delete : Bool) (f g : LegacyTask → LegacyTask → LegacyTask)
    (stored sent : Option LegacyTask)
    → ((p t : LegacyTask) → f p t ≡ g p t)
    → outcome task_id create delete f stored sent ≡ outcome task_id create delete g stored sent
outcome-merge create delete f g none none same = refl
outcome-merge create delete f g none (some t) same = refl
outcome-merge create delete f g (some p) none same = refl
outcome-merge create delete f g (some p) (some t) same = ap some (same p t)

-- Where the stored tasks have distinct identifiers, for every identifier of the merged workspace: a
-- stored task stays, unless the client dropped it and the actor may delete tasks; where the client
-- has it too, the fields that the actor may edit, move or update are the client's and all others
-- the stored ones. A task that only the client has is added if the actor may create tasks.
pub merge_tasks-outcome :
    (existing incoming : List LegacyTask) (allowed : Allowed) (k : ℕ)
    → HasDistinctKeys task_id existing
    → find_by task_id k (merge_tasks existing incoming allowed)
      ≡ outcome task_id
          (allowed PermissionAction.tasks_create)
          (allowed PermissionAction.tasks_delete)
          (task_by_fields allowed)
          (find_by task_id k existing)
          (find_by task_id k incoming)
unfolding merge_tasks
merge_tasks-outcome existing incoming allowed k d =
    find_by-merge task_id (allowed PermissionAction.tasks_create)
      (allowed PermissionAction.tasks_delete) (merge_task allowed)
      (λ p t e. merge_task-id allowed p t) k existing incoming d
    ∙ outcome-merge (allowed PermissionAction.tasks_create) (allowed PermissionAction.tasks_delete)
        (merge_task allowed) (task_by_fields allowed) (find_by task_id k existing)
        (find_by task_id k incoming) (merge_task-eq-task_by_fields allowed)

-- Where the stored events of the schedule have distinct identifiers, for every identifier: a stored
-- event stays unless the client dropped it and the actor may delete, one that only the client has is
-- added if the actor may create, and one that both sides have is the client's if the actor
-- may edit events, and the stored one otherwise.
pub merge_schedule-outcome :
    (existing incoming : List ScheduleEvent) (allowed : Allowed) (k : ℕ)
    → HasDistinctKeys event_id existing
    → find_by event_id k (merge_schedule existing incoming allowed)
      ≡ outcome event_id
          (allowed PermissionAction.schedule_create)
          (allowed PermissionAction.schedule_delete)
          (λ p e. if allowed PermissionAction.schedule_edit then e else p)
          (find_by event_id k existing)
          (find_by event_id k incoming)
unfolding merge_schedule
merge_schedule-outcome existing incoming allowed k d =
    find_by-merge event_id (allowed PermissionAction.schedule_create)
      (allowed PermissionAction.schedule_delete) (merge_event allowed)
      (λ p e same. ground (arith, same)) k existing incoming d
