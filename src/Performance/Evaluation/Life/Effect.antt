-- ===== src/Performance/Evaluation/Life/Effect.antt =====
-- What a request of src/modules/performance/performance.service.ts does to the evaluations and their
-- scores.
use workforce_app_backend.Common.{
  ℕ, ◌≤◌, ◌≡◌, refl, arith, Bool, true, false, not, ◌&&◌, some, List, ◌==◌, find, filter, map,
}
use workforce_app_backend.Common.Result.{
  ok, app_error, or_throw, throw_if, first_step-eq-ok, after_check-eq-ok, check-eq-ok,
  throw_if-eq-ok, or_throw-eq-ok,
}
use workforce_app_backend.Common.Table.{find_by, update_by}
use workforce_app_backend.Common.Table.Keys.{find_by-find_both}
use workforce_app_backend.Shared.OfficeScope.{OfficeScope, assert_office_in_scope}
use workforce_app_backend.Performance.Supervisors.{Employee}
use workforce_app_backend.Performance.Evaluation.{
  opened, self_draft, self_submitted, evaluator_draft, evaluator_submitted, finalized,
  EvaluationStatus, Evaluation, Store, Score, evaluation_id_of, is_of, cycle_of, is_cycle_open,
  load_admin_evaluation, load_own_evaluation, evaluation_office,
}
use workforce_app_backend.Performance.Evaluation.Service.{
  is_self_open, is_evaluator_open, check_self_open, admit_self,
}
use workforce_app_backend.Performance.Evaluation.Life.{
  rank, is_reviewed, self_view, IsDone, HasSoundEvaluations,
}

-- The evaluation `current` becomes `f current`; it stays done, goes forward, and keeps the employee's
-- part once that is submitted.
pub record IsStep (trim : ℕ → ℕ) (before after : List Score) (id : ℕ) (f : Evaluation → Evaluation)
    (current : Evaluation) : Type 0 where
  pub others : (j : ℕ) → (id == j) ≡ false → filter (is_of j) after ≡ filter (is_of j) before
  pub done : IsDone trim before current → IsDone trim after (f current)
  pub forward : rank current.status ≤ rank (f current).status
  pub kept :
      is_self_open current.status ≡ false
      → ((f current).overall_self ≡ current.overall_self)
        × (map self_view (filter (is_of id) after) ≡ map self_view (filter (is_of id) before))

pub data Effect (trim : ℕ → ℕ) (db after : Store) : Type 0 where
  unchanged : after.evaluations ≡ db.evaluations → after.scores ≡ db.scores → Effect trim db after
  stepped :
      (id : ℕ) (f : Evaluation → Evaluation) (current : Evaluation)
      → after.evaluations ≡ update_by evaluation_id_of id f db.evaluations
      → find_by evaluation_id_of id db.evaluations ≡ some current
      → ((e : Evaluation) → (f e).id ≡ e.id)
      → IsStep trim db.scores after.scores id f current
      → Effect trim db after

-- Which evaluations the two sides may write.
pub self_open_rank :
    (s : EvaluationStatus) → is_self_open s ≡ true → (rank s ≤ 1) × (is_reviewed s ≡ false)
self_open_rank opened open_now = (omega arith, refl)
self_open_rank self_draft open_now = (omega arith, refl)
self_open_rank self_submitted open_now = absurd (ground arith)
self_open_rank evaluator_draft open_now = absurd (ground arith)
self_open_rank evaluator_submitted open_now = absurd (ground arith)
self_open_rank finalized open_now = absurd (ground arith)

pub evaluator_open_rank :
    (s : EvaluationStatus) → is_evaluator_open s ≡ true → (rank s ≤ 3) × (is_self_open s ≡ false)
evaluator_open_rank opened open_now = absurd (ground arith)
evaluator_open_rank self_draft open_now = absurd (ground arith)
evaluator_open_rank self_submitted open_now = (omega arith, refl)
evaluator_open_rank evaluator_draft open_now = (omega arith, refl)
evaluator_open_rank evaluator_submitted open_now = absurd (ground arith)
evaluator_open_rank finalized open_now = absurd (ground arith)

pub not-eq-false : (b : Bool) → not b ≡ false → b ≡ true
not-eq-false true h = refl
not-eq-false false h = absurd (ground arith)

module _ (trim : ℕ → ℕ) (db : Store) (sound : HasSoundEvaluations trim db) where
  pub admit_self-current :
      (user id : ℕ) (e : Employee) {current : Evaluation}
      → admit_self user id db e ≡ ok current
      → (find_by evaluation_id_of id db.evaluations ≡ some current)
        × (is_self_open current.status ≡ true)
  unfolding load_own_evaluation
  admit_self-current user id e {current} admitted =
      let (loaded, found, checked) =
        first_step-eq-ok (load_own_evaluation e.id id db) _ {value = current} admitted in
      let row =
        or_throw-eq-ok (find (λ x. (x.id == id) && (x.employee_id == e.id)) db.evaluations)
          (app_error 404 "EVALUATION_NOT_FOUND") {value = loaded} found in
      let guard = check-eq-ok (check_self_open db loaded) (ok loaded) {value = current} checked in
      let same : ok loaded ≡ ok current =
        after_check-eq-ok (check_self_open db loaded) (ok loaded) checked in
      let locked =
        after_check-eq-ok
          (throw_if (not (is_cycle_open (cycle_of loaded db))) (app_error 409 "CYCLE_NOT_OPEN"))
          (throw_if (not (is_self_open loaded.status)) (app_error 409 "SELF_LOCKED")) guard in
      let open_now =
        not-eq-false (is_self_open loaded.status) (
          throw_if-eq-ok (not (is_self_open loaded.status)) (app_error 409 "SELF_LOCKED") locked) in
      let is_same : loaded ≡ current = ground arith in
      let there =
        find_by-find_both evaluation_id_of id (λ x. x.employee_id == e.id) db.evaluations
          sound.distinct row in
      (ground arith, ground arith)

  pub load_admin-current :
      (organization_id id : ℕ) (scope : OfficeScope) {current : Evaluation}
      → load_admin_evaluation organization_id id scope db ≡ ok current
      → find_by evaluation_id_of id db.evaluations ≡ some current
  unfolding load_admin_evaluation
  load_admin-current organization_id id scope {current} admitted =
      let (loaded, found, checked) =
        first_step-eq-ok
          (or_throw
            (find (λ e. (e.id == id) && (e.organization_id == organization_id)) db.evaluations)
            (app_error 404 "EVALUATION_NOT_FOUND"))
          _ {value = current} admitted in
      let row =
        or_throw-eq-ok
          (find (λ e. (e.id == id) && (e.organization_id == organization_id)) db.evaluations)
          (app_error 404 "EVALUATION_NOT_FOUND") {value = loaded} found in
      let same : ok loaded ≡ ok current =
        after_check-eq-ok (assert_office_in_scope scope (evaluation_office loaded db)) (ok loaded)
          checked in
      let is_same : loaded ≡ current = ground arith in
      let there =
        find_by-find_both evaluation_id_of id (λ e. e.organization_id == organization_id)
          db.evaluations sound.distinct row in
      ground arith
