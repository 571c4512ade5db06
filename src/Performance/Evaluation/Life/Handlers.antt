-- ===== src/Performance/Evaluation/Life/Handlers.antt =====
-- The effect of each request on the evaluations
-- (src/modules/performance/performance.service.ts).
use workforce_app_backend.Common.{ℕ, ◌≡◌, refl, arith, true, false, not, List, any, inl, inr}
use workforce_app_backend.Common.Result.{
  ok, app_error, throw_if, ◌>>◌, first_step-eq-ok, after_check-eq-ok, check-eq-ok, throw_if-eq-ok,
}
use workforce_app_backend.Common.Table.Keys.{find_by-key}
use workforce_app_backend.Shared.OfficeScope.{OfficeScope}
use workforce_app_backend.Performance.Evaluation.{
  Evaluation, Store, self, evaluator, evaluation_id_of, employee_context, is_missing,
  lacks_system_score, scores_of, cycle_of, is_cycle_closed, load_admin_evaluation, write_audit,
  notify,
}
use workforce_app_backend.Performance.Evaluation.Service.{
  ScoreInput, GoalInput, is_evaluator_open, admit_self, check_self_complete, draft_self, send_self,
  employee_draft, employee_submit,
}
use workforce_app_backend.Performance.Evaluation.Review.{
  Narrative, is_blank, lacks_comment, check_evaluator_open, check_evaluator_complete,
  draft_evaluator, send_evaluator, close_evaluation, evaluator_draft_scores, evaluator_submit,
  finalize,
}
use workforce_app_backend.Performance.Evaluation.Life.{HasSoundEvaluations}
use workforce_app_backend.Performance.Evaluation.Life.Effect.{
  Effect, not-eq-false, admit_self-current, load_admin-current,
}
use workforce_app_backend.Performance.Evaluation.Life.Steps.{
  self_drafted-IsStep, self_sent-IsStep, evaluator_drafted-IsStep, evaluator_sent-IsStep,
  finalized_by-IsStep, finalize_as-cases,
}

module _ (trim : ℕ → ℕ) (db : Store) (sound : HasSoundEvaluations trim db) where
  pub employee_draft-Effect :
      (user id : ℕ) (scores : List ScoreInput) (goals : List GoalInput) {after : Store}
      → employee_draft user id scores goals db ≡ ok after
      → Effect trim db after
  unfolding employee_draft
  employee_draft-Effect user id scores goals {after} returned =
      let (e, _, e1) = first_step-eq-ok (employee_context user db) _ {value = after} returned in
      let (current, admitted, e2) =
        first_step-eq-ok (admit_self user id db e) _ {value = after} e1 in
      let (found, open_now) = admit_self-current trim db sound user id e admitted in
      let same : draft_self id scores goals db ≡ after = ground arith in
      rw same at (
        let step : Effect trim db (draft_self id scores goals db) =
          Effect.stepped id _ current refl found (λ e. refl)
            (self_drafted-IsStep trim db.scores id current scores _ open_now) in
        step)

  pub employee_submit-Effect :
      (now user id : ℕ) {after : Store}
      → employee_submit now user id db ≡ ok after
      → Effect trim db after
  unfolding employee_submit send_self write_audit notify
  employee_submit-Effect now user id {after} returned =
      let (e, _, e1) = first_step-eq-ok (employee_context user db) _ {value = after} returned in
      let (current, admitted, e2) =
        first_step-eq-ok (admit_self user id db e) _ {value = after} e1 in
      let (found, open_now) = admit_self-current trim db sound user id e admitted in
      let named = find_by-key evaluation_id_of id db.evaluations found in
      let sent = send_self now user id current db in
      let complete = check-eq-ok (check_self_complete id db) (ok sent) {value = after} e2 in
      let same_ok : ok sent ≡ ok after =
        after_check-eq-ok (check_self_complete id db) (ok sent) e2 in
      let first_check =
        throw_if (any (is_missing self) (scores_of id db))
          (app_error 422 "INCOMPLETE_SELF_SCORES") in
      let second_check =
        throw_if (any lacks_system_score (scores_of id db))
          (app_error 422 "SYSTEM_SCORE_MISSING") in
      let full =
        throw_if-eq-ok (any (is_missing self) (scores_of id db))
          (app_error 422 "INCOMPLETE_SELF_SCORES")
          (check-eq-ok first_check second_check complete) in
      let rated =
        throw_if-eq-ok (any lacks_system_score (scores_of id db))
          (app_error 422 "SYSTEM_SCORE_MISSING")
          (after_check-eq-ok first_check second_check complete) in
      let same : sent ≡ after = ground arith in
      rw same at (
        let step : Effect trim db sent =
          Effect.stepped id _ current refl found (λ e. refl)
            (self_sent-IsStep trim db.scores id current now named open_now full rated) in
        step)

  open_of_check :
      (current : Evaluation)
      → check_evaluator_open current ≡ ok tt
      → is_evaluator_open current.status ≡ true
  open_of_check current checked = not-eq-false (is_evaluator_open current.status) (
      throw_if-eq-ok (not (is_evaluator_open current.status))
        (app_error 409 "NOT_READY_FOR_EVALUATOR") checked)

  pub evaluator_draft-Effect :
      (organization_id user id : ℕ) (scores : List ScoreInput) (goals : List GoalInput)
      (narrative : Narrative) (scope : OfficeScope) {after : Store}
      → evaluator_draft_scores organization_id user id scores goals narrative scope db ≡ ok after
      → Effect trim db after
  unfolding evaluator_draft_scores
  evaluator_draft-Effect organization_id user id scores goals narrative scope {after} returned =
      let (current, loaded, e1) =
        first_step-eq-ok (load_admin_evaluation organization_id id scope db) _ {value = after}
          returned in
      let found = load_admin-current trim db sound organization_id id scope loaded in
      let closed_check =
        throw_if (is_cycle_closed (cycle_of current db)) (app_error 409 "CYCLE_CLOSED") in
      let drafted = draft_evaluator user id scores goals narrative current db in
      let both =
        check-eq-ok (check_evaluator_open current >> closed_check) (ok drafted) {value = after}
          e1 in
      let same_ok : ok drafted ≡ ok after =
        after_check-eq-ok (check_evaluator_open current >> closed_check) (ok drafted) e1 in
      let open_now =
        open_of_check current (check-eq-ok (check_evaluator_open current) closed_check both) in
      let same : drafted ≡ after = ground arith in
      rw same at (
        let step : Effect trim db drafted =
          Effect.stepped id _ current refl found (λ e. refl)
            (evaluator_drafted-IsStep trim db.scores id current user scores narrative _ open_now) in
        step)

  complete_of_check :
      (id : ℕ) (current : Evaluation)
      → check_evaluator_complete trim id current db ≡ ok tt
      → (any (is_missing evaluator) (scores_of id db) ≡ false)
        × (any (lacks_comment trim) (scores_of id db) ≡ false)
        × (is_blank trim current.focus_competency ≡ false)
  complete_of_check id current complete =
      let full = any (is_missing evaluator) (scores_of id db) in
      let commented = any (lacks_comment trim) (scores_of id db) in
      let narrated = is_blank trim current.focus_competency in
      let a = app_error 422 "INCOMPLETE_EVALUATOR_SCORES" in
      let b = app_error 422 "COMMENT_REQUIRED" in
      let c = app_error 422 "NARRATIVE_REQUIRED" in
      let two =
        check-eq-ok (throw_if full a >> throw_if commented b) (throw_if narrated c) complete in
      (
        throw_if-eq-ok full a (check-eq-ok (throw_if full a) (throw_if commented b) two),
        throw_if-eq-ok commented b (after_check-eq-ok (throw_if full a) (throw_if commented b) two),
        throw_if-eq-ok narrated c (
            after_check-eq-ok (throw_if full a >> throw_if commented b) (throw_if narrated c)
              complete),
      )

  pub evaluator_submit-Effect :
      (now organization_id user actor id : ℕ) (scope : OfficeScope) {after : Store}
      → evaluator_submit trim now organization_id user actor id scope db ≡ ok after
      → Effect trim db after
  unfolding evaluator_submit send_evaluator write_audit notify
  evaluator_submit-Effect now organization_id user actor id scope {after} returned =
      let (current, loaded, e1) =
        first_step-eq-ok (load_admin_evaluation organization_id id scope db) _ {value = after}
          returned in
      let found = load_admin-current trim db sound organization_id id scope loaded in
      let named = find_by-key evaluation_id_of id db.evaluations found in
      let sent = send_evaluator now user actor id current db in
      let ready = check_evaluator_open current in
      let complete_check = check_evaluator_complete trim id current db in
      let both = check-eq-ok (ready >> complete_check) (ok sent) {value = after} e1 in
      let same_ok : ok sent ≡ ok after = after_check-eq-ok (ready >> complete_check) (ok sent) e1 in
      let open_now = open_of_check current (check-eq-ok ready complete_check both) in
      let complete = after_check-eq-ok ready complete_check both in
      let (full, commented, narrated) = complete_of_check id current complete in
      let same : sent ≡ after = ground arith in
      rw same at (
        let step : Effect trim db sent =
          Effect.stepped id _ current refl found (λ e. refl)
            (evaluator_sent-IsStep trim db.scores id current now user named open_now full commented
              narrated) in
        step)

  pub finalize-Effect :
      (now organization_id user actor id : ℕ) (scope : OfficeScope) {after : Store}
      → finalize now organization_id user actor id scope db ≡ ok after
      → Effect trim db after
  unfolding finalize close_evaluation write_audit notify
  finalize-Effect now organization_id user actor id scope {after} returned =
      let (current, loaded, e1) =
        first_step-eq-ok (load_admin_evaluation organization_id id scope db) _ {value = after}
          returned in
      let found = load_admin-current trim db sound organization_id id scope loaded in
      elim (finalize_as-cases current.status now user actor id current db e1) [
        | inr idle ↦ Effect.unchanged (ground arith) (ground arith)
        | inl (sent, same_ok) ↦
            let closed = close_evaluation now user actor id current db in
            let same : closed ≡ after = ground arith in
            rw same at (
              let step : Effect trim db closed =
                Effect.stepped id _ current refl found (λ e. refl)
                  (finalized_by-IsStep trim db.scores id current now user sent) in
              step)
      ]
