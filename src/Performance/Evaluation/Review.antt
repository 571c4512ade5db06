-- ===== src/Performance/Evaluation/Review.antt =====
-- `evaluatorDraft`, `evaluatorSubmit`, `finalize` and `closeCycle` of
-- src/modules/performance/performance.service.ts.
use workforce_app_backend.Common.{
  ℕ, ◌-◌, Bool, true, false, not, ◌&&◌, ◌||◌, Option, none, some, List, ◌==◌, leb, any, find,
  get_or, if◌then◌else◌,
}
use workforce_app_backend.Common.Result.{Result, ok, app_error, or_throw, throw_if, ◌>>=◌, ◌>>◌}
use workforce_app_backend.Common.Table.{update_by}
use workforce_app_backend.Shared.OfficeScope.{OfficeScope}
use workforce_app_backend.Performance.Evaluation.{
  evaluator_draft, evaluator_submitted, finalized, EvaluationStatus, cycle_closed, Score,
  Evaluation, Cycle, Store, evaluator, evaluation_scored, evaluation_finalized, cycle_was_closed,
  cycle_id_of, is_metric, is_system_scored, compute_average, scores_of, is_missing, cycle_of,
  is_cycle_closed, employee_of, user_of, load_admin_evaluation, write_audit, notify,
}
use workforce_app_backend.Performance.Evaluation.Service.{
  ScoreInput, GoalInput, with_inputs, update_evaluation, is_evaluator_open,
}

abbrev pub check_evaluator_open : Evaluation → Result (Unit {0})
check_evaluator_open current =
    throw_if (not (is_evaluator_open current.status)) (app_error 409 "NOT_READY_FOR_EVALUATOR")

pub record Narrative : Type 0 where
  pub focus_competency : Option (Option ℕ)
  pub action_plan : Option (Option ℕ)

-- The evaluation keeps the texts that the request does not name: those of `current`.
abbrev pub evaluator_drafted : ℕ → Narrative → Evaluation → Option ℕ → Evaluation → Evaluation
evaluator_drafted user narrative current overall e = record e {
  status = evaluator_draft;
  evaluator_user_id = some user;
  focus_competency = get_or narrative.focus_competency current.focus_competency;
  action_plan = get_or narrative.action_plan current.action_plan;
  overall_evaluator = overall;
}

abbrev pub draft_evaluator :
    (user id : ℕ) → List ScoreInput → List GoalInput → Narrative → Evaluation → Store → Store
draft_evaluator user id scores goals narrative current db =
    let written = with_inputs id evaluator scores goals db in
    update_evaluation id
      (evaluator_drafted user narrative current (compute_average evaluator (scores_of id written)))
      written

unfoldable pub evaluator_draft_scores :
    (organization_id user id : ℕ)
    → List ScoreInput
    → List GoalInput
    → Narrative
    → OfficeScope
    → Store
    → Result Store
unfolding load_admin_evaluation compute_average
evaluator_draft_scores organization_id user id scores goals narrative scope db = do
  current ← load_admin_evaluation organization_id id scope db
  check_evaluator_open current
      >> throw_if (is_cycle_closed (cycle_of current db)) (app_error 409 "CYCLE_CLOSED")
      >> ok (draft_evaluator user id scores goals narrative current db)

-- `!text?.trim()`; trimming is a string method.
abbrev pub is_blank : (trim : ℕ → ℕ) → Option ℕ → Bool
is_blank trim none = true
is_blank trim (some text) = trim text == 0

-- `Math.abs(self - evaluator)`, 0 without a self score.
abbrev pub gap : Option ℕ → ℕ → ℕ
gap none score = 0
gap (some own) score = if leb own score then score - own else own - score

abbrev pub is_remarkable : Option ℕ → Option ℕ → Bool
is_remarkable own none = false
is_remarkable own (some score) = leb score 2 || leb 2 (gap own score)

abbrev pub lacks_comment : (trim : ℕ → ℕ) → Score → Bool
lacks_comment trim s =
    is_metric s.section
    && not (is_system_scored s)
    && is_remarkable s.self_score s.evaluator_score
    && is_blank trim s.evaluator_comment

abbrev pub evaluator_sent : (now user : ℕ) → Option ℕ → Evaluation → Evaluation
evaluator_sent now user overall e = record e {
  status = evaluator_submitted;
  evaluator_user_id = some user;
  evaluator_submitted_at = some now;
  overall_evaluator = overall;
}

abbrev pub check_evaluator_complete : (trim : ℕ → ℕ) → ℕ → Evaluation → Store → Result (Unit {0})
check_evaluator_complete trim id current db =
    throw_if (any (is_missing evaluator) (scores_of id db))
      (app_error 422 "INCOMPLETE_EVALUATOR_SCORES")
    >> throw_if (any (lacks_comment trim) (scores_of id db)) (app_error 422 "COMMENT_REQUIRED")
    >> throw_if (is_blank trim current.focus_competency) (app_error 422 "NARRATIVE_REQUIRED")

unfoldable pub send_evaluator : (now user actor id : ℕ) → Evaluation → Store → Store
unfolding compute_average write_audit notify
send_evaluator now user actor id current db =
    let overall = compute_average evaluator (scores_of id db) in
    notify evaluation_scored id (user_of (employee_of current db)) (
      write_audit (some actor) evaluation_scored id
        (update_evaluation id (evaluator_sent now user overall) db))

-- `actor` is `audit.actorUserId`.
unfoldable pub evaluator_submit :
    (trim : ℕ → ℕ) → (now organization_id user actor id : ℕ) → OfficeScope → Store → Result Store
unfolding load_admin_evaluation send_evaluator
evaluator_submit trim now organization_id user actor id scope db = do
  current ← load_admin_evaluation organization_id id scope db
  check_evaluator_open current
      >> check_evaluator_complete trim id current db
      >> ok (send_evaluator now user actor id current db)

abbrev pub finalized_by : (now user : ℕ) → Evaluation → Evaluation
finalized_by now user e = record e {
  status = finalized;
  finalized_at = some now;
  finalized_by_user_id = some user;
}

unfoldable pub close_evaluation : (now user actor id : ℕ) → Evaluation → Store → Store
unfolding write_audit notify
close_evaluation now user actor id current db =
    notify evaluation_finalized id (user_of (employee_of current db)) (
      write_audit (some actor) evaluation_finalized id
        (update_evaluation id (finalized_by now user) db))

-- A finalized evaluation is returned as it is.
abbrev pub finalize_as :
    EvaluationStatus → (now user actor id : ℕ) → Evaluation → Store → Result Store
finalize_as evaluator_submitted now user actor id current db =
    ok (close_evaluation now user actor id current db)
finalize_as finalized now user actor id current db = ok db
finalize_as _ now user actor id current db =
    throw_if true (app_error 409 "NOT_READY_TO_FINALIZE") >> ok db

unfoldable pub finalize :
    (now organization_id user actor id : ℕ) → OfficeScope → Store → Result Store
unfolding load_admin_evaluation close_evaluation
finalize now organization_id user actor id scope db = do
  current ← load_admin_evaluation organization_id id scope db
  finalize_as current.status now user actor id current db

abbrev closed_at_now : ℕ → Cycle → Cycle
closed_at_now now c = record c { status = cycle_closed; closed_at = some now }

unfoldable pub close_cycle : (now organization_id actor cycle : ℕ) → Store → Result Store
unfolding write_audit
close_cycle now organization_id actor cycle db = do
  c ←
      or_throw (find (λ c. (c.id == cycle) && (c.organization_id == organization_id)) db.cycles)
        (app_error 404 "CYCLE_NOT_FOUND")
  ok (
      write_audit (some actor) cycle_was_closed cycle
        (record db { cycles = update_by cycle_id_of cycle (closed_at_now now) db.cycles }))
