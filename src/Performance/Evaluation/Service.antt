-- ===== src/Performance/Evaluation/Service.antt =====
-- `employeeDraft` and `employeeSubmit` of src/modules/performance/performance.service.ts, and the rows
-- that a draft of either side writes.
use workforce_app_backend.Common.{
  ℕ, Bool, true, false, not, ◌&&◌, Option, some, List, [], ◌∷◌, ◌==◌, any, get_or, if◌then◌else◌,
  update_where,
}
use workforce_app_backend.Common.Result.{Result, ok, app_error, throw_if, ◌>>=◌, ◌>>◌}
use workforce_app_backend.Common.Table.{update_by}
use workforce_app_backend.Performance.Supervisors.{Employee}
use workforce_app_backend.Performance.Evaluation.{
  opened, self_draft, self_submitted, evaluator_draft, EvaluationStatus, ItemKey, Score, Goal,
  Evaluation, Store, self, evaluator, Side, self_evaluation_submitted, evaluation_id_of,
  employee_context, is_metric, is_system, is_reliability, same_key, compute_average, is_of,
  scores_of, is_missing, lacks_system_score, cycle_of, is_cycle_open, evaluation_office,
  load_own_evaluation, reviewer_user_ids, write_audit, notify,
}

-- What a draft says of one area and of one goal. The comment is the evaluator's only. A date or text
-- that the request does not name is none, one that it clears is `some none`.
pub record ScoreInput : Type 0 where
  pub item_key : ItemKey
  pub score : Option ℕ
  pub comment : Option ℕ

pub record GoalInput : Type 0 where
  pub id : ℕ
  pub score : Option ℕ
  pub target_date : Option (Option ℕ)
  pub criteria : Option (Option ℕ)

abbrev pub set_score : Side → ScoreInput → Score → Score
set_score self input s = record s { self_score = input.score }
set_score evaluator input s = record s {
  evaluator_score = input.score;
  evaluator_comment = input.comment;
}

-- The rows that a draft's area means: those of the evaluation that a person scores.
abbrev pub is_chosen : ℕ → ItemKey → Score → Bool
is_chosen id key s =
    is_of id s && same_key s.item_key key && is_metric s.section && not (is_system s.scoring_source)

abbrev pub save_score : ℕ → Side → ScoreInput → List Score → List Score
save_score id side input scores =
    if is_reliability input.item_key
    then scores
    else update_where (is_chosen id input.item_key) (set_score side input) scores

abbrev pub save_scores : ℕ → Side → List ScoreInput → List Score → List Score
save_scores id side [] scores = scores
save_scores id side (input ∷ inputs) scores =
    save_scores id side inputs (save_score id side input scores)

abbrev set_goal_score : Side → Option ℕ → Goal → Goal
set_goal_score self score g = record g { improvement_self_score = score }
set_goal_score evaluator score g = record g { improvement_evaluator_score = score }

abbrev set_goal : Side → GoalInput → Goal → Goal
set_goal side input g = record (set_goal_score side input.score g) {
  target_date = get_or input.target_date g.target_date;
  criteria = get_or input.criteria g.criteria;
}

abbrev save_goals : ℕ → Side → List GoalInput → List Goal → List Goal
save_goals id side [] goals = goals
save_goals id side (input ∷ inputs) goals =
    save_goals id side inputs (
      update_where (λ g. (g.id == input.id) && (g.evaluation_id == id)) (set_goal side input) goals)

-- The rows written, before the evaluation is.
abbrev pub with_inputs : ℕ → Side → List ScoreInput → List GoalInput → Store → Store
with_inputs id side scores goals db = record db {
  scores = save_scores id side scores db.scores;
  goals = save_goals id side goals db.goals;
}

abbrev pub update_evaluation : ℕ → (Evaluation → Evaluation) → Store → Store
update_evaluation id f db = record db {
  evaluations = update_by evaluation_id_of id f db.evaluations;
}

abbrev pub is_self_open : EvaluationStatus → Bool
is_self_open opened = true
is_self_open self_draft = true
is_self_open _ = false

abbrev pub is_evaluator_open : EvaluationStatus → Bool
is_evaluator_open self_submitted = true
is_evaluator_open evaluator_draft = true
is_evaluator_open _ = false

-- The checks on the evaluation that the employee's two requests share.
abbrev pub check_self_open : Store → Evaluation → Result (Unit {0})
check_self_open db current =
    throw_if (not (is_cycle_open (cycle_of current db))) (app_error 409 "CYCLE_NOT_OPEN")
    >> throw_if (not (is_self_open current.status)) (app_error 409 "SELF_LOCKED")

abbrev pub admit_self : ℕ → ℕ → Store → Employee → Result Evaluation
admit_self user id db e = do
  current ← load_own_evaluation e.id id db
  check_self_open db current >> ok current

abbrev pub self_drafted : Option ℕ → Evaluation → Evaluation
self_drafted overall e = record e { status = self_draft; overall_self = overall }

-- An evaluation that is open or a draft is a draft afterwards.
abbrev pub draft_self : ℕ → List ScoreInput → List GoalInput → Store → Store
draft_self id scores goals db =
    let written = with_inputs id self scores goals db in
    update_evaluation id (self_drafted (compute_average self (scores_of id written))) written

-- Scores or goals that are absent from the request are empty lists.
unfoldable pub employee_draft :
    (user id : ℕ) → List ScoreInput → List GoalInput → Store → Result Store
unfolding employee_context load_own_evaluation compute_average
employee_draft user id scores goals db = do
  e ← employee_context user db
  current ← admit_self user id db e
  ok (draft_self id scores goals db)

abbrev pub self_sent : ℕ → Option ℕ → Evaluation → Evaluation
self_sent now overall e = record e {
  status = self_submitted;
  self_submitted_at = some now;
  overall_self = overall;
}

abbrev pub check_self_complete : ℕ → Store → Result (Unit {0})
check_self_complete id db =
    throw_if (any (is_missing self) (scores_of id db)) (app_error 422 "INCOMPLETE_SELF_SCORES")
    >> throw_if (any lacks_system_score (scores_of id db)) (app_error 422 "SYSTEM_SCORE_MISSING")

unfoldable pub send_self : (now user id : ℕ) → Evaluation → Store → Store
unfolding compute_average reviewer_user_ids write_audit notify
send_self now user id current db =
    let sent = update_evaluation id (self_sent now (compute_average self (scores_of id db))) db in
    notify self_evaluation_submitted id
      (reviewer_user_ids current.organization_id (evaluation_office current db) db)
      (write_audit (some user) self_evaluation_submitted id sent)

unfoldable pub employee_submit : (now user id : ℕ) → Store → Result Store
unfolding employee_context load_own_evaluation send_self
employee_submit now user id db = do
  e ← employee_context user db
  current ← admit_self user id db e
  check_self_complete id db >> ok (send_self now user id current db)
