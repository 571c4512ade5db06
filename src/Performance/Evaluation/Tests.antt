-- ===== src/Performance/Evaluation/Tests.antt =====
-- A self-evaluation that is drafted, submitted and reviewed, and a line of supervisors.
use workforce_app_backend.Common.{ℕ, ◌≡◌, refl, true, false, none, some, List, [], ◌∷◌, ◌+◌, arith}
use workforce_app_backend.Performance.Supervisors.{
  Employee, validate_supervisor, assert_no_supervisor_cycle, walk, up, assign, line_ends,
}
use workforce_app_backend.Performance.Supervisors.Lines.{line_ends-assign}
use workforce_app_backend.Performance.Evaluation.{
  opened, metric, human, system_attendance, reliability_attendance, other_area, cycle_open, Score,
  Evaluation, Store, employee_context, compute_average, load_own_evaluation, reviewer_user_ids,
  org_admin_user_ids, office_admin_user_ids, write_audit, notify,
}
use workforce_app_backend.Performance.Evaluation.Service.{
  ScoreInput, self_drafted, self_sent, draft_self, send_self, employee_draft, employee_submit,
}
use workforce_app_backend.Performance.Evaluation.Review.{Narrative, draft_evaluator}
use workforce_app_backend.Performance.Evaluation.Life.{
  draft_own, submit_own, handle, Reach, HasSoundEvaluations,
}
use workforce_app_backend.Performance.Evaluation.Life.Invariant.{Reach-HasSoundEvaluations}

abbrev area : Score
area = record {
  evaluation_id = 7;
  item_key = other_area 1;
  section = metric;
  scoring_source = human;
  self_score = none;
  evaluator_score = none;
  system_score = none;
  evaluator_comment = none;
}

abbrev reliability : Score
reliability = record area {
  item_key = reliability_attendance;
  scoring_source = system_attendance;
  system_score = some 5;
}

abbrev evaluation : Evaluation
evaluation = record {
  id = 7;
  organization_id = 1;
  employee_id = 3;
  cycle_id = 2;
  status = opened;
  evaluator_user_id = none;
  overall_self = none;
  overall_evaluator = none;
  focus_competency = none;
  action_plan = none;
  self_submitted_at = none;
  evaluator_submitted_at = none;
  finalized_at = none;
  finalized_by_user_id = none;
}

abbrev worker : (id user : ℕ) → Employee
worker id user = record {
  id = id;
  user_id = user;
  organization_id = 1;
  office_id = some 4;
  supervisor_id = none;
  is_active = true;
  user_is_active = true;
}

abbrev before : Store
before = record {
  users =
      record {
        id = 20;
        is_active = true;
        admin_organizations = 1 ∷ [];
        admin_offices = [];
        is_office_admin = false;
      }
      ∷ [];
  employees = worker 3 30 ∷ [];
  cycles = record { id = 2; organization_id = 1; status = cycle_open; closed_at = none } ∷ [];
  evaluations = evaluation ∷ [];
  scores = area ∷ reliability ∷ [];
  goals = [];
  audit = [];
  notifications = [];
}

abbrev four : List ScoreInput
four = record { item_key = other_area 1; score = some 4; comment = none } ∷ []

abbrev two : List ScoreInput
two = record { item_key = other_area 1; score = some 2; comment = some 9 } ∷ []

abbrev trim : ℕ → ℕ
trim text = text

abbrev narrative : Narrative
narrative = record { focus_competency = some (some 8); action_plan = none }

abbrev drafted : Store
drafted = draft_self 7 four [] before

abbrev submitted_row : Evaluation
submitted_row = self_sent 200 (some 9) (self_drafted (some 9) evaluation)

abbrev submitted : Store
submitted = send_self 200 30 7 (self_drafted (some 9) evaluation) drafted

abbrev reviewed : Store
reviewed = draft_evaluator 20 7 two [] narrative submitted_row submitted

own_requests : Reach trim before submitted
unfolding handle employee_draft employee_submit employee_context load_own_evaluation compute_average
    send_self reviewer_user_ids org_admin_user_ids office_admin_user_ids write_audit notify
own_requests =
    Reach.later 200 (submit_own 30 7) (Reach.later 100 (draft_own 30 7 four []) Reach.start refl)
      refl

before-HasSoundEvaluations : HasSoundEvaluations trim before
before-HasSoundEvaluations = record {
  distinct = (refl, tt);
  done = (
    record {
      self_done = λ closed. absurd (ground arith);
      review_done = λ done. absurd (ground arith);
    },
    tt,
  );
}

Reach-HasSoundEvaluations_example : HasSoundEvaluations trim submitted
Reach-HasSoundEvaluations_example =
    Reach-HasSoundEvaluations trim before-HasSoundEvaluations own_requests

abbrev staff : List Employee
staff = worker 1 10 ∷ record (worker 2 20) { supervisor_id = some 1 } ∷ worker 3 30 ∷ []

line_ends-assign_example : line_ends (assign staff 3 (some 2)) 1 (1 + 21) (some 3) ≡ true
unfolding validate_supervisor assert_no_supervisor_cycle walk up
line_ends-assign_example = line_ends-assign staff 1 3 2 3 1 refl refl refl refl
