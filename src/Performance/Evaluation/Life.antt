-- ===== src/Performance/Evaluation/Life.antt =====
-- The requests on an evaluation of src/modules/performance/performance.service.ts, run one after
-- another, and what an evaluation that has been submitted holds.
pub mod Effect
pub mod Steps
pub mod Invariant
pub mod Forward
pub mod Handlers
use workforce_app_backend.Common.{
  ℕ, ◌≤◌, ◌≡◌, Bool, true, false, Option, some, List, any, filter, map, sum_by, get_or, All, none,
}
use workforce_app_backend.Common.Result.{Result, ok}
use workforce_app_backend.Common.Table.{HasDistinctKeys}
use workforce_app_backend.Shared.OfficeScope.{OfficeScope}
use workforce_app_backend.Performance.Evaluation.{
  opened, self_draft, self_submitted, evaluator_draft, evaluator_submitted, finalized,
  EvaluationStatus, Score, Evaluation, Store, self, evaluator, Side, evaluation_id_of, is_scored,
  official_value, is_of, is_missing, lacks_system_score,
}
use workforce_app_backend.Performance.Evaluation.Service.{
  ScoreInput, GoalInput, is_self_open, employee_draft, employee_submit,
}
use workforce_app_backend.Performance.Evaluation.Review.{
  Narrative, is_blank, lacks_comment, evaluator_draft_scores, evaluator_submit, finalize,
  close_cycle,
}

pub data Request : Type 0 where
  draft_own : (user id : ℕ) → List ScoreInput → List GoalInput → Request
  submit_own : (user id : ℕ) → Request
  draft_review :
      (organization_id user id : ℕ)
      → List ScoreInput
      → List GoalInput
      → Narrative
      → OfficeScope
      → Request
  submit_review : (organization_id user actor id : ℕ) → OfficeScope → Request
  finish : (organization_id user actor id : ℕ) → OfficeScope → Request
  end_cycle : (organization_id actor cycle : ℕ) → Request

unfoldable pub handle : (trim : ℕ → ℕ) → (now : ℕ) → Request → Store → Result Store
unfolding employee_draft employee_submit evaluator_draft_scores evaluator_submit finalize
    close_cycle
handle trim now (draft_own user id scores goals) db = employee_draft user id scores goals db
handle trim now (submit_own user id) db = employee_submit now user id db
handle trim now (draft_review organization_id user id scores goals narrative scope) db =
    evaluator_draft_scores organization_id user id scores goals narrative scope db
handle trim now (submit_review organization_id user actor id scope) db =
    evaluator_submit trim now organization_id user actor id scope db
handle trim now (finish organization_id user actor id scope) db =
    finalize now organization_id user actor id scope db
handle trim now (end_cycle organization_id actor cycle) db =
    close_cycle now organization_id actor cycle db

pub data Reach (trim : ℕ → ℕ) (first : Store) : Store → Type 0 where
  start : Reach trim first first
  later :
      {db after : Store} (now : ℕ) (request : Request)
      → Reach trim first db
      → handle trim now request db ≡ ok after
      → Reach trim first after

-- How far an evaluation has come.
abbrev pub rank : EvaluationStatus → ℕ
rank opened = 0
rank self_draft = 1
rank self_submitted = 2
rank evaluator_draft = 3
rank evaluator_submitted = 4
rank finalized = 5

abbrev pub is_reviewed : EvaluationStatus → Bool
is_reviewed evaluator_submitted = true
is_reviewed finalized = true
is_reviewed _ = false

abbrev pub total : Side → List Score → ℕ
total side scores = sum_by (λ s. get_or (official_value side s) 0) (filter is_scored scores)

-- A score without the evaluator's part.
abbrev pub self_view : Score → Score
self_view s = record s { evaluator_score = none; evaluator_comment = none }

-- What the submission of the self-evaluation leaves, with the scores of the evaluation.
pub record HasSelf (scores : List Score) (e : Evaluation) : Type 0 where
  pub nothing_missing : any (is_missing self) scores ≡ false
  pub rated : any lacks_system_score scores ≡ false
  pub self_total : e.overall_self ≡ some (total self scores)

-- What the submission of the review leaves.
pub record HasReview (trim : ℕ → ℕ) (scores : List Score) (e : Evaluation) : Type 0 where
  pub nothing_missing : any (is_missing evaluator) scores ≡ false
  pub commented : any (lacks_comment trim) scores ≡ false
  pub narrated : is_blank trim e.focus_competency ≡ false
  pub review_total : e.overall_evaluator ≡ some (total evaluator scores)

pub record IsDone (trim : ℕ → ℕ) (scores : List Score) (e : Evaluation) : Type 0 where
  pub self_done : is_self_open e.status ≡ false → HasSelf (filter (is_of e.id) scores) e
  pub review_done : is_reviewed e.status ≡ true → HasReview trim (filter (is_of e.id) scores) e

pub record HasSoundEvaluations (trim : ℕ → ℕ) (db : Store) : Type 0 where
  pub distinct : HasDistinctKeys evaluation_id_of db.evaluations
  pub done : All (IsDone trim db.scores) db.evaluations
