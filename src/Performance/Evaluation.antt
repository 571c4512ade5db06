-- ===== src/Performance/Evaluation.antt =====
-- The rows of an evaluation and its totals: `isSystemScored`, `computeAverages` and the lookups of
-- src/modules/performance/performance.service.ts. The evaluation's number, due dates and texts that
-- no operation here reads are left out.
pub mod Life
pub mod Scores
pub mod Service
pub mod Review
mod Tests
use workforce_app_backend.Common.{
  ℕ, ◌≡◌, Bool, true, false, not, ◌&&◌, ◌||◌, Option, none, some, List, [], ◌∷◌, ◌++◌, ◌==◌, any,
  find, filter, map, includes, sum_by, get_or, is_some, nonempty_text, if◌then◌else◌,
}
use workforce_app_backend.Common.Result.{Result, ok, app_error, or_throw, throw_if, ◌>>=◌, ◌>>◌}
use workforce_app_backend.Common.Table.{find_by, update_by}
use workforce_app_backend.Shared.OfficeScope.{OfficeScope, assert_office_in_scope}
use workforce_app_backend.Performance.Supervisors.{Employee, employee_id_of}

pub data EvaluationStatus : Type 0 where
  opened self_draft self_submitted evaluator_draft evaluator_submitted finalized : EvaluationStatus

pub data CycleStatus : Type 0 where
  cycle_draft cycle_open cycle_closed : CycleStatus

pub data Section : Type 0 where
  metric responsibility skill_improved goal : Section

pub data ScoringSource : Type 0 where
  human system_attendance : ScoringSource

-- The key of an area: `RELIABILITY_ATTENDANCE_ITEM_KEY` or any other text.
pub data ItemKey : Type 0 where
  reliability_attendance : ItemKey
  other_area : ℕ → ItemKey

pub record Score : Type 0 where
  pub evaluation_id : ℕ
  pub item_key : ItemKey
  pub section : Section
  pub scoring_source : ScoringSource
  pub self_score : Option ℕ
  pub evaluator_score : Option ℕ
  pub system_score : Option ℕ
  pub evaluator_comment : Option ℕ

pub record Goal : Type 0 where
  pub id : ℕ
  pub evaluation_id : ℕ
  pub improvement_self_score : Option ℕ
  pub improvement_evaluator_score : Option ℕ
  pub target_date : Option ℕ
  pub criteria : Option ℕ

pub record Evaluation : Type 0 where
  pub id : ℕ
  pub organization_id : ℕ
  pub employee_id : ℕ
  pub cycle_id : ℕ
  pub status : EvaluationStatus
  pub evaluator_user_id : Option ℕ
  pub overall_self : Option ℕ
  pub overall_evaluator : Option ℕ
  pub focus_competency : Option ℕ
  pub action_plan : Option ℕ
  pub self_submitted_at : Option ℕ
  pub evaluator_submitted_at : Option ℕ
  pub finalized_at : Option ℕ
  pub finalized_by_user_id : Option ℕ

pub record Cycle : Type 0 where
  pub id : ℕ
  pub organization_id : ℕ
  pub status : CycleStatus
  pub closed_at : Option ℕ

pub record User : Type 0 where
  pub id : ℕ
  pub is_active : Bool
  pub admin_organizations : List ℕ
  pub admin_offices : List ℕ
  pub is_office_admin : Bool

-- The audit's actions, which are the notifications' types as well.
pub data Action : Type 0 where
  self_evaluation_submitted evaluation_scored evaluation_finalized cycle_was_closed : Action

pub record AuditRow : Type 0 where
  pub actor : Option ℕ
  pub action : Action
  pub entity : ℕ

pub record Notification : Type 0 where
  pub user_id : ℕ
  pub type : Action
  pub entity : ℕ

pub record Store : Type 0 where
  pub users : List User
  pub employees : List Employee
  pub cycles : List Cycle
  pub evaluations : List Evaluation
  pub scores : List Score
  pub goals : List Goal
  pub audit : List AuditRow
  pub notifications : List Notification

abbrev pub evaluation_id_of : Evaluation → ℕ
evaluation_id_of e = e.id

abbrev pub cycle_id_of : Cycle → ℕ
cycle_id_of c = c.id

unfoldable pub employee_context : ℕ → Store → Result Employee
employee_context user db = do
  e ← or_throw (find (λ e. e.user_id == user) db.employees) (app_error 403 "EMPLOYEE_INACTIVE")
  throw_if (not (e.is_active && e.user_is_active)) (app_error 403 "EMPLOYEE_INACTIVE") >> ok e

abbrev pub is_metric : Section → Bool
is_metric metric = true
is_metric _ = false

abbrev pub is_reliability : ItemKey → Bool
is_reliability reliability_attendance = true
is_reliability (other_area _) = false

abbrev pub is_system : ScoringSource → Bool
is_system human = false
is_system system_attendance = true

abbrev pub is_system_scored : Score → Bool
is_system_scored s = is_system s.scoring_source || is_reliability s.item_key

abbrev pub same_key : ItemKey → ItemKey → Bool
same_key reliability_attendance reliability_attendance = true
same_key (other_area a) (other_area b) = a == b
same_key _ _ = false

-- The two sides of an evaluation.
pub data Side : Type 0 where
  self evaluator : Side

abbrev pub score_of : Side → Score → Option ℕ
score_of self s = s.self_score
score_of evaluator s = s.evaluator_score

abbrev pub official_value : Side → Score → Option ℕ
official_value side s = if is_system_scored s then s.system_score else score_of side s

abbrev pub is_scored : Score → Bool
is_scored s = is_metric s.section || is_system_scored s

abbrev pub has_no_value : Side → Score → Bool
has_no_value side s = not (is_some (official_value side s))

-- One of the two totals of `computeAverages`.
unfoldable pub compute_average : Side → List Score → Option ℕ
compute_average side scores =
    if any (has_no_value side) (filter is_scored scores)
    then none
    else some (sum_by (λ s. get_or (official_value side s) 0) (filter is_scored scores))

abbrev pub is_of : ℕ → Score → Bool
is_of id s = s.evaluation_id == id

-- The scores of an evaluation.
abbrev pub scores_of : ℕ → Store → List Score
scores_of id db = filter (is_of id) db.scores

-- An area that the side must score and has not.
abbrev pub is_missing : Side → Score → Bool
is_missing side s =
    is_metric s.section && not (is_system_scored s) && not (is_some (score_of side s))

abbrev pub lacks_system_score : Score → Bool
lacks_system_score s = is_system_scored s && not (is_some s.system_score)

-- The relations of an evaluation; a foreign key finds them.
abbrev pub cycle_of : Evaluation → Store → Option Cycle
cycle_of e db = find_by cycle_id_of e.cycle_id db.cycles

abbrev pub is_cycle_open : Option Cycle → Bool
is_cycle_open none = false
is_cycle_open (some c) = elim c.status [ cycle_open ↦ true | _ ↦ false ]

abbrev pub is_cycle_closed : Option Cycle → Bool
is_cycle_closed none = false
is_cycle_closed (some c) = elim c.status [ cycle_closed ↦ true | _ ↦ false ]

abbrev office_of : Option Employee → Option ℕ
office_of none = none
office_of (some e) = e.office_id

abbrev pub user_of : Option Employee → List ℕ
user_of none = []
user_of (some e) = e.user_id ∷ []

abbrev pub employee_of : Evaluation → Store → Option Employee
employee_of e db = find_by employee_id_of e.employee_id db.employees

abbrev pub evaluation_office : Evaluation → Store → Option ℕ
evaluation_office e db = office_of (employee_of e db)

unfoldable pub load_admin_evaluation : ℕ → ℕ → OfficeScope → Store → Result Evaluation
load_admin_evaluation organization_id id scope db = do
  row ←
      or_throw (find (λ e. (e.id == id) && (e.organization_id == organization_id)) db.evaluations)
        (app_error 404 "EVALUATION_NOT_FOUND")
  assert_office_in_scope scope (evaluation_office row db) >> ok row

-- The evaluation of an employee, as `employeeDraft` and `employeeSubmit` look it up.
unfoldable pub load_own_evaluation : ℕ → ℕ → Store → Result Evaluation
load_own_evaluation employee id db =
    or_throw (find (λ e. (e.id == id) && (e.employee_id == employee)) db.evaluations)
      (app_error 404 "EVALUATION_NOT_FOUND")

abbrev is_org_reviewer : ℕ → User → Bool
is_org_reviewer organization_id u = u.is_active && includes u.admin_organizations organization_id

abbrev is_office_reviewer : ℕ → User → Bool
is_office_reviewer office u = u.is_active && includes u.admin_offices office && u.is_office_admin

unfoldable pub org_admin_user_ids : ℕ → Store → List ℕ
org_admin_user_ids organization_id db =
    map (λ u. u.id) (filter (is_org_reviewer organization_id) db.users)

abbrev office_reviewers : Option ℕ → List User → List ℕ
office_reviewers none users = []
office_reviewers (some office) users = map (λ u. u.id) (filter (is_office_reviewer office) users)

unfoldable pub office_admin_user_ids : Option ℕ → Store → List ℕ
office_admin_user_ids office db = office_reviewers (nonempty_text office) db.users

-- `new Set`: the first of equal identifiers is kept.
abbrev add_new : List ℕ → List ℕ → List ℕ
add_new seen [] = seen
add_new seen (a ∷ ids) = add_new (if includes seen a then seen else seen ++ a ∷ []) ids

unfoldable pub reviewer_user_ids : ℕ → Option ℕ → Store → List ℕ
unfolding org_admin_user_ids office_admin_user_ids
reviewer_user_ids organization_id office db =
    add_new [] (org_admin_user_ids organization_id db ++ office_admin_user_ids office db)

unfoldable pub write_audit : Option ℕ → Action → ℕ → Store → Store
write_audit actor action id db = record db {
  audit = db.audit ++ record { actor = actor; action = action; entity = id } ∷ [];
}

abbrev notice : Action → ℕ → ℕ → Notification
notice action id user = record { user_id = user; type = action; entity = id }

unfoldable pub notify : Action → ℕ → List ℕ → Store → Store
notify action id users db = record db {
  notifications = db.notifications ++ map (notice action id) users;
}
