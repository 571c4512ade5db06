-- ===== src/Performance/Evaluation/Life/Forward.antt =====
-- An evaluation never goes back, and the employee's part is fixed once it is submitted
-- (src/modules/performance/performance.service.ts).
use workforce_app_backend.Common.{ℕ, ◌≤◌, ◌≡◌, false, some, map}
use workforce_app_backend.Common.Table.{find_by}
use workforce_app_backend.Performance.Evaluation.{Evaluation, Store, evaluation_id_of, scores_of}
use workforce_app_backend.Performance.Evaluation.Service.{is_self_open}
use workforce_app_backend.Performance.Evaluation.Life.{rank, self_view}
use workforce_app_backend.Performance.Evaluation.Life.Effect.{Effect}

-- What the evaluation `id`, which was `e` in the store `first`, is in a later one.
pub record IsFurther (first db : Store) (id : ℕ) (e : Evaluation) : Type 0 where
  pub now : Evaluation
  pub found : find_by evaluation_id_of id db.evaluations ≡ some now
  pub forward : rank e.status ≤ rank now.status
  pub kept :
      is_self_open e.status ≡ false
      → (now.overall_self ≡ e.overall_self)
        × (map self_view (scores_of id db) ≡ map self_view (scores_of id first))
