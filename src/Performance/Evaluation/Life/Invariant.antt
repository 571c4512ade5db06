-- ===== src/Performance/Evaluation/Life/Invariant.antt =====
-- The evaluations that a row of requests leaves
-- (src/modules/performance/performance.service.ts).
use workforce_app_backend.Common.{ℕ, ◌≡◌, arith, ◌&&◌, ◌==◌, find, filter, All-weaken, List}
use workforce_app_backend.Common.Result.{ok, app_error, or_throw, first_step-eq-ok}
use workforce_app_backend.Common.Table.Keys.{
  HasDistinctKeys-update_by, All-update_current, All-same_key,
}
use workforce_app_backend.Performance.Evaluation.{
  Evaluation, Store, Score, evaluation_id_of, is_of, write_audit,
}
use workforce_app_backend.Performance.Evaluation.Review.{close_cycle}
use workforce_app_backend.Performance.Evaluation.Life.{
  Request, draft_own, submit_own, draft_review, submit_review, finish, end_cycle, handle, Reach,
  IsDone, HasSoundEvaluations,
}
use workforce_app_backend.Performance.Evaluation.Life.Effect.{Effect}
use workforce_app_backend.Performance.Evaluation.Life.Handlers.{
  employee_draft-Effect, employee_submit-Effect, evaluator_draft-Effect, evaluator_submit-Effect,
  finalize-Effect,
}

module _ (trim : ℕ → ℕ) where
  pub handle-Effect :
      (now : ℕ) (request : Request) (db : Store) {after : Store}
      → HasSoundEvaluations trim db
      → handle trim now request db ≡ ok after
      → Effect trim db after
  unfolding handle close_cycle write_audit
  handle-Effect now (draft_own user id scores goals) db sound e =
      employee_draft-Effect trim db sound user id scores goals e
  handle-Effect now (submit_own user id) db sound e =
      employee_submit-Effect trim db sound now user id e
  handle-Effect now (draft_review organization_id user id scores goals narrative scope) db sound e =
      evaluator_draft-Effect trim db sound organization_id user id scores goals narrative scope e
  handle-Effect now (submit_review organization_id user actor id scope) db sound e =
      evaluator_submit-Effect trim db sound now organization_id user actor id scope e
  handle-Effect now (finish organization_id user actor id scope) db sound e =
      finalize-Effect trim db sound now organization_id user actor id scope e
  handle-Effect now (end_cycle organization_id actor cycle) db {after} sound e =
      let (c, _, e1) =
        first_step-eq-ok
          (or_throw
            (find (λ c. (c.id == cycle) && (c.organization_id == organization_id)) db.cycles)
            (app_error 404 "CYCLE_NOT_FOUND"))
          _ {value = after} e in
      Effect.unchanged (ground arith) (ground arith)

  IsDone-other :
      (before after : List Score) (e : Evaluation)
      → filter (is_of e.id) after ≡ filter (is_of e.id) before
      → IsDone trim before e
      → IsDone trim after e
  IsDone-other before after e same h = record {
    self_done = λ closed. rw same (h.self_done closed);
    review_done = λ reviewed. rw same (h.review_done reviewed);
  }

  Effect-HasSoundEvaluations :
      {db after : Store}
      → HasSoundEvaluations trim db
      → Effect trim db after
      → HasSoundEvaluations trim after
  Effect-HasSoundEvaluations {db} {after} sound (Effect.unchanged same_rows same_scores) = record {
    distinct = rw same_rows sound.distinct;
    done = rw (same_rows, same_scores) sound.done;
  }
  Effect-HasSoundEvaluations {db} {after} sound
        (Effect.stepped id f current rows found keyed step) =
      record {
        distinct =
            rw rows
              (HasDistinctKeys-update_by evaluation_id_of id f db.evaluations keyed sound.distinct);
        done = rw rows (
            All-update_current (IsDone trim db.scores) (IsDone trim after.scores) evaluation_id_of
              id f db.evaluations
              (λ r other. IsDone-other db.scores after.scores r (step.others r.id other))
              (All-weaken
                (λ r is_current same was.
                  rw (is_current same) (step.done (rw (is_current same) at was)))
                db.evaluations
                (All-same_key evaluation_id_of id db.evaluations sound.distinct found))
              sound.done);
      }

  -- The evaluations have distinct identifiers; one whose self-evaluation is submitted has a score in
  -- each area and the sum of them as the employee's total; one whose review is submitted has that
  -- for the evaluator, a comment where one is asked for, and a narrative. If this holds of a store, it
  -- holds of all that requests lead to, each run to its end before the next.
  pub Reach-HasSoundEvaluations :
      {first db : Store}
      → HasSoundEvaluations trim first
      → Reach trim first db
      → HasSoundEvaluations trim db
  Reach-HasSoundEvaluations sound Reach.start = sound
  Reach-HasSoundEvaluations sound (Reach.later {db} now request earlier returned) =
      let before = Reach-HasSoundEvaluations sound earlier in
      Effect-HasSoundEvaluations before (handle-Effect now request db before returned)
