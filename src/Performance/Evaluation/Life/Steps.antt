-- ===== src/Performance/Evaluation/Life/Steps.antt =====
-- Each request of src/modules/performance/performance.service.ts is a step of the evaluation it names.
use workforce_app_backend.Common.{
  ℕ, ◌≡◌, refl, arith, true, false, List, any, filter, inl, inr, ◌⊎◌, Option,
}
use workforce_app_backend.Common.Result.{ok}
use workforce_app_backend.Performance.Evaluation.{
  opened, self_draft, self_submitted, evaluator_draft, evaluator_submitted, finalized,
  EvaluationStatus, Evaluation, Store, self, evaluator, Score, is_of, is_missing,
  lacks_system_score, compute_average,
}
use workforce_app_backend.Performance.Evaluation.Service.{
  ScoreInput, is_self_open, is_evaluator_open, self_drafted, self_sent, save_scores,
}
use workforce_app_backend.Performance.Evaluation.Review.{
  Narrative, is_blank, lacks_comment, close_evaluation, finalize_as, evaluator_drafted,
  evaluator_sent, finalized_by,
}
use workforce_app_backend.Performance.Evaluation.Scores.{
  save_scores-others, save_scores-self_view, HasSelf-self_view, compute_average_complete,
}
use workforce_app_backend.Performance.Evaluation.Life.{is_reviewed}
use workforce_app_backend.Performance.Evaluation.Life.Effect.{
  IsStep, self_open_rank, evaluator_open_rank,
}

module _ (trim : ℕ → ℕ) (before : List Score) (id : ℕ) (current : Evaluation) where
  pub self_drafted-IsStep :
      (inputs : List ScoreInput) (overall : Option ℕ)
      → is_self_open current.status ≡ true
      → IsStep trim before (save_scores id self inputs before) id (self_drafted overall) current
  self_drafted-IsStep inputs overall open_now = record {
    others = λ j other. save_scores-others j id self inputs before other;
    done = λ was. record {
      self_done = λ closed. absurd (ground arith);
      review_done = λ reviewed. absurd (ground arith);
    };
    forward = (self_open_rank current.status open_now).0;
    kept = λ closed. absurd (ground (arith, open_now, closed));
  }

  pub self_sent-IsStep :
      (now : ℕ)
      → current.id ≡ id
      → is_self_open current.status ≡ true
      → any (is_missing self) (filter (is_of id) before) ≡ false
      → any lacks_system_score (filter (is_of id) before) ≡ false
      → IsStep trim before before id
          (self_sent now (compute_average self (filter (is_of id) before)))
          current
  self_sent-IsStep now named open_now full rated = record {
    others = λ j other. refl;
    done = λ was. record {
      self_done = λ closed. record {
        nothing_missing = rw named full;
        rated = rw named rated;
        self_total = rw named (compute_average_complete self (filter (is_of id) before) full rated);
      };
      review_done = λ reviewed. absurd (ground arith);
    };
    forward = let early = (self_open_rank current.status open_now).0 in omega arith;
    kept = λ closed. absurd (ground (arith, open_now, closed));
  }

  pub evaluator_drafted-IsStep :
      (user : ℕ) (inputs : List ScoreInput) (narrative : Narrative) (overall : Option ℕ)
      → is_evaluator_open current.status ≡ true
      → IsStep trim before
          (save_scores id evaluator inputs before)
          id
          (evaluator_drafted user narrative current overall)
          current
  evaluator_drafted-IsStep user inputs narrative overall open_now =
      let (early, closed) = evaluator_open_rank current.status open_now in
      record {
        others = λ j other. save_scores-others j id evaluator inputs before other;
        done = λ was. record {
          self_done = λ _.
              HasSelf-self_view (filter (is_of current.id) before)
                (filter (is_of current.id) (save_scores id evaluator inputs before)) current
                (evaluator_drafted user narrative current overall current)
                (save_scores-self_view current.id id inputs before) refl (was.self_done closed);
          review_done = λ reviewed. absurd (ground arith);
        };
        forward = early;
        kept = λ _. (refl, save_scores-self_view id id inputs before);
      }

  pub evaluator_sent-IsStep :
      (now user : ℕ)
      → current.id ≡ id
      → is_evaluator_open current.status ≡ true
      → any (is_missing evaluator) (filter (is_of id) before) ≡ false
      → any (lacks_comment trim) (filter (is_of id) before) ≡ false
      → is_blank trim current.focus_competency ≡ false
      → IsStep trim before before id
          (evaluator_sent now user (compute_average evaluator (filter (is_of id) before)))
          current
  evaluator_sent-IsStep now user named open_now full commented narrated =
      let (early, closed) = evaluator_open_rank current.status open_now in
      record {
        others = λ j other. refl;
        done = λ was.
            let own = was.self_done closed in
            record {
              self_done = λ _. record {
                nothing_missing = own.nothing_missing;
                rated = own.rated;
                self_total = own.self_total;
              };
              review_done = λ _. record {
                nothing_missing = rw named full;
                commented = rw named commented;
                narrated = narrated;
                review_total =
                    let rated = rw named at own.rated in
                    rw named
                      (compute_average_complete evaluator (filter (is_of id) before) full rated);
              };
            };
        forward = omega arith;
        kept = λ _. (refl, refl);
      }

  pub finalized_by-IsStep :
      (now user : ℕ)
      → current.status ≡ evaluator_submitted
      → IsStep trim before before id (finalized_by now user) current
  finalized_by-IsStep now user sent =
      let closed : is_self_open current.status ≡ false = rw sent refl in
      let reviewed : is_reviewed current.status ≡ true = rw sent refl in
      record {
        others = λ j other. refl;
        done = λ was.
            let own = was.self_done closed in
            let review = was.review_done reviewed in
            record {
              self_done = λ _. record {
                nothing_missing = own.nothing_missing;
                rated = own.rated;
                self_total = own.self_total;
              };
              review_done = λ _. record {
                nothing_missing = review.nothing_missing;
                commented = review.commented;
                narrated = review.narrated;
                review_total = review.review_total;
              };
            };
        forward = rw sent (omega arith);
        kept = λ _. (refl, refl);
      }

pub finalize_as-cases :
    (status : EvaluationStatus) (now user actor id : ℕ) (current : Evaluation) (db : Store)
    {after : Store}
    → finalize_as status now user actor id current db ≡ ok after
    → ((status ≡ evaluator_submitted)
        × (ok (close_evaluation now user actor id current db) ≡ ok after))
      ⊎ (ok db ≡ ok after)
finalize_as-cases opened now user actor id current db e = cc
finalize_as-cases self_draft now user actor id current db e = cc
finalize_as-cases self_submitted now user actor id current db e = cc
finalize_as-cases evaluator_draft now user actor id current db e = cc
finalize_as-cases evaluator_submitted now user actor id current db e = inl (refl, e)
finalize_as-cases finalized now user actor id current db e = inr e
