-- ===== src/Performance/Evaluation/Scores.antt =====
-- What a draft changes in the scores of an evaluation, and the totals of complete scores
-- (src/modules/performance/performance.service.ts).
use workforce_app_backend.Common.{
  ℕ, ◌≡◌, refl, arith, false, some, List, [], ◌∷◌, ◌==◌, any, filter, map, inl, inr, Bool-cases,
  update_where,
}
use workforce_app_backend.Performance.Evaluation.{
  Evaluation, Score, self, evaluator, Side, is_of, is_missing, is_reliability, lacks_system_score,
  is_scored, has_no_value, compute_average,
}
use workforce_app_backend.Performance.Evaluation.Service.{
  ScoreInput, set_score, is_chosen, save_score, save_scores,
}
use workforce_app_backend.Performance.Evaluation.Life.{total, self_view, HasSelf}

update-others :
    (j id : ℕ) (side : Side) (input : ScoreInput) (scores : List Score)
    → (id == j) ≡ false
    → filter (is_of j) (update_where (is_chosen id input.item_key) (set_score side input) scores)
      ≡ filter (is_of j) scores
update-others j id side input [] other = refl
update-others j id self input (s ∷ scores) other =
    ground (arith, other, update-others j id self input scores other)
update-others j id evaluator input (s ∷ scores) other =
    ground (arith, other, update-others j id evaluator input scores other)

save_score-others :
    (j id : ℕ) (side : Side) (input : ScoreInput) (scores : List Score)
    → (id == j) ≡ false
    → filter (is_of j) (save_score id side input scores) ≡ filter (is_of j) scores
save_score-others j id side input scores other = elim (Bool-cases (is_reliability input.item_key)) [
  | inl skipped ↦ rw skipped refl
  | inr known ↦ rw known (update-others j id side input scores other)
]

-- The scores of another evaluation stay.
pub save_scores-others :
    (j id : ℕ) (side : Side) (inputs : List ScoreInput) (scores : List Score)
    → (id == j) ≡ false
    → filter (is_of j) (save_scores id side inputs scores) ≡ filter (is_of j) scores
save_scores-others j id side [] scores other = refl
save_scores-others j id side (input ∷ inputs) scores other =
    let one = save_score-others j id side input scores other in
    let rest = save_scores-others j id side inputs (save_score id side input scores) other in cc

update-self_view :
    (j id : ℕ) (input : ScoreInput) (scores : List Score)
    → map self_view (
        filter
          (is_of j)
          (update_where (is_chosen id input.item_key) (set_score evaluator input) scores))
      ≡ map self_view (filter (is_of j) scores)
update-self_view j id input [] = refl
update-self_view j id input (s ∷ scores) = ground (arith, update-self_view j id input scores)

save_score-self_view :
    (j id : ℕ) (input : ScoreInput) (scores : List Score)
    → map self_view (filter (is_of j) (save_score id evaluator input scores))
      ≡ map self_view (filter (is_of j) scores)
save_score-self_view j id input scores = elim (Bool-cases (is_reliability input.item_key)) [
  | inl skipped ↦ rw skipped refl
  | inr known ↦ rw known (update-self_view j id input scores)
]

-- An evaluator's draft keeps all of the scores but the evaluator's part.
pub save_scores-self_view :
    (j id : ℕ) (inputs : List ScoreInput) (scores : List Score)
    → map self_view (filter (is_of j) (save_scores id evaluator inputs scores))
      ≡ map self_view (filter (is_of j) scores)
save_scores-self_view j id [] scores = refl
save_scores-self_view j id (input ∷ inputs) scores =
    let one = save_score-self_view j id input scores in
    let rest = save_scores-self_view j id inputs (save_score id evaluator input scores) in cc

-- The employee's side reads the rest only.
missing-self_view :
    (scores : List Score)
    → any (is_missing self) (map self_view scores) ≡ any (is_missing self) scores
missing-self_view [] = refl
missing-self_view (s ∷ scores) = ground (arith, missing-self_view scores)

rated-self_view :
    (scores : List Score)
    → any lacks_system_score (map self_view scores) ≡ any lacks_system_score scores
rated-self_view [] = refl
rated-self_view (s ∷ scores) = ground (arith, rated-self_view scores)

total-self_view : (scores : List Score) → total self (map self_view scores) ≡ total self scores
total-self_view [] = refl
total-self_view (s ∷ scores) = ground (arith, total-self_view scores)

pub HasSelf-self_view :
    (before after : List Score) (e d : Evaluation)
    → map self_view after ≡ map self_view before
    → d.overall_self ≡ e.overall_self
    → HasSelf before e
    → HasSelf after d
HasSelf-self_view before after e d same kept h = record {
  nothing_missing =
      let a = missing-self_view after in
      let b = missing-self_view before in
      let c = h.nothing_missing in
      let m : any (is_missing self) (map self_view after)
          ≡ any (is_missing self) (map self_view before) =
        rw same refl in
      cc;
  rated =
      let a = rated-self_view after in
      let b = rated-self_view before in
      let c = h.rated in
      let m : any lacks_system_score (map self_view after)
          ≡ any lacks_system_score (map self_view before) =
        rw same refl in
      cc;
  self_total =
      let a = total-self_view after in
      let b = total-self_view before in
      let c = h.self_total in
      let m : total self (map self_view after) ≡ total self (map self_view before) = rw same refl in
      cc;
}

module _ (side : Side) where
  complete_has_values :
      (scores : List Score)
      → any (is_missing side) scores ≡ false
      → any lacks_system_score scores ≡ false
      → any (has_no_value side) (filter is_scored scores) ≡ false
  complete_has_values [] full rated = refl
  complete_has_values (s ∷ scores) full rated =
      ground (arith, complete_has_values scores (ground arith) (ground arith))

  -- Where each area has its score, the total is their sum.
  pub compute_average_complete :
      (scores : List Score)
      → any (is_missing side) scores ≡ false
      → any lacks_system_score scores ≡ false
      → compute_average side scores ≡ some (total side scores)
  unfolding compute_average
  compute_average_complete scores full rated = rw (complete_has_values scores full rated) refl
