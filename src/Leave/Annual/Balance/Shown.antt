-- ===== src/Leave/Annual/Balance/Shown.antt =====
-- The balance that is shown, against what the leave years can give.
use workforce_app_backend.Common.{
  ◌+◌, ◌≤◌, ◌≡◌, not, List, [], ◌∷◌, arith, map, filter, inl, inr, Bool-cases,
}
use workforce_app_backend.Common.Int.{ℤ, pos, negsuc, pos_part, ◌+ℤ◌}
use workforce_app_backend.Calendar.{Date}
use workforce_app_backend.Leave.Fifo.Exact.{available}
use workforce_app_backend.Leave.Policy.{completed_years_of_service, leave_year_period}
use workforce_app_backend.Leave.Annual.{Bucket, is_opened, remaining_of}
use workforce_app_backend.Leave.Annual.Apply.{to_fifo}
use workforce_app_backend.Leave.Annual.Balance.{
  BucketDto, bucket_dto, is_past, total_remaining, to_balance_dto,
}

pos_part-add : (a b : ℤ) → pos_part (a +ℤ b) ≤ pos_part a + pos_part b
pos_part-add (pos m) (pos n) = omega arith
pos_part-add (pos m) (negsuc n) = ground arith
pos_part-add (negsuc m) (pos n) = ground arith
pos_part-add (negsuc m) (negsuc n) = omega arith

abbrev shown : Date → List Bucket → List BucketDto
shown start buckets =
    filter (λ (b : BucketDto). not (is_past b.kind)) (map (bucket_dto start) buckets)

is_past-bucket_dto :
    (start : Date) (b : Bucket) → is_past (bucket_dto start b).kind ≡ not (is_opened b.status)
is_past-bucket_dto start b = ground arith

total_remaining-shown :
    (start : Date) (buckets : List Bucket)
    → pos_part (total_remaining (shown start buckets))
      ≤ available (map to_fifo (filter (λ b. is_opened b.status) buckets))
unfolding total_remaining
total_remaining-shown start [] = omega arith
total_remaining-shown start (b ∷ buckets) = elim (Bool-cases (is_opened b.status)) [
  | inl still ↦
      rw (is_past-bucket_dto start b, still)
        (omega (
          arith,
          pos_part-add (remaining_of b) (total_remaining (shown start buckets)),
          total_remaining-shown start buckets,
        ))
  | inr gone ↦ rw (is_past-bucket_dto start b, gone) (total_remaining-shown start buckets)
]

-- The balance that is shown as available is never more than the open leave years among the rows can
-- give to a request.
pub to_balance_dto-available :
    (hire day : Date) (buckets : List Bucket)
    → (to_balance_dto hire day buckets).available
      ≤ available (map to_fifo (filter (λ b. is_opened b.status) buckets))
unfolding to_balance_dto
to_balance_dto-available hire day buckets =
    total_remaining-shown (leave_year_period hire (completed_years_of_service hire day)).start
      buckets
