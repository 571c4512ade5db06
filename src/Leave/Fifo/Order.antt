-- ===== src/Leave/Fifo/Order.antt =====
-- `allocateFifo` against a description without a loop state: the oldest bucket goes first.
use workforce_app_backend.Common.{
  ℕ, Bool, ◌+◌, ◌-◌, min, ◌≡◌, refl, List, [], ◌∷◌, arith, filter, ltb,
}
use workforce_app_backend.Common.Int.{ℤ, pos_part}
use workforce_app_backend.Leave.Fifo.{
  FifoBucket, FifoAllocation, fifo_loop, allocate_fifo, allocations_of,
}

-- The share of a bucket is what the request leaves over once all older buckets, which hold `older`
-- days together, have been emptied.
abbrev pub plan : ℕ → List FifoBucket → ℕ → List FifoAllocation
plan older [] need = []
plan older (bucket ∷ buckets) need =
    record { bucket_id = bucket.id; days = min (pos_part bucket.remaining) (need - older) }
    ∷ plan (older + pos_part bucket.remaining) buckets need

abbrev pub is_granted : FifoAllocation → Bool
is_granted a = ltb 0 a.days

plan_done :
    (older : ℕ) (buckets : List FifoBucket) (need : ℕ)
    → need - older ≡ 0
    → filter is_granted (plan older buckets need) ≡ []
plan_done older [] need h = refl
plan_done older (bucket ∷ buckets) need h =
    ground (arith, plan_done (older + pos_part bucket.remaining) buckets need (omega arith))

fifo_loop-eq-plan :
    (older : ℕ) (buckets : List FifoBucket) (need : ℕ)
    → (fifo_loop buckets (need - older)).0 ≡ filter is_granted (plan older buckets need)
unfolding fifo_loop
fifo_loop-eq-plan older [] need = refl
fifo_loop-eq-plan older (bucket ∷ buckets) need =
    let left : need - older - min (pos_part bucket.remaining) (need - older)
        ≡ need - (older + pos_part bucket.remaining) =
      omega arith in
    let ih = fifo_loop-eq-plan (older + pos_part bucket.remaining) buckets need in
    rw left (ground (arith, ih, plan_done (older + pos_part bucket.remaining) buckets need))

-- The allocations are the non-zero shares of the plan, in the order of the buckets: a bucket gives
-- what all older buckets together leave over of the request, as far as it has it.
pub allocate_fifo-eq-plan :
    (buckets : List FifoBucket) (days : ℤ)
    → allocations_of (allocate_fifo buckets days)
      ≡ filter is_granted (plan 0 buckets (pos_part days))
unfolding allocate_fifo
allocate_fifo-eq-plan buckets days =
    let zero_older : pos_part days - 0 ≡ pos_part days = omega arith in
    ground (arith, rw zero_older at (fifo_loop-eq-plan 0 buckets (pos_part days)))
