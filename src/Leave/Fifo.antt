-- ===== src/Leave/Fifo.antt =====
-- `allocateFifo` of src/modules/leave/annual-leave.policy.ts. Days are counted in hundredths, as the
-- Decimal(6, 2) columns and `round2` keep them, so `round2` is the identity on sums of them.
pub mod Exact
pub mod Order
use workforce_app_backend.Common.{ℕ, ◌-◌, min, Bool, true, false, List, [], ◌∷◌, leb, if◌then◌else◌}
use workforce_app_backend.Common.Int.{ℤ, pos_part}

pub record FifoBucket : Type 0 where
  pub id : ℕ
  pub remaining : ℤ

pub record FifoAllocation : Type 0 where
  pub bucket_id : ℕ
  pub days : ℕ

-- The two shapes of the result, with `allocations` in both.
pub data FifoResult : Type 0 where
  enough : List FifoAllocation → FifoResult
  short : (shortfall : ℕ) → List FifoAllocation → FifoResult

-- What one bucket gives when `need` is still wanted.
abbrev pub take_from : FifoBucket → ℕ → ℕ
take_from bucket need = min (pos_part bucket.remaining) need

-- The loop over the buckets: `need <= 0` breaks, `take <= 0` continues.
unfoldable pub fifo_loop : List FifoBucket → ℕ → List FifoAllocation × ℕ
fifo_loop [] need = ([], need)
fifo_loop (bucket ∷ buckets) need =
    let take = take_from bucket need in
    let rest = fifo_loop buckets (need - take) in
    if leb need 0
    then ([], need)
    else if leb take 0
    then rest
    else (record { bucket_id = bucket.id; days = take } ∷ rest.0, rest.1)

unfoldable pub fifo_result : List FifoAllocation × ℕ → FifoResult
fifo_result (allocations, need) = if leb need 0 then enough allocations else short need allocations

unfoldable pub allocate_fifo : List FifoBucket → ℤ → FifoResult
unfolding fifo_result
allocate_fifo buckets days = fifo_result (fifo_loop buckets (pos_part days))

abbrev pub allocations_of : FifoResult → List FifoAllocation
allocations_of (enough allocations) = allocations
allocations_of (short _ allocations) = allocations

abbrev pub shortfall_of : FifoResult → ℕ
shortfall_of (enough _) = 0
shortfall_of (short n _) = n
