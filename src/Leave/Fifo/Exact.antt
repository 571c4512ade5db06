-- ===== src/Leave/Fifo/Exact.antt =====
-- How much `allocateFifo` grants, and when it falls short.
use workforce_app_backend.Common.{ℕ, ◌-◌, min, ◌≡◌, List, [], ◌∷◌, arith, sum_by}
use workforce_app_backend.Common.Int.{ℤ, pos_part}
use workforce_app_backend.Leave.Fifo.{
  FifoBucket, FifoAllocation, fifo_loop, allocate_fifo, allocations_of, shortfall_of,
}

-- What the buckets can give together; an overdrawn one gives nothing.
abbrev pub available : List FifoBucket → ℕ
available buckets = sum_by (λ b. pos_part b.remaining) buckets

abbrev pub granted : List FifoAllocation → ℕ
granted allocations = sum_by (λ a. a.days) allocations

fifo_loop-exact :
    (buckets : List FifoBucket) (need : ℕ)
    → (granted (fifo_loop buckets need).0 ≡ min (available buckets) need)
      × ((fifo_loop buckets need).1 ≡ need - available buckets)
unfolding fifo_loop
fifo_loop-exact [] need = (omega arith, omega arith)
fifo_loop-exact (bucket ∷ buckets) need =
    ground (arith, fifo_loop-exact buckets (need - min (pos_part bucket.remaining) need))

-- The days that are granted are the smaller of the available days and the requested days (none for
-- a negative request), and the shortfall is what is missing from the request.
pub allocate_fifo-exact :
    (buckets : List FifoBucket) (days : ℤ)
    → (granted (allocations_of (allocate_fifo buckets days))
        ≡ min (available buckets) (pos_part days))
      × (shortfall_of (allocate_fifo buckets days) ≡ pos_part days - available buckets)
unfolding allocate_fifo
allocate_fifo-exact buckets days = ground (arith, fifo_loop-exact buckets (pos_part days))
