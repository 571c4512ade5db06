-- ===== src/Leave.antt =====
-- Annual leave: the first-in-first-out allocation over the leave years, and the balances.
pub mod Fifo
pub mod Policy
pub mod Annual
pub mod DayFraction
pub mod Requests
mod Tests
mod AnnualTests
