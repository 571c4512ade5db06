-- ===== src/Lib.antt =====
-- Verification library of the workforce backend, a service for attendance, leave and task tracking.
--
-- Parts and files. Paths are from the repository's root.
-- - Common: shared names, lists, integers, failures (Result: AppError of src/shared/errors), and tables of
--   rows with a key (Table), which stand for the tables of the database. A where-clause is a filter, an
--   order is a stable sort, and a generated identifier is the table's next number. Pairwise is the notion
--   of a list in which every two rows go together.
-- - Shared: src/shared/tenancy.ts (Tenancy) and src/shared/office-scope.ts (OfficeScope). Which employees
--   an administrator of an office sees, as a filter on rows and as a check on one row. The services of
--   leave, of meetings and of attendance call it.
-- - Calendar: dates in UTC by year, month (from 0) and day, with the day number for `getTime()`.
-- - Leave/Policy and Leave/Fifo: src/modules/leave/annual-leave.policy.ts. Years of service, entitlement,
--   leave years, and the allocation of days over the leave years, oldest first.
-- - Leave/Annual: src/modules/leave/annual-leave.service.ts. The store (leave years, ledger, allocations,
--   requests) and its operations: Accrual (`ensureAccrual`), Apply (`applyToBuckets`), Service (`reserve`,
--   `consumeReserved`, `release`, `syncUsageFromRequests`), Balance (`toBalanceDto`, `rebuild`, `adjust`).
--   The service calls the policy for entitlements and for the allocation.
-- - Leave/Requests: src/modules/leave/leave.service.ts. A request's life from planning to its end: the
--   conflicts and the selectable days, Service (the handlers, which call the annual-leave service to
--   reserve, consume and release days), Life (the handlers as steps on the store and what they keep).
-- - Leave/DayFraction: src/shared/schedule-day-fraction.ts. How many days a request counts.
-- - Attendance: src/modules/attendance. Metrics (auto-checkout.logic.ts, flexible-day.logic.ts), Close
--   (timesheet-close.ts, and src/modules/history/worksheet-duplicate.ts that it calls), Presence and CheckIn
--   (attendance.service.ts), CheckOut (attendance.service.ts and auto-checkout.service.ts). Checkout and the
--   automatic checkout both close a timesheet by Close. A check-in is split into the checks (`admit`) and
--   the transaction (`commit`), so that other requests may run between them.
-- - Attendance/Corrections: src/modules/attendance-correctness/attendance-correctness.service.ts. Ask (an
--   employee asks for a corrected attendance, day by day), Review (an administrator approves or refuses; an
--   approved row is written into the timesheets by Halves), Life (what these requests keep).
-- - Meetings: src/modules/meetings/meeting.service.ts. Rooms and Bookings, Busy and Sound (bookings of a
--   room that overlap), Race (two requests between whose checks and transactions others run), Requests (the
--   requests as steps, and the calendar of a room as their abstract view).
-- - Performance: src/modules/performance. Performance itself is attendance-rating.ts. Supervisors and
--   Evaluation are parts of performance.service.ts: the check of an employee's supervisor (called by the
--   update of src/modules/employees/employee.service.ts), and an evaluation from its first draft to its
--   end, with Service and Review for the requests of the two sides and Life for the requests as steps. An
--   evaluation's scores are rows of their own, and its cycle and employee are looked up by key.
-- - TaskTracker: src/modules/task-tracker. Roles and Workspace (types.ts), Can, Merge, Staff and Apply
--   (permissions.ts: a client's copy of the workspace is merged into the stored one), Visibility
--   (visibility-policy.ts and the access checks of visibility.ts).
--
-- Conventions. Days of leave and fractions of a day are counted in hundredths, as the two decimal places
-- of the database and of `round2` have it, the days of leave and of absence in the attendance rating too;
-- where the code rounds half a fraction by floating point, the model has the same results; the rate of lateness in thousandths. Instants are milliseconds.
-- Texts and identifiers that the code only compares are numbers, with 0 for the empty text. A request is a
-- function from a store to a result, which is an error or the store after it; a transaction that fails
-- leaves its caller with the store from before. A request that the code runs without a transaction
-- (`createRequests`, `approveSubmission` of the corrections) returns the tables together with the outcome,
-- since rows written before a failure stay. Where the code checks outside the transaction that writes, the
-- model has the two parts apart as well as their composition.
--
-- Bounds and fuel. There is no recursion on fuel: loops run over lists, or over a number of rounds that the
-- source fixes before the loop (the leave years that have started, the days of a range, the twenty
-- supervisors that a check looks at).
--
-- Parameters. The date of today in a timezone (`Intl`), luxon's local dates and instants, the geographic
-- query, the holiday lookup, the settings of an organisation, the host of photos and the string methods are
-- parameters (`today_in_zone`, `Platform`, `weekday`, `day_of`, `trim`). Theorems use nothing about them.
--
-- Not modelled. Routes, request schemas, mail, push messages, sockets and logs are input and output. The
-- texts of messages and the details of errors are left out, and so are the lists with their pagination. The
-- vault, chat, holidays, invites, the roster, reports, authentication, the services of the task tracker, and
-- the templates and the opening of evaluation cycles are outside this library, and so is the older copy of
-- the backend under latest/.
pub mod Common
pub mod Attendance
pub mod Calendar
pub mod Leave
pub mod Meetings
pub mod Performance
pub mod Shared
pub mod TaskTracker
