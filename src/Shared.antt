-- ===== src/Shared.antt =====
-- What the services share: src/shared/tenancy.ts and src/shared/office-scope.ts.
pub mod Tenancy
pub mod OfficeScope
mod Tests
