-- ===== src/TaskTracker.antt =====
-- The task tracker: who may do what in a workspace, and who sees which task.
pub mod Roles
pub mod Workspace
pub mod Can
pub mod Merge
pub mod Staff
pub mod Apply
pub mod Visibility
mod Tests
