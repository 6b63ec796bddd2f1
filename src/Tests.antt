-- ===== src/Tests.antt =====
-- Concrete runs of the modelled services.
pub mod Data
pub mod Runs
pub mod Text
pub mod Edits
pub mod Limits
pub mod Notices
pub mod Posts
pub mod Admin
pub mod Attendance
pub mod Leaderboards
