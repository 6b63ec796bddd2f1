-- ===== src/Sql.antt =====
-- The queries of server/internal/db/sqlc, each with the SQL text that the generated Go file holds:
-- UPDATE, INSERT, DELETE and SELECT on the tables of `Schema`.
pub mod Tasks
pub mod Reminders
pub mod Participants
pub mod Scores
pub mod Notifications
pub mod Attachments
pub mod Orgs
pub mod Updates
pub mod Teams
pub mod Memberships
pub mod Attendance
pub mod Leaderboards
pub mod Breakdowns
