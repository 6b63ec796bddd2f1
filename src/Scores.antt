-- ===== src/Scores.antt =====
-- The score service of server/internal/services/scores.go and the worker's task that records
-- missed deadlines (server/cmd/worker/tasks/missed_deadlines.go). `Points` is the formula,
-- `Record` what an approval, a rejection and a reopening write, `Ranks` the ranks of a
-- leaderboard, `Leaderboards` who sees which, `Breakdowns` the events of a user.
pub mod Points
pub mod Record
pub mod Ranks
pub mod Completion
pub mod Fair
pub mod Live
pub mod Award
pub mod Awarded
pub mod Frames
pub mod Leaderboards
pub mod Boards
pub mod Visible
pub mod Toggles
pub mod Breakdowns
pub mod Pages
