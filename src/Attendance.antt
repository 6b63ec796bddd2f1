-- ===== src/Attendance.antt =====
-- The attendance service of server/internal/services/attendance.go, with its handlers and the worker's
-- tasks: the operations first, and what they keep in the other modules.
pub mod Marking
pub mod Reports
pub mod OneRecord
pub mod Marked
pub mod Expected
pub mod Ranges
pub mod Summaries
