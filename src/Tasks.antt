-- ===== src/Tasks.antt =====
-- The task service of server/internal/services/tasks.go. Its operations are in the first modules,
-- and the theorems about them in the others.
pub mod Guards
pub mod Notify
pub mod Files
pub mod Reminders
pub mod Status
pub mod Submit
pub mod Approve
pub mod Action
pub mod Reopen
pub mod Create
pub mod Update
pub mod Post
pub mod Comment
pub mod Frames
pub mod Opening
pub mod Calls
pub mod Atomicity
pub mod Lifecycle
pub mod Rebuild
pub mod Actions
pub mod Keeping
pub mod Editing
pub mod Posting
pub mod Requests
pub mod History
pub mod Awards
pub mod Submission
pub mod Isolation
pub mod Created
pub mod Notices
pub mod Succeeds
pub mod Edits
pub mod Statuses
pub mod Posted
pub mod Snippets
