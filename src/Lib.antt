-- ===== src/Lib.antt =====
-- Abhiyan is a server with which organizations assign tasks to the members of their teams. An
-- admin creates a task with assignees, a due date and reminders; an assignee submits it for review;
-- the admin approves it, rejects it or opens it again; and each of these writes score events, from
-- which the leaderboards are made. A worker sends the reminders and records missed deadlines. Both
-- share one PostgreSQL database, through queries that sqlc generates.
--
-- Prelude.antt holds the shared names, Boolean tests and lists of rows.
--
-- Schema.antt has the tables (server/internal/db/sqlc/models.go): one record for each row type, the
-- enumerations in Schema/Enums.antt, and `Store`, the list of rows of every table that a modelled
-- query touches. A uuid is a natural number, a time the nanoseconds since the epoch, a sql.Null…
-- value an Option; columns that no modelled query reads are left out.
--
-- Db.antt is database/sql on PostgreSQL. An action takes the environment and the database and gives
-- a result and the database after it. The environment says which of the numbered statements are
-- refused, for whatever reason, BEGIN and COMMIT included; it hands out uuids and times, and parses
-- uuids (google/uuid is not part of the repository). A statement refused inside a transaction aborts
-- it: later statements are refused, and COMMIT rolls back. No rows (sql.ErrNoRows) aborts nothing.
-- `attempt` and `ignore` are a call whose error the Go code drops. Transactions run one after the
-- other: concurrent ones, which the server could interleave, are not modelled. Jobs of the queue
-- and deletions from S3 are a list in the database. Db/Rules, Sure, Always, Triples, Committed,
-- Firm, Yields and Statements have the rules for reasoning about actions: what leaves the tables
-- alone, what cannot fail, what is kept, what has been checked where an action returns, and what a
-- transaction that commits has done even where the errors of its statements are dropped.
--
-- Sql/ has the queries, one function for each, named as in server/internal/db/sqlc (ApproveTaskState
-- is approve_task_state). Inserts whose text values the database casts to an enumeration, or checks,
-- or holds to a unique index, are refused there as the database refuses them. Recurrence values
-- are taken not to be negative.
--
-- Scores/ is server/internal/services/scores.go: calculatePoints (Points), RecordApprovalTx,
-- RecordRejectionTx and RecordReopenTx (Record, with the poller of
-- server/cmd/worker/tasks/missed_deadlines.go), assignRanks (Ranks), the leaderboards and their
-- visibility (Leaderboards), and the breakdown of a user (Breakdowns). The float64
-- arithmetic of calculatePoints is Floats.antt: a float is a number of 2^-128, and is rounded to 53
-- bits by halving, for which 128 steps are enough (Points.ratio-IsFloat and the lemmas beside it).
--
-- Tasks/ is server/internal/services/tasks.go: CreateTask (Create), UpdateTaskDetails (Update),
-- UpdateTaskStatus (Status.set_status), SubmitTaskForReview (Submit), ApproveTask (Approve),
-- ActionTask (Action), ReopenTask (Reopen), PostTaskUpdate (Post) and PostUpdateComment (Comment), with the guards (Guards), the notifications (Notify),
-- the reminders of a request (Reminders) and the attachments (Files). Each
-- operation is the checks on its caller, one transaction, and the messages sent after it. Calls.antt
-- puts the operations and the worker's poll into sequences of events.
--
-- Admin/ is server/internal/services/admin.go: CreateTeam, ManageTeamMember and TransferTeamMember
-- (Teams), UpdateUserSystemProfile and SetAttendanceEnabled (Profiles). Ids that the code compares as
-- texts are compared as texts.
--
-- Attendance/ is server/internal/services/attendance.go with MarkAttendance of
-- server/internal/handlers/attendance.go and the tasks of server/cmd/worker/tasks/attendance.go: the
-- operations on a record (Marking), and the listings, summaries and reports (Reports). Calendar.antt
-- has the dates: days from the first of the year 0, written and read as time.Format and time.Parse do
-- with 2006-01-02, and the clock of India. The search of the year of a date has one more than its
-- days as fuel, which is enough since every year has a day (Calendar/Years).
--
-- Middleware/RateLimit.antt is server/internal/middleware/ratelimit.go: RateLimit, under a key that the
-- caller computes. A limit is taken not to be negative, and the window is in the unit of the times.
--
-- Text.antt has what the code uses of Go's strings package; letters outside ASCII are taken to be
-- without case.
--
-- Loops run over lists and need no fuel. Tests/ runs the services on a small organization.
--
-- Not modelled: the HTTP layer but for MarkAttendance, the other middleware, authentication,
-- invitations, the paged listings, the score reports, the reminder worker and the other worker tasks,
-- and the services outside the server (mail, WhatsApp, S3, face and speech recognition).
pub mod Prelude
pub mod Schema
pub mod Db
pub mod Sql
pub mod Scores
pub mod Text
pub mod Floats
pub mod Calendar
pub mod Tasks
pub mod Middleware
pub mod Admin
pub mod Attendance
pub mod Tests
