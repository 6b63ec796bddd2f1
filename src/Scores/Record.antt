-- ===== src/Scores/Record.antt =====
-- RecordApprovalTx, RecordRejectionTx and RecordReopenTx of server/internal/services/scores.go,
-- which run inside the caller's transaction, and NewPollMissedDeadlinesTask of
-- server/cmd/worker/tasks/missed_deadlines.go, which does not.
use abhiyan.Prelude.{ℕ, ◌+◌, Option, none, some, List, [], ◌∷◌}
use abhiyan.Schema.Enums.{rejection, missed_deadline}
use abhiyan.Schema.{Task}
use abhiyan.Db.{M, pure, ◌>>=◌, attempt, now, for_each}
use abhiyan.Sql.Tasks.{get_task_by_id}
use abhiyan.Sql.Participants.{AssigneeRow, get_task_assignees_with_context}
use abhiyan.Sql.Scores.{
  ScoreEvent, Candidate, supersede_score_events, insert_score_event, get_missed_deadline_candidates,
}
use abhiyan.Scores.Points.{calculate_points}

abbrev pub approval_event : ℕ → ℕ → ℕ → Task → AssigneeRow → ScoreEvent
approval_event task_id approved_at due task a =
    let (kind, points) = calculate_points approved_at due task.created_at in
    record {
      task_id = task_id;
      user_id = a.user_id;
      team_id = a.team_id;
      org_id = a.org_id;
      event_type = kind;
      points_awarded = points;
      due_date_snapshot = some due;
      event_at = approved_at;
    }

-- The body of the loop of RecordApprovalTx
unfoldable pub approve_assignee : ℕ → ℕ → ℕ → Task → AssigneeRow → M (Unit {0})
approve_assignee task_id approved_at due task a = do
  _ ← attempt (supersede_score_events task_id a.user_id)
  _ ← insert_score_event (approval_event task_id approved_at due task a)
  pure tt

unfoldable pub approve_assignees : ℕ → ℕ → Task → Option ℕ → M (Unit {0})
approve_assignees task_id approved_at task none = pure tt
approve_assignees task_id approved_at task (some due) = do
  assignees ← get_task_assignees_with_context task_id
  for_each assignees (approve_assignee task_id approved_at due task)

unfoldable pub record_approval : ℕ → ℕ → M (Unit {0})
record_approval task_id approved_at = do
  task ← get_task_by_id task_id
  approve_assignees task_id approved_at task task.due_date

abbrev pub rejection_event : ℕ → ℕ → ℕ → AssigneeRow → ScoreEvent
rejection_event task_id due at a = record {
  task_id = task_id;
  user_id = a.user_id;
  team_id = a.team_id;
  org_id = a.org_id;
  event_type = rejection;
  points_awarded = 0;
  due_date_snapshot = some due;
  event_at = at;
}

unfoldable pub reject_assignee : ℕ → ℕ → AssigneeRow → M (Unit {0})
reject_assignee task_id due a = do
  _ ← attempt (supersede_score_events task_id a.user_id)
  at ← now
  _ ← insert_score_event (rejection_event task_id due at a)
  pure tt

unfoldable pub reject_assignees : ℕ → Option ℕ → M (Unit {0})
reject_assignees task_id none = pure tt
reject_assignees task_id (some due) = do
  assignees ← get_task_assignees_with_context task_id
  for_each assignees (reject_assignee task_id due)

unfoldable pub record_rejection : ℕ → M (Unit {0})
record_rejection task_id = do task ← get_task_by_id task_id; reject_assignees task_id task.due_date

unfoldable pub reopen_assignee : ℕ → AssigneeRow → M (Unit {0})
reopen_assignee task_id a = do _ ← attempt (supersede_score_events task_id a.user_id); pure tt

unfoldable pub record_reopen : ℕ → M (Unit {0})
record_reopen task_id = do
  assignees ← get_task_assignees_with_context task_id
  for_each assignees (reopen_assignee task_id)

abbrev pub missed_event : ℕ → Candidate → ScoreEvent
missed_event at c = record {
  task_id = c.task_id;
  user_id = c.user_id;
  team_id = c.team_id;
  org_id = c.org_id;
  event_type = missed_deadline;
  points_awarded = 0;
  due_date_snapshot = c.due_date;
  event_at = at;
}

-- One more where the insert succeeded
abbrev pub counted : Option ℕ → ℕ → ℕ
counted none n = n
counted (some id) n = n + 1

-- The loop of the poller: an insert that fails is skipped, and the others are counted.
unfoldable pub record_missed : List Candidate → ℕ → M ℕ
record_missed [] count = pure count
record_missed (c ∷ cs) count = do
  at ← now
  inserted ← attempt (insert_score_event (missed_event at c))
  record_missed cs (counted inserted count)

unfoldable pub poll_missed_deadlines : M ℕ
unfolding record_missed
poll_missed_deadlines = do candidates ← get_missed_deadline_candidates; record_missed candidates 0
