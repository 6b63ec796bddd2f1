-- ===== src/Sql/Scores.antt =====
-- The queries on `employee_scores` of server/internal/db/sqlc/scores.sql.go.
use abhiyan.Prelude.{
  ℕ, Bool, true, false, ◌&&◌, not, Option, none, some, List, [], ◌∷◌, ◌++◌, ◌==◌, ltb, filter, any,
  join, update_where, if◌then◌else◌,
}
use abhiyan.Schema.Enums.{ScoreEventType, is_missed, is_opened, is_approved, is_assignee}
use abhiyan.Schema.{EmployeeScore, Task, Team, TaskParticipant, Store}
use abhiyan.Db.{M, exec, select, write_checked}
use abhiyan.Sql.Tasks.{task_by_id, team_by_id}

-- InsertScoreEventParams
pub record ScoreEvent : Type 0 where
  pub task_id : ℕ
  pub user_id : ℕ
  pub team_id : ℕ
  pub org_id : ℕ
  pub event_type : ScoreEventType
  pub points_awarded : ℕ
  pub due_date_snapshot : Option ℕ
  pub event_at : ℕ

abbrev pub score_row : ℕ → ScoreEvent → EmployeeScore
score_row id e = record {
  id = id;
  task_id = e.task_id;
  user_id = e.user_id;
  team_id = e.team_id;
  org_id = e.org_id;
  event_type = e.event_type;
  points_awarded = e.points_awarded;
  due_date_snapshot = e.due_date_snapshot;
  event_at = e.event_at;
  superseded = false;
}

-- task_id = $1 AND user_id = $2 AND superseded = false
abbrev pub is_live_for : ℕ → ℕ → EmployeeScore → Bool
is_live_for task_id user_id e = (e.task_id == task_id) && (e.user_id == user_id) && not e.superseded

abbrev pub superseded_row : EmployeeScore → EmployeeScore
superseded_row e = record e { superseded = true }

abbrev pub supersede : ℕ → ℕ → List EmployeeScore → List EmployeeScore
supersede task_id user_id = update_where (is_live_for task_id user_id) superseded_row

abbrev pub has_missed : ℕ → ℕ → List EmployeeScore → Bool
has_missed task_id user_id = any (λ e. is_live_for task_id user_id e && is_missed e.event_type)

-- The unique index idx_scores_task_user_missed: one live MISSED_DEADLINE for a task and a user.
abbrev pub insert_score : ℕ → ScoreEvent → Store → Option (ℕ × Store)
insert_score id e s =
    if is_missed e.event_type && has_missed e.task_id e.user_id s.employee_scores
    then none
    else some (id, record s { employee_scores = s.employee_scores ++ score_row id e ∷ [] })

unfoldable pub insert_score_event : ScoreEvent → M ℕ
insert_score_event e = write_checked (λ env t. insert_score (env.gen_uuid t) e)

unfoldable pub supersede_score_events : ℕ → ℕ → M (Unit {0})
supersede_score_events task_id user_id =
    exec (λ env t s. record s { employee_scores = supersede task_id user_id s.employee_scores })

-- GetMissedDeadlineCandidatesRow
pub record Candidate : Type 0 where
  pub task_id : ℕ
  pub team_id : ℕ
  pub due_date : Option ℕ
  pub org_id : ℕ
  pub user_id : ℕ

abbrev pub is_overdue : ℕ → Option ℕ → Bool
is_overdue at none = false
is_overdue at (some due) = ltb due at

abbrev pub candidate_of : ℕ → Store → TaskParticipant → Task → Team → Option Candidate
candidate_of at s p task team =
    elim (is_overdue at task.due_date
      && is_opened task.status
      && not (is_approved task.review_status)
      && not (has_missed task.id p.user_id s.employee_scores)) [
        | false ↦ none
        | true ↦ some (record {
          task_id = task.id;
          team_id = task.team_id;
          due_date = task.due_date;
          org_id = team.org_id;
          user_id = p.user_id;
        })
      ]

abbrev pub candidate_row : ℕ → Store → TaskParticipant → Option Candidate
candidate_row at s p = elim (task_by_id p.task_id s) [
  | none ↦ none
  | some task ↦ elim (team_by_id task.team_id s) [
    | none ↦ none
    | some team ↦ candidate_of at s p task team
  ]
]

abbrev pub candidates : ℕ → Store → List Candidate
candidates at s = join (candidate_row at s) (filter (λ p. is_assignee p.role) s.task_participants)

unfoldable pub get_missed_deadline_candidates : M (List Candidate)
get_missed_deadline_candidates = select (λ env t s. candidates (env.clock t) s)
