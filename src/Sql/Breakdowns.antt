-- ===== src/Sql/Breakdowns.antt =====
-- GetUserScoreBreakdown and GetUserScoreEvents of server/internal/db/sqlc/scores.sql.go. Events of the
-- same time come in the order of the table; a limit and an offset are not negative.
use abhiyan.Prelude.{
  ℕ, zero, suc, String, Bool, true, false, ◌&&◌, ◌||◌, not, Option, none, some, List, [], ◌∷◌, ◌==◌,
  leb, str_eq, filter, count, join, if◌then◌else◌,
}
use abhiyan.Schema.Enums.{
  ScoreEventType, on_time_completion, late_completion, missed_deadline, rejection, is_missed,
}
use abhiyan.Schema.{EmployeeScore, Store}
use abhiyan.Text.{is_blank}
use abhiyan.Db.{M, select}
use abhiyan.Sql.Tasks.{task_by_id, team_by_id}
use abhiyan.Sql.Leaderboards.{points_of, is_on_time}

-- GetUserScoreBreakdownRow
pub record Breakdown : Type 0 where
  pub total_points : ℕ
  pub on_time_count : ℕ
  pub late_count : ℕ
  pub missed_count : ℕ
  pub rejection_count : ℕ

abbrev pub is_late : ScoreEventType → Bool
is_late on_time_completion = false
is_late late_completion = true
is_late missed_deadline = false
is_late rejection = false

abbrev pub is_rejection : ScoreEventType → Bool
is_rejection on_time_completion = false
is_rejection late_completion = false
is_rejection missed_deadline = false
is_rejection rejection = true

-- The live events of a user in an organization, and in a team where the text is its id
abbrev pub counted_events : (ℕ → String) → ℕ → ℕ → String → Store → List EmployeeScore
counted_events print user_id org_id team s =
    filter
      (λ e.
        (e.user_id == user_id)
        && (e.org_id == org_id)
        && not e.superseded
        && (is_blank team || str_eq (print e.team_id) team))
      s.employee_scores

abbrev pub breakdown_of : List EmployeeScore → Breakdown
breakdown_of es = record {
  total_points = points_of es;
  on_time_count = count (λ e. is_on_time e.event_type) es;
  late_count = count (λ e. is_late e.event_type) es;
  missed_count = count (λ e. is_missed e.event_type) es;
  rejection_count = count (λ e. is_rejection e.event_type) es;
}

unfoldable pub get_user_score_breakdown : ℕ → ℕ → String → M Breakdown
get_user_score_breakdown user_id org_id team =
    select (λ env t s. breakdown_of (counted_events env.uuid_string user_id org_id team s))

-- GetUserScoreEventsRow
pub record EventRow : Type 0 where
  pub score : EmployeeScore
  pub task_title : String
  pub team_name : String

abbrev pub event_row : Store → EmployeeScore → Option EventRow
event_row s e = elim (task_by_id e.task_id s) [
  | none ↦ none
  | some task ↦ elim (team_by_id e.team_id s) [
    | none ↦ none
    | some team ↦ some (record { score = e; task_title = task.title; team_name = team.name })
  ]
]

-- ORDER BY event_at DESC
abbrev pub insert_event : EventRow → List EventRow → List EventRow
insert_event r [] = r ∷ []
insert_event r (x ∷ xs) =
    let rest = insert_event r xs in
    if leb x.score.event_at r.score.event_at then r ∷ x ∷ xs else x ∷ rest

abbrev pub sort_events : List EventRow → List EventRow
sort_events [] = []
sort_events (r ∷ rs) = insert_event r (sort_events rs)

-- LIMIT and OFFSET
abbrev pub limited : ℕ → List EventRow → List EventRow
limited zero rs = []
limited (suc n) [] = []
limited (suc n) (r ∷ rs) = r ∷ limited n rs

abbrev pub offset_by : ℕ → List EventRow → List EventRow
offset_by zero rs = rs
offset_by (suc n) [] = []
offset_by (suc n) (r ∷ rs) = offset_by n rs

unfoldable pub get_user_score_events : ℕ → ℕ → ℕ → ℕ → String → M (List EventRow)
get_user_score_events user_id org_id limit offset team = select (λ env t s. limited limit (
    offset_by offset
      (sort_events (join (event_row s) (counted_events env.uuid_string user_id org_id team s)))))
