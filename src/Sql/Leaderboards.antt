-- ===== src/Sql/Leaderboards.antt =====
-- The leaderboard queries of server/internal/db/sqlc/scores.sql.go, and GetEmployeeTeams of
-- team.sql.go. A membership is the only one of its team and user, and equal points come in the order
-- of the tables: the second key of the ORDER BY, the first name, is left out.
use abhiyan.Prelude.{
  ℕ, ◌+◌, String, Bool, true, false, ◌&&◌, not, Option, List, [], ◌∷◌, ◌++◌, ◌==◌, leb, any, filter,
  join, map, count, update_where, if◌then◌else◌,
}
use abhiyan.Schema.Enums.{
  ScoreEventType, on_time_completion, late_completion, missed_deadline, rejection,
}
use abhiyan.Schema.{EmployeeScore, TeamLeaderboardSetting, User, Store}
use abhiyan.Db.{M, exec, select}
use abhiyan.Sql.Participants.{user_by_id}
use abhiyan.Sql.Attendance.{teams_of_user}

-- GetTeamLeaderboardRow
pub record LeaderRow : Type 0 where
  pub user_id : ℕ
  pub first_name : Option String
  pub last_name : Option String
  pub email_id : String
  pub total_points : ℕ
  pub on_time_count : ℕ
  pub completed_count : ℕ

abbrev pub is_among : List ℕ → ℕ → Bool
is_among ids i = any (λ j. j == i) ids

-- The live events of a user in those teams
abbrev pub live_scores : List ℕ → ℕ → Store → List EmployeeScore
live_scores teams user_id s =
    filter (λ e. (e.user_id == user_id) && is_among teams e.team_id && not e.superseded)
      s.employee_scores

abbrev pub points_of : List EmployeeScore → ℕ
points_of [] = 0
points_of (e ∷ es) = e.points_awarded + points_of es

abbrev pub is_on_time : ScoreEventType → Bool
is_on_time on_time_completion = true
is_on_time late_completion = false
is_on_time missed_deadline = false
is_on_time rejection = false

abbrev pub is_completed : ScoreEventType → Bool
is_completed on_time_completion = true
is_completed late_completion = true
is_completed missed_deadline = false
is_completed rejection = false

abbrev pub leader_row : List ℕ → Store → User → LeaderRow
leader_row teams s u =
    let scores = live_scores teams u.id s in
    record {
      user_id = u.id;
      first_name = u.first_name;
      last_name = u.last_name;
      email_id = u.email_id;
      total_points = points_of scores;
      on_time_count = count (λ e. is_on_time e.event_type) scores;
      completed_count = count (λ e. is_completed e.event_type) scores;
    }

-- ORDER BY total_points DESC
abbrev pub insert_row : LeaderRow → List LeaderRow → List LeaderRow
insert_row r [] = r ∷ []
insert_row r (x ∷ xs) =
    let rest = insert_row r xs in if leb x.total_points r.total_points then r ∷ x ∷ xs else x ∷ rest

abbrev pub sort_rows : List LeaderRow → List LeaderRow
sort_rows [] = []
sort_rows (r ∷ rs) = insert_row r (sort_rows rs)

-- SELECT DISTINCT
abbrev pub distinct : List ℕ → List ℕ
distinct [] = []
distinct (x ∷ xs) = let rest = distinct xs in if is_among rest x then rest else x ∷ rest

abbrev pub members_of_teams : List ℕ → Store → List ℕ
members_of_teams teams s =
    map (λ tm. tm.user_id) (filter (λ tm. is_among teams tm.team_id) s.team_members)

abbrev pub users_of : List ℕ → Store → List User
users_of ids s = join (λ i. user_by_id i s) ids

abbrev pub team_rows : ℕ → Store → List LeaderRow
team_rows team_id s =
    map (leader_row (team_id ∷ []) s) (users_of (members_of_teams (team_id ∷ []) s) s)

abbrev pub aggregated_rows : List ℕ → Store → List LeaderRow
aggregated_rows teams s =
    map (leader_row teams s) (users_of (distinct (members_of_teams teams s)) s)

unfoldable pub get_team_leaderboard : ℕ → M (List LeaderRow)
get_team_leaderboard team_id = select (λ env t s. sort_rows (team_rows team_id s))

unfoldable pub get_aggregated_leaderboard : List ℕ → M (List LeaderRow)
get_aggregated_leaderboard teams = select (λ env t s. sort_rows (aggregated_rows teams s))

abbrev pub settings_of : List ℕ → Store → List TeamLeaderboardSetting
settings_of teams s = filter (λ v. is_among teams v.team_id) s.team_leaderboard_settings

unfoldable pub get_leaderboard_visibility_bulk : List ℕ → M (List TeamLeaderboardSetting)
get_leaderboard_visibility_bulk teams = select (λ env t. settings_of teams)

-- The ids of the teams; the other columns are not read.
unfoldable pub get_employee_teams : ℕ → ℕ → M (List ℕ)
get_employee_teams user_id org_id =
    select (λ env t s. map (λ team. team.id) (teams_of_user org_id user_id s))

abbrev pub with_visibility : ℕ → Bool → List TeamLeaderboardSetting → List TeamLeaderboardSetting
with_visibility team_id visible vs =
    if any (λ v. v.team_id == team_id) vs
    then update_where (λ v. v.team_id == team_id) (λ v. record v { leaderboard_visible = visible })
        vs
    else vs ++ record { team_id = team_id; leaderboard_visible = visible } ∷ []

unfoldable pub upsert_leaderboard_visibility : ℕ → Bool → M (Unit {0})
upsert_leaderboard_visibility team_id visible = exec (λ env t s. record s {
  team_leaderboard_settings = with_visibility team_id visible s.team_leaderboard_settings;
})
