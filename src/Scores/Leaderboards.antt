-- ===== src/Scores/Leaderboards.antt =====
-- GetLeaderboard, GetAdminLeaderboard, GetEmployeeLeaderboard and ToggleLeaderboardVisibility of
-- server/internal/services/scores.go.
use abhiyan.Tasks.Guards.{require}
use abhiyan.Attendance.Reports.{one_team}
use abhiyan.Sql.Orgs.{get_team_org_id}
use abhiyan.Scores.Ranks.{assign_ranks, LeaderboardEntry}
use abhiyan.Db.{not_in_org, value_or, parse_uuid, uuid_printer, attempt, pure, M}
use abhiyan.Sql.Leaderboards.{
  upsert_leaderboard_visibility, get_leaderboard_visibility_bulk, get_employee_teams,
  get_team_leaderboard, get_aggregated_leaderboard, is_among, LeaderRow,
}
use abhiyan.Prelude.{
  ℕ, String, Bool, true, false, Option, none, some, List, [], ◌∷◌, ◌==◌, str_eq, filter, map,
  if◌then◌else◌,
}
use abhiyan.Schema.{TeamLeaderboardSetting}
use abhiyan.Text.{full_name}
use abhiyan.Db.{◌>>=◌, ◌>>◌}

unfoldable pub leaderboard_entry : (ℕ → String) → String → LeaderRow → LeaderboardEntry
unfolding full_name
leaderboard_entry print current r = record {
  rank = 0;
  user_id = r.user_id;
  full_name = full_name r.first_name r.last_name;
  email = r.email_id;
  total_points = r.total_points;
  on_time_count = r.on_time_count;
  completed_count = r.completed_count;
  is_current_user = str_eq (print r.user_id) current;
}

unfoldable pub read_leaders : List ℕ → M (List LeaderRow)
read_leaders [] = get_aggregated_leaderboard []
read_leaders (t ∷ []) = get_team_leaderboard t
read_leaders (t ∷ u ∷ ts) = get_aggregated_leaderboard (t ∷ u ∷ ts)

-- The settings that are read at the end are used for nothing.
unfoldable pub get_leaderboard : List ℕ → String → M (List LeaderboardEntry)
get_leaderboard teams current = do
  print ← uuid_printer
  rows ← read_leaders teams
  _ ← attempt (get_leaderboard_visibility_bulk teams)
  pure (assign_ranks (map (leaderboard_entry print current) rows))

unfoldable pub get_admin_leaderboard : List ℕ → String → M (List LeaderboardEntry)
get_admin_leaderboard teams current = do
  entries ← get_leaderboard teams current
  _ ← attempt (get_leaderboard_visibility_bulk teams)
  pure entries

unfoldable pub toggle_leaderboard_visibility : String → Bool → String → String → M (Unit {0})
toggle_leaderboard_visibility team visible admin caller = do
  team_id ← parse_uuid team
  org_id ← parse_uuid caller
  updated_by ← parse_uuid admin
  owner ← get_team_org_id team_id
  require (owner == org_id) not_in_org
  upsert_leaderboard_visibility team_id visible

-- visMap[id]: the last setting of the team that was read, false where there is none
abbrev pub visibility : ℕ → List TeamLeaderboardSetting → Bool → Bool
visibility i [] known = known
visibility i (v ∷ vs) known =
    visibility i vs (if v.team_id == i then v.leaderboard_visible else known)

abbrev pub named_among : Option ℕ → List ℕ → List ℕ
named_among none ids = []
named_among (some i) ids = if is_among ids i then i ∷ [] else []

-- The teams that the request is of; none where it names a team that is not the user's
unfoldable pub narrow : Bool → String → List ℕ → M (List ℕ)
narrow false team ids = pure ids
narrow true team ids = do wanted ← attempt (parse_uuid team); pure (named_among wanted ids)

unfoldable pub leaderboard_or_empty : List ℕ → String → M (List LeaderboardEntry)
leaderboard_or_empty [] user = pure []
leaderboard_or_empty (t ∷ ts) user = get_leaderboard (t ∷ ts) user

unfoldable pub visible_leaderboard : List ℕ → String → M (List LeaderboardEntry)
visible_leaderboard [] user = pure []
visible_leaderboard (t ∷ ts) user = do
  settings ← attempt (get_leaderboard_visibility_bulk (t ∷ ts))
  leaderboard_or_empty (filter (λ i. visibility i (value_or [] settings) false) (t ∷ ts)) user

unfoldable pub get_employee_leaderboard : String → String → String → M (List LeaderboardEntry)
get_employee_leaderboard user team caller = do
  user_id ← parse_uuid user
  org_id ← parse_uuid caller
  ids ← get_employee_teams user_id org_id
  chosen ← narrow (one_team team) team ids
  visible_leaderboard chosen user
