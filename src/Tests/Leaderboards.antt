-- ===== src/Tests/Leaderboards.antt =====
-- The theorems on leaderboards, on the small organization of Tests/Data.antt.
use abhiyan.Sql.Breakdowns.{get_user_score_events, get_user_score_breakdown}
use abhiyan.Scores.Breakdowns.{
  event_response, get_user_breakdown-BrokenDown, get_user_breakdown, BrokenDown,
  ScoreBreakdownResponse,
}
use abhiyan.Scores.Boards.{get_leaderboard-IsRanking, shown_rows, entries, IsRanking}
use abhiyan.Sql.Leaderboards.{
  get_leaderboard_visibility_bulk, get_team_leaderboard, upsert_leaderboard_visibility,
  get_employee_teams,
}
use abhiyan.Sql.Orgs.{is_user_in_org, get_team_org_id}
use abhiyan.Db.{
  uuid_printer, select, attempt, ok, lift, parse_uuid, statement, exec, select_one, raise, pure,
  ◌>>=◌, Db,
}
use abhiyan.Scores.Ranks.{assign_ranks, LeaderboardEntry}
use abhiyan.Scores.Toggles.{toggle_leaderboard_visibility-Toggled, Toggled}
use abhiyan.Scores.Leaderboards.{
  leaderboard_entry, leaderboard_or_empty, visible_leaderboard, narrow, read_leaders,
  get_leaderboard, toggle_leaderboard_visibility, get_employee_leaderboard,
}
use abhiyan.Scores.Visible.{get_employee_leaderboard-ShownBoard, ShownBoard}
use abhiyan.Text.{full_name, trim_space}
use abhiyan.Schema.Enums.{on_time_completion}
use abhiyan.Scores.Points.{day}
use abhiyan.Prelude.{some, ◌*◌, Bool, String, ℕ, false, true, ◌≡◌, refl, [], ◌∷◌, List}
use abhiyan.Tests.Data.{calm, server, texts, tables}

abbrev entry : ℕ → ℕ → String → ℕ → ℕ → Bool → LeaderboardEntry
entry rank id name points on_time mine = record {
  rank = rank;
  user_id = id;
  full_name = name;
  email = name;
  total_points = points;
  on_time_count = on_time;
  completed_count = on_time;
  is_current_user = mine;
}

abbrev board : List LeaderboardEntry
board = entry 1 8 "Grace" 15 1 true ∷ entry 2 7 "Ada" 0 0 false ∷ []

ranks : (get_leaderboard (10 ∷ []) "worker" calm server).0 ≡ ok board
unfolding get_leaderboard read_leaders get_team_leaderboard get_leaderboard_visibility_bulk
    leaderboard_entry assign_ranks full_name trim_space ◌>>=◌ pure attempt select statement
    uuid_printer
ranks = refl

get_leaderboard-IsRanking_example :
    ((get_leaderboard (10 ∷ []) "worker" calm server).1.store ≡ server.store)
    × IsRanking (entries texts "worker" (shown_rows (10 ∷ []) server.store)) board
get_leaderboard-IsRanking_example =
    get_leaderboard-IsRanking (10 ∷ []) "worker" calm server (refl, refl) ranks

abbrev open_server : Db
open_server = record server {
  store = record tables {
    team_leaderboard_settings = record { team_id = 10; leaderboard_visible = true } ∷ [];
  };
}

shows : (get_employee_leaderboard "worker" "ALL" "org" calm open_server).0 ≡ ok board
unfolding get_employee_leaderboard get_employee_teams narrow visible_leaderboard
    leaderboard_or_empty get_leaderboard read_leaders get_team_leaderboard
    get_leaderboard_visibility_bulk leaderboard_entry assign_ranks full_name trim_space ◌>>=◌ pure
    attempt select statement uuid_printer parse_uuid lift
shows = refl

get_employee_leaderboard-ShownBoard_example :
    ShownBoard "worker" "ALL" "org" calm open_server.store board
      (get_employee_leaderboard "worker" "ALL" "org" calm open_server).1.store
get_employee_leaderboard-ShownBoard_example =
    get_employee_leaderboard-ShownBoard "worker" "ALL" "org" calm open_server (refl, refl) shows

sets : (toggle_leaderboard_visibility "team" true "admin" "org" calm server).0 ≡ ok tt
unfolding toggle_leaderboard_visibility get_team_org_id upsert_leaderboard_visibility ◌>>=◌ pure
    raise select_one exec statement parse_uuid lift
sets = refl

toggle_leaderboard_visibility-Toggled_example :
    Toggled "team" true "admin" "org" calm server.store
      (toggle_leaderboard_visibility "team" true "admin" "org" calm server).1.store
toggle_leaderboard_visibility-Toggled_example =
    toggle_leaderboard_visibility-Toggled "team" true "admin" "org" calm server (refl, refl) sets

abbrev breakdown : ScoreBreakdownResponse
breakdown = record {
  totals = record {
    total_points = 15;
    on_time_count = 1;
    late_count = 0;
    missed_count = 0;
    rejection_count = 0;
  };
  events =
      record {
        id = "uuid";
        task_id = "task";
        task_title = "Report";
        team_id = "team";
        team_name = "Field";
        event_type = on_time_completion;
        points_awarded = 15;
        due_date_snapshot = some (10 * day);
        event_at = 0;
      }
      ∷ [];
}

breaks_down : (get_user_breakdown "worker" "team" 10 0 "org" calm server).0 ≡ ok breakdown
unfolding get_user_breakdown is_user_in_org get_user_score_breakdown get_user_score_events
    event_response ◌>>=◌ pure raise select statement parse_uuid lift uuid_printer
breaks_down = refl

get_user_breakdown-BrokenDown_example :
    BrokenDown "worker" "team" 10 0 "org" calm server.store breakdown
      (get_user_breakdown "worker" "team" 10 0 "org" calm server).1.store
get_user_breakdown-BrokenDown_example =
    get_user_breakdown-BrokenDown "worker" "team" 10 0 "org" calm server (refl, refl) breaks_down
