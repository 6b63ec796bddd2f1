-- ===== src/Tasks/Guards.antt =====
-- The checks that the task service makes before it reads or writes (assertTaskInOrg,
-- assertTeamInOrg and assertUsersInOrg of server/internal/services/tasks.go).
use abhiyan.Prelude.{ℕ, String, Bool, List, ◌==◌, if◌then◌else◌}
use abhiyan.Db.{M, pure, raise, ◌>>=◌, parse_uuid, for_each, Error, wrong_org, not_in_org}
use abhiyan.Sql.Tasks.{get_task_org_id}
use abhiyan.Sql.Orgs.{get_team_org_id, is_user_in_org}

-- `if !ok { return err }`
abbrev pub require : Bool → Error → M (Unit {0})
require b e = if b then pure tt else raise e

unfoldable pub assert_task_in_org : ℕ → ℕ → M (Unit {0})
assert_task_in_org task_id caller = do
  org ← get_task_org_id task_id
  require (org == caller) wrong_org

unfoldable pub assert_team_in_org : ℕ → ℕ → M (Unit {0})
assert_team_in_org team_id caller = do
  org ← get_team_org_id team_id
  require (org == caller) wrong_org

unfoldable pub assert_user_in_org : ℕ → String → M (Unit {0})
assert_user_in_org caller text = do
  user ← parse_uuid text
  belongs ← is_user_in_org user caller
  require belongs not_in_org

unfoldable pub assert_users_in_org : List String → ℕ → M (Unit {0})
assert_users_in_org texts caller = for_each texts (assert_user_in_org caller)
