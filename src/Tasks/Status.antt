-- ===== src/Tasks/Status.antt =====
-- UpdateTaskStatus of server/internal/services/tasks.go, which runs outside a transaction.
use abhiyan.Prelude.{String, str_eq, if◌then◌else◌}
use abhiyan.Db.{M, pure, ◌>>=◌, ◌>>◌, parse_uuid, ignore}
use abhiyan.Sql.Tasks.{update_task_status}
use abhiyan.Sql.Reminders.{delete_task_reminders}
use abhiyan.Tasks.Guards.{assert_task_in_org}

unfoldable pub set_status : String → String → String → M (Unit {0})
set_status task status caller = do
  task_id ← parse_uuid task
  org_id ← parse_uuid caller
  assert_task_in_org task_id org_id
  update_task_status status task_id
  if str_eq status "CLOSED" then ignore (delete_task_reminders task_id) else pure tt
