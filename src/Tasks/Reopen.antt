-- ===== src/Tasks/Reopen.antt =====
-- ReopenTask of server/internal/services/tasks.go. No route leads to it: the reopening that the
-- server offers is ActionTask's.
use abhiyan.Prelude.{ℕ, String, []}
use abhiyan.Schema.Enums.{TaskFulfillmentStatus}
use abhiyan.Text.{◌<>◌}
use abhiyan.Db.{M, ◌>>=◌, ◌>>◌, parse_uuid, attempt, ignore, value_or, transaction}
use abhiyan.Sql.Tasks.{
  update_task_status, update_task_fulfillment, update_task_deadline,
  get_task_details_for_notifications,
}
use abhiyan.Sql.Reminders.{delete_task_reminders}
use abhiyan.Sql.Participants.{get_task_participants}
use abhiyan.Tasks.Guards.{assert_task_in_org}
use abhiyan.Tasks.Notify.{notify_participants_with_card}
use abhiyan.Tasks.Reminders.{rebuild_reminders}
use abhiyan.Tasks.Action.{ActionTaskRequest, post_note}

unfoldable pub reopen_body : ℕ → ℕ → String → ActionTaskRequest → M (Unit {0})
reopen_body task_id org_id user req = do
  user_id ← parse_uuid user
  update_task_status "OPEN" task_id
  ignore (update_task_fulfillment TaskFulfillmentStatus.pending task_id)
  ignore (update_task_deadline task_id req.due_date)
  post_note task_id user_id "TASK REOPENED" req.note
  ignore (delete_task_reminders task_id)
  rebuild_reminders task_id req.reminders
  found ← attempt (get_task_details_for_notifications task_id)
  let name = value_or "" found
  participants ← attempt (get_task_participants task_id)
  notify_participants_with_card org_id task_id user_id (value_or [] participants) "Task Reopened"
      ("Task '" <> name <> "' has been reopened and requires your attention.") "REOPENED"
      ("Your task '" <> name
        <> "' was reopened by the admin. Please review the updated details and redo it.")

unfoldable pub reopen_task : String → String → ActionTaskRequest → String → M (Unit {0})
reopen_task task user req caller = do
  task_id ← parse_uuid task
  org_id ← parse_uuid caller
  assert_task_in_org task_id org_id
  transaction (reopen_body task_id org_id user req)
