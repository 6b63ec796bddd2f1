-- ===== src/Tasks/Approve.antt =====
-- ApproveTask of server/internal/services/tasks.go.
use abhiyan.Prelude.{ℕ, String, Option, some, List, []}
use abhiyan.Text.{◌<>◌}
use abhiyan.Db.{M, pure, ◌>>=◌, ◌>>◌, parse_uuid, attempt, ignore, value_or, transaction, now}
use abhiyan.Sql.Tasks.{approve_task_state, get_task_details_for_notifications, add_task_update}
use abhiyan.Sql.Reminders.{delete_task_reminders}
use abhiyan.Sql.Participants.{get_task_participants, get_task_assignee_phones}
use abhiyan.Scores.Record.{record_approval}
use abhiyan.Tasks.Guards.{assert_task_in_org}
use abhiyan.Tasks.Notify.{notify_participants_with_card, notify_assignees_whatsapp}

-- What follows the score, up to COMMIT: the phones and the title are used after it.
unfoldable pub approve_rest : ℕ → ℕ → ℕ → M (List (Option String) × String)
approve_rest task_id org_id admin_id = do
  ignore (add_task_update task_id (some admin_id) "Task Approved and Closed.")
  found ← attempt (get_task_details_for_notifications task_id)
  let title = value_or "" found
  participants ← attempt (get_task_participants task_id)
  notify_participants_with_card org_id task_id admin_id (value_or [] participants) "Task Approved"
      ("Yay '" <> title <> "' was approved.") "APPROVED"
      ("Yay! Your task '" <> title <> "' was approved by the admin.")
  phones ← attempt (get_task_assignee_phones task_id)
  pure (value_or [] phones, title)

unfoldable pub approve_body : ℕ → ℕ → String → M (List (Option String) × String)
approve_body task_id org_id admin = do
  admin_id ← parse_uuid admin
  approve_task_state task_id
  at ← now
  ignore (record_approval task_id at)
  ignore (delete_task_reminders task_id)
  approve_rest task_id org_id admin_id

unfoldable pub approve_task : String → String → String → M (Unit {0})
approve_task task admin caller = do
  task_id ← parse_uuid task
  org_id ← parse_uuid caller
  assert_task_in_org task_id org_id
  sent ← transaction (approve_body task_id org_id admin)
  notify_assignees_whatsapp sent.0 sent.1 "approved and closed"
