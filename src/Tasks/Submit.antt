-- ===== src/Tasks/Submit.antt =====
-- SubmitTaskForReview of server/internal/services/tasks.go.
use abhiyan.Prelude.{ℕ, String, Bool, false, Option, none, some}
use abhiyan.Schema.{Task}
use abhiyan.Text.{◌<>◌, full_name}
use abhiyan.Db.{
  M, pure, ◌>>=◌, ◌>>◌, parse_uuid, attempt, ignore, value_or, transaction, not_assignee,
}
use abhiyan.Sql.Tasks.{
  submit_task_state, get_task_by_id, get_task_details_for_notifications, add_task_update,
}
use abhiyan.Sql.Reminders.{cancel_task_reminders}
use abhiyan.Sql.Participants.{is_task_assignee}
use abhiyan.Sql.Orgs.{get_user_name_by_id}
use abhiyan.Sql.Notifications.{create_task_card_notification}
use abhiyan.Tasks.Guards.{assert_task_in_org, require}

abbrev pub is_true : Option Bool → Bool
is_true none = false
is_true (some b) = b

-- The admin who created the task gets the card.
unfoldable pub review_card : ℕ → ℕ → String → String → Option Task → M (Unit {0})
review_card task_id org_id user_name title none = pure tt
review_card task_id org_id user_name title (some task) = ignore (
    create_task_card_notification task.created_by org_id "Task Ready for Review"
      (user_name <> " submitted: " <> title) task_id "REVIEW")

unfoldable pub submit_body : ℕ → ℕ → ℕ → M (Unit {0})
unfolding review_card
submit_body task_id user_id org_id = do
  submit_task_state task_id
  ignore (cancel_task_reminders task_id)
  title ← attempt (get_task_details_for_notifications task_id)
  user ← attempt (get_user_name_by_id user_id)
  let (first, last) = value_or (none, none) user
  ignore (add_task_update task_id (some user_id) "Task submitted for Admin review.")
  task ← attempt (get_task_by_id task_id)
  review_card task_id org_id (full_name first last) (value_or "" title) task

unfoldable pub submit_task_for_review : String → String → String → M (Unit {0})
submit_task_for_review task user caller = do
  task_id ← parse_uuid task
  user_id ← parse_uuid user
  org_id ← parse_uuid caller
  assert_task_in_org task_id org_id
  is_assignee ← attempt (is_task_assignee task_id user_id)
  require (is_true is_assignee) not_assignee
  transaction (submit_body task_id user_id org_id)
