-- ===== src/Tasks/Create.antt =====
-- CreateTask of server/internal/services/tasks.go.
use abhiyan.Prelude.{ℕ, String, Option, none, some, List, if◌then◌else◌}
use abhiyan.Schema.Enums.{ParticipantRole, assignee, subscriber}
use abhiyan.Schema.{Task}
use abhiyan.Text.{◌<>◌, is_blank}
use abhiyan.Db.{M, pure, ◌>>=◌, ◌>>◌, parse_uuid, attempt, ignore, transaction, for_each}
use abhiyan.Sql.Tasks.{CreateTaskParams, insert_task}
use abhiyan.Sql.Participants.{add_task_participant}
use abhiyan.Sql.Reminders.{create_reminder}
use abhiyan.Sql.Notifications.{create_notification, create_task_card_notification}
use abhiyan.Tasks.Guards.{assert_team_in_org, assert_users_in_org}
use abhiyan.Tasks.Files.{AttachmentPayload, Link, insert_attachment_with_transcription}
use abhiyan.Tasks.Reminders.{CreateReminderPayload, reminder_params}

-- schemas.CreateTaskRequest; UpdateTaskRequest has the same fields but for the team.
pub record TaskRequest : Type 0 where
  pub title : String
  pub description : String
  pub due_date : Option ℕ
  pub assignee_ids : List String
  pub subscriber_ids : List String
  pub reminders : List CreateReminderPayload
  pub attachments : List AttachmentPayload

-- sql.NullString{String: s, Valid: s != ""}
abbrev pub null_string : String → Option String
null_string s = if is_blank s then none else some s

unfoldable pub add_participant : ℕ → ParticipantRole → String → M (Unit {0})
add_participant task_id role text = do
  user_id ← parse_uuid text
  add_task_participant task_id user_id role

-- `continue` where the text is no id
abbrev pub with_parsed : (ℕ → M (Unit {0})) → Option ℕ → M (Unit {0})
with_parsed body none = pure tt
with_parsed body (some user_id) = body user_id

unfoldable pub notify_assigned : ℕ → ℕ → String → String → M (Unit {0})
notify_assigned task_id org_id name text = do
  user ← attempt (parse_uuid text)
  with_parsed
      (λ user_id. ignore (
        create_task_card_notification user_id org_id "New Task Assigned"
          ("You have been assigned to: " <> name) task_id "ASSIGNED"))
      user

unfoldable pub notify_subscribed : ℕ → String → String → M (Unit {0})
notify_subscribed org_id name text = do
  user ← attempt (parse_uuid text)
  with_parsed
      (λ user_id. ignore (
        create_notification user_id org_id "Added to Task Loop"
          ("You are subscribed to updates for: " <> name)))
      user

-- What follows the participants, up to COMMIT
unfoldable pub create_rest : Task → ℕ → ℕ → TaskRequest → M Task
create_rest task org_id admin_id req = do
  for_each req.assignee_ids (notify_assigned task.id org_id req.title)
  for_each req.subscriber_ids (notify_subscribed org_id req.title)
  for_each req.reminders (λ r. create_reminder (reminder_params task.id r))
  for_each req.attachments
      (λ a. ignore (insert_attachment_with_transcription (Link.task task.id) admin_id a))
  pure task

abbrev pub task_params : ℕ → ℕ → TaskRequest → CreateTaskParams
task_params team_id admin_id req = record {
  team_id = team_id;
  title = req.title;
  description = null_string req.description;
  created_by = admin_id;
  due_date = req.due_date;
}

unfoldable pub create_body : String → ℕ → ℕ → TaskRequest → M Task
create_body admin team_id org_id req = do
  admin_id ← parse_uuid admin
  task ← insert_task (task_params team_id admin_id req)
  for_each req.assignee_ids (add_participant task.id assignee)
  for_each req.subscriber_ids (add_participant task.id subscriber)
  create_rest task org_id admin_id req

unfoldable pub create_task : String → String → TaskRequest → String → M Task
create_task admin team req caller = do
  org_id ← parse_uuid caller
  team_id ← parse_uuid team
  assert_team_in_org team_id org_id
  assert_users_in_org req.assignee_ids org_id
  assert_users_in_org req.subscriber_ids org_id
  transaction (create_body admin team_id org_id req)
