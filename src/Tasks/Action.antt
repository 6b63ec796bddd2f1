-- ===== src/Tasks/Action.antt =====
-- ActionTask of server/internal/services/tasks.go, which rejects a task or opens it again. Any
-- action but REJECT reopens.
use abhiyan.Prelude.{ℕ, String, Bool, true, false, Option, some, List, [], str_eq, if◌then◌else◌}
use abhiyan.Text.{◌<>◌, trim_space, is_blank, title, to_lower}
use abhiyan.Db.{M, pure, ◌>>=◌, ◌>>◌, parse_uuid, attempt, ignore, value_or, transaction}
use abhiyan.Sql.Tasks.{
  reject_task_state, reopen_task_state, get_task_details_for_notifications, add_task_update,
}
use abhiyan.Sql.Reminders.{delete_task_reminders}
use abhiyan.Sql.Participants.{get_task_participants, get_task_assignee_phones}
use abhiyan.Scores.Record.{record_rejection, record_reopen}
use abhiyan.Tasks.Guards.{assert_task_in_org}
use abhiyan.Tasks.Notify.{notify_participants_with_card, notify_assignees_whatsapp}
use abhiyan.Tasks.Reminders.{CreateReminderPayload, rebuild_reminders}
use abhiyan.Tasks.Files.{AttachmentPayload, diff_attachments, delete_from_s3}

-- schemas.ActionTaskRequest
pub record ActionTaskRequest : Type 0 where
  pub note : String
  pub due_date : Option ℕ
  pub reminders : List CreateReminderPayload
  pub attachments : List AttachmentPayload

abbrev pub is_reject : String → Bool
is_reject action = str_eq action "REJECT"

abbrev pub action_state : Bool → ℕ → Option ℕ → M (Unit {0})
action_state true task_id due = reject_task_state task_id due
action_state false task_id due = reopen_task_state task_id due

abbrev pub action_score : Bool → ℕ → M (Unit {0})
action_score true task_id = record_rejection task_id
action_score false task_id = record_reopen task_id

-- An optional note becomes a timeline entry.
unfoldable pub post_note : ℕ → ℕ → String → String → M (Unit {0})
post_note task_id user_id label note =
    if is_blank (trim_space note)
    then pure tt
    else ignore (add_task_update task_id (some user_id) (label <> ": " <> note))

abbrev pub action_label : Bool → String
action_label true = "TASK REJECTED"
action_label false = "TASK REOPENED"

abbrev pub action_card : Bool → String
action_card true = "REJECTED"
action_card false = "REOPENED"

abbrev pub action_verb : Bool → String
action_verb true = "rejected"
action_verb false = "reopened"

unfoldable pub action_phones : Bool → ℕ → M (List (Option String))
action_phones true task_id = do
  phones ← attempt (get_task_assignee_phones task_id)
  pure (value_or [] phones)
action_phones false task_id = pure []

-- What follows the reminders, up to COMMIT
unfoldable pub action_rest :
    String → ℕ → ℕ → ℕ → ActionTaskRequest → M (List (Option String) × String × List String)
unfolding action_phones
action_rest action task_id org_id user_id req = do
  found ← attempt (get_task_details_for_notifications task_id)
  let name = value_or "" found
  let rejects = is_reject action
  participants ← attempt (get_task_participants task_id)
  notify_participants_with_card org_id task_id user_id (value_or [] participants)
      ("Task " <> title (to_lower action)) ("'" <> name <> "' requires your attention.")
      (action_card rejects)
      ("Your task '"
        <> name
        <> "' was "
        <> action_verb rejects
        <> " by the admin. Please review the updated details and redo it.")
  phones ← action_phones rejects task_id
  urls ← diff_attachments task_id user_id req.attachments
  pure (phones, name, urls)

unfoldable pub action_body :
    String → ℕ → ℕ → String → ActionTaskRequest → M (List (Option String) × String × List String)
action_body action task_id org_id user req = do
  user_id ← parse_uuid user
  action_state (is_reject action) task_id req.due_date
  ignore (action_score (is_reject action) task_id)
  post_note task_id user_id (action_label (is_reject action)) req.note
  ignore (delete_task_reminders task_id)
  rebuild_reminders task_id req.reminders
  action_rest action task_id org_id user_id req

-- After COMMIT
unfoldable pub action_sent : Bool → List (Option String) × String × List String → M (Unit {0})
action_sent true sent = do
  notify_assignees_whatsapp sent.0 sent.1 "rejected and reassigned"
  delete_from_s3 sent.2
action_sent false sent = delete_from_s3 sent.2

unfoldable pub action_task : String → String → String → ActionTaskRequest → String → M (Unit {0})
action_task action task user req caller = do
  task_id ← parse_uuid task
  org_id ← parse_uuid caller
  assert_task_in_org task_id org_id
  sent ← transaction (action_body action task_id org_id user req)
  action_sent (is_reject action) sent
