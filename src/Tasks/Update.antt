-- ===== src/Tasks/Update.antt =====
-- UpdateTaskDetails of server/internal/services/tasks.go.
use abhiyan.Prelude.{ℕ, String, List, [], any, str_eq, Bool, if◌then◌else◌}
use abhiyan.Schema.Enums.{assignee, subscriber}
use abhiyan.Text.{◌<>◌}
use abhiyan.Db.{
  M, pure, ◌>>=◌, ◌>>◌, parse_uuid, attempt, ignore, value_or, transaction, for_each, uuid_printer,
}
use abhiyan.Sql.Tasks.{update_task_row}
use abhiyan.Sql.Participants.{
  ParticipantRow, get_task_participants, add_task_participant, delete_task_participants,
}
use abhiyan.Sql.Reminders.{delete_task_reminders}
use abhiyan.Sql.Notifications.{create_notification, create_task_card_notification}
use abhiyan.Tasks.Guards.{assert_task_in_org, assert_users_in_org}
use abhiyan.Tasks.Files.{diff_attachments, delete_from_s3}
use abhiyan.Tasks.Reminders.{rebuild_reminders}
use abhiyan.Tasks.Create.{TaskRequest, null_string, with_parsed}

-- oldMap[text], whose keys are the printed ids
abbrev pub was_there : (ℕ → String) → List ParticipantRow → String → Bool
was_there print old text = any (λ p. str_eq (print p.id) text) old

-- Only those who are new hear of it.
unfoldable pub update_assignee : ℕ → ℕ → String → (String → Bool) → String → M (Unit {0})
update_assignee task_id org_id name known text = do
  user ← attempt (parse_uuid text)
  with_parsed
      (λ user_id.
        ignore (add_task_participant task_id user_id assignee)
        >> (if known text
            then pure tt
            else ignore (
                create_task_card_notification user_id org_id "Task Assignment Updated"
                  ("You have been added to the task: " <> name) task_id "ASSIGNED")))
      user

unfoldable pub update_subscriber : ℕ → ℕ → String → (String → Bool) → String → M (Unit {0})
update_subscriber task_id org_id name known text = do
  user ← attempt (parse_uuid text)
  with_parsed
      (λ user_id.
        ignore (add_task_participant task_id user_id subscriber)
        >> (if known text
            then pure tt
            else ignore (
                create_notification user_id org_id "Added to Task Loop"
                  ("You are now subscribed to: " <> name))))
      user

-- The participants: all old ones go, and those of the request are added.
unfoldable pub update_participants : ℕ → ℕ → TaskRequest → M (Unit {0})
update_participants task_id org_id req = do
  old ← attempt (get_task_participants task_id)
  print ← uuid_printer
  let known = was_there print (value_or [] old)
  ignore (delete_task_participants task_id)
  for_each req.assignee_ids (update_assignee task_id org_id req.title known)
  for_each req.subscriber_ids (update_subscriber task_id org_id req.title known)

unfoldable pub update_rest : ℕ → String → TaskRequest → M (List String)
update_rest task_id user req = do
  user_id ← parse_uuid user
  diff_attachments task_id user_id req.attachments

unfoldable pub update_body : ℕ → ℕ → String → TaskRequest → M (List String)
update_body task_id org_id user req = do
  update_task_row task_id req.title (null_string req.description) req.due_date
  update_participants task_id org_id req
  ignore (delete_task_reminders task_id)
  rebuild_reminders task_id req.reminders
  update_rest task_id user req

unfoldable pub update_task_details : String → TaskRequest → String → String → M (Unit {0})
update_task_details task req user caller = do
  task_id ← parse_uuid task
  org_id ← parse_uuid caller
  assert_task_in_org task_id org_id
  assert_users_in_org req.assignee_ids org_id
  assert_users_in_org req.subscriber_ids org_id
  urls ← transaction (update_body task_id org_id user req)
  delete_from_s3 urls
