-- ===== src/Tests/Edits.antt =====
-- Submissions, statuses, edits and new tasks on the small organization of Tests/Data.antt.
use abhiyan.Sql.Notifications.{create_task_card_notification, create_notification}
use abhiyan.Tasks.Notify.{notify_participant, notify_participants_with_card}
use abhiyan.Sql.Attachments.{get_task_attachments}
use abhiyan.Tasks.Files.{delete_from_s3, delete_gone, diff_attachments}
use abhiyan.Tasks.Reminders.{rebuild_reminders}
use abhiyan.Text.{trim_space, full_name}
use abhiyan.Sql.Reminders.{delete_task_reminders, cancel_task_reminders}
use abhiyan.Sql.Participants.{
  get_task_participants, add_task_participant, delete_task_participants, is_task_assignee,
}
use abhiyan.Sql.Orgs.{is_user_in_org, get_user_name_by_id, get_team_org_id}
use abhiyan.Schema.Enums.{task_status_of}
use abhiyan.Sql.Tasks.{
  insert_task, get_task_by_id, add_task_update, get_task_details_for_notifications, get_task_org_id,
  update_task_row, submit_task_state, update_task_status,
}
use abhiyan.Tasks.Guards.{
  assert_task_in_org, assert_user_in_org, assert_users_in_org, assert_team_in_org,
}
use abhiyan.Prelude.{◌≡◌, refl}
use abhiyan.Db.{
  for_each, uuid_printer, now, enqueue, exec, write_checked, returning, select_one, select,
  transaction, ignore, attempt, statement, lift, raise, pure, parse_uuid, ◌>>=◌, ok, err, Error,
}
use abhiyan.Tasks.Opening.{Effect}
use abhiyan.Tasks.Status.{set_status}
use abhiyan.Tasks.Statuses.{StatusSet, set_status-StatusSet}
use abhiyan.Tasks.Submit.{review_card, submit_body, submit_task_for_review}
use abhiyan.Tasks.Submission.{Submitted, submit_task-Submitted}
use abhiyan.Tasks.Isolation.{Within, run-Within}
use abhiyan.Tasks.Calls.{run, submit}
use abhiyan.Tasks.Update.{
  update_rest, update_subscriber, update_assignee, update_participants, update_body,
  update_task_details,
}
use abhiyan.Tasks.Edits.{Edited, update_task_details-Edited}
use abhiyan.Tasks.Create.{
  notify_subscribed, notify_assigned, add_participant, create_rest, create_body, create_task,
}
use abhiyan.Tasks.Atomicity.{create_error_unchanged}
use abhiyan.Prelude.{◌*◌}
use abhiyan.Schema.{Task}
use abhiyan.Sql.Tasks.{created_row}
use abhiyan.Scores.Points.{day}
use abhiyan.Tasks.Create.{task_params}
use abhiyan.Tasks.Created.{CreatedBy, create_task-CreatedBy}
use abhiyan.Tests.Data.{calm, stormy, server, an_edit}

submits : (submit_task_for_review "task" "worker" "org" calm server).0 ≡ ok tt
unfolding submit_task_for_review submit_body review_card submit_task_state is_task_assignee
    cancel_task_reminders get_user_name_by_id full_name trim_space ◌>>=◌ parse_uuid pure raise lift
    statement attempt ignore transaction select select_one returning write_checked exec enqueue now
    uuid_printer for_each assert_task_in_org get_task_org_id get_task_details_for_notifications
    add_task_update delete_task_reminders get_task_participants get_task_by_id
    notify_participants_with_card notify_participant create_notification
    create_task_card_notification
submits = refl

submits_call : (run (submit "task" "worker" "org") calm server).0 ≡ ok tt
unfolding run
submits_call = submits

closes : (set_status "task" "CLOSED" "org" calm server).0 ≡ ok tt
unfolding set_status update_task_status task_status_of ◌>>=◌ parse_uuid pure raise lift statement
    attempt ignore transaction select select_one returning write_checked exec enqueue now
    uuid_printer for_each assert_task_in_org get_task_org_id delete_task_reminders
closes = refl

edits : (update_task_details "task" an_edit "admin" "org" calm server).0 ≡ ok tt
unfolding update_task_details update_body update_participants update_assignee update_subscriber
    update_rest update_task_row assert_users_in_org assert_user_in_org is_user_in_org
    delete_task_participants add_task_participant rebuild_reminders diff_attachments
    get_task_attachments delete_gone delete_from_s3 ◌>>=◌ parse_uuid pure raise lift statement
    attempt ignore transaction select select_one returning write_checked exec enqueue now
    uuid_printer for_each assert_task_in_org get_task_org_id get_task_details_for_notifications
    add_task_update delete_task_reminders get_task_participants get_task_by_id
    notify_participants_with_card notify_participant create_notification
    create_task_card_notification
edits = refl

refused : (create_task "admin" "team" an_edit "org" stormy server).0 ≡ err Error.db_error
unfolding create_task create_body insert_task assert_team_in_org get_team_org_id assert_users_in_org
    assert_user_in_org is_user_in_org ◌>>=◌ parse_uuid pure raise lift statement attempt ignore
    transaction select select_one returning write_checked exec enqueue now uuid_printer for_each
refused = refl

submit_task-Submitted_example :
    Submitted "task" "worker" "org" calm server.store
      (submit_task_for_review "task" "worker" "org" calm server).1.store
submit_task-Submitted_example = submit_task-Submitted "task" "worker" "org" calm server submits

run-Within_example : Within "task" "org" calm server.store
run-Within_example = run-Within (submit "task" "worker" "org") calm server submits_call

set_status-StatusSet_example :
    Effect "task" "org"
      (StatusSet "CLOSED" calm)
      calm
      server.store
      (set_status "task" "CLOSED" "org" calm server).1.store
set_status-StatusSet_example = set_status-StatusSet "task" "CLOSED" "org" calm server closes

update_task_details-Edited_example :
    Edited "task" an_edit "org" calm server.store
      (update_task_details "task" an_edit "admin" "org" calm server).1.store
update_task_details-Edited_example =
    update_task_details-Edited "task" an_edit "admin" "org" calm server edits

create_error_unchanged_example :
    (create_task "admin" "team" an_edit "org" stormy server).1.store ≡ server.store
create_error_unchanged_example =
    create_error_unchanged "admin" "team" an_edit "org" stormy server refused

abbrev new_row : Task
new_row = created_row 1004 (5 * day) (task_params 10 7 an_edit)

creates : (create_task "admin" "team" an_edit "org" calm server).0 ≡ ok new_row
unfolding create_task create_body create_rest insert_task assert_team_in_org get_team_org_id
    assert_users_in_org assert_user_in_org is_user_in_org add_participant add_task_participant
    notify_assigned notify_subscribed create_notification create_task_card_notification ◌>>=◌
    parse_uuid pure raise lift statement attempt ignore transaction select select_one returning
    write_checked exec enqueue now uuid_printer for_each
creates = refl

create_task-CreatedBy_example :
    CreatedBy "team" an_edit "org" calm server.store new_row
      (create_task "admin" "team" an_edit "org" calm server).1.store
create_task-CreatedBy_example =
    create_task-CreatedBy "admin" "team" an_edit "org" calm server creates
