-- ===== src/Tests/Runs.antt =====
-- The theorems on the small organization of Tests/Data.antt.
use abhiyan.Sql.Attachments.{get_task_attachments}
use abhiyan.Tasks.Files.{delete_from_s3, delete_gone, diff_attachments}
use abhiyan.Tasks.Reminders.{rebuild_reminders}
use abhiyan.Text.{to_lower, title, trim_space}
use abhiyan.Sql.Notifications.{create_task_card_notification, create_notification}
use abhiyan.Tasks.Notify.{
  notify_assignees_whatsapp, notify_participant, notify_participants_with_card,
}
use abhiyan.Sql.Scores.{supersede_score_events, insert_score_event}
use abhiyan.Sql.Reminders.{reminder_row, create_reminder, delete_task_reminders}
use abhiyan.Tasks.Guards.{assert_task_in_org}
use abhiyan.Scores.Record.{
  reject_assignee, reject_assignees, record_rejection, approve_assignee, approve_assignees,
  record_approval,
}
use abhiyan.Prelude.{ℕ, ◌≤◌, ◌<◌, ◌*◌, ◌⊎◌, List, [], ◌∷◌, ◌≡◌, refl, arith}
use abhiyan.Schema.Enums.{
  reminder_channel_of, recurrence_unit_of, late_completion, on_time_completion,
}
use abhiyan.Db.{
  for_each, uuid_printer, now, enqueue, exec, write_checked, returning, select_one, select,
  transaction, ignore, attempt, statement, lift, raise, pure, parse_uuid, ◌>>=◌, ok, err,
  commit_failed,
}
use abhiyan.Scores.Points.{
  day, calculate_points, calculate_points_bounds, calculate_points_antitone,
}
use abhiyan.Sql.Participants.{
  get_task_assignees_with_context, get_task_assignee_phones, get_task_participants, assignee_rows,
}
use abhiyan.Sql.Tasks.{
  reject_task_state, get_task_by_id, add_task_update, get_task_details_for_notifications,
  get_task_org_id, approve_task_state, approved_row,
}
use abhiyan.Scores.Award.{AllLive, Only}
use abhiyan.Scores.Awarded.{IsAward}
use abhiyan.Scores.Frames.{Rows}
use abhiyan.Scores.Completion.{OneCompletion}
use abhiyan.Tasks.Approve.{approve_rest, approve_body, approve_task}
use abhiyan.Tasks.Action.{
  post_note, action_sent, action_phones, action_rest, action_body, action_task, is_reject,
}
use abhiyan.Tasks.Calls.{approve, act, submit, request, poll, run, history}
use abhiyan.Tasks.Opening.{Effect}
use abhiyan.Tasks.Atomicity.{run_error_unchanged}
use abhiyan.Tasks.Succeeds.{approve_task_succeeds}
use abhiyan.Tasks.Lifecycle.{approve_task-Rows, Are, on_tasks, others}
use abhiyan.Tasks.Actions.{action_task_rows, AfterAction}
use abhiyan.Tasks.Awards.{approve_task_awards, action_task_awards, AfterActionLive}
use abhiyan.Tasks.History.{history-OneCompletion}
use abhiyan.Tests.Data.{calm, stormy, server, tables, a_task, a_request}
use abhiyan.Scores.Ranks.{
  LeaderboardEntry, assign_ranks, competition_rank, assign_ranks-competition,
}
use abhiyan.Scores.Fair.{AllFair}
use abhiyan.Tasks.Calls.{Event}
use abhiyan.Tasks.History.{history-AllFair}
use abhiyan.Prelude.{false, map}

approves : (approve_task "task" "admin" "org" calm server).0 ≡ ok tt
unfolding approve_task approve_body approve_rest approve_task_state record_approval
    approve_assignees approve_assignee calculate_points ◌>>=◌ parse_uuid pure raise lift statement
    attempt ignore transaction select select_one returning write_checked exec enqueue now
    uuid_printer for_each assert_task_in_org get_task_org_id get_task_details_for_notifications
    add_task_update delete_task_reminders get_task_participants get_task_assignee_phones
    get_task_assignees_with_context get_task_by_id insert_score_event supersede_score_events
    notify_participants_with_card notify_participant notify_assignees_whatsapp create_notification
    create_task_card_notification
approves = refl

acts : (action_task "REJECT" "task" "admin" a_request "org" calm server).0 ≡ ok tt
unfolding action_task action_body action_rest action_phones action_sent reject_task_state
    record_rejection reject_assignees reject_assignee post_note trim_space rebuild_reminders
    create_reminder reminder_row recurrence_unit_of reminder_channel_of diff_attachments
    get_task_attachments delete_gone delete_from_s3 title to_lower ◌>>=◌ parse_uuid pure raise lift
    statement attempt ignore transaction select select_one returning write_checked exec enqueue now
    uuid_printer for_each assert_task_in_org get_task_org_id get_task_details_for_notifications
    add_task_update delete_task_reminders get_task_participants get_task_assignee_phones
    get_task_assignees_with_context get_task_by_id insert_score_event supersede_score_events
    notify_participants_with_card notify_participant notify_assignees_whatsapp create_notification
    create_task_card_notification
acts = refl

fails : (run (approve "task" "admin" "org") stormy server).0 ≡ err commit_failed
unfolding run approve_task approve_body approve_rest approve_task_state record_approval
    approve_assignees approve_assignee calculate_points ◌>>=◌ parse_uuid pure raise lift statement
    attempt ignore transaction select select_one returning write_checked exec enqueue now
    uuid_printer for_each assert_task_in_org get_task_org_id get_task_details_for_notifications
    add_task_update delete_task_reminders get_task_participants get_task_assignee_phones
    get_task_assignees_with_context get_task_by_id insert_score_event supersede_score_events
    notify_participants_with_card notify_participant notify_assignees_whatsapp create_notification
    create_task_card_notification
fails = refl

calculate_points_bounds_example :
    let (kind, points) = calculate_points (5 * day) (10 * day) 0 in
    ((10 * day < 5 * day) × (kind ≡ late_completion) × (points ≡ 3))
    ⊎ ((5 * day ≤ 10 * day) × (kind ≡ on_time_completion) × (10 ≤ points) × (points ≤ 15))
calculate_points_bounds_example = calculate_points_bounds (5 * day) (10 * day) 0

-- A fifth of a day is left, 4.8 hours, and earns no bonus: the quotient is just below.
a_fifth : calculate_points 69120000000000 day 0 ≡ (on_time_completion, 10)
unfolding calculate_points
a_fifth = refl

half : calculate_points (5 * day) (10 * day) 0 ≡ (on_time_completion, 12)
unfolding calculate_points
half = refl

calculate_points_antitone_example :
    (calculate_points (11 * day) (10 * day) 0).1 ≤ (calculate_points (5 * day) (10 * day) 0).1
calculate_points_antitone_example =
    calculate_points_antitone (5 * day) (11 * day) (10 * day) 0 (omega arith)

abbrev entry : ℕ → ℕ → LeaderboardEntry
entry user points = record {
  rank = 0;
  user_id = user;
  full_name = "Grace";
  email = "grace@example.org";
  total_points = points;
  on_time_count = 1;
  completed_count = 1;
  is_current_user = false;
}

abbrev board : List LeaderboardEntry
board = entry 8 30 ∷ entry 9 30 ∷ entry 10 12 ∷ []

assign_ranks-competition_example : assign_ranks board ≡ map (competition_rank board) board
assign_ranks-competition_example = assign_ranks-competition board (omega arith, (omega arith, tt))

run_error_unchanged_example :
    (run (approve "task" "admin" "org") stormy server).1.store ≡ server.store
run_error_unchanged_example = run_error_unchanged (approve "task" "admin" "org") stormy server fails

approve_task-Rows_example :
    Effect "task" "org"
      (λ t s s'. Rows (Are (on_tasks t approved_row s.tasks) (others t s.reminders)) s')
      calm
      server.store
      (approve_task "task" "admin" "org" calm server).1.store
approve_task-Rows_example = approve_task-Rows "task" "admin" "org" calm server approves

approve_task_awards_example :
    AllLive
      (Only (IsAward (10 * day) 0))
      1
      (assignee_rows 1 tables)
      (approve_task "task" "admin" "org" calm server).1.store
approve_task_awards_example =
    approve_task_awards "task" "admin" "org" calm server 1 a_task (10 * day) approves refl refl refl

action_task_rows_example :
    Effect "task" "org"
      (AfterAction "REJECT" a_request)
      calm
      server.store
      (action_task "REJECT" "task" "admin" a_request "org" calm server).1.store
action_task_rows_example = action_task_rows "REJECT" "task" "admin" a_request "org" calm server acts

action_task_awards_example :
    AllLive
      (AfterActionLive (is_reject "REJECT") (20 * day))
      1
      (assignee_rows 1 tables)
      (action_task "REJECT" "task" "admin" a_request "org" calm server).1.store
action_task_awards_example =
    action_task_awards "REJECT" "task" "admin" a_request "org" calm server 1 a_task (20 * day) acts
      refl refl refl

abbrev a_history : List Event
a_history =
    request (submit "task" "worker" "org")
    ∷ request (approve "task" "admin" "org")
    ∷ poll
    ∷ request (act "REOPEN" "task" "admin" a_request "org")
    ∷ []

once : OneCompletion tables
once t u = ground arith

history-OneCompletion_example : OneCompletion (history stormy a_history server).store
history-OneCompletion_example = history-OneCompletion stormy a_history server once

history-AllFair_example : AllFair (history stormy a_history server).store.employee_scores
history-AllFair_example = history-AllFair stormy a_history server ((omega arith, omega arith), tt)

approve_task_succeeds_example : (approve_task "task" "admin" "org" calm server).0 ≡ ok tt
approve_task_succeeds_example =
    approve_task_succeeds "task" "admin" "org" calm server 1 100 7 (λ n. refl) refl refl refl refl
      refl
