-- ===== src/Tasks/Editing.antt =====
-- What creating a task and editing its details leave alone, and what they leave of the tasks and
-- the reminders.
use abhiyan.Prelude.{ℕ, String, Bool, Option, none, some, List, ◌≡◌, ap}
use abhiyan.Schema.Enums.{ParticipantRole}
use abhiyan.Schema.{Task, Reminder, EmployeeScore, Store}
use abhiyan.Db.{M}
use abhiyan.Db.Triples.{
  Keeps, keeps_rules, Keeps-pure, Keeps-bind, Keeps-parse_uuid, Triple-attempt, Triple-exec,
  Triple-ignore, Triple-returning,
}
use abhiyan.Db.Committed.{Ensures, Ensures-step, Ensures-Triple}
use abhiyan.Sql.Tasks.{insert_task, update_task_row, detailed_row, CreateTaskParams}
use abhiyan.Sql.Participants.{add_task_participant, delete_task_participants}
use abhiyan.Sql.Notifications.{create_notification, create_task_card_notification}
use abhiyan.Scores.Frames.{Rows}
use abhiyan.Tasks.Create.{
  TaskRequest, with_parsed, null_string, add_participant, notify_assigned, notify_subscribed,
  create_rest, create_body,
}
use abhiyan.Tasks.Update.{
  update_assignee, update_subscriber, update_participants, update_rest, update_body,
}
use abhiyan.Tasks.Frames.{
  Core, get_participants-Core, diff_attachments-Core, insert_attachment-Core,
}
use abhiyan.Tasks.Keeping.{On, ScoresOnly, create-scores, rebuild-scores, delete-scores}
use abhiyan.Tasks.Lifecycle.{Are, others, on_tasks, deleted}
use abhiyan.Tasks.Rebuild.{Rebuilt, rebuild-Rebuilt}

pub parsed-Keeps :
    (P : Store → Type 0) (body : ℕ → M (Unit {0})) (o : Option ℕ)
    → ((u : ℕ) → Keeps P (body u))
    → Keeps P (with_parsed body o)
parsed-Keeps P body none q = Keeps-pure tt
parsed-Keeps P body (some u) q = q u

module _ (R : List Task → List Reminder → List EmployeeScore → Type 0) where
  pub add_participant-Core :
      (t : ℕ) (r : ParticipantRole) (text : String) → Keeps (Core R) (add_participant t r text)
  unfolding add_participant add_task_participant
  add_participant-Core t r text = search keeps_rules

  pub assigned-Core :
      (t o : ℕ) (name text : String) → Keeps (Core R) (notify_assigned t o name text)
  unfolding notify_assigned create_task_card_notification
  assigned-Core t o name text =
      Keeps-bind _ _ (Triple-attempt _ (Keeps-parse_uuid text))
        (λ user. parsed-Keeps (Core R) _ user (λ u. search keeps_rules))

  pub subscribed-Core :
      (o : ℕ) (name text : String) → Keeps (Core R) (notify_subscribed o name text)
  unfolding notify_subscribed create_notification
  subscribed-Core o name text =
      Keeps-bind _ _ (Triple-attempt _ (Keeps-parse_uuid text))
        (λ user. parsed-Keeps (Core R) _ user (λ u. search keeps_rules))

  update_assignee-Core :
      (t o : ℕ) (name : String) (known : String → Bool) (text : String)
      → Keeps (Core R) (update_assignee t o name known text)
  unfolding update_assignee create_task_card_notification add_task_participant
  update_assignee-Core t o name known text =
      Keeps-bind _ _ (Triple-attempt _ (Keeps-parse_uuid text))
        (λ user. parsed-Keeps (Core R) _ user (λ u. search keeps_rules))

  update_subscriber-Core :
      (t o : ℕ) (name : String) (known : String → Bool) (text : String)
      → Keeps (Core R) (update_subscriber t o name known text)
  unfolding update_subscriber create_notification add_task_participant
  update_subscriber-Core t o name known text =
      Keeps-bind _ _ (Triple-attempt _ (Keeps-parse_uuid text))
        (λ user. parsed-Keeps (Core R) _ user (λ u. search keeps_rules))

  update_participants-Core :
      (t o : ℕ) (req : TaskRequest) → Keeps (Core R) (update_participants t o req)
  unfolding update_participants delete_task_participants
  update_participants-Core t o req =
      search
        (keeps_rules, get_participants-Core R, update_assignee-Core t o, update_subscriber-Core t o)
        depth 16

  update_rest-Core :
      (t : ℕ) (user : String) (req : TaskRequest) → Keeps (Core R) (update_rest t user req)
  unfolding update_rest
  update_rest-Core t user req = search (keeps_rules, diff_attachments-Core R)

module _ (S : List EmployeeScore → Type 0) where
  pub edit-scores :
      (t o : ℕ) (user : String) (req : TaskRequest) → Keeps (On S) (update_body t o user req)
  unfolding update_body update_task_row
  edit-scores t o user req =
      search
        (
          keeps_rules,
          update_participants-Core (ScoresOnly S),
          delete-scores S,
          rebuild-scores S,
          update_rest-Core (ScoresOnly S),
        )
        depth 16

  insert_task-scores : (p : CreateTaskParams) → Keeps (On S) (insert_task p)
  unfolding insert_task
  insert_task-scores p = Triple-returning _ (λ env t s h. h)

  create_rest-scores :
      (task : Task) (o a : ℕ) (req : TaskRequest) → Keeps (On S) (create_rest task o a req)
  unfolding create_rest
  create_rest-scores task o a req =
      search
        (
          keeps_rules,
          assigned-Core (ScoresOnly S),
          subscribed-Core (ScoresOnly S),
          create-scores S,
          insert_attachment-Core (ScoresOnly S),
        )
        depth 16

  pub create_body-scores :
      (admin : String) (team o : ℕ) (req : TaskRequest)
      → Keeps (On S) (create_body admin team o req)
  unfolding create_body
  create_body-scores admin team o req =
      search
        (keeps_rules, insert_task-scores, add_participant-Core (ScoresOnly S), create_rest-scores)
        depth 16

-- What an edit leaves of the tasks and the reminders
abbrev pub AfterEdit : TaskRequest → ℕ → Store → Store → Type 0
AfterEdit req t before = Rows (
    Rebuilt
      (on_tasks t (detailed_row req.title (null_string req.description) req.due_date) before.tasks)
      (others t before.reminders) t req.reminders)

pub update_body-Rows :
    (t o : ℕ) (user : String) (req : TaskRequest) (s0 : Store)
    → Ensures (λ s. s ≡ s0) (update_body t o user req) (λ _. AfterEdit req t s0)
unfolding update_body update_task_row
update_body-Rows t o user req s0 =
    let row = detailed_row req.title (null_string req.description) req.due_date in
    let ts = on_tasks t row s0.tasks in
    let kept = others t s0.reminders in
    let R : List Task → List Reminder → List EmployeeScore → Type 0 =
      λ x y z. Are ts s0.reminders x y in
    let R' : List Task → List Reminder → List EmployeeScore → Type 0 =
      λ x y z. Rebuilt ts kept t req.reminders x y in
    Ensures-step _ _
      (Triple-exec {Q = Rows (Are ts s0.reminders)} _
        (λ env i s h. (ap (λ z. on_tasks t row z.tasks) h, ap (λ z. z.reminders) h)))
      (λ _. Ensures-step _ _ (update_participants-Core R t o req) (λ _.
        Ensures-step _ _ (Triple-ignore _ (deleted ts t s0.reminders)) (λ _.
          Ensures-step _ _ (rebuild-Rebuilt ts kept t req.reminders)
            (λ _. Ensures-Triple _ (update_rest-Core R' t user req)))))
