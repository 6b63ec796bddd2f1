-- ===== src/Tasks/Keeping.antt =====
-- Statements about the scores that the score service keeps are kept by the transaction of every
-- operation on a task.
use abhiyan.Prelude.{ℕ, String, Bool, true, false, Option, none, some, List, ◌≡◌, subst, arith}
use abhiyan.Schema.{Task, Reminder, EmployeeScore, Store}
use abhiyan.Db.Always.{Always}
use abhiyan.Db.Triples.{
  Keeps, keeps_rules, Keeps-write_checked, Keeps-for_each, Keeps-pure, Triple-exec, Triple-ignore,
}
use abhiyan.Sql.Tasks.{
  approve_task_state, submit_task_state, reject_task_state, reopen_task_state, update_task_status,
  write_status, update_task_fulfillment, update_task_deadline, get_task_by_id,
}
use abhiyan.Sql.Reminders.{
  CreateReminderParams, delete_task_reminders, cancel_task_reminders, insert_reminder,
  create_reminder,
}
use abhiyan.Sql.Orgs.{get_user_name_by_id}
use abhiyan.Sql.Notifications.{create_task_card_notification}
use abhiyan.Sql.Scores.{Candidate, insert_score_event}
use abhiyan.Scores.Record.{record_approval, record_rejection, record_reopen, missed_event}
use abhiyan.Tasks.Submit.{submit_body, review_card}
use abhiyan.Tasks.Approve.{approve_body}
use abhiyan.Tasks.Action.{ActionTaskRequest, action_body, action_state, action_score, is_reject}
use abhiyan.Tasks.Reopen.{reopen_body}
use abhiyan.Tasks.Reminders.{CreateReminderPayload, rebuild_reminders}
use abhiyan.Tasks.Frames.{
  notify-Core, add_task_update-Core, get_title-Core, get_participants-Core, post_note-Core,
}
use abhiyan.Tasks.Lifecycle.{approve_rest-Core}
use abhiyan.Tasks.Actions.{action_rest-Core}

-- A statement about the scores only
abbrev pub On : (List EmployeeScore → Type 0) → Store → Type 0
On S s = S s.employee_scores

-- An invariant of the scores that the score service keeps, inside a transaction and in the poll.
pub record Invariant (S : List EmployeeScore → Type 0) : Type 0 where
  pub approval : (t at : ℕ) → Keeps (On S) (record_approval t at)
  pub rejection : (t : ℕ) → Keeps (On S) (record_rejection t)
  pub reopening : (t : ℕ) → Keeps (On S) (record_reopen t)
  pub missed : (at : ℕ) (c : Candidate) → Always (On S) (insert_score_event (missed_event at c))

inserted_scores :
    (id : ℕ) (p : CreateReminderParams) (s : Store) (u : Unit {0}) (s' : Store)
    → insert_reminder id p s ≡ some (u, s')
    → s.employee_scores ≡ s'.employee_scores
inserted_scores id p s u s' h = ground arith

pub status_written :
    (st : String) (t : ℕ) (s : Store) (u : Unit {0}) (s' : Store)
    → write_status st t s ≡ some (u, s')
    → s.employee_scores ≡ s'.employee_scores
status_written st t s u s' h = ground arith

module _ (S : List EmployeeScore → Type 0) where
  abbrev pub ScoresOnly : List Task → List Reminder → List EmployeeScore → Type 0
  ScoresOnly ts rs scores = S scores

  pub create-scores : (p : CreateReminderParams) → Keeps (On S) (create_reminder p)
  unfolding create_reminder
  create-scores p =
      Keeps-write_checked _
        (λ env t s h u s' eq. subst S (inserted_scores (env.gen_uuid t) p s u s' eq) h)

  pub rebuild-scores :
      (t : ℕ) (ps : List CreateReminderPayload) → Keeps (On S) (rebuild_reminders t ps)
  unfolding rebuild_reminders
  rebuild-scores t ps = Keeps-for_each ps _ (λ r. Triple-ignore _ (create-scores _))

  pub delete-scores : (t : ℕ) → Keeps (On S) (delete_task_reminders t)
  unfolding delete_task_reminders
  delete-scores t = Triple-exec _ (λ env i s h. h)

  status-scores : (st : String) (t : ℕ) → Keeps (On S) (update_task_status st t)
  unfolding update_task_status
  status-scores st t =
      Keeps-write_checked _ (λ env i s h x s' eq. subst S (status_written st t s x s' eq) h)

module _ (S : List EmployeeScore → Type 0) (inv : Invariant S) where
  pub approve-scores : (t o : ℕ) (admin : String) → Keeps (On S) (approve_body t o admin)
  unfolding approve_body approve_task_state
  approve-scores t o admin =
      search (keeps_rules, inv.approval, delete-scores S, approve_rest-Core (ScoresOnly S)) depth 20

  state-scores : (b : Bool) (t : ℕ) (due : Option ℕ) → Keeps (On S) (action_state b t due)
  unfolding reject_task_state reopen_task_state
  state-scores true t due = Triple-exec _ (λ env i s h. h)
  state-scores false t due = Triple-exec _ (λ env i s h. h)

  score-scores : (b : Bool) (t : ℕ) → Keeps (On S) (action_score b t)
  score-scores true t = inv.rejection t
  score-scores false t = inv.reopening t

  pub action-scores :
      (action : String) (t o : ℕ) (user : String) (req : ActionTaskRequest)
      → Keeps (On S) (action_body action t o user req)
  unfolding action_body
  action-scores action t o user req =
      search
        (
          keeps_rules,
          state-scores (is_reject action),
          score-scores (is_reject action),
          post_note-Core (ScoresOnly S),
          delete-scores S,
          rebuild-scores S,
          action_rest-Core (ScoresOnly S) action,
        )
        depth 20

  card-scores :
      (t o : ℕ) (name title : String) (task : Option Task)
      → Keeps (On S) (review_card t o name title task)
  unfolding review_card create_task_card_notification
  card-scores t o name title none = Keeps-pure tt
  card-scores t o name title (some task) = Triple-ignore _ (Triple-exec _ (λ env i s h. h))

  pub submit-scores : (t u o : ℕ) → Keeps (On S) (submit_body t u o)
  unfolding submit_body submit_task_state cancel_task_reminders get_user_name_by_id get_task_by_id
  submit-scores t u o =
      search
        (
          keeps_rules,
          get_title-Core (ScoresOnly S),
          add_task_update-Core (ScoresOnly S),
          card-scores,
        )
        depth 20

  pub reopen-scores :
      (t o : ℕ) (user : String) (req : ActionTaskRequest) → Keeps (On S) (reopen_body t o user req)
  unfolding reopen_body update_task_fulfillment update_task_deadline
  reopen-scores t o user req =
      search
        (
          keeps_rules,
          status-scores S,
          post_note-Core (ScoresOnly S),
          delete-scores S,
          rebuild-scores S,
          get_title-Core (ScoresOnly S),
          get_participants-Core (ScoresOnly S),
          notify-Core (ScoresOnly S),
        )
        depth 24
