-- ===== src/Tasks/Lifecycle.antt =====
-- What a successful submission, approval, rejection or reopening does to the tasks and the
-- reminders: exactly the rows of the task it names, and nothing else.
use abhiyan.Prelude.{ℕ, String, not, List, ◌≡◌, ap, ◌==◌, filter, update_where}
use abhiyan.Schema.{Task, Reminder, EmployeeScore, Store}
use abhiyan.Db.{Env, Db, ok}
use abhiyan.Db.Triples.{
  Keeps, Triple-exec, Triple-ignore, Keeps-parse_uuid, Keeps-now, Triple, keeps_rules,
}
use abhiyan.Db.Committed.{Ensures, Ensures-Triple, Ensures-step}
use abhiyan.Sql.Tasks.{approved_row, approve_task_state}
use abhiyan.Sql.Reminders.{delete_task_reminders}
use abhiyan.Scores.Frames.{Rows, record_approval-Rows}
use abhiyan.Tasks.Approve.{approve_rest, approve_body, approve_task}
use abhiyan.Tasks.Frames.{
  Core, notify-Core, add_task_update-Core, get_title-Core, get_participants-Core, get_phones-Core,
}
use abhiyan.Tasks.Opening.{Effect, opened_committed}
use abhiyan.Tasks.Atomicity.{notify_whatsapp-Total}

-- The reminders of the other tasks
abbrev pub others : ℕ → List Reminder → List Reminder
others t = filter (λ r. not (r.task_id == t))

-- The tasks and the reminders are these.
abbrev pub Are : List Task → List Reminder → List Task → List Reminder → Type 0
Are ts rs tasks reminders = (tasks ≡ ts) × (reminders ≡ rs)

abbrev pub on_tasks : ℕ → (Task → Task) → List Task → List Task
on_tasks t = update_where (λ r. r.id == t)

pub approve_rest-Core :
    (R : List Task → List Reminder → List EmployeeScore → Type 0) (t o a : ℕ)
    → Keeps (Core R) (approve_rest t o a)
unfolding approve_rest
approve_rest-Core R t o a =
    search
      (
        keeps_rules,
        add_task_update-Core R,
        get_title-Core R,
        get_participants-Core R,
        notify-Core R,
        get_phones-Core R,
      )
      depth 16

-- The same, of a store whose scores are left out of account
abbrev TwoTables :
    List Task → List Reminder → List Task → List Reminder → List EmployeeScore → Type 0
TwoTables ts rs tasks reminders scores = Are ts rs tasks reminders

pub deleted :
    (ts : List Task) (t : ℕ) (rs : List Reminder)
    → Triple (Rows (Are ts rs)) (delete_task_reminders t) (Rows (Are ts (others t rs)))
unfolding delete_task_reminders
deleted ts t rs = Triple-exec _ (λ env i s h. (h.0, ap (others t) h.1))

approve_body-Rows :
    (t o : ℕ) (admin : String) (s0 : Store)
    → Ensures
        (λ s. s ≡ s0)
        (approve_body t o admin)
        (λ _. Rows (Are (on_tasks t approved_row s0.tasks) (others t s0.reminders)))
unfolding approve_body approve_task_state delete_task_reminders
approve_body-Rows t o admin s0 =
    let ts = on_tasks t approved_row s0.tasks in
    Ensures-step _ _ (Keeps-parse_uuid admin) (λ a.
      Ensures-step _ _
        (Triple-exec {Q = Rows (Are ts s0.reminders)} _
          (λ env i s h. (ap (λ z. on_tasks t approved_row z.tasks) h, ap (λ z. z.reminders) h)))
        (λ _. Ensures-step _ _ Keeps-now (λ at.
          Ensures-step _ _ (Triple-ignore _ (record_approval-Rows _ t at)) (λ _.
            Ensures-step _ _ (Triple-ignore _ (deleted ts t s0.reminders)) (λ _.
              Ensures-Triple _ (approve_rest-Core (TwoTables ts (others t s0.reminders)) t o a))))))

-- An approval that succeeds closes and approves the task it names, which is one of the caller's
-- organization, deletes the task's reminders, and changes no other task and no other reminder. It
-- does so from any status and review status, and leaves the fulfillment status as it was.
pub approve_task-Rows :
    (task admin caller : String) (env : Env) (db : Db) {x : Unit {0}}
    → (approve_task task admin caller env db).0 ≡ ok x
    → Effect task caller
        (λ t s s'. Rows (Are (on_tasks t approved_row s.tasks) (others t s.reminders)) s')
        env
        db.store
        (approve_task task admin caller env db).1.store
unfolding approve_task
approve_task-Rows task admin caller env db h =
    opened_committed task caller _ (λ t o. approve_body t o admin) _
      (λ t o. approve_body-Rows t o admin) (λ sent. notify_whatsapp-Total sent.0 sent.1 _) env db h
